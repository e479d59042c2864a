-- ===== src/Tokens/Bounds.antt =====
-- tokenize.py: what the counters promise.
use parcus.Prelude.{◌≡◌, ◌↔◌, refl, false, none, [], ◌∷◌, is_empty, arith}
use parcus.Text.{Text}
use parcus.Json.{Value, null, bool, num, str, arr, obj}
use parcus.Tokens.{Tiktoken, is_hashable, encoding, count}

-- The counter fails on one kind of call only: a text that is not empty, for a model that is a list or
-- a dict.
pub count-none :
    {E : Type 0} (tiktoken : Tiktoken E) (t : Text) (model : Value)
    → (count tiktoken t model ≡ none) ↔ ((is_empty t ≡ false) × (is_hashable model ≡ false))
unfolding count encoding
count-none tiktoken [] model = (λ h. absurd (ground arith), λ h. absurd (ground arith))
count-none tiktoken (c ∷ t) (arr xs) = (λ h. (refl, refl), λ h. refl)
count-none tiktoken (c ∷ t) (obj fs) = (λ h. (refl, refl), λ h. refl)
count-none tiktoken (c ∷ t) null = (λ h. absurd (ground arith), λ h. absurd (ground arith))
count-none tiktoken (c ∷ t) (bool b) = (λ h. absurd (ground arith), λ h. absurd (ground arith))
count-none tiktoken (c ∷ t) (num b p) = (λ h. absurd (ground arith), λ h. absurd (ground arith))
count-none tiktoken (c ∷ t) (str p) = (λ h. absurd (ground arith), λ h. absurd (ground arith))
