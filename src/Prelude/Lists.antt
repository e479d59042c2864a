-- ===== src/Prelude/Lists.antt =====
-- Lists measured by native numbers, under the library's names, and the lemmas that the
-- components share.
use Prim.Native.Nat.{ℕ, zero, suc, ◌+◌}
use mathlib.Core.Bool.{Bool, true, false}
use mathlib.Core.List.{List, [], ◌∷◌, ◌++◌}
use mathlib.Core.Path.{◌≡◌, refl}
use native.Mathlib.Omega.{arith}
use parcus.Prelude.Tests.{if◌then◌else◌}

module _ {ℓ} {A : Type ℓ} where
  abbrev pub length : List A → ℕ
  length [] = 0
  length (x ∷ xs) = suc (length xs)

  abbrev pub is_empty : List A → Bool
  is_empty [] = true
  is_empty (x ∷ xs) = false

  abbrev pub take : ℕ → List A → List A
  take zero xs = []
  take (suc n) [] = []
  take (suc n) (x ∷ xs) = x ∷ take n xs

  abbrev pub drop : ℕ → List A → List A
  drop zero xs = xs
  drop (suc n) [] = []
  drop (suc n) (x ∷ xs) = drop n xs

  abbrev pub keep_if : (A → Bool) → List A → List A
  keep_if p [] = []
  keep_if p (x ∷ xs) = let rest = keep_if p xs in if p x then x ∷ rest else rest

  abbrev pub All {κ} : (A → Type κ) → List A → Type κ
  All P [] = Unit
  All P (x ∷ xs) = P x × All P xs

  pub All-map {κ μ} :
      {P : A → Type κ} {Q : A → Type μ}
      → ((x : A) → P x → Q x)
      → (xs : List A) → All P xs
      → All Q xs
  All-map f [] h = tt
  All-map f (x ∷ xs) (p, h) = (f x p, All-map f xs h)

  pub All-append {κ} : (P : A → Type κ) (xs ys : List A) → All P xs → All P ys → All P (xs ++ ys)
  All-append P [] ys h g = g
  All-append P (x ∷ xs) ys (p, h) g = (p, All-append P xs ys h g)

  pub length-append : (xs ys : List A) → length (xs ++ ys) ≡ length xs + length ys
  length-append [] ys = omega arith
  length-append (x ∷ xs) ys = omega (arith, length-append xs ys)

  pub keep_if-append :
      (p : A → Bool) (xs ys : List A) → keep_if p (xs ++ ys) ≡ keep_if p xs ++ keep_if p ys
  keep_if-append p [] ys = refl
  keep_if-append p (x ∷ xs) ys = ground (arith, keep_if-append p xs ys)

  pub append_cancel : (p s t : List A) → p ++ s ≡ p ++ t → s ≡ t
  append_cancel [] s t h = h
  append_cancel (c ∷ p) s t h = append_cancel p s t (cc h)

  -- Prefixes of one length are equal if the whole lists are.
  pub append_prefix : (p q s t : List A) → length p ≡ length q → p ++ s ≡ q ++ t → p ≡ q
  append_prefix [] [] s t h e = refl
  append_prefix [] (d ∷ q) s t h e = absurd (omega arith)
  append_prefix (c ∷ p) [] s t h e = absurd (omega arith)
  append_prefix (c ∷ p) (d ∷ q) s t h e =
      let same : c ≡ d = cc e in
      let rest : p ≡ q = append_prefix p q s t (omega arith) (cc e) in rw (same, rest)

module _ {ℓ κ} {A : Type ℓ} {B : Type κ} where
  abbrev pub concat_map : (A → List B) → List A → List B
  concat_map f [] = []
  concat_map f (x ∷ xs) = f x ++ concat_map f xs

  -- A loop over `xs` that updates `y`.
  abbrev pub fold : (A → B → B) → List A → B → B
  fold f [] y = y
  fold f (x ∷ xs) y = fold f xs (f x y)

  pub fold-append :
      (f : A → B → B) (xs ys : List A) (y : B) → fold f (xs ++ ys) y ≡ fold f ys (fold f xs y)
  fold-append f [] ys y = refl
  fold-append f (x ∷ xs) ys y = fold-append f xs ys (f x y)
