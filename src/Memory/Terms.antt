-- ===== src/Memory/Terms.antt =====
-- memory/terms.py: the terms of a text. `str.lower` is a parameter; a set is a list without repeats.
pub mod Worded
use parcus.Prelude.{
  ℕ, Bool, not, ◌&&◌, ◌||◌, List, [], ◌∷◌, length, leb, contains, keep_if, nat_eq, list_eq, ◌==◌,
  if◌then◌else◌,
}
use parcus.Text.{Text, codes, flush}

abbrev pub stopwords : List Text
stopwords =
    codes "the"
    ∷ codes "and"
    ∷ codes "for"
    ∷ codes "are"
    ∷ codes "but"
    ∷ codes "not"
    ∷ codes "you"
    ∷ codes "all"
    ∷ codes "any"
    ∷ codes "can"
    ∷ codes "had"
    ∷ codes "her"
    ∷ codes "was"
    ∷ codes "one"
    ∷ codes "our"
    ∷ codes "out"
    ∷ codes "has"
    ∷ codes "him"
    ∷ codes "his"
    ∷ codes "how"
    ∷ codes "its"
    ∷ codes "may"
    ∷ codes "new"
    ∷ codes "now"
    ∷ codes "old"
    ∷ codes "see"
    ∷ codes "two"
    ∷ codes "who"
    ∷ codes "did"
    ∷ codes "yes"
    ∷ codes "this"
    ∷ codes "that"
    ∷ codes "with"
    ∷ codes "from"
    ∷ codes "they"
    ∷ codes "have"
    ∷ codes "your"
    ∷ codes "will"
    ∷ codes "what"
    ∷ codes "when"
    ∷ codes "into"
    ∷ codes "than"
    ∷ codes "then"
    ∷ codes "them"
    ∷ codes "some"
    ∷ codes "such"
    ∷ codes "only"
    ∷ codes "also"
    ∷ codes "been"
    ∷ codes "were"
    ∷ codes "would"
    ∷ codes "could"
    ∷ codes "should"
    ∷ codes "about"
    ∷ codes "there"
    ∷ codes "their"
    ∷ codes "which"
    ∷ codes "while"
    ∷ codes "these"
    ∷ codes "those"
    ∷ []

-- The class `[a-z0-9_]`.
abbrev pub is_word : ℕ → Bool
is_word c = leb 97 c && leb c 122 || leb 48 c && leb c 57 || c == 95

-- The token that the text begins with, and those behind it.
unfoldable pub tokens_from : Text → Text × List Text
tokens_from [] = ([], [])
tokens_from (c ∷ s) =
    let (token, tokens) = tokens_from s in
    if is_word c then (c ∷ token, tokens) else ([], flush token tokens)

-- `_TOKEN.findall`
unfoldable pub find_tokens : Text → List Text
unfolding tokens_from
find_tokens s = let (token, tokens) = tokens_from s in flush token tokens

unfoldable pub distinct : List Text → List Text
distinct [] = []
distinct (t ∷ ts) = let rest = distinct ts in if contains t rest then rest else t ∷ rest

unfoldable pub extract_terms : (Text → Text) → Text → List Text
unfolding find_tokens distinct
extract_terms lower text =
    distinct
      (keep_if (λ t. leb 3 (length t) && not (contains t stopwords)) (find_tokens (lower text)))
