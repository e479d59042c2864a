-- ===== src/Memory/Terms/Worded.antt =====
-- memory/terms.py: the terms of a text are words.
use parcus.Prelude.{
  ℕ, ◌≡◌, true, false, not, ◌&&◌, List, [], ◌∷◌, All, length, leb, contains, arith, Bool-cases, inl,
  inr, nat_eq, list_eq,
}
use parcus.Text.{Text, is_space}
use parcus.Text.Words.{NoSpace, IsWord, All-flush, All-keep_if}
use parcus.Memory.Terms.{is_word, tokens_from, find_tokens, distinct, extract_terms, stopwords}

is_space-is_word : (c : ℕ) → is_word c ≡ true → is_space c ≡ false
unfolding is_space
is_space-is_word c h = ground arith

tokens_from-IsWord : (s : Text) → NoSpace (tokens_from s).0 × All IsWord (tokens_from s).1
unfolding tokens_from
tokens_from-IsWord [] = (tt, tt)
tokens_from-IsWord (c ∷ s) =
    let (token, tokens) = tokens_from-IsWord s in
    elim (Bool-cases (is_word c)) [
      | inl e ↦ rw e ((is_space-is_word c e, token), tokens)
      | inr e ↦ rw e (tt, All-flush (tokens_from s).0 (tokens_from s).1 token tokens)
    ]

distinct-IsWord : (ts : List Text) → All IsWord ts → All IsWord (distinct ts)
unfolding distinct
distinct-IsWord [] h = h
distinct-IsWord (t ∷ ts) (w, h) = elim (Bool-cases (contains t (distinct ts))) [
  | inl e ↦ rw (e, distinct) (distinct-IsWord ts h)
  | inr e ↦ rw (e, distinct) (w, distinct-IsWord ts h)
]

pub extract_terms-IsWord :
    (lower : Text → Text) (text : Text) → All IsWord (extract_terms lower text)
unfolding extract_terms find_tokens
extract_terms-IsWord lower text =
    let (token, tokens) = tokens_from-IsWord (lower text) in
    distinct-IsWord _ (
      All-keep_if (λ t. leb 3 (length t) && not (contains t stopwords)) (find_tokens (lower text))
        (All-flush (tokens_from (lower text)).0 (tokens_from (lower text)).1 token tokens))
