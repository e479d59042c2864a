-- ===== src/Compress/Lossless/Words.antt =====
-- Normalising keeps the words of a text, and never lengthens it.
use mathlib.Core.List.{append-nil}
use parcus.Prelude.{
  ℕ, suc, ◌≤◌, true, none, List, [], ◌∷◌, map, ◌≡◌, refl, ap, sym, ◌∙◌, ◌&&◌, inl, inr, length,
  arith, Bool-cases, ◌==◌, nat_eq, concat_map, beq_refl, list_eq,
}
use parcus.Text.{Text, newline, is_space, flush, scan_words, words, split_on, join, rstrip}
use parcus.Text.Words.{scan_words-cons, scan_words-space, words-rstrip, words-join}
use parcus.Text.Lines.{join-split_on, length-rstrip-le, length-join-map-le}
use parcus.Invariants.{word_sequence_equal}
use parcus.Spans.{next_fence}
use parcus.Spans.Cover.{classify_spans_plain}
use parcus.Compress.Lossless.{squeeze, collapse, normalise_whitespace, normalise_code_aware}

newline-is_space : is_space newline ≡ true
unfolding is_space
newline-is_space = refl

-- Two newlines hold no word, and three no more.
scan_words-newlines :
    (w s : Text)
    → scan_words w (newline ∷ newline ∷ s) ≡ scan_words w (newline ∷ newline ∷ newline ∷ s)
scan_words-newlines w s =
    scan_words-space w (newline ∷ s) newline newline-is_space
    ∙ ap (flush w) (sym (scan_words-space [] (newline ∷ s) newline newline-is_space))
    ∙ sym (scan_words-space w (newline ∷ newline ∷ s) newline newline-is_space)

scan_words-squeeze :
    (w : Text) (c : ℕ) (s : Text) → scan_words w (squeeze c s) ≡ scan_words w (c ∷ s)
scan_words-squeeze w c [] = refl
scan_words-squeeze w c (d ∷ []) = refl
scan_words-squeeze w c (d ∷ e ∷ s) =
    elim (Bool-cases (c == newline && d == newline && e == newline)) [
      | inl h ↦
          let cn : c ≡ newline = ground arith in
          let dn : d ≡ newline = ground arith in
          let en : e ≡ newline = ground arith in rw h (rw (cn, dn, en) (scan_words-newlines w s))
      | inr h ↦ rw h refl
    ]

scan_words-collapse : (s w : Text) → scan_words w (collapse s) ≡ scan_words w s
unfolding collapse
scan_words-collapse [] w = refl
scan_words-collapse (c ∷ s) w =
    scan_words-squeeze w c (collapse s) ∙ scan_words-cons w c (collapse s) s (scan_words-collapse s)

words-collapse : (s : Text) → words (collapse s) ≡ words s
unfolding words
words-collapse s = scan_words-collapse s []

concat_map-words-rstrip : (ls : List Text) → concat_map words (map rstrip ls) ≡ concat_map words ls
concat_map-words-rstrip [] = refl
concat_map-words-rstrip (l ∷ ls) = rw (words-rstrip l, concat_map-words-rstrip ls)

pub words-normalise_whitespace : (t : Text) → words (normalise_whitespace t) ≡ words t
unfolding normalise_whitespace
words-normalise_whitespace t =
    words-collapse _
    ∙ words-join newline (map rstrip (split_on newline t)) newline-is_space
    ∙ concat_map-words-rstrip (split_on newline t)
    ∙ sym (words-join newline (split_on newline t) newline-is_space)
    ∙ ap words (join-split_on newline t)

length-squeeze-le : (c : ℕ) (s : Text) → length (squeeze c s) ≤ suc (length s)
length-squeeze-le c [] = omega arith
length-squeeze-le c (d ∷ []) = omega arith
length-squeeze-le c (d ∷ e ∷ s) = ground arith

length-collapse-le : (s : Text) → length (collapse s) ≤ length s
unfolding collapse
length-collapse-le [] = omega arith
length-collapse-le (c ∷ s) = omega (arith, length-squeeze-le c (collapse s), length-collapse-le s)

-- Normalising the whitespace of a text never makes it longer.
pub length-normalise_whitespace-le : (t : Text) → length (normalise_whitespace t) ≤ length t
unfolding normalise_whitespace
length-normalise_whitespace-le t = omega (
  arith,
  length-collapse-le (join (newline ∷ []) (map rstrip (split_on newline t))),
  length-join-map-le (newline ∷ []) rstrip length-rstrip-le (split_on newline t),
  ap length (join-split_on newline t),
)

pub word_sequence_equal_refl : (t : Text) → word_sequence_equal t t ≡ true
unfolding word_sequence_equal
word_sequence_equal_refl t = beq_refl (words t)

-- Normalising the whitespace of any text leaves its sequence of words as it was.
pub word_sequence_equal-normalise_whitespace :
    (t : Text) → word_sequence_equal t (normalise_whitespace t) ≡ true
unfolding word_sequence_equal
word_sequence_equal-normalise_whitespace t = rw words-normalise_whitespace (beq_refl (words t))

-- Without a fenced block the whole text is prose.
pub normalise_code_aware_plain :
    (t : Text) → next_fence t ≡ none → normalise_code_aware t ≡ normalise_whitespace t
unfolding normalise_code_aware
normalise_code_aware_plain t h = rw (classify_spans_plain t h) (append-nil (normalise_whitespace t))
