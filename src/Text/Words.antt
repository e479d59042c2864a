-- ===== src/Text/Words.antt =====
-- The words of a text: what trimming, joining and cutting into lines do to them.
use mathlib.Core.List.{append_assoc, append-nil}
use mathlib.Core.Path.{subst}
use parcus.Prelude.{
  ℕ, Bool, true, false, List, [], ◌∷◌, ◌++◌, ◌≡◌, refl, ap, sym, ◌∙◌, inl, inr, Bool-cases, All,
  concat_map, keep_if,
}
use parcus.Text.{Text, blank, is_space, flush, scan_words, words, join, rstrip, trim_step}

-- A word: not empty, and free of white space.
abbrev pub NoSpace : Text → Type 0
NoSpace [] = Unit
NoSpace (c ∷ s) = (is_space c ≡ false) × NoSpace s

abbrev pub IsWord : Text → Type 0
IsWord [] = ⊥
IsWord (c ∷ s) = (is_space c ≡ false) × NoSpace s

NoSpace-append : (w s : Text) → NoSpace w → NoSpace s → NoSpace (w ++ s)
NoSpace-append [] s h k = k
NoSpace-append (c ∷ w) s h k = (h.0, NoSpace-append w s h.1 k)

pub All-flush : (w : Text) (ws : List Text) → NoSpace w → All IsWord ws → All IsWord (flush w ws)
All-flush [] ws h k = k
All-flush (c ∷ w) ws h k = (h, k)

pub scan_words-space :
    (w s : Text) (c : ℕ) → is_space c ≡ true → scan_words w (c ∷ s) ≡ flush w (scan_words [] s)
unfolding scan_words
scan_words-space w s c h = rw (h, scan_words)

pub scan_words-other :
    (w s : Text) (c : ℕ) → is_space c ≡ false → scan_words w (c ∷ s) ≡ scan_words (w ++ c ∷ []) s
unfolding scan_words
scan_words-other w s c h = rw (h, scan_words)

scan_words-nil : (w : Text) → scan_words w [] ≡ flush w []
unfolding scan_words
scan_words-nil w = refl

All-scan_words : (w s : Text) → NoSpace w → All IsWord (scan_words w s)
All-scan_words w [] h = rw (scan_words-nil, All) (All-flush w [] h tt)
All-scan_words w (c ∷ s) h = elim (Bool-cases (is_space c)) [
  | inl e ↦
      subst (All IsWord) (sym (scan_words-space w s c e)) (All-flush w _ h (All-scan_words [] s tt))
  | inr e ↦
      subst (All IsWord) (sym (scan_words-other w s c e))
        (All-scan_words (w ++ c ∷ []) s (NoSpace-append w _ h (e, tt)))
]

pub All-words : (s : Text) → All IsWord (words s)
unfolding words
All-words s = All-scan_words [] s tt

flush-append : (w : Text) (xs ys : List Text) → flush w xs ++ ys ≡ flush w (xs ++ ys)
flush-append [] xs ys = refl
flush-append (c ∷ w) xs ys = refl

-- White space ends a word.
scan_words-append_space :
    (w a b : Text) (c : ℕ)
    → is_space c ≡ true
    → scan_words w (a ++ c ∷ b) ≡ scan_words w a ++ words b
unfolding words
scan_words-append_space w [] b c h =
    rw (scan_words-space w b c h, scan_words-nil w) (sym (flush-append w [] (scan_words [] b)))
scan_words-append_space w (x ∷ a) b c h = elim (Bool-cases (is_space x)) [
  | inl e ↦
      rw (scan_words-space w (a ++ c ∷ b) x e, scan_words-space w a x e)
        (ap (flush w) (scan_words-append_space [] a b c h)
          ∙ sym (flush-append w (scan_words [] a) _))
  | inr e ↦
      rw (scan_words-other w (a ++ c ∷ b) x e, scan_words-other w a x e)
        (scan_words-append_space (w ++ x ∷ []) a b c h)
]

pub words-append_space :
    (a b : Text) (c : ℕ) → is_space c ≡ true → words (a ++ c ∷ b) ≡ words a ++ words b
unfolding words
words-append_space = scan_words-append_space []

scan_words-NoSpace : (w s : Text) → NoSpace s → scan_words w s ≡ flush (w ++ s) []
scan_words-NoSpace w [] h = rw append-nil (scan_words-nil w)
scan_words-NoSpace w (c ∷ s) h =
    scan_words-other w s c h.0
    ∙ scan_words-NoSpace (w ++ c ∷ []) s h.1
    ∙ ap (λ t. flush t []) (append_assoc w (c ∷ []) s)

pub words-word : (w : Text) → IsWord w → words w ≡ w ∷ []
unfolding words
words-word [] h = absurd h
words-word (c ∷ w) h = scan_words-NoSpace [] (c ∷ w) h

-- Cutting at a separator of white space and joining again keep the words of each piece.
pub words-join :
    (sep : ℕ) (ls : List Text)
    → is_space sep ≡ true
    → words (join (sep ∷ []) ls) ≡ concat_map words ls
unfolding join
words-join sep [] h = unfold words scan_words in refl
words-join sep (l ∷ []) h = sym (append-nil (words l))
words-join sep (l ∷ m ∷ ls) h =
    words-append_space l (join (sep ∷ []) (m ∷ ls)) sep h
    ∙ ap (λ t. words l ++ t) (words-join sep (m ∷ ls) h)

pub concat_map-words : (ws : List Text) → All IsWord ws → concat_map words ws ≡ ws
concat_map-words [] h = refl
concat_map-words (w ∷ ws) h = rw (words-word w h.0, concat_map-words ws h.1)

-- Joining words by a blank and reading them again gives the words.
pub words-join-words : (ws : List Text) → All IsWord ws → words (join (blank ∷ []) ws) ≡ ws
unfolding is_space
words-join-words ws h = words-join blank ws refl ∙ concat_map-words ws h

pub All-keep_if : (p : Text → Bool) (ws : List Text) → All IsWord ws → All IsWord (keep_if p ws)
All-keep_if p [] h = h
All-keep_if p (w ∷ ws) h = elim (Bool-cases (p w)) [
  | inl e ↦ rw e (h.0, All-keep_if p ws h.1)
  | inr e ↦ rw e (All-keep_if p ws h.1)
]

pub words-join-keep_if :
    (p : Text → Bool) (s : Text)
    → words (join (blank ∷ []) (keep_if p (words s))) ≡ keep_if p (words s)
words-join-keep_if p s = words-join-words _ (All-keep_if p (words s) (All-words s))

-- Trailing white space holds no word.
scan_words-trim_step :
    (w : Text) (c : ℕ) (r : Text) → scan_words w (trim_step c r) ≡ scan_words w (c ∷ r)
scan_words-trim_step w c [] = elim (Bool-cases (is_space c)) [
  | inl e ↦
      rw e (scan_words-nil w ∙ sym (scan_words-space w [] c e ∙ ap (flush w) (scan_words-nil [])))
  | inr e ↦ rw e refl
]
scan_words-trim_step w c (d ∷ r) = refl

-- A text may be replaced by one with the same words behind a character.
pub scan_words-cons :
    (w : Text) (c : ℕ) (r s : Text)
    → ((v : Text) → scan_words v r ≡ scan_words v s)
    → scan_words w (c ∷ r) ≡ scan_words w (c ∷ s)
scan_words-cons w c r s h = elim (Bool-cases (is_space c)) [
  | inl e ↦ rw (scan_words-space w r c e, scan_words-space w s c e) (ap (flush w) (h []))
  | inr e ↦ rw (scan_words-other w r c e, scan_words-other w s c e) (h (w ++ c ∷ []))
]

scan_words-rstrip : (s w : Text) → scan_words w (rstrip s) ≡ scan_words w s
unfolding rstrip
scan_words-rstrip [] w = refl
scan_words-rstrip (c ∷ s) w =
    scan_words-trim_step w c (rstrip s) ∙ scan_words-cons w c (rstrip s) s (scan_words-rstrip s)

pub words-rstrip : (s : Text) → words (rstrip s) ≡ words s
unfolding words
words-rstrip s = scan_words-rstrip s []
