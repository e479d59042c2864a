-- ===== src/Text.antt =====
-- Python's `str`, as the list of its code points, with the methods that the program calls:
-- `split()`, `split(sep)`, `join`, `rstrip()`, `strip(chars)`, `find` and `endswith`.
pub mod Decimal
pub mod Lines
pub mod Words
pub mod Sets
use Prim.Native.Char.{code}
use Prim.Native.String.{String}
use parcus.Prelude.{
  ℕ, Bool, true, false, ◌&&◌, ◌||◌, Option, none, some, List, [], ◌∷◌, ◌++◌, leb, is_empty,
  contains, ◌==◌, nat_eq, if◌then◌else◌,
}
use mathlib.Core.Option

abbrev pub Text : Type 0
Text = List ℕ

-- A literal of the source.
abbrev pub codes : String → Text
codes String.[] = []
codes (String.◌∷◌ c s) = code c ∷ codes s

abbrev pub newline : ℕ
newline = 10

abbrev pub blank : ℕ
blank = 32

-- `c.isspace()`: the code points that Python takes for white space.
unfoldable pub is_space : ℕ → Bool
is_space c =
    (leb 9 c && leb c 13)
    || (leb 28 c && leb c 32)
    || c == 133
    || c == 160
    || c == 5760
    || (leb 8192 c && leb c 8202)
    || c == 8232
    || c == 8233
    || c == 8239
    || c == 8287
    || c == 12288

abbrev pub flush : Text → List Text → List Text
flush [] ws = ws
flush (c ∷ w) ws = (c ∷ w) ∷ ws

-- `s.split()`, with the word `w` read so far.
unfoldable pub scan_words : Text → Text → List Text
scan_words w [] = flush w []
scan_words w (c ∷ s) = elim (is_space c) [
  | true ↦ flush w (scan_words [] s)
  | false ↦ scan_words (w ++ c ∷ []) s
]

unfoldable pub words : Text → List Text
unfolding scan_words is_space
words = scan_words []

abbrev pub split_step : Bool → ℕ → List Text → List Text
split_step true c ls = [] ∷ ls
split_step false c [] = (c ∷ []) ∷ []
split_step false c (l ∷ ls) = (c ∷ l) ∷ ls

-- `s.split(sep)` for a separator of one character: always one piece at least.
unfoldable pub split_on : ℕ → Text → List Text
split_on sep [] = [] ∷ []
split_on sep (c ∷ s) = split_step (c == sep) c (split_on sep s)

-- `sep.join(pieces)`.
unfoldable pub join : Text → List Text → Text
join sep [] = []
join sep (x ∷ []) = x
join sep (x ∷ y ∷ r) = x ++ (sep ++ join sep (y ∷ r))

abbrev pub trim_step : ℕ → Text → Text
trim_step c [] = if is_space c then [] else c ∷ []
trim_step c (d ∷ r) = c ∷ d ∷ r

-- `s.rstrip()`.
unfoldable pub rstrip : Text → Text
unfolding is_space
rstrip [] = []
rstrip (c ∷ s) = trim_step c (rstrip s)

-- `s.lstrip(chars)`, for a test of the characters that go.
unfoldable pub drop_while : (ℕ → Bool) → Text → Text
drop_while p [] = []
drop_while p (c ∷ s) = elim (p c) [ true ↦ drop_while p s | false ↦ c ∷ s ]

abbrev pub trim_by_step : (ℕ → Bool) → ℕ → Text → Text
trim_by_step p c [] = if p c then [] else c ∷ []
trim_by_step p c (d ∷ r) = c ∷ d ∷ r

unfoldable pub drop_while_end : (ℕ → Bool) → Text → Text
drop_while_end p [] = []
drop_while_end p (c ∷ s) = trim_by_step p c (drop_while_end p s)

-- `s.strip(chars)`.
unfoldable pub strip_by : (ℕ → Bool) → Text → Text
unfolding drop_while drop_while_end
strip_by p s = drop_while p (drop_while_end p s)

-- `s.strip()`.
unfoldable pub strip : Text → Text
unfolding strip_by is_space
strip = strip_by is_space

-- The text after `prefix`, if it begins with it.
unfoldable pub after_prefix : Text → Text → Option Text
after_prefix [] s = some s
after_prefix (p ∷ ps) [] = none
after_prefix (p ∷ ps) (c ∷ s) = elim (p == c) [ true ↦ after_prefix ps s | false ↦ none ]

-- `s.partition(sep)`: the text before the leftmost `sep` and the text after it.
unfoldable pub cut : Text → Text → Option (Text × Text)
unfolding after_prefix
cut sep [] = Option.map (λ r. ([], r)) (after_prefix sep [])
cut sep (c ∷ s) =
    let later = Option.map (λ (p : Text × Text). (c ∷ p.0, p.1)) (cut sep s) in
    elim (after_prefix sep (c ∷ s)) [ none ↦ later | some r ↦ some ([], r) ]

-- `"".join(pieces)`.
unfoldable pub concat : List Text → Text
concat [] = []
concat (t ∷ ts) = t ++ concat ts

-- `string.punctuation`.
abbrev pub punctuation : Text
punctuation = codes "!\"#$%&'()*+,-./:;<=>?@[\\]^_`{|}~"

unfoldable pub is_punctuation : ℕ → Bool
is_punctuation c = contains c punctuation
