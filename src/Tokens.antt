-- ===== src/Tokens.antt =====
-- tokenize.py: the token counters. The package `tiktoken` is a parameter: whether it can be imported,
-- which encoding it has for a model, and the length of a text that an encoding encodes.
pub mod Bounds
use parcus.Prelude.{
  ℕ, ◌+◌, ◌-◌, ◌/◌, Bool, true, false, not, ◌&&◌, Option, none, some, [], length, is_empty, or_else,
  if◌then◌else◌,
}
use parcus.Text.{Text}
use parcus.Json.{Value, null, bool, num, str, arr, obj}
use parcus.Proxy.Dialects.Parse.{truth}

abbrev pub chars_per_token : ℕ
chars_per_token = 4

-- `HeuristicTokenizer.count`
unfoldable pub heuristic_count : Text → ℕ
heuristic_count text =
    if is_empty text then 0 else (length text + chars_per_token - 1) / chars_per_token

-- The outcome of `encoding_for_model`: an encoding, `KeyError`, or another exception.
pub data Found (E : Type 0) : Type 0 where
  found : E → Found E
  key_error : Found E
  other_error : Found E

pub record Tiktoken (E : Type 0) : Type 0 where
  pub importable : Bool
  pub encoding_for_model : Value → Found E
  -- `get_encoding("cl100k_base")`, and `len(enc.encode(text))`; none where they raise
  pub default_encoding : Option E
  pub encoded_length : E → Text → Option ℕ

-- The cache of `_encoding` hashes its argument, and a list or a dict raises.
abbrev pub is_hashable : Value → Bool
is_hashable (arr xs) = false
is_hashable (obj fs) = false
is_hashable _ = true

module _ {E : Type 0} (tiktoken : Tiktoken E) where
  abbrev known_or_default : Found E → Option E
  known_or_default (found enc) = some enc
  known_or_default key_error = tiktoken.default_encoding
  known_or_default other_error = none

  -- `_encoding`, behind its cache: none where the call itself raises.
  unfoldable pub encoding : Value → Option (Option E)
  unfolding truth
  encoding model =
      if not (is_hashable model)
      then none
      else some (
          if not tiktoken.importable
          then none
          else if truth (some model)
          then known_or_default (tiktoken.encoding_for_model model)
          else tiktoken.default_encoding)

  abbrev count_with : Text → Option E → ℕ
  unfolding heuristic_count
  count_with text none = heuristic_count text
  count_with text (some enc) = or_else (heuristic_count text) (tiktoken.encoded_length enc text)

  -- `TiktokenTokenizer.count`
  unfoldable pub count : Text → Value → Option ℕ
  unfolding encoding count_with
  count text model =
      if is_empty text
      then some 0
      else elim (encoding model) [ none ↦ none | some enc ↦ some (count_with text enc) ]
