-- ===== src/Proxy/Usage.antt =====
-- proxy/usage.py: the token counts that a provider reports. `json.loads` and `int` of a JSON number
-- are parameters; `int` raises (none) for an infinite number or NaN, which `json.loads` accepts.
use parcus.Prelude.{ℕ, Option, none, some, List, nat_eq, list_eq}
use parcus.Text.{Text, codes}
use parcus.Json.{Value, Fields, num, obj, get}
use parcus.Model.{Dialect, anthropic, openai, gemini, unknown}

pub record ProviderUsage : Type 0 where
  pub input_tokens : ℕ
  pub output_tokens : ℕ
  pub cache_read_tokens : ℕ
  pub cache_write_tokens : ℕ

-- `_int`, with `max(0, int(value))` of a number as the parameter `int_of`.
unfoldable pub to_int : (Text → Option ℕ) → Option Value → Option ℕ
to_int int_of (some (num nonzero printed)) = int_of printed
to_int int_of _ = some 0

abbrev pub as_dict : Option Value → Option Fields
as_dict (some (obj fs)) = some fs
as_dict _ = none

abbrev pub counts : Option ℕ → Option ℕ → Option ℕ → Option ℕ → Option (Option ProviderUsage)
counts (some input) (some output) (some read) (some written) = some (
    some (record {
      input_tokens = input;
      output_tokens = output;
      cache_read_tokens = read;
      cache_write_tokens = written;
    }))
counts _ _ _ _ = none

unfoldable pub cached_tokens : Option Fields → Option Value
unfolding get
cached_tokens none = none
cached_tokens (some details) = get (codes "cached_tokens") details

-- The counts of a usage object.
unfoldable pub usage_of : (Text → Option ℕ) → Dialect → Fields → Option (Option ProviderUsage)
unfolding to_int get cached_tokens
usage_of int_of gemini usage =
    counts (to_int int_of (get (codes "promptTokenCount") usage))
      (to_int int_of (get (codes "candidatesTokenCount") usage))
      (to_int int_of (get (codes "cachedContentTokenCount") usage)) (some 0)
usage_of int_of anthropic usage =
    counts (to_int int_of (get (codes "input_tokens") usage))
      (to_int int_of (get (codes "output_tokens") usage))
      (to_int int_of (get (codes "cache_read_input_tokens") usage))
      (to_int int_of (get (codes "cache_creation_input_tokens") usage))
usage_of int_of openai usage =
    counts (to_int int_of (get (codes "prompt_tokens") usage))
      (to_int int_of (get (codes "completion_tokens") usage))
      (to_int int_of (cached_tokens (as_dict (get (codes "prompt_tokens_details") usage)))) (some 0)
usage_of int_of unknown usage = some none

abbrev pub usage_key : Dialect → Text
usage_key gemini = codes "usageMetadata"
usage_key _ = codes "usage"

-- `parse_usage`: none where it raises.
unfoldable pub parse_usage :
    (List ℕ → Option Value) → (Text → Option ℕ) → Dialect → List ℕ → Option (Option ProviderUsage)
unfolding usage_of get
parse_usage loads int_of dialect content = elim (as_dict (loads content)) [
  | none ↦ some none
  | some decoded ↦ elim (as_dict (get (usage_key dialect) decoded)) [
    | none ↦ some none
    | some usage ↦ usage_of int_of dialect usage
  ]
]
