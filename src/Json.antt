-- ===== src/Json.antt =====
-- JSON values as Python's `json` module decodes them, and `json.dumps` with sorted keys and
-- compact separators, by which a structured message is counted and hashed. A number is kept as the
-- text that Python prints for it, with its truth value.
pub mod Laws
use parcus.Prelude.{
  ℕ, ◌+◌, ◌-◌, ◌/◌, ◌%◌, Bool, true, false, not, Option, none, some, List, [], ◌∷◌, ◌++◌, map, ltb,
  leb, ◌==◌, nat_eq, list_eq, if◌then◌else◌,
}
use parcus.Text.{Text, codes, join}

mutual
  pub data Value : Type 0 where
    null : Value
    bool : Bool → Value
    num : Bool → Text → Value
    str : Text → Value
    arr : Items → Value
    obj : Fields → Value

  -- The entries of a dict, in insertion order.
  pub data Fields : Type 0 where
    end : Fields
    field : Text → Value → Fields → Fields

  -- The elements of a list.
  pub data Items : Type 0 where
    nil : Items
    cons : Value → Items → Items

-- `d.get(key)`.
unfoldable pub get : Text → Fields → Option Value
get k end = none
get k (field j v fs) = if j == k then some v else get k fs

-- `{**d, key: value}`: an old key keeps its place.
unfoldable pub put : Text → Value → Fields → Fields
put k v end = field k v end
put k v (field j w fs) = if j == k then field j v fs else field j w (put k v fs)

-- `d.get(key) == "…"`.
abbrev pub is_str : Text → Option Value → Bool
is_str t (some (str s)) = s == t
is_str t _ = false

-- `d.get(key)`, if it is a string; if it is a list.
abbrev pub as_str : Option Value → Option Text
as_str (some (str s)) = some s
as_str _ = none

abbrev pub as_arr : Option Value → Option Items
as_arr (some (arr xs)) = some xs
as_arr _ = none

unfoldable pub keys : Fields → List Text
keys end = []
keys (field k v fs) = k ∷ keys fs

abbrev hex_digit : ℕ → ℕ
hex_digit n = if ltb n 10 then 48 + n else 87 + n

-- The escapes of `json.dumps(…, ensure_ascii=False)`.
escape : ℕ → Text
escape c =
    if c == 34
    then codes "\\\""
    else if c == 92
    then codes "\\\\"
    else if c == 10
    then codes "\\n"
    else if c == 13
    then codes "\\r"
    else if c == 9
    then codes "\\t"
    else if c == 12
    then codes "\\f"
    else if c == 8
    then codes "\\b"
    else if ltb c 32
    then codes "\\u00" ++ hex_digit (c / 16) ∷ hex_digit (c % 16) ∷ []
    else c ∷ []

escape_all : Text → Text
unfolding escape
escape_all [] = []
escape_all (c ∷ s) = escape c ++ escape_all s

quoted : Text → Text
unfolding escape_all
quoted s = 34 ∷ (escape_all s ++ 34 ∷ [])

-- Keys are compared by code points.
text_ltb : Text → Text → Bool
text_ltb [] [] = false
text_ltb [] (d ∷ t) = true
text_ltb (c ∷ s) [] = false
text_ltb (c ∷ s) (d ∷ t) = let rest = text_ltb s t in if c == d then rest else ltb c d

-- The printed entries of a dict, in the order of their keys.
insert_entry : Text → Text → List (Text × Text) → List (Text × Text)
unfolding text_ltb
insert_entry k v [] = (k, v) ∷ []
insert_entry k v ((j, w) ∷ l) =
    if text_ltb j k then (j, w) ∷ insert_entry k v l else (k, v) ∷ (j, w) ∷ l

-- The options of `json.dumps`: `sort_keys` and the two `separators`.
pub record Style : Type 0 where
  pub sort_keys : Bool
  pub comma : Text
  pub colon : Text

-- `sort_keys=True, separators=(",", ":")`; `separators=(",", ":")`; no options.
abbrev pub canonical_style : Style
canonical_style = record { sort_keys = true; comma = codes ","; colon = codes ":" }

abbrev pub compact_style : Style
compact_style = record { sort_keys = false; comma = codes ","; colon = codes ":" }

abbrev pub default_style : Style
default_style = record { sort_keys = false; comma = codes ", "; colon = codes ": " }

abbrev print_entry : Style → Text × Text → Text
print_entry style e = e.0 ++ (style.colon ++ e.1)

unfoldable mutual
  unfolding quoted insert_entry join

  -- `json.dumps(value, ensure_ascii=False, …)`.
  pub dumps : Style → Value → Text
  dumps style null = codes "null"
  dumps style (bool true) = codes "true"
  dumps style (bool false) = codes "false"
  dumps style (num _ t) = t
  dumps style (str s) = quoted s
  dumps style (arr xs) = 91 ∷ (join style.comma (dump_items style xs) ++ 93 ∷ [])
  dumps style (obj fs) =
      123
      ∷ (join style.comma (map (λ e. print_entry style (quoted e.0, e.1)) (dump_fields style fs))
          ++ 125 ∷ [])

  pub dump_items : Style → Items → List Text
  dump_items style nil = []
  dump_items style (cons x xs) = dumps style x ∷ dump_items style xs

  pub dump_fields : Style → Fields → List (Text × Text)
  dump_fields style end = []
  dump_fields style (field k v fs) =
      let rest = dump_fields style fs in
      let printed = dumps style v in
      if style.sort_keys then insert_entry k printed rest else (k, printed) ∷ rest
