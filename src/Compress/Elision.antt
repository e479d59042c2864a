-- ===== src/Compress/Elision.antt =====
-- compress/elision.py: the payloads of old tool results become a stub.
pub mod Kept
use Prim.Native.String.{String}
use parcus.Prelude.{
  ℕ, zero, suc, ◌+◌, Bool, true, false, not, ◌&&◌, Option, none, some, List, [], ◌∷◌, length, ltb,
  nat_eq, list_eq, ◌==◌, if◌then◌else◌,
}
use parcus.Text.{Text, codes}
use parcus.Json.{
  Value, Items, Fields, null, str, arr, obj, nil, cons, get, put, is_str, as_arr, dumps,
  default_style,
}
use parcus.Model.{Message, CanonicalRequest, CompressionStats, request_text}
use parcus.Compress.Rewrite.{Counter}

abbrev pub default_stub : Text
default_stub = codes "[tool result elided by parcus]"

pub record ToolResultElider : Type 0 where
  pub keep_recent : ℕ
  pub stub : Text

unfoldable pub payload_len : Value → ℕ
payload_len (str s) = length s
payload_len v = length (dumps default_style v)

-- Only a payload that is larger than the stub, and not `None`, is replaced.
unfoldable pub is_stale : Text → Option Value → Bool
unfolding payload_len
is_stale stub none = false
is_stale stub (some null) = false
is_stale stub (some v) = not (is_str stub (some v)) && ltb (length stub) (payload_len v)

unfoldable pub elide_block : Text → Value → Value × ℕ
unfolding is_stale get put
elide_block stub (obj fs) =
    if is_str (codes "tool_result") (get (codes "type") fs)
    then (if is_stale stub (get (codes "content") fs)
        then (obj (put (codes "content") (str stub) fs), 1)
        else (obj fs, 0))
    else (obj fs, 0)
elide_block stub v = (v, 0)

unfoldable pub elide_items : Text → Items → Items × ℕ
unfolding elide_block
elide_items stub nil = (nil, 0)
elide_items stub (cons v vs) =
    let (w, k) = elide_block stub v in let (ws, n) = elide_items stub vs in (cons w ws, k + n)

-- The dict is the old object exactly when nothing was elided.
unfoldable pub elide_tool_results : Fields → Text → Fields × ℕ
unfolding elide_items
elide_tool_results raw stub = elim (as_arr (get (codes "content") raw)) [
  | none ↦ (raw, 0)
  | some items ↦
      let (content, touched) = elide_items stub items in
      if touched == 0 then (raw, 0) else (put (codes "content") (arr content) raw, touched)
]

module _ (e : ToolResultElider) where
  -- A message outside the recent window, which is `eligible`.
  unfoldable pub elide_message : Bool → Message → Message × ℕ
  unfolding elide_tool_results
  elide_message eligible m = elim m.raw [
    | none ↦ (m, 0)
    | some raw ↦
        if eligible
        then (let (new_raw, count) = elide_tool_results raw e.stub in
            (
              if count == 0 then m else record { role = m.role; spans = []; raw = some new_raw },
              count,
            ))
        else (m, 0)
  ]

  -- `index < len(messages) - keep_recent`, where the right side may be negative.
  unfoldable pub elide_messages : ℕ → ℕ → List Message → List Message × ℕ
  unfolding elide_message
  elide_messages total index [] = ([], 0)
  elide_messages total index (m ∷ ms) =
      let (n, k) = elide_message (ltb (index + e.keep_recent) total) m in
      let (ns, j) = elide_messages total (index + 1) ms in (n ∷ ns, k + j)

  unfoldable pub compress : Counter → CanonicalRequest → CanonicalRequest × List CompressionStats
  unfolding elide_messages
  compress count r =
      let (messages, touched) = elide_messages (length r.messages) 0 r.messages in
      let new = record r { messages = messages } in
      elim (count (request_text r) r.model) [
        | none ↦ (r, [])
        | some before ↦
            if touched == 0 then (r, []) else elim (count (request_text new) new.model) [
              | none ↦ (r, [])
              | some after ↦ (
                new,
                record {
                  step = "elision";
                  tokens_before = before;
                  tokens_after = after;
                  spans_touched = touched;
                  ok = none;
                }
                    ∷ [],
              )
            ]
      ]
