-- ===== src/Compress/Elision/Kept.antt =====
-- compress/elision.py: what becomes of each message and each block.
use parcus.Prelude.{
  ℕ, zero, suc, ◌+◌, ◌-◌, ◌≤◌, Bool, false, Option, none, some, List, [], ◌∷◌, ◌≡◌, refl, ap, inl,
  inr, ◌⊎◌, true, length, drop, ltb, arith, Bool-cases, Option-cases, nat_eq, list_eq, list_beq_iff,
  ◌==◌,
}
use parcus.Text.{Text, codes}
use parcus.Json.{is_str, Value, Items, Fields, str, arr, obj, nil, cons, get, put, as_arr}
use parcus.Model.{Message, CanonicalRequest, request_text}
use parcus.Compress.Rewrite.{Counter}
use parcus.Compress.Elision.{
  ToolResultElider, is_stale, elide_block, elide_items, elide_tool_results, elide_message,
  elide_messages, compress,
}

as_arr-some : (o : Option Value) (items : Items) → as_arr o ≡ some items → o ≡ some (arr items)
as_arr-some (some (arr xs)) items h = ground arith
as_arr-some none items h = cc
as_arr-some (some _) items h = cc

elide_message_recent : (e : ToolResultElider) (m : Message) → (elide_message e false m).0 ≡ m
unfolding elide_message
elide_message_recent e m = ground arith

-- Dropping the messages before the window of `total` messages that begin at `index`.
drop-elide_messages :
    (e : ToolResultElider) (n total index : ℕ) (ms : List Message)
    → total ≤ index + n + e.keep_recent
    → drop n (elide_messages e total index ms).0 ≡ drop n ms
unfolding elide_messages
drop-elide_messages e zero total index [] h = refl
drop-elide_messages e (suc n) total index [] h = refl
drop-elide_messages e zero total index (m ∷ ms) h =
    let recent : ltb (index + e.keep_recent) total ≡ false = ground arith in
    rw (recent, elide_message_recent e m)
      (ap (λ t. m ∷ t) (drop-elide_messages e zero total (index + 1) ms (omega arith)))
drop-elide_messages e (suc n) total index (m ∷ ms) h =
    drop-elide_messages e n total (index + 1) ms (omega arith)

-- The last `keep_recent` messages are returned as they are.
pub compress-recent :
    (e : ToolResultElider) (count : Counter) (r : CanonicalRequest)
    → drop (length r.messages - e.keep_recent) (compress e count r).0.messages
      ≡ drop (length r.messages - e.keep_recent) r.messages
unfolding compress
compress-recent e count r =
    let n = length r.messages in
    let tail : drop (n - e.keep_recent) (elide_messages e n 0 r.messages).0
        ≡ drop (n - e.keep_recent) r.messages =
      drop-elide_messages e (n - e.keep_recent) n 0 r.messages (omega arith) in
    ground (arith, tail)

-- A block and what becomes of it: itself, or, of a tool result with a payload, the same with the stub
-- as its payload.
abbrev pub IsElidedBlock : Text → Value → Value → Type 0
IsElidedBlock stub v w =
    (w ≡ v)
    ⊎ ((fields : Fields) × (payload : Value) × (v ≡ obj fields)
        × (get (codes "type") fields ≡ some (str (codes "tool_result")))
        × (get (codes "content") fields ≡ some payload)
        × (w ≡ obj (put (codes "content") (str stub) fields)))

-- Block by block, in their order.
abbrev pub AreElided : Text → Items → Items → Type 0
AreElided stub nil nil = Unit
AreElided stub (cons v vs) (cons w ws) = IsElidedBlock stub v w × AreElided stub vs ws
AreElided stub nil (cons w ws) = ⊥
AreElided stub (cons v vs) nil = ⊥

-- A message and what becomes of it: itself, or, of a structured one, the same with elided blocks. (No
-- structured message has spans.)
abbrev pub IsElidedMessage : Text → Message → Message → Type 0
IsElidedMessage stub m n =
    (n ≡ m)
    ⊎ ((raw : Fields) × (blocks elided : Items) × (m.raw ≡ some raw)
        × (get (codes "content") raw ≡ some (arr blocks))
        × AreElided stub blocks elided
        × (n ≡ record {
          role = m.role;
          spans = [];
          raw = some (put (codes "content") (arr elided) raw);
        }))

abbrev pub Each : (Message → Message → Type 0) → List Message → List Message → Type 0
Each R [] [] = Unit
Each R (m ∷ ms) (n ∷ ns) = R m n × Each R ms ns
Each R [] (n ∷ ns) = ⊥
Each R (m ∷ ms) [] = ⊥

is_str-some : (t : Text) (o : Option Value) → is_str t o ≡ true → o ≡ some (str t)
is_str-some t (some (str s)) h = ground (arith, list_beq_iff s t, list_beq_iff t s)
is_str-some t none h = absurd (ground arith)
is_str-some t (some _) h = absurd (ground arith)

elide_block-IsElided : (stub : Text) (v : Value) → IsElidedBlock stub v (elide_block stub v).0
unfolding elide_block is_stale
elide_block-IsElided stub (obj fs) =
    elim (Bool-cases (is_str (codes "tool_result") (get (codes "type") fs))) [
      | inr e ↦ inl (rw (e, elide_block) refl)
      | inl e ↦ elim (Option-cases (get (codes "content") fs)) [
        | inl c ↦ inl (rw (e, elide_block) (rw (c, is_stale) refl))
        | inr (payload, c) ↦ elim (Bool-cases (is_stale stub (some payload))) [
          | inr s ↦ inl (rw (e, elide_block) (rw c (rw s refl)))
          | inl s ↦ inr (
            fs,
            payload,
            refl,
            is_str-some (codes "tool_result") (get (codes "type") fs) e,
            c,
            rw (e, elide_block) (rw c (rw s refl)),
          )
        ]
      ]
    ]
elide_block-IsElided stub _ = inl refl

elide_items-AreElided : (stub : Text) (vs : Items) → AreElided stub vs (elide_items stub vs).0
unfolding elide_items
elide_items-AreElided stub nil = tt
elide_items-AreElided stub (cons v vs) =
    (elide_block-IsElided stub v, elide_items-AreElided stub vs)

elide_tool_results-cases :
    (raw : Fields) (stub : Text)
    → (elide_tool_results raw stub ≡ (raw, 0))
      ⊎ ((items : Items) × (n : ℕ) × (get (codes "content") raw ≡ some (arr items))
          × ((n == 0) ≡ false)
          × (elide_tool_results raw stub
              ≡ (put (codes "content") (arr (elide_items stub items).0) raw, n)))
unfolding elide_tool_results
elide_tool_results-cases raw stub = elim (Option-cases (as_arr (get (codes "content") raw))) [
  | inl e ↦ inl (rw (e, elide_tool_results) refl)
  | inr (items, e) ↦ elim (Bool-cases ((elide_items stub items).1 == 0)) [
    | inl z ↦ inl (rw (e, elide_tool_results) (rw z refl))
    | inr z ↦ inr (
      items,
      (elide_items stub items).1,
      as_arr-some _ items e,
      z,
      rw (e, elide_tool_results) (rw z refl),
    )
  ]
]

elide_message-IsElided :
    (e : ToolResultElider) (eligible : Bool) (m : Message)
    → IsElidedMessage e.stub m (elide_message e eligible m).0
unfolding elide_message
elide_message-IsElided e eligible m = elim (Option-cases m.raw) [
  | inl f ↦ inl (simp (f, elide_message))
  | inr (raw, f) ↦ elim (Bool-cases eligible) [
    | inr recent ↦ inl (simp (f, elide_message, recent))
    | inl old ↦ elim (elide_tool_results-cases raw e.stub) [
      | inl same ↦ inl (simp (f, elide_message, old, same))
      | inr (items, n, held, some_touched, elided) ↦ inr (
        raw,
        items,
        (elide_items e.stub items).0,
        f,
        held,
        elide_items-AreElided e.stub items,
        simp (f, elide_message, old, elided, some_touched),
      )
    ]
  ]
]

elide_messages-Each :
    (e : ToolResultElider) (total index : ℕ) (ms : List Message)
    → Each (IsElidedMessage e.stub) ms (elide_messages e total index ms).0
unfolding elide_messages
elide_messages-Each e total index [] = tt
elide_messages-Each e total index (m ∷ ms) =
    (elide_message-IsElided e _ m, elide_messages-Each e total (index + 1) ms)

Each-same : (stub : Text) (ms : List Message) → Each (IsElidedMessage stub) ms ms
Each-same stub [] = tt
Each-same stub (m ∷ ms) = (inl refl, Each-same stub ms)

compress-cases :
    (e : ToolResultElider) (count : Counter) (r : CanonicalRequest)
    → ((compress e count r).0 ≡ r)
      ⊎ ((compress e count r).0
          ≡ record r { messages = (elide_messages e (length r.messages) 0 r.messages).0 })
unfolding compress
compress-cases e count r =
    let (messages, touched) = elide_messages e (length r.messages) 0 r.messages in
    let new : CanonicalRequest = record r { messages = messages } in
    elim (Option-cases (count (request_text r) r.model)) [
      | inl b ↦ inl (rw (b, compress) refl)
      | inr (before, b) ↦ elim (Bool-cases (touched == 0)) [
        | inl z ↦ inl (rw (b, compress) (rw z refl))
        | inr z ↦ elim (Option-cases (count (request_text new) new.model)) [
          | inl a ↦ inl (rw (b, compress) (rw (z, a) refl))
          | inr (after, a) ↦ inr (rw (b, compress) (rw (z, a) refl))
        ]
      ]
    ]

-- Only the messages of the request change, and of these only the payloads of tool results: message by
-- message and block by block, the pass returns what it was given, or the same block with the stub as
-- its `content`. The last `keep_recent` messages are returned as they are.
pub compress-Each :
    (e : ToolResultElider) (count : Counter) (r : CanonicalRequest)
    → (messages : List Message) × ((compress e count r).0 ≡ record r { messages = messages })
      × Each (IsElidedMessage e.stub) r.messages messages
      × (drop (length r.messages - e.keep_recent) messages
          ≡ drop (length r.messages - e.keep_recent) r.messages)
compress-Each e count r =
    let n = length r.messages in
    elim (compress-cases e count r) [
      | inl same ↦ (r.messages, same, Each-same e.stub r.messages, refl)
      | inr new ↦ (
        (elide_messages e n 0 r.messages).0,
        new,
        elide_messages-Each e n 0 r.messages,
        drop-elide_messages e (n - e.keep_recent) n 0 r.messages (omega arith),
      )
    ]
