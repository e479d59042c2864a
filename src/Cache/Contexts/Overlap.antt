-- ===== src/Cache/Contexts/Overlap.antt =====
-- cache/context_cache.py: calls of `ensure` that overlap.
use parcus.Prelude.{
  ℕ, ◌+◌, ◌*◌, ◌≤◌, ◌≡◌, refl, ◌∙◌, false, Option, none, some, List, [], ◌∷◌, All, length, map, leb,
  ltb, lookup, insert, delete, lookup-insert, Bool-cases, inl, inr, nat_eq, list_eq, pair_eq, ◌==◌,
  arith,
}
use parcus.Text.{Text}
use parcus.Model.{ContextCacheHandle, is_expired, text_or_empty}
use parcus.Cache.Contexts.{
  Key, Handles, Registrar, key_of, live, live_count, prune, pruned, Creation, creating,
  begin_ensure, end_ensure,
}

-- The arguments of a call.
pub record Ask : Type 0 where
  pub credential : Text
  pub model : Option Text
  pub prefix : Text

abbrev pub asked : (Text → Text) → ℕ → Ask → Creation
asked sha256_hex now q = record {
  key = key_of sha256_hex q.credential q.model q.prefix;
  model = q.model;
  asked_at = now;
}

-- The provider answers the calls one after the other.
unfoldable pub end_all : Registrar → Text → List Creation → Registrar
end_all r name [] = r
end_all r name (c ∷ cs) = end_all (end_ensure r c (some name)).0 name cs

abbrev pub Distinct : List Creation → Type 0
Distinct [] = Unit
Distinct (c ∷ cs) = All (λ d. (c.key == d.key) ≡ false) cs × Distinct cs

live_count-insert_new :
    (now : ℕ) (k : Key) (h : ContextCacheHandle) (l : Handles)
    → lookup k l ≡ none
    → is_expired h now ≡ false
    → live_count now (insert k h l) ≡ 1 + live_count now l
unfolding live_count insert lookup
live_count-insert_new now k h [] e alive = ground arith
live_count-insert_new now k h ((j, g) ∷ l) e alive = ground (arith, live_count-insert_new now k h l)

end_ensure-fresh :
    (now : ℕ) (name : Text) (r : Registrar) (c : Creation) (cs : List Creation)
    → All (λ d. (c.key == d.key) ≡ false) cs
    → All (λ d. (d.asked_at ≡ now) × (lookup d.key r.handles ≡ none)) cs
    → All
        (λ d. (d.asked_at ≡ now) × (lookup d.key (end_ensure r c (some name)).0.handles ≡ none))
        cs
unfolding end_ensure
end_ensure-fresh now name r c [] apart fresh = tt
end_ensure-fresh now name r c (d ∷ cs) (other, apart) ((at, free), fresh) = (
  (at, lookup-insert d.key c.key _ r.handles ∙ rw other free),
  end_ensure-fresh now name r c cs apart fresh,
)

end_all-live :
    (now : ℕ) (name : Text) (r : Registrar) (cs : List Creation)
    → 1 ≤ r.ttl_seconds
    → Distinct cs
    → All (λ c. (c.asked_at ≡ now) × (lookup c.key r.handles ≡ none)) cs
    → live_count now (end_all r name cs).handles ≡ length cs + live_count now r.handles
unfolding end_all end_ensure is_expired
end_all-live now name r [] ttl d fresh = omega arith
end_all-live now name r (c ∷ cs) ttl (apart, d) ((at, free), fresh) =
    let handle : ContextCacheHandle = record {
      name = name;
      model = text_or_empty c.model;
      expires_at = c.asked_at + r.ttl_seconds;
    } in
    let alive : is_expired handle now ≡ false = ground (arith, at) in
    let r' = (end_ensure r c (some name)).0 in
    let still : All (λ d. (d.asked_at ≡ now) × (lookup d.key r'.handles ≡ none)) cs =
      end_ensure-fresh now name r c cs apart fresh in
    omega (
      arith,
      end_all-live now name r' cs ttl d still,
      live_count-insert_new now c.key handle r.handles free alive,
    )

-- A registrar without contexts.
abbrev pub new_registrar : ℕ → ℕ → Registrar
new_registrar ttl cap = record { ttl_seconds = ttl; max_entries = cap; handles = [] }

pruned-new_registrar : (ttl cap now : ℕ) → pruned (new_registrar ttl cap) now ≡ []
unfolding pruned prune
pruned-new_registrar ttl cap now = elim (Bool-cases (ltb (cap * 4) 0)) [
  | inl e ↦ rw (e, pruned) refl
  | inr e ↦ rw (e, pruned) refl
]

module _ (sha256_hex : Text → Text) (ttl cap now : ℕ) (name : Text) where
  begin_ensure-new_registrar :
      (q : Ask)
      → 1 ≤ cap
      → begin_ensure sha256_hex (new_registrar ttl cap) now q.credential q.model q.prefix
        ≡ (new_registrar ttl cap, creating (asked sha256_hex now q))
  unfolding begin_ensure live live_count lookup delete
  begin_ensure-new_registrar q room =
      let full : leb cap 0 ≡ false = ground arith in
      let none_left = pruned-new_registrar ttl cap now in
      rw (none_left, begin_ensure) (rw none_left (rw full refl))

  asked_unheld :
      (qs : List Ask)
      → All
          (λ c. (c.asked_at ≡ now) × (lookup c.key (new_registrar ttl cap).handles ≡ none))
          (map (asked sha256_hex now) qs)
  unfolding lookup
  asked_unheld [] = tt
  asked_unheld (q ∷ qs) = ((refl, refl), asked_unheld qs)

  length-asked : (qs : List Ask) → length (map (asked sha256_hex now) qs) ≡ length qs
  length-asked [] = refl
  length-asked (q ∷ qs) = omega (arith, length-asked qs)

  live_count-new_registrar : live_count now (new_registrar ttl cap).handles ≡ 0
  unfolding live_count
  live_count-new_registrar = refl

  -- The spend cap does not hold for calls that overlap: from an empty registrar, however small its
  -- cap, calls for different contexts are all let through as long as none of them has its answer, and
  -- when the answers have come, at one time, all these contexts are live.
  pub begin_ensure-end_all :
      (qs : List Ask)
      → 1 ≤ cap
      → 1 ≤ ttl
      → Distinct (map (asked sha256_hex now) qs)
      → ((q : Ask)
          → begin_ensure sha256_hex (new_registrar ttl cap) now q.credential q.model q.prefix
            ≡ (new_registrar ttl cap, creating (asked sha256_hex now q)))
        × (live_count now
              (end_all (new_registrar ttl cap) name (map (asked sha256_hex now) qs)).handles
            ≡ length qs)
  begin_ensure-end_all qs room lasting d = (
    λ q. begin_ensure-new_registrar q room,
    omega (
      arith,
      end_all-live now name (new_registrar ttl cap) (map (asked sha256_hex now) qs) lasting d
          (asked_unheld qs),
      length-asked qs,
      live_count-new_registrar,
    ),
  )
