-- ===== src/Quota/Bounds.antt =====
-- What a tenant can get through, and that tenants do not disturb one another.
use mathlib.Core.Path.{subst}
use native.Mathlib.Decide.{dec_le}
use native.Mathlib.Nat.{div-add-mod, mod-lt, mul-le-mul_right}
use parcus.Prelude.{
  lookup, insert, lookup-insert, sym, ℕ, suc, ◌+◌, ◌-◌, ◌*◌, ◌≤◌, ◌<◌, ◌≡◌, refl, ap, ◌∙◌, false,
  Option, none, some, List, [], ◌∷◌, leb, ◌==◌, nat_eq, list_eq, list_beq_iff, beq_refl, inl, inr,
  Bool-cases, arith, if◌then◌else◌,
}
use parcus.Text.{Text}
use parcus.Quota.{
  RateLimit, RateDecision, Bucket, Buckets, refilled, consume, start, check, ceil_div,
}

le-ceil_div : (a r w : ℕ) → 0 < r → ceil_div a r ≤ w → a ≤ w * r
le-ceil_div a r w h k =
    let m = mul-le-mul_right r k in
    omega (arith, div-add-mod (a + r - 1) r, mod-lt (a + r - 1) h, m)

ceil_div-le : (a r w : ℕ) → 0 < r → a ≤ w * r → ceil_div a r ≤ w
ceil_div-le a r w h k = elim (dec_le (ceil_div a r) w) [
  | yes p ↦ p
  | no p ↦
      let above : suc w ≤ ceil_div a r = omega arith in
      let m = mul-le-mul_right r above in
      absurd (omega (arith, div-add-mod (a + r - 1) r, mod-lt (a + r - 1) h, m))
]

module _ (limit : RateLimit) where
  -- One tenant's calls at the given times, from its own bucket.
  unfoldable pub run_own : List ℕ → Option Bucket → List RateDecision
  run_own [] o = []
  run_own (now ∷ times) o =
      let (b, decision) = consume limit (refilled limit now (start limit now o)) in
      decision ∷ run_own times (some b)

  -- The calls of all tenants, interleaved, with their tenants.
  unfoldable pub run_all : List (ℕ × Text) → Buckets → List (Text × RateDecision)
  run_all [] bs = []
  run_all ((now, key) ∷ calls) bs =
      let (bs', decision) = check limit now key bs in (key, decision) ∷ run_all calls bs'

  unfoldable pub decisions_of : Text → List (Text × RateDecision) → List RateDecision
  decisions_of k [] = []
  decisions_of k ((j, d) ∷ ds) = let rest = decisions_of k ds in if j == k then d ∷ rest else rest

  unfoldable pub times_of : Text → List (ℕ × Text) → List ℕ
  times_of k [] = []
  times_of k ((now, j) ∷ calls) = let rest = times_of k calls in if j == k then now ∷ rest else rest

  -- A call of the tenant itself, and one of another tenant.
  decisions_own :
      (k : Text) (now : ℕ) (calls : List (ℕ × Text)) (bs : Buckets)
      → ((cs : Buckets)
          → decisions_of k (run_all calls cs) ≡ run_own (times_of k calls) (lookup k cs))
      → decisions_of k (run_all ((now, k) ∷ calls) bs)
        ≡ run_own (times_of k ((now, k) ∷ calls)) (lookup k bs)
  unfolding decisions_of run_all run_own times_of check
  decisions_own k now calls bs ih =
      let (b, d) = consume limit (refilled limit now (start limit now (lookup k bs))) in
      let stored : lookup k (insert k b bs) ≡ some b =
        lookup-insert k k b bs ∙ rw (beq_refl k) refl in
      rw (beq_refl k)
        (ap (λ ds. d ∷ ds) (ih (insert k b bs) ∙ ap (run_own (times_of k calls)) stored))

  decisions_other :
      (k j : Text) (now : ℕ) (calls : List (ℕ × Text)) (bs : Buckets)
      → (j == k) ≡ false
      → ((cs : Buckets)
          → decisions_of k (run_all calls cs) ≡ run_own (times_of k calls) (lookup k cs))
      → decisions_of k (run_all ((now, j) ∷ calls) bs)
        ≡ run_own (times_of k ((now, j) ∷ calls)) (lookup k bs)
  unfolding decisions_of run_all run_own times_of check
  decisions_other k j now calls bs e ih =
      let b = (consume limit (refilled limit now (start limit now (lookup j bs)))).0 in
      let kept : lookup k (insert j b bs) ≡ lookup k bs = lookup-insert k j b bs ∙ rw e refl in
      rw e (ih (insert j b bs) ∙ ap (run_own (times_of k calls)) kept)

  -- In any interleaving of the tenants' calls a tenant gets exactly the decisions that it would get
  -- alone, from its own bucket.
  pub decisions_of-run_all :
      (k : Text) (calls : List (ℕ × Text)) (bs : Buckets)
      → decisions_of k (run_all calls bs) ≡ run_own (times_of k calls) (lookup k bs)
  decisions_of-run_all k [] bs = unfold decisions_of run_all run_own times_of in refl
  decisions_of-run_all k ((now, j) ∷ calls) bs = elim (Bool-cases (j == k)) [
    | inl e ↦
        subst
          (λ i.
            decisions_of k (run_all ((now, i) ∷ calls) bs)
            ≡ run_own (times_of k ((now, i) ∷ calls)) (lookup k bs))
          (sym ((list_beq_iff j k).0 e))
          (decisions_own k now calls bs (decisions_of-run_all k calls))
    | inr e ↦ decisions_other k j now calls bs e (decisions_of-run_all k calls)
  ]

  abbrev pub count_allowed : List RateDecision → ℕ
  count_allowed [] = 0
  count_allowed (d ∷ ds) = if d.allowed then suc (count_allowed ds) else count_allowed ds

  -- The times rise from `first` to `last`.
  abbrev pub Ascending : ℕ → ℕ → List ℕ → Type 0
  Ascending first last [] = first ≤ last
  Ascending first last (t ∷ ts) = (first ≤ t) × Ascending t last ts

  Ascending-le : (first last : ℕ) (ts : List ℕ) → Ascending first last ts → first ≤ last
  Ascending-le first last [] h = h
  Ascending-le first last (t ∷ ts) h = omega (arith, Ascending-le t last ts h.1, h.0)

  -- What a call takes from the bucket.
  abbrev price : RateDecision → ℕ
  price d = if d.allowed then limit.unit else 0

  price_paid : (c : Bucket) → price (consume limit c).1 + (consume limit c).0.tokens ≡ c.tokens
  unfolding consume
  price_paid c = ground arith

  updated-consume : (c : Bucket) → (consume limit c).0.updated ≡ c.updated
  unfolding consume
  updated-consume c = ground arith

  tokens-refilled-le :
      (t : ℕ) (b : Bucket) → (refilled limit t b).tokens ≤ b.tokens + (t - b.updated) * limit.refill
  unfolding refilled
  tokens-refilled-le t b = omega arith

  updated-refilled : (t : ℕ) (b : Bucket) → (refilled limit t b).updated ≡ t
  unfolding refilled
  updated-refilled t b = refl

  count_price :
      (d : RateDecision) (ds : List RateDecision)
      → limit.unit * count_allowed (d ∷ ds) ≡ price d + limit.unit * count_allowed ds
  count_price d ds = elim (Bool-cases d.allowed) [
    | inl e ↦ rw (e, price) (omega arith)
    | inr e ↦ rw (e, price) (omega arith)
  ]

  run_own_bound :
      (times : List ℕ) (last : ℕ) (b : Bucket)
      → Ascending b.updated last times
      → limit.unit * count_allowed (run_own times (some b))
        ≤ b.tokens + (last - b.updated) * limit.refill
  unfolding run_own start
  run_own_bound [] last b h = omega arith
  run_own_bound (t ∷ ts) last b h =
      let c = refilled limit t b in
      let d = (consume limit c).1 in
      let b' = (consume limit c).0 in
      let now : b'.updated ≡ t = updated-consume c ∙ updated-refilled t b in
      let later : Ascending b'.updated last ts = rw now h.1 in
      let e : last - b.updated ≡ (t - b.updated) + (last - t) =
        omega (arith, Ascending-le t last ts h.1, h.0) in
      omega (
        arith,
        ap (λ (x : ℕ). x * limit.refill) e,
        ap (λ (x : ℕ). (last - x) * limit.refill) now,
        run_own_bound ts last b' later,
        count_price d (run_own ts (some b')),
        price_paid c,
        tokens-refilled-le t b,
      )

  run_new_bound :
      (times : List ℕ) (first last : ℕ)
      → Ascending first last times
      → limit.unit * count_allowed (run_own times none)
        ≤ limit.capacity + (last - first) * limit.refill
  unfolding run_own start
  run_new_bound [] first last h = omega arith
  run_new_bound (t ∷ ts) first last h =
      let e : last - first ≡ (t - first) + (last - t) =
        omega (arith, Ascending-le t last ts h.1, h.0) in
      omega (
        arith,
        ap (λ (x : ℕ). x * limit.refill) e,
        run_own_bound (t ∷ ts) last (record { tokens = limit.capacity; updated = t })
            (omega arith, h.1),
      )

  -- However the tenants' calls are interleaved, the calls of a new tenant that are allowed between
  -- two times take together at most the burst capacity and what is refilled between them.
  pub run_all_bound :
      (k : Text) (calls : List (ℕ × Text)) (bs : Buckets) (first last : ℕ)
      → lookup k bs ≡ none
      → Ascending first last (times_of k calls)
      → limit.unit * count_allowed (decisions_of k (run_all calls bs))
        ≤ limit.capacity + (last - first) * limit.refill
  run_all_bound k calls bs first last e h =
      rw (decisions_of-run_all k calls bs, e) (run_new_bound (times_of k calls) first last h)

  -- A denied call is told how long to wait, neither less nor more than needed: a bucket that refills
  -- and can hold a token allows the next call at a time exactly from then on.
  pub retry_after_exact :
      (now wait : ℕ) (b : Bucket)
      → 0 < limit.refill
      → limit.unit ≤ limit.capacity
      → (consume limit b).1.allowed ≡ false
      → b.updated ≡ now
      → (consume limit (refilled limit (now + wait) b)).1.allowed
        ≡ leb (consume limit b).1.retry_after wait
  unfolding consume refilled
  retry_after_exact now wait b r c d u =
      let deficit = limit.unit - b.tokens in
      let elapsed : now + wait - b.updated ≡ wait = omega arith in
      let refill = ap (λ (x : ℕ). x * limit.refill) elapsed in
      ground (
        arith,
        elapsed,
        refill,
        le-ceil_div deficit limit.refill wait r,
        ceil_div-le deficit limit.refill wait r,
      )
