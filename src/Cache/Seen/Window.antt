-- ===== src/Cache/Seen/Window.antt =====
-- The bounded set is a window on everything that was ever seen.
use mathlib.Core.Path.{subst}
use parcus.Prelude.{
  lookup, delete, lookup-delete, ℕ, suc, ◌+◌, ◌-◌, zero, drop, ◌≤◌, ◌<◌, ◌≡◌, refl, ap, sym, ◌∙◌,
  true, none, some, List, [], ◌∷◌, ◌++◌, length, length-append, inl, inr, Bool-cases, beq_refl, max,
  leb, ltb, ltb→lt, nat_eq, list_eq, list_beq_iff, ◌==◌, arith, if◌then◌else◌,
}
use parcus.Text.{Text}
use parcus.Cache.Seen.{
  Sightings, PrefixSeenSet, new_seen, scoped_key, evict, is_recent, record_and_check,
}

-- No key twice.
abbrev Distinct : Sightings → Type 0
Distinct [] = Unit
Distinct (e ∷ l) = (lookup e.0 l ≡ none) × Distinct l

lookup-append_one :
    (j k : Text) (now : ℕ) (l : Sightings)
    → lookup j l ≡ none
    → lookup j (l ++ (k, now) ∷ []) ≡ (if k == j then some now else none)
unfolding lookup
lookup-append_one j k now [] h = refl
lookup-append_one j k now ((i, t) ∷ l) h = ground (arith, lookup-append_one j k now l)

delete-absent : (k : Text) (l : Sightings) → lookup k l ≡ none → delete k l ≡ l
unfolding lookup delete
delete-absent k [] h = refl
delete-absent k ((i, t) ∷ l) h = ground (arith, delete-absent k l)

length-delete : (k : Text) (l : Sightings) → Distinct l → length l ≤ suc (length (delete k l))
unfolding delete
length-delete k [] h = omega arith
length-delete k ((i, t) ∷ l) h = elim (Bool-cases (i == k)) [
  | inl e ↦ rw e (
      rw (delete-absent k l (subst (λ x. lookup x l ≡ none) ((list_beq_iff i k).0 e) h.0))
        (omega arith))
  | inr e ↦ rw e (omega (arith, length-delete k l h.1))
]

Distinct-delete : (k : Text) (l : Sightings) → Distinct l → Distinct (delete k l)
unfolding delete
Distinct-delete k [] h = tt
Distinct-delete k ((i, t) ∷ l) h = elim (Bool-cases (i == k)) [
  | inl e ↦ rw e (Distinct-delete k l h.1)
  | inr e ↦ rw e (ground (arith, lookup-delete i k l, h.0), Distinct-delete k l h.1)
]

Distinct-append_one :
    (k : Text) (now : ℕ) (l : Sightings)
    → lookup k l ≡ none
    → Distinct l
    → Distinct (l ++ (k, now) ∷ [])
unfolding lookup
Distinct-append_one k now [] h d = (refl, tt)
Distinct-append_one k now ((i, t) ∷ l) h d = (
  ground (arith, lookup-append_one i k now l, list_beq_iff i k, list_beq_iff k i, d.0),
  Distinct-append_one k now l (ground arith) d.1,
)

drop-nil : (n : ℕ) → drop {A = Text × ℕ} n [] ≡ []
drop-nil zero = refl
drop-nil (suc n) = refl

-- An entry that falls out of the window is not missed.
evict_first :
    (cap : ℕ) (i : Text) (t : ℕ) (k : Text) (now : ℕ) (l : Sightings)
    → Distinct l
    → cap < length ((i, t) ∷ l)
    → evict cap (delete k ((i, t) ∷ l) ++ (k, now) ∷ []) ≡ evict cap (delete k l ++ (k, now) ∷ [])
unfolding evict delete
evict_first cap i t k now l h full = elim (Bool-cases (i == k)) [
  | inl e ↦ rw e refl
  | inr e ↦
      let rest = delete k l ++ (k, now) ∷ [] in
      let over : ltb cap (length ((i, t) ∷ rest)) ≡ true =
        ground (arith, length-delete k l h, length-append (delete k l) ((k, now) ∷ [])) in
      rw (e, over)
]

-- To move a key to the end, only the window matters.
evict-touch :
    (cap : ℕ) (k : Text) (now : ℕ) (l : Sightings)
    → Distinct l
    → evict cap (delete k (evict cap l) ++ (k, now) ∷ []) ≡ evict cap (delete k l ++ (k, now) ∷ [])
unfolding evict
evict-touch cap k now [] h = refl
evict-touch cap k now ((i, t) ∷ l) h = elim (Bool-cases (ltb cap (length ((i, t) ∷ l)))) [
  | inr e ↦ rw e refl
  | inl e ↦ rw e (
      evict-touch cap k now l h.1
      ∙ sym (evict_first cap i t k now l h.1 (ltb→lt cap (length ((i, t) ∷ l)) e)))
]

-- A call: the time, the tenant, the digest.
abbrev pub Call : Type 0
Call = ℕ × Text × Text

-- The calls on a set, oldest first.
unfoldable pub run : PrefixSeenSet → List Call → PrefixSeenSet
run s [] = s
run s ((now, tenant, digest) ∷ calls) = run (record_and_check s now digest tenant).0 calls

-- Every prefix ever seen with its latest sighting, the latest last; nothing is evicted.
unfoldable pub history_from : Sightings → List Call → Sightings
history_from l [] = l
history_from l ((now, tenant, digest) ∷ calls) =
    let key = scoped_key tenant digest in history_from (delete key l ++ (key, now) ∷ []) calls

unfoldable pub history : List Call → Sightings
unfolding history_from
history = history_from []

Distinct-touch :
    (k : Text) (now : ℕ) (l : Sightings) → Distinct l → Distinct (delete k l ++ (k, now) ∷ [])
Distinct-touch k now l h =
    Distinct-append_one k now (delete k l) (lookup-delete k k l ∙ rw (beq_refl k) refl)
      (Distinct-delete k l h)

run-window :
    (s : PrefixSeenSet) (l : Sightings) (calls : List Call)
    → Distinct l
    → s.seen ≡ evict s.max_entries l
    → (run s calls).seen ≡ evict s.max_entries (history_from l calls)
unfolding run history_from record_and_check
run-window s l [] h e = e
run-window s l ((now, tenant, digest) ∷ calls) h e =
    let key = scoped_key tenant digest in
    run-window (record_and_check s now digest tenant).0 (delete key l ++ (key, now) ∷ []) calls
      (Distinct-touch key now l h) (rw e (evict-touch s.max_entries key now l h))

max_entries-run :
    (s : PrefixSeenSet) (calls : List Call) → (run s calls).max_entries ≡ s.max_entries
unfolding run record_and_check
max_entries-run s [] = refl
max_entries-run s (c ∷ calls) = max_entries-run (record_and_check s c.0 c.2 c.1).0 calls

evict-drop : (cap : ℕ) (l : Sightings) → evict cap l ≡ drop (length l - cap) l
unfolding evict
evict-drop cap [] = sym (drop-nil (0 - cap))
evict-drop cap (e ∷ l) = elim (Bool-cases (ltb cap (length (e ∷ l)))) [
  | inl over ↦
      let more : length (e ∷ l) - cap ≡ suc (length l - cap) = ground (arith, over) in
      rw (over, more) (evict-drop cap l)
  | inr fits ↦ let all : length (e ∷ l) - cap ≡ 0 = ground (arith, fits) in rw (fits, all) refl
]

-- After any calls the set holds exactly the last `max_entries` entries (one, if that is 0) of the list
-- of all prefixes ever seen, each with its latest sighting and in the order of these, and all of the
-- list if it is no longer: what is evicted is always the prefix that was seen least recently.
pub run-history :
    (max_entries ttl : ℕ) (calls : List Call)
    → (run (new_seen max_entries ttl) calls).seen
      ≡ drop (length (history calls) - max 1 max_entries) (history calls)
unfolding new_seen history
run-history max_entries ttl calls =
    run-window (new_seen max_entries ttl) [] calls tt (unfold evict in refl)
    ∙ evict-drop (max 1 max_entries) (history calls)

lookup-evict_last :
    (cap : ℕ) (k : Text) (now : ℕ) (l : Sightings)
    → 0 < cap
    → lookup k l ≡ none
    → lookup k (evict cap (l ++ (k, now) ∷ [])) ≡ some now
unfolding lookup evict
lookup-evict_last cap k now [] h a = ground (arith, beq_refl k)
lookup-evict_last cap k now ((i, t) ∷ l) h a =
    ground (arith, lookup-evict_last cap k now l, lookup-append_one k k now l, beq_refl k)

ttl-run : (s : PrefixSeenSet) (calls : List Call) → (run s calls).ttl ≡ s.ttl
unfolding run record_and_check
ttl-run s [] = refl
ttl-run s (c ∷ calls) = ttl-run (record_and_check s c.0 c.2 c.1).0 calls

-- After any calls on a new set: a prefix that was recorded at `now` counts as seen when it comes
-- again next, exactly if no more than the time to live has passed since.
pub record_and_check_twice :
    (max_entries ttl now later : ℕ) (digest tenant : Text) (calls : List Call)
    → (let s = run (new_seen max_entries ttl) calls in
        (record_and_check (record_and_check s now digest tenant).0 later digest tenant).1)
      ≡ leb later (now + ttl)
unfolding record_and_check is_recent new_seen
record_and_check_twice max_entries ttl now later digest tenant calls =
    let s = run (new_seen max_entries ttl) calls in
    let key = scoped_key tenant digest in
    let room : 0 < s.max_entries =
      omega (arith, max_entries-run (new_seen max_entries ttl) calls) in
    rw
      (lookup-evict_last s.max_entries key now (delete key s.seen) room
        (lookup-delete key key s.seen ∙ rw (beq_refl key) refl))
      (ap (λ (x : ℕ). leb later (now + x)) (ttl-run (new_seen max_entries ttl) calls))
