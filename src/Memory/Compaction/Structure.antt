-- ===== src/Memory/Compaction/Structure.antt =====
-- What a compacted request looks like.
use mathlib.Core.Path.{subst, sym}
use parcus.Prelude.{
  ℕ, zero, suc, ◌+◌, ◌-◌, ◌≤◌, ◌<◌, ◌≡◌, ◌≢◌, refl, ap, ◌∙◌, Bool, true, false, none, some, List,
  [], ◌∷◌, ◌++◌, length, length-append, drop, leb, nat_eq, ◌==◌, arith, inl, inr, Option-cases,
  Bool-cases, if◌then◌else◌,
}
use parcus.Text.{Text}
use parcus.Model.{Role, user, role_eq, role_beq_iff, Message, CanonicalRequest}
use parcus.Memory.Compaction.{
  role_at, Search, raised, absent, found, user_at_or_before, window_start, rewrite, droppable,
  compact_with_memory, compact_by_summary, Compacted,
}

role_at-none : (ms : List Message) (i : ℕ) → role_at ms i ≡ none → length ms ≤ i
unfolding role_at
role_at-none [] i h = omega arith
role_at-none (m ∷ ms) zero h = cc
role_at-none (m ∷ ms) (suc i) h = omega (arith, role_at-none ms i h)

role_at-some : (ms : List Message) (i : ℕ) (role : Role) → role_at ms i ≡ some role → i < length ms
unfolding role_at
role_at-some [] i role h = cc
role_at-some (m ∷ ms) zero role h = omega arith
role_at-some (m ∷ ms) (suc i) role h = omega (arith, role_at-some ms i role h)

-- What the search may answer for a target.
abbrev Finds : List Message → ℕ → Search → Type 0
Finds ms target raised = length ms ≤ target
Finds ms target absent = Unit
Finds ms target (found i) = (i ≤ target) × (role_at ms i ≡ some user)

Finds-suc :
    (ms : List Message) (t : ℕ) (s : Search) → Finds ms t s → length ms ≢ suc t → Finds ms (suc t) s
Finds-suc ms t raised h n = omega arith
Finds-suc ms t absent h n = tt
Finds-suc ms t (found i) h n = (omega (arith, h.0), h.1)

user_at_or_before-Finds :
    (ms : List Message) (target : ℕ) → Finds ms target (user_at_or_before ms target)
unfolding user_at_or_before
user_at_or_before-Finds ms zero = elim (Option-cases (role_at ms zero)) [
  | inl e ↦ rw (e, user_at_or_before) (role_at-none ms zero e)
  | inr (role, e) ↦ elim (Bool-cases (role == user)) [
    | inl u ↦
        rw (e, user_at_or_before) (rw u (omega arith, e ∙ ap some ((role_beq_iff role user).0 u)))
    | inr u ↦ rw (e, user_at_or_before) (rw u tt)
  ]
]
user_at_or_before-Finds ms (suc t) = elim (Option-cases (role_at ms (suc t))) [
  | inl e ↦ rw (e, user_at_or_before) (role_at-none ms (suc t) e)
  | inr (role, e) ↦ elim (Bool-cases (role == user)) [
    | inl u ↦
        rw (e, user_at_or_before) (rw u (omega arith, e ∙ ap some ((role_beq_iff role user).0 u)))
    | inr u ↦
        rw (e, user_at_or_before)
          (rw u (
            Finds-suc ms t _ (user_at_or_before-Finds ms t)
              (λ q. absurd (omega (arith, role_at-some ms (suc t) role e)))))
  ]
]

-- What the guards let through.
abbrev Drops : List Message → ℕ → Search → Type 0
Drops ms keep_recent raised = keep_recent ≡ 0
Drops ms keep_recent absent = Unit
Drops ms keep_recent (found start) =
    (0 < start) × (start + keep_recent ≤ length ms) × (role_at ms start ≡ some user)

Drops-of_search :
    (ms : List Message) (keep_recent : ℕ) (s : Search)
    → 0 < length ms
    → Finds ms (length ms - keep_recent) s
    → Drops ms keep_recent (elim s [
      | raised ↦ raised
      | absent ↦ absent
      | found zero ↦ absent
      | found (suc start) ↦ found (suc start)
    ])
Drops-of_search ms k raised p h = omega arith
Drops-of_search ms k absent p h = tt
Drops-of_search ms k (found zero) p h = tt
Drops-of_search ms k (found (suc start)) p h = (omega arith, omega (arith, h.0), h.1)

droppable-Drops :
    (ms : List Message) (keep_recent min_messages : ℕ)
    → Drops ms keep_recent (droppable ms keep_recent min_messages)
unfolding droppable window_start
droppable-Drops ms keep_recent min_messages = elim (Bool-cases (leb (length ms) min_messages)) [
  | inl e ↦ rw e tt
  | inr e ↦ rw e (Drops-of_search ms keep_recent _ (ground arith) (user_at_or_before-Finds ms _))
]

-- A compacted request: of the old messages those in `dropped` are gone, some of them at least; the
-- first that is left is a user's, and `header` stands as an immutable span in front of its own spans;
-- the rest, which with it are `keep_recent` at least, are as they were; and so is all but the cache
-- breakpoint.
pub record IsWindow (r new : CanonicalRequest) (keep_recent : ℕ) : Type 0 where
  pub dropped : List Message
  pub first : Message
  pub rest : List Message
  pub header : Text
  pub split : r.messages ≡ dropped ++ first ∷ rest
  pub shorter : 0 < length dropped
  pub recent : keep_recent ≤ suc (length rest)
  pub opens_with_user : first.role ≡ user
  pub rewritten : new ≡ record r {
    messages =
        record {
          role = user;
          spans = record { text = header; mutable = false } ∷ first.spans;
          raw = none;
        }
        ∷ rest;
    cache_breakpoint = none;
  }

-- The messages before and behind the one at an index.
record SplitsAt (ms : List Message) (start : ℕ) (role : Role) : Type 0 where
  before : List Message
  at : Message
  behind : List Message
  whole : ms ≡ before ++ at ∷ behind
  counted : length before ≡ start
  has_role : at.role ≡ role
  dropping : drop start ms ≡ at ∷ behind

split_at :
    (ms : List Message) (start : ℕ) (role : Role)
    → role_at ms start ≡ some role
    → SplitsAt ms start role
unfolding role_at
split_at [] start role h = absurd (cc h)
split_at (m ∷ ms) zero role h = record {
  before = [];
  at = m;
  behind = ms;
  whole = refl;
  counted = refl;
  has_role = cc h;
  dropping = refl;
}
split_at (m ∷ ms) (suc start) role h =
    let s = split_at ms start role h in
    record {
      before = m ∷ s.before;
      at = s.at;
      behind = s.behind;
      whole = ap (λ l. m ∷ l) s.whole;
      counted = ap suc s.counted;
      has_role = s.has_role;
      dropping = s.dropping;
    }

rewrite-IsWindow :
    (r : CanonicalRequest) (start keep_recent : ℕ) (header : Text)
    → 0 < start
    → start + keep_recent ≤ length r.messages
    → role_at r.messages start ≡ some user
    → IsWindow r (rewrite r start header) keep_recent
unfolding rewrite
rewrite-IsWindow r start keep_recent header p k u =
    let s = split_at r.messages start user u in
    let n : length r.messages ≡ start + suc (length s.behind) =
      ap length s.whole ∙ length-append s.before (s.at ∷ s.behind) ∙ rw s.counted refl in
    record {
      dropped = s.before;
      first = s.at;
      rest = s.behind;
      header = header;
      split = s.whole;
      shorter = rw s.counted p;
      recent = omega (arith, n, k);
      opens_with_user = s.has_role;
      rewritten = rw (s.dropping, s.has_role) refl;
    }

-- The ways in which a compaction can end: it raises only without a recent window, it returns the
-- request itself, or it returns a window of it.
pub data Ends (r : CanonicalRequest) (keep_recent : ℕ) : Compacted → Type 0 where
  raises : keep_recent ≡ 0 → Ends r keep_recent none
  unchanged : Ends r keep_recent (some (r, false))
  compacts :
      {new : CanonicalRequest} → IsWindow r new keep_recent → Ends r keep_recent (some (new, true))

Ends-of_search :
    (r : CanonicalRequest) (keep_recent : ℕ) (s : Search) (blank : ℕ → Bool) (header : ℕ → Text)
    → Drops r.messages keep_recent s
    → Ends r keep_recent (elim s [
      | raised ↦ none
      | absent ↦ some (r, false)
      | found start ↦
          if blank start then some (r, false) else some (rewrite r start (header start), true)
    ])
Ends-of_search r k raised blank header h = raises h
Ends-of_search r k absent blank header h = unchanged
Ends-of_search r k (found start) blank header h = elim (Bool-cases (blank start)) [
  | inl e ↦ rw e unchanged
  | inr e ↦ rw e (compacts (rewrite-IsWindow r start k (header start) h.0 h.1 h.2))
]

-- Whatever the memory returns, `compact_with_memory` returns the request itself or a window of it
-- that keeps at least `keep_recent` turns, drops at least one and begins with a user's turn; it
-- raises only for `keep_recent` 0.
pub compact_with_memory-Ends :
    (r : CanonicalRequest) (relevant : Text → List Text) (keep_recent min_messages : ℕ)
    → Ends r keep_recent (compact_with_memory r relevant keep_recent min_messages)
unfolding compact_with_memory
compact_with_memory-Ends r relevant keep_recent min_messages =
    Ends-of_search r keep_recent _ _ _ (droppable-Drops r.messages keep_recent min_messages)

-- The same of `compact_by_summary`, whatever the summariser returns.
pub compact_by_summary-Ends :
    (r : CanonicalRequest) (summarize : List Text → Text) (keep_recent min_messages : ℕ)
    → Ends r keep_recent (compact_by_summary r summarize keep_recent min_messages)
unfolding compact_by_summary
compact_by_summary-Ends r summarize keep_recent min_messages =
    Ends-of_search r keep_recent _ _ _ (droppable-Drops r.messages keep_recent min_messages)

role_at-length : (ms : List Message) → role_at ms (length ms) ≡ none
unfolding role_at
role_at-length [] = refl
role_at-length (m ∷ ms) = role_at-length ms

search-length : (ms : List Message) (n : ℕ) → n ≡ length ms → user_at_or_before ms n ≡ raised
unfolding user_at_or_before
search-length ms zero e =
    rw (subst (λ i. role_at ms i ≡ none) (sym e) (role_at-length ms), user_at_or_before)
search-length ms (suc n) e =
    rw (subst (λ i. role_at ms i ≡ none) (sym e) (role_at-length ms), user_at_or_before)

droppable_without_recent :
    (ms : List Message) (min_messages : ℕ)
    → min_messages < length ms
    → droppable ms 0 min_messages ≡ raised
unfolding droppable window_start
droppable_without_recent ms min_messages h =
    let long : leb (length ms) min_messages ≡ false = ground arith in
    rw (long, search-length ms (length ms - 0) (omega arith))

-- With `keep_recent` 0 the search for the window begins behind the last message: both compactions
-- raise on every request that is long enough to be compacted, so none ever is.
pub compact_without_recent :
    (r : CanonicalRequest) (relevant : Text → List Text) (summarize : List Text → Text)
    (min_messages : ℕ)
    → min_messages < length r.messages
    → (compact_with_memory r relevant 0 min_messages ≡ none)
      × (compact_by_summary r summarize 0 min_messages ≡ none)
unfolding compact_with_memory compact_by_summary
compact_without_recent r relevant summarize min_messages h =
    let d = droppable_without_recent r.messages min_messages h in
    (rw (d, compact_with_memory), rw (d, compact_by_summary))
