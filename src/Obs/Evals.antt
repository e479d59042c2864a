-- ===== src/Obs/Evals.antt =====
-- obs/store.py, `record_eval`: which result of an eval gate the snapshot reports.
use mathlib.Core.List.{map-append}
use parcus.Prelude.{
  ap, ℕ, ◌+◌, ◌≤◌, Bool, true, false, some, none, List, [], ◌∷◌, ◌++◌, map, max, lookup, All,
  All-map, All-append, keep_if, keep_if-append, ◌==◌, ◌≡◌, refl, arith, nat_eq, list_eq, beq_refl,
  if◌then◌else◌, Bool-cases, inl, inr, last_of, last_of-append, lookup-dict_of_pairs, Option, ltb,
}
use parcus.Text.{Text}
use parcus.Obs.{Floats, EvalSummary}
use parcus.Obs.Store.{
  Database, EvalRow, record_event, record_eval, evals, eval_entry, latest_runs, is_latest, max_id,
}
use parcus.Obs.Totals.{bit}
use parcus.Proxy.Engine.Event.{SavingsEvent}

-- No row has an id above the last one that was given.
abbrev pub IsNumbered : {F : Type 0} → Database F → Type 0
IsNumbered {F = F} db = All (λ (e : EvalRow F). e.id ≤ db.last_id) db.eval_runs

passed_bit : (b : Bool) → ltb 0 (bit b) ≡ b
passed_bit true = refl
passed_bit false = refl

module _ {F : Type 0} where
  pub record_eval-IsNumbered :
      (fails : Bool) (kind : Text) (score : F) (passed : Bool) (db : Database F)
      → IsNumbered db
      → IsNumbered (record_eval fails kind score passed db)
  unfolding record_eval
  record_eval-IsNumbered true kind score passed db h = h
  record_eval-IsNumbered false kind score passed db h =
      All-append _ db.eval_runs _ (All-map (λ e le. omega arith) db.eval_runs h) (omega arith, tt)

  pub record_event-IsNumbered :
      (fails : Bool) (now : ℕ) (event : SavingsEvent) (db : Database F)
      → IsNumbered db
      → IsNumbered (record_event fails now event db)
  unfolding record_event
  record_event-IsNumbered true now event db h = h
  record_event-IsNumbered false now event db h = h

  max_id-append :
      (k : Text) (es : List (EvalRow F)) (new : EvalRow F)
      → max_id k (es ++ new ∷ [])
        ≡ (if new.kind == k then max (max_id k es) new.id else max_id k es)
  max_id-append k [] new = ground arith
  max_id-append k (e ∷ es) new = rw (max_id-append k es new) (ground arith)

  max_id-le :
      (n : ℕ) (k : Text) (es : List (EvalRow F))
      → All (λ (e : EvalRow F). e.id ≤ n) es
      → max_id k es ≤ n
  max_id-le n k [] h = omega arith
  max_id-le n k (e ∷ es) h = ground (arith, max_id-le n k es h.1)

  new_latest :
      (n : ℕ) (es : List (EvalRow F)) (new : EvalRow F)
      → new.id ≡ n + 1
      → All (λ (e : EvalRow F). e.id ≤ n) es
      → is_latest (es ++ new ∷ []) new ≡ true
  new_latest n es new p h =
      rw (max_id-append new.kind es new, beq_refl new.kind)
        (ground (arith, max_id-le n new.kind es h))

  module _ (floats : Floats F) where
    -- What a list of rows leaves for `k`, when it starts from `o`.
    abbrev reported : Text → List (EvalRow F) → Option (EvalSummary F) → Option (EvalSummary F)
    reported k es o = last_of k (map (eval_entry floats) es) o

    reported_if :
        (k : Text) (b : Bool) (e : EvalRow F) (es : List (EvalRow F)) (o : Option (EvalSummary F))
        → reported k (if b then e ∷ es else es) o
          ≡ reported k es
              (if b then (if e.kind == k then some (eval_entry floats e).1 else o) else o)
    reported_if k true e es o = refl
    reported_if k false e es o = refl

    -- A new row of another kind changes nothing for `k`.
    other_kind :
        (k : Text) (all : List (EvalRow F)) (new : EvalRow F)
        → (new.kind == k) ≡ false
        → (es : List (EvalRow F)) (o : Option (EvalSummary F))
        → reported k (keep_if (is_latest (all ++ new ∷ [])) es) o
          ≡ reported k (keep_if (is_latest all) es) o
    other_kind k all new h [] o = refl
    other_kind k all new h (e ∷ es) o =
        rw
          (
            reported_if k (is_latest (all ++ new ∷ []) e) e,
            reported_if k (is_latest all e) e,
            other_kind k all new h es,
          )
          (ap (reported k (keep_if (is_latest all) es)) (elim (Bool-cases (e.kind == k)) [
            | inl same ↦
                let at : e.kind ≡ k = (list_eq.beq_iff e.kind k).0 same in
                rw (at, max_id-append k all new) (rw (h, beq_refl k) refl)
            | inr other ↦ rw other (ground arith)
          ]))

    -- When the result of an eval gate is recorded, and the database does not fail, the snapshot reports
    -- that result for its kind, rounded, and for each other kind what it reported before. No row of
    -- the table has an id above the last one that was given.
    pub evals-record_eval :
        (kind : Text) (score : F) (passed : Bool) (db : Database F)
        → IsNumbered db
        → (k : Text)
        → lookup k (evals floats (record_eval false kind score passed db)) ≡ (
            if kind == k
            then some (record { score = floats.round4 score; passed = passed })
            else lookup k (evals floats db))
    unfolding evals record_eval latest_runs
    evals-record_eval kind score passed db h k =
        let new : EvalRow F = record {
          id = db.last_id + 1;
          kind = kind;
          score = score;
          passed = bit passed;
        } in
        rw
          (
            lookup-dict_of_pairs,
            lookup-dict_of_pairs,
            keep_if-append,
            map-append,
            last_of-append,
            new_latest (db.last_id) db.eval_runs new refl h,
          )
          (elim (Bool-cases (kind == k)) [
            | inl same ↦ rw (same, passed_bit passed) refl
            | inr other ↦ rw other (other_kind k db.eval_runs new other db.eval_runs none)
          ])
