-- ===== src/Obs/Runs.antt =====
-- obs/sinks.py and obs/store.py: what the tables hold after any calls, against the running totals.
use native.Mathlib.Nat.{add-zero, add_assoc}
use mathlib.Core.List.{append-nil, append_assoc, map-append}
use parcus.Prelude.{
  Bool-cases, upsert, ℕ, ◌+◌, Bool, not, Option, none, some, List, [], ◌∷◌, inl, inr, ◌++◌, map,
  fold, fold-append, keep_if, is_empty, length, ◌==◌, ◌≡◌, refl, nat_eq, list_eq, if◌then◌else◌,
  arith, concat_map,
}
use parcus.Obs.Store.{
  as_int, Database, EventRow, StageRow, no_rows, event_row, stage_row, sum_by, present,
  value_or_zero, credentialed,
}
use parcus.Text.{Text}
use parcus.Obs.Totals.{
  Totals, StageTotals, TenantTotals, no_totals, no_stage, no_tenant, add_stage, add_tenant,
  stage_name, tenant_name, bit, is_hit, checked_of, ok_of,
}
use parcus.Proxy.Engine.Outbound.{StageStat}
use parcus.Proxy.Engine.Event.{SavingsEvent}
use parcus.Obs.Totals
use parcus.Obs.Store

-- A call of `record`, when it is made, and whether the database fails in it.
pub record Call : Type 0 where
  pub fails : Bool
  pub now : ℕ
  pub event : SavingsEvent

abbrev pub store_call : {F : Type 0} → Call → Database F → Database F
unfolding Store.record_event
store_call c db = Store.record_event c.fails c.now c.event db

-- The events of the calls that reached the tables, and their rows.
unfoldable pub written : List Call → List SavingsEvent
written [] = []
written (c ∷ cs) = let rest = written cs in if c.fails then rest else c.event ∷ rest

unfoldable pub rows_of : List Call → List EventRow
rows_of [] = []
rows_of (c ∷ cs) = let rest = rows_of cs in if c.fails then rest else event_row c.now c.event ∷ rest

abbrev pub stats_of : List SavingsEvent → List StageStat
stats_of = concat_map (λ (e : SavingsEvent). e.stages)

abbrev pub scoped : List SavingsEvent → List SavingsEvent
scoped = keep_if (λ (e : SavingsEvent). not (is_empty e.tenant))

module _ {F : Type 0} where
  pub store_run :
      (cs : List Call) (db : Database F)
      → fold store_call cs db ≡ record db {
        events = db.events ++ rows_of cs;
        stage_events = db.stage_events ++ map stage_row (stats_of (written cs));
      }
  unfolding rows_of written Store.record_event
  store_run [] db = rw (append-nil db.events, append-nil db.stage_events) refl
  store_run (c ∷ cs) db = elim (Bool-cases c.fails) [
    | inl f ↦ rw (f, Store.record_event) (store_run cs db)
    | inr f ↦
        rw (f, Store.record_event)
          (rw
            (
              store_run cs (record db {
                events = db.events ++ event_row c.now c.event ∷ [];
                stage_events = db.stage_events ++ map stage_row c.event.stages;
              }),
              append_assoc,
              map-append,
              append_assoc,
            )
            refl)
  ]

pub totals_run :
    (cs : List Call) (t : Totals)
    → fold Totals.record_event (written cs) t ≡ record {
      requests = t.requests + length (rows_of cs);
      cache_hits = t.cache_hits + sum_by (λ (row : EventRow). bit (is_hit row.cache)) (rows_of cs);
      tokens_before = t.tokens_before + sum_by (λ (row : EventRow). row.tokens_before) (rows_of cs);
      tokens_after = t.tokens_after + sum_by (λ (row : EventRow). row.tokens_after) (rows_of cs);
      stages = fold (upsert stage_name add_stage no_stage) (stats_of (written cs)) t.stages;
      tenants = fold (upsert tenant_name add_tenant no_tenant) (scoped (written cs)) t.tenants;
    }
unfolding rows_of written Totals.record_event
totals_run [] t = simp add-zero
totals_run (c ∷ cs) t = elim (Bool-cases c.fails) [
  | inl f ↦ rw f (totals_run cs t)
  | inr f ↦
      rw (f, totals_run cs (Totals.record_event c.event t))
        (elim (Bool-cases (is_empty c.event.tenant)) [
          | inl e ↦ rw (e, add_assoc, fold-append) (ground arith)
          | inr e ↦ rw (e, add_assoc, fold-append) (ground arith)
        ])
]

checked_row : (o : Option Bool) → checked_of o ≡ present (as_int o)
checked_row none = refl
checked_row (some b) = refl

ok_row : (o : Option Bool) → ok_of o ≡ value_or_zero (as_int o)
ok_row none = refl
ok_row (some b) = refl

-- The sums of a group of rows are its running totals.
pub stage_fold :
    (k : Text) (stats : List StageStat) (v : StageTotals)
    → fold add_stage (keep_if (λ (s : StageStat). stage_name s == k) stats) v ≡ (
        let group = keep_if (λ (row : StageRow). row.stage == k) (map stage_row stats) in
        record {
          before = v.before + sum_by (λ (row : StageRow). row.tokens_before) group;
          after = v.after + sum_by (λ (row : StageRow). row.tokens_after) group;
          checked = v.checked + sum_by (λ (row : StageRow). present row.ok) group;
          ok = v.ok + sum_by (λ (row : StageRow). value_or_zero row.ok) group;
        })
stage_fold k [] v = simp add-zero
stage_fold k (s ∷ ss) v = elim (Bool-cases (stage_name s == k)) [
  | inl same ↦
      rw (same, stage_fold k ss (add_stage s v)) (rw (checked_row s.ok, ok_row s.ok) (ground arith))
  | inr other ↦ rw (other, stage_fold k ss v) refl
]

pub tenant_fold :
    (k : Text) (cs : List Call) (v : TenantTotals)
    → fold add_tenant (keep_if (λ (e : SavingsEvent). tenant_name e == k) (scoped (written cs))) v
      ≡ (let group =
            keep_if
              (λ (row : EventRow). row.tenant == k)
              (keep_if (λ (row : EventRow). not (is_empty row.tenant)) (rows_of cs)) in
          record {
            requests = v.requests + length group;
            before = v.before + sum_by (λ (row : EventRow). row.tokens_before) group;
            after = v.after + sum_by (λ (row : EventRow). row.tokens_after) group;
          })
unfolding rows_of written
tenant_fold k [] v = simp add-zero
tenant_fold k (c ∷ cs) v = elim (Bool-cases c.fails) [
  | inl f ↦ rw f (tenant_fold k cs v)
  | inr f ↦ rw f (elim (Bool-cases (is_empty c.event.tenant)) [
    | inl e ↦ rw e (tenant_fold k cs v)
    | inr e ↦ rw e (elim (Bool-cases (c.event.tenant == k)) [
      | inl same ↦ rw (same, tenant_fold k cs (add_tenant c.event v)) (rw add_assoc (ground arith))
      | inr other ↦ rw other (tenant_fold k cs v)
    ])
  ])
]
