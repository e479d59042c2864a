-- ===== src/Obs/Agree.antt =====
-- obs/sinks.py and obs/store.py: the snapshots of the running totals and of the tables.
use native.Mathlib.Nat.{zero-add}
use parcus.Prelude.{
  ap, ◌∙◌, some, of_key, Bool-cases, inl, inr, refl, nat_eq, list_eq, arith, lookup-dict_of,
  lookup-fold-upsert, lookup-map_values, dict_of, [], ◌∷◌, upsert, map, lookup, fold, ◌≡◌, contains,
  ℤ, minus,
}
use parcus.Obs.Totals.{
  no_stage, add_stage, stage_name, no_tenant, add_tenant, no_totals, tenant_name, TenantTotals,
  StageTotals,
}
use parcus.Obs.Store.{stage_row, no_rows}
use parcus.Text.{Text}
use parcus.Proxy.Engine.Outbound.{StageStat}
use parcus.Obs.{ℕ, List, Text, Floats, Snapshot}
use parcus.Obs.Runs.{
  Call, store_call, written, rows_of, stats_of, scoped, store_run, totals_run, stage_fold,
  tenant_fold,
}
use parcus.Obs.Totals
use parcus.Obs.Store

-- One summary of the same numbers: dicts are compared by what they hold for each key.
abbrev pub IsSame : {F : Type 0} → Snapshot F → Snapshot F → Type 0
IsSame a b =
    (a.requests ≡ b.requests)
    × (a.cache_hits ≡ b.cache_hits)
    × (a.cache_hit_rate ≡ b.cache_hit_rate)
    × (a.tokens_before ≡ b.tokens_before)
    × (a.tokens_after ≡ b.tokens_after)
    × (a.tokens_saved ≡ b.tokens_saved)
    × (a.overall_ratio ≡ b.overall_ratio)
    × ((k : Text) → lookup k a.stages ≡ lookup k b.stages)
    × ((k : Text) → lookup k a.by_tenant ≡ lookup k b.by_tenant)

names_rows :
    (stats : List StageStat) → map Store.stage_of (map stage_row stats) ≡ map stage_name stats
names_rows [] = refl
names_rows (s ∷ ss) = rw (names_rows ss) refl

tenants_rows :
    (cs : List Call)
    → map Store.tenant_of (Store.credentialed (rows_of cs)) ≡ map tenant_name (scoped (written cs))
unfolding rows_of written
tenants_rows [] = refl
tenants_rows (c ∷ cs) = ground (arith, tenants_rows cs)

module _ {F : Type 0} (floats : Floats F)
    (round_zero : floats.round4 floats.zero_float ≡ floats.zero_float) where
  rate_same : (a : ℤ) (b : ℕ) → Totals.rate floats a b ≡ Store.rate floats a b
  rate_same a b = ground (arith, round_zero)

  stage_summary_same :
      (v : StageTotals)
      → Totals.stage_summary floats v ≡ Store.stage_summary floats v.before v.after v.checked v.ok
  unfolding Totals.stage_summary Store.stage_summary
  stage_summary_same v = rw (rate_same (minus v.before v.after) v.before) refl

  tenant_summary_same :
      (v : TenantTotals)
      → Totals.tenant_summary floats v ≡ Store.tenant_summary floats v.requests v.before v.after
  unfolding Totals.tenant_summary Store.tenant_summary
  tenant_summary_same v = refl

  stage_total :
      (k : Text) (stats : List StageStat)
      → Totals.stage_summary floats (fold add_stage (of_key stage_name k stats) no_stage)
        ≡ Store.stage_group floats (map stage_row stats) k
  stage_total k stats =
      stage_summary_same (fold add_stage (of_key stage_name k stats) no_stage)
      ∙ rw (stage_fold k stats no_stage) (rw (zero-add, zero-add, zero-add, zero-add) refl)

  tenant_total :
      (k : Text) (cs : List Call)
      → Totals.tenant_summary floats
          (fold add_tenant (of_key tenant_name k (scoped (written cs))) no_tenant)
        ≡ Store.tenant_group floats (Store.credentialed (rows_of cs)) k
  tenant_total k cs =
      tenant_summary_same (fold add_tenant (of_key tenant_name k (scoped (written cs))) no_tenant)
      ∙ rw (tenant_fold k cs no_tenant) (rw (zero-add, zero-add, zero-add) refl)

  module _ (groups : List Text → List Text)
      (group_by : (k : Text) (ks : List Text) → contains k (groups ks) ≡ contains k ks) where
    stages_same :
        (k : Text) (stats : List StageStat)
        → lookup k (
            map
              (λ (entry : Text × StageTotals). (entry.0, Totals.stage_summary floats entry.1))
              (fold (upsert stage_name add_stage no_stage) stats []))
          ≡ lookup k (
              dict_of (
                map
                  (λ j. (j, Store.stage_group floats (map stage_row stats) j))
                  (groups (map Store.stage_of (map stage_row stats)))))
    unfolding lookup
    stages_same k stats =
        rw
          (
            lookup-map_values (Totals.stage_summary floats),
            lookup-fold-upsert stage_name add_stage no_stage k stats [],
            lookup-dict_of k (Store.stage_group floats (map stage_row stats)),
            group_by,
            names_rows,
          )
          (elim (Bool-cases (contains k (map stage_name stats))) [
            | inl e ↦ rw e (ap some (stage_total k stats))
            | inr e ↦ rw e refl
          ])

    tenants_same :
        (k : Text) (cs : List Call)
        → lookup k (
            map
              (λ (entry : Text × TenantTotals). (entry.0, Totals.tenant_summary floats entry.1))
              (fold (upsert tenant_name add_tenant no_tenant) (scoped (written cs)) []))
          ≡ lookup k (
              dict_of (
                map
                  (λ j. (j, Store.tenant_group floats (Store.credentialed (rows_of cs)) j))
                  (groups (map Store.tenant_of (Store.credentialed (rows_of cs))))))
    unfolding lookup
    tenants_same k cs =
        rw
          (
            lookup-map_values (Totals.tenant_summary floats),
            lookup-fold-upsert tenant_name add_tenant no_tenant k (scoped (written cs)) [],
            lookup-dict_of k (Store.tenant_group floats (Store.credentialed (rows_of cs))),
            group_by,
            tenants_rows,
          )
          (elim (Bool-cases (contains k (map tenant_name (scoped (written cs))))) [
            | inl e ↦ rw e (ap some (tenant_total k cs))
            | inr e ↦ rw e refl
          ])

    -- After any calls of `record`, of which some may have failed in the database, the snapshot of the
    -- tables is the snapshot of the running totals of the events that were written: the same totals,
    -- rates, and summary of each stage and of each credentialed tenant. Rounding keeps zero, and
    -- `GROUP BY` lists the keys of its rows, in any order.
    pub snapshot-IsSame :
        (cs : List Call)
        → IsSame
            (Totals.snapshot floats (fold Totals.record_event (written cs) no_totals))
            (Store.snapshot floats groups (fold (store_call {F = F}) cs no_rows))
    unfolding Totals.snapshot Store.snapshot
    snapshot-IsSame cs =
        rw (totals_run cs no_totals, store_run cs no_rows)
          (
            zero-add _,
            zero-add _,
            rw (zero-add, zero-add) (rate_same _ _),
            zero-add _,
            zero-add _,
            rw (zero-add, zero-add) refl,
            rw (zero-add, zero-add) (rate_same _ _),
            (λ k. stages_same k (stats_of (written cs))),
            (λ k. tenants_same k cs),
          )
