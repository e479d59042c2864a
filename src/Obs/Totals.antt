-- ===== src/Obs/Totals.antt =====
-- obs/sinks.py, `AggregateSink`: the running totals of a process.
use parcus.Prelude.{
  upsert, ℕ, ◌+◌, Bool, true, false, Option, none, some, List, [], map, fold, is_empty, ltb, nat_eq,
  list_eq, if◌then◌else◌, ℤ, pos, minus,
}
use parcus.Text.{Text, codes}
use parcus.Obs.{Floats, StageSummary, TenantSummary, Snapshot}
use parcus.Proxy.Engine.Outbound.{StageStat}
use parcus.Proxy.Engine.Result.{CacheOutcome, cache_hit}
use parcus.Proxy.Engine.Event.{SavingsEvent}

pub record StageTotals : Type 0 where
  pub before : ℕ
  pub after : ℕ
  pub checked : ℕ
  pub ok : ℕ

pub record TenantTotals : Type 0 where
  pub requests : ℕ
  pub before : ℕ
  pub after : ℕ

-- The state of the sink.
pub record Totals : Type 0 where
  pub requests : ℕ
  pub cache_hits : ℕ
  pub tokens_before : ℕ
  pub tokens_after : ℕ
  pub stages : List (Text × StageTotals)
  pub tenants : List (Text × TenantTotals)

abbrev pub no_totals : Totals
no_totals = record {
  requests = 0;
  cache_hits = 0;
  tokens_before = 0;
  tokens_after = 0;
  stages = [];
  tenants = [];
}

abbrev pub no_stage : StageTotals
no_stage = record { before = 0; after = 0; checked = 0; ok = 0 }

abbrev pub no_tenant : TenantTotals
no_tenant = record { requests = 0; before = 0; after = 0 }

abbrev pub is_hit : CacheOutcome → Bool
is_hit cache_hit = true
is_hit _ = false

-- One for a test that holds.
abbrev pub bit : Bool → ℕ
bit true = 1
bit false = 0

-- What an invariant that was checked, or was not, adds.
abbrev pub checked_of : Option Bool → ℕ
checked_of none = 0
checked_of (some held) = 1

abbrev pub ok_of : Option Bool → ℕ
ok_of none = 0
ok_of (some held) = bit held

abbrev pub stage_name : StageStat → Text
stage_name stat = codes stat.stage

abbrev pub add_stage : StageStat → StageTotals → StageTotals
add_stage stat acc = record {
  before = acc.before + stat.tokens_before;
  after = acc.after + stat.tokens_after;
  checked = acc.checked + checked_of stat.ok;
  ok = acc.ok + ok_of stat.ok;
}

abbrev pub tenant_name : SavingsEvent → Text
tenant_name event = event.tenant

abbrev pub add_tenant : SavingsEvent → TenantTotals → TenantTotals
add_tenant event acc = record {
  requests = acc.requests + 1;
  before = acc.before + event.tokens_before;
  after = acc.after + event.tokens_after;
}

unfoldable pub record_event : SavingsEvent → Totals → Totals
unfolding upsert
record_event event sink = record {
  requests = sink.requests + 1;
  cache_hits = sink.cache_hits + bit (is_hit event.cache);
  tokens_before = sink.tokens_before + event.tokens_before;
  tokens_after = sink.tokens_after + event.tokens_after;
  stages = fold (upsert stage_name add_stage no_stage) event.stages sink.stages;
  tenants =
      if is_empty event.tenant
      then sink.tenants
      else upsert tenant_name add_tenant no_tenant event sink.tenants;
}

module _ {F : Type 0} (floats : Floats F) where
  -- `round(a / b if b > 0 else 0.0, 4)`
  abbrev pub rate : ℤ → ℕ → F
  rate a b = floats.round4 (if ltb 0 b then floats.divide a b else floats.zero_float)

  -- `_stage_summary`
  unfoldable pub stage_summary : StageTotals → StageSummary F
  stage_summary acc = record {
    tokens_before = acc.before;
    tokens_after = acc.after;
    tokens_saved = minus acc.before acc.after;
    reduction = rate (minus acc.before acc.after) acc.before;
    accuracy =
        if ltb 0 acc.checked
        then some (floats.round4 (floats.divide (pos acc.ok) acc.checked))
        else none;
    checked = acc.checked;
  }

  -- `_tenant_summary`
  unfoldable pub tenant_summary : TenantTotals → TenantSummary F
  tenant_summary acc = record {
    requests = acc.requests;
    tokens_before = acc.before;
    tokens_after = acc.after;
    tokens_saved = minus acc.before acc.after;
    reduction =
        if ltb 0 acc.before
        then floats.round4 (floats.divide (minus acc.before acc.after) acc.before)
        else floats.zero_float;
  }

  unfoldable pub snapshot : Totals → Snapshot F
  unfolding stage_summary tenant_summary
  snapshot sink = record {
    requests = sink.requests;
    cache_hits = sink.cache_hits;
    cache_hit_rate = rate (pos sink.cache_hits) sink.requests;
    tokens_before = sink.tokens_before;
    tokens_after = sink.tokens_after;
    tokens_saved = minus sink.tokens_before sink.tokens_after;
    overall_ratio = rate (minus sink.tokens_before sink.tokens_after) sink.tokens_before;
    stages = map (λ (entry : Text × StageTotals). (entry.0, stage_summary entry.1)) sink.stages;
    by_tenant =
        map (λ (entry : Text × TenantTotals). (entry.0, tenant_summary entry.1)) sink.tenants;
  }
