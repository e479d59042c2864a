-- ===== src/Obs/Store.antt =====
-- obs/store.py, `SqliteMetricsSink`: the tables `events`, `stage_events` and `eval_runs`, and the
-- queries of `snapshot`. A write is one transaction: `fails` says that the database raised, and then
-- nothing is written. What `GROUP BY` lists, each key of its rows, is a parameter.
use parcus.Prelude.{
  dict_of, ℕ, ◌+◌, Bool, true, false, not, Option, none, some, List, [], ◌∷◌, ◌++◌, map, max,
  keep_if, is_empty, length, ltb, ◌==◌, nat_eq, list_eq, if◌then◌else◌, ℤ, pos, minus,
}
use parcus.Text.{Text}
use parcus.Model.{Dialect}
use parcus.Obs.{Floats, StageSummary, TenantSummary, EvalSummary, Snapshot}
use parcus.Obs.Totals.{bit, is_hit, stage_name}
use parcus.Proxy.Engine.Outbound.{StageStat}
use parcus.Proxy.Engine.Result.{CacheOutcome}
use parcus.Proxy.Engine.Event.{SavingsEvent}

pub record EventRow : Type 0 where
  pub dialect : Dialect
  pub cache : CacheOutcome
  pub tokens_before : ℕ
  pub tokens_after : ℕ
  pub status_code : ℕ
  pub created_at : ℕ
  pub tenant : Text

pub record StageRow : Type 0 where
  pub stage : Text
  pub tokens_before : ℕ
  pub tokens_after : ℕ
  pub ok : Option ℕ

pub record EvalRow (F : Type 0) : Type 0 where
  pub id : ℕ
  pub kind : Text
  pub score : F
  pub passed : ℕ

-- The rows in the order in which they were written.
pub record Database (F : Type 0) : Type 0 where
  pub events : List EventRow
  pub stage_events : List StageRow
  pub eval_runs : List (EvalRow F)
  -- `AUTOINCREMENT`: the largest id that was given
  pub last_id : ℕ

abbrev pub no_rows : {F : Type 0} → Database F
no_rows = record { events = []; stage_events = []; eval_runs = []; last_id = 0 }

-- `_as_int`
abbrev pub as_int : Option Bool → Option ℕ
as_int none = none
as_int (some held) = some (bit held)

abbrev pub event_row : ℕ → SavingsEvent → EventRow
event_row now event = record {
  dialect = event.dialect;
  cache = event.cache;
  tokens_before = event.tokens_before;
  tokens_after = event.tokens_after;
  status_code = event.status_code;
  created_at = now;
  tenant = event.tenant;
}

abbrev pub stage_row : StageStat → StageRow
stage_row stat = record {
  stage = stage_name stat;
  tokens_before = stat.tokens_before;
  tokens_after = stat.tokens_after;
  ok = as_int stat.ok;
}

-- `SUM(column)` and `COUNT(column)` with the rows that SQL counts.
abbrev pub sum_by {ℓ} : {A : Type ℓ} → (A → ℕ) → List A → ℕ
sum_by f [] = 0
sum_by f (x ∷ xs) = f x + sum_by f xs

abbrev pub present : Option ℕ → ℕ
present none = 0
present (some n) = 1

-- `SUM` skips NULL.
abbrev pub value_or_zero : Option ℕ → ℕ
value_or_zero none = 0
value_or_zero (some n) = n

abbrev pub stage_of : StageRow → Text
stage_of row = row.stage

abbrev pub tenant_of : EventRow → Text
tenant_of row = row.tenant

-- `WHERE tenant != ''`
abbrev pub credentialed : List EventRow → List EventRow
credentialed = keep_if (λ (row : EventRow). not (is_empty row.tenant))

module _ {F : Type 0} where
  unfoldable pub record_event : Bool → ℕ → SavingsEvent → Database F → Database F
  record_event true now event db = db
  record_event false now event db = record db {
    events = db.events ++ event_row now event ∷ [];
    stage_events = db.stage_events ++ map stage_row event.stages;
  }

  unfoldable pub record_eval : Bool → Text → F → Bool → Database F → Database F
  record_eval true kind score passed db = db
  record_eval false kind score passed db = record db {
    eval_runs =
        db.eval_runs
        ++ record { id = db.last_id + 1; kind = kind; score = score; passed = bit passed } ∷ [];
    last_id = db.last_id + 1;
  }

  abbrev pub runs_of : Text → List (EvalRow F) → List (EvalRow F)
  runs_of k = keep_if (λ (e : EvalRow F). e.kind == k)

  -- `SELECT MAX(id) FROM eval_runs WHERE kind = k`
  abbrev pub max_id : Text → List (EvalRow F) → ℕ
  max_id k [] = 0
  max_id k (e ∷ es) = if e.kind == k then max e.id (max_id k es) else max_id k es

  abbrev pub is_latest : List (EvalRow F) → EvalRow F → Bool
  is_latest all e = e.id == max_id e.kind all

  unfoldable pub latest_runs : Database F → List (EvalRow F)
  latest_runs db = keep_if (is_latest db.eval_runs) db.eval_runs

module _ {F : Type 0} (floats : Floats F) where
  -- `round(a / b, 4) if b else 0.0`
  abbrev pub rate : ℤ → ℕ → F
  rate a b = if ltb 0 b then floats.round4 (floats.divide a b) else floats.zero_float

  -- `_stage_summary`
  unfoldable pub stage_summary : ℕ → ℕ → ℕ → ℕ → StageSummary F
  stage_summary before after checked oks = record {
    tokens_before = before;
    tokens_after = after;
    tokens_saved = minus before after;
    reduction = rate (minus before after) before;
    accuracy =
        if ltb 0 checked then some (floats.round4 (floats.divide (pos oks) checked)) else none;
    checked = checked;
  }

  -- `_tenant_summary`
  unfoldable pub tenant_summary : ℕ → ℕ → ℕ → TenantSummary F
  tenant_summary requests before after = record {
    requests = requests;
    tokens_before = before;
    tokens_after = after;
    tokens_saved = minus before after;
    reduction = rate (minus before after) before;
  }

  abbrev pub stage_group : List StageRow → Text → StageSummary F
  stage_group rows name =
      let group = keep_if (λ (row : StageRow). row.stage == name) rows in
      stage_summary (sum_by (λ (row : StageRow). row.tokens_before) group)
        (sum_by (λ (row : StageRow). row.tokens_after) group)
        (sum_by (λ (row : StageRow). present row.ok) group)
        (sum_by (λ (row : StageRow). value_or_zero row.ok) group)

  abbrev pub tenant_group : List EventRow → Text → TenantSummary F
  tenant_group rows name =
      let group = keep_if (λ (row : EventRow). row.tenant == name) rows in
      tenant_summary (length group) (sum_by (λ (row : EventRow). row.tokens_before) group)
        (sum_by (λ (row : EventRow). row.tokens_after) group)

  unfoldable pub snapshot : (List Text → List Text) → Database F → Snapshot F
  unfolding dict_of stage_summary tenant_summary
  snapshot groups db =
      let hits = sum_by (λ (row : EventRow). bit (is_hit row.cache)) db.events in
      let before = sum_by (λ (row : EventRow). row.tokens_before) db.events in
      let after = sum_by (λ (row : EventRow). row.tokens_after) db.events in
      let stages = groups (map stage_of db.stage_events) in
      let tenants = groups (map tenant_of (credentialed db.events)) in
      record {
        requests = length db.events;
        cache_hits = hits;
        cache_hit_rate = rate (pos hits) (length db.events);
        tokens_before = before;
        tokens_after = after;
        tokens_saved = minus before after;
        overall_ratio = rate (minus before after) before;
        stages = dict_of (map (λ k. (k, stage_group db.stage_events k)) stages);
        by_tenant = dict_of (map (λ k. (k, tenant_group (credentialed db.events) k)) tenants);
      }

  abbrev pub eval_entry : EvalRow F → Text × EvalSummary F
  eval_entry e = (e.kind, record { score = floats.round4 e.score; passed = ltb 0 e.passed })

  -- The section `evals` of the snapshot.
  unfoldable pub evals : Database F → List (Text × EvalSummary F)
  unfolding latest_runs dict_of
  evals db = dict_of (map eval_entry (latest_runs db))
