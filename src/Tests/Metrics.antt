-- ===== src/Tests/Metrics.antt =====
-- obs/*.py on concrete events and tables.
use parcus.Prelude.{
  ◌≡◌, refl, ◌*◌, ◌/◌, true, false, none, some, List, [], ◌∷◌, fold, nat_eq, list_eq, ℤ, pos,
  negsuc,
}
use parcus.Text.{Text, codes}
use parcus.Model.{anthropic}
use parcus.Obs.{Floats}
use parcus.Obs.Totals.{no_totals}
use parcus.Obs.Store.{Database, no_rows, record_eval, evals}
use parcus.Obs.Runs.{Call, store_call, written}
use parcus.Obs.Agree.{IsSame, snapshot-IsSame}
use parcus.Obs.Sink.{null_sink, record_in, build_metrics, build_metrics-run}
use parcus.Proxy.Engine.Result.{CacheOutcome, cache_hit, cache_miss}
use parcus.Proxy.Engine.Event.{SavingsEvent}
use parcus.Obs.Totals
use parcus.Obs.Store

-- Fractions in steps of a ten-thousandth, rounded down.
abbrev floats : Floats ℤ
floats = record {
  zero_float = pos 0;
  divide = λ a b. elim a [ pos n ↦ pos (n * 10_000 / b) | negsuc n ↦ negsuc (n * 10_000 / b) ];
  round4 = λ x. x;
}

abbrev event : CacheOutcome → Text → SavingsEvent
event cache tenant = record {
  request_id = [];
  dialect = anthropic;
  cache = cache;
  canonicalized = true;
  tokens_before = 40;
  tokens_after = 30;
  status_code = 200;
  stages =
      record { stage = "lossless"; tokens_before = 40; tokens_after = 34; ok = some true }
      ∷ record { stage = "filler"; tokens_before = 34; tokens_after = 30; ok = none }
      ∷ [];
  tenant = tenant;
  upstream_usage = none;
}

abbrev calls : List Call
calls =
    record { fails = false; now = 1; event = event cache_miss (codes "a") }
    ∷ record { fails = true; now = 2; event = event cache_miss [] }
    ∷ record { fails = false; now = 3; event = event cache_hit [] }
    ∷ []

snapshot-IsSame_example :
    IsSame
      (Totals.snapshot floats (fold Totals.record_event (written calls) no_totals))
      (Store.snapshot floats (λ ks. ks) (fold store_call calls no_rows))
snapshot-IsSame_example = snapshot-IsSame floats refl (λ ks. ks) (λ k ks. refl) calls

-- Two of the three calls are counted, one of them a hit; the stage was checked in both.
snapshot_counts :
    (Store.snapshot floats (λ ks. ks) (fold store_call calls no_rows)).cache_hit_rate ≡ pos 5000
unfolding Store.snapshot Store.record_event
snapshot_counts = refl

abbrev gates : Database ℤ
gates = record_eval false (codes "filler") (pos 9) true no_rows

build_metrics-run_example : fold record_in calls (build_metrics {F = ℤ} false) ≡ null_sink
build_metrics-run_example = build_metrics-run false calls
