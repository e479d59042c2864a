-- ===== src/Obs/Sink.antt =====
-- obs/sinks.py: the sinks, and cli.py's choice of them. A logging sink holds the events that it wrote
-- to its logger.
use mathlib.Core.List.{append-nil, append_assoc}
use parcus.Prelude.{if◌then◌else◌, Bool, true, false, List, [], ◌∷◌, ◌++◌, map, fold, ◌≡◌, refl}
use parcus.Obs.Totals.{Totals}
use parcus.Obs.Store.{Database, no_rows}
use parcus.Obs.Runs.{Call, store_call}
use parcus.Proxy.Engine.Event.{SavingsEvent}
use parcus.Obs.Totals
use parcus.Obs.Store

mutual
  pub data Sink (F : Type 0) : Type 0 where
    null_sink : Sink F
    logging : List SavingsEvent → Sink F
    aggregate : Totals → Sink F
    sqlite : Database F → Sink F
    multi : Sinks F → Sink F

  pub data Sinks (F : Type 0) : Type 0 where
    no_sinks : Sinks F
    also : Sink F → Sinks F → Sinks F

-- `record` of each sink.
unfoldable mutual
  unfolding Totals.record_event Store.record_event

  pub record_in : {F : Type 0} → Call → Sink F → Sink F
  record_in c null_sink = null_sink
  record_in c (logging events) = logging (events ++ c.event ∷ [])
  record_in c (aggregate totals) = aggregate (Totals.record_event c.event totals)
  record_in c (sqlite db) = sqlite (store_call c db)
  record_in c (multi sinks) = multi (record_in_all c sinks)

  pub record_in_all : {F : Type 0} → Call → Sinks F → Sinks F
  record_in_all c no_sinks = no_sinks
  record_in_all c (also sink sinks) = also (record_in c sink) (record_in_all c sinks)

-- `_build_metrics`
unfoldable pub build_metrics : {F : Type 0} → Bool → Sink F
build_metrics false = null_sink
build_metrics true = multi (also (logging []) (also (sqlite no_rows) no_sinks))

module _ {F : Type 0} where
  build_run :
      (cs : List Call) (events : List SavingsEvent) (db : Database F)
      → fold record_in cs (multi (also (logging events) (also (sqlite db) no_sinks)))
        ≡ multi (
            also
              (logging (events ++ map (λ (c : Call). c.event) cs))
              (also (sqlite (fold store_call cs db)) no_sinks))
  unfolding record_in
  build_run [] events db = rw (append-nil events) refl
  build_run (c ∷ cs) events db =
      rw (build_run cs (events ++ c.event ∷ []) (store_call c db), append_assoc) refl

  null_run : (cs : List Call) → fold {B = Sink F} record_in cs null_sink ≡ null_sink
  unfolding record_in
  null_run [] = refl
  null_run (c ∷ cs) = null_run cs

  -- With metrics on, each event is logged, in order, and goes to the tables, where alone a failure of
  -- the database can lose it; with metrics off, nothing is kept.
  pub build_metrics-run :
      (metrics : Bool) (cs : List Call)
      → fold {B = Sink F} record_in cs (build_metrics metrics) ≡ (
          if metrics
          then multi (
              also
                (logging (map (λ (c : Call). c.event) cs))
                (also (sqlite (fold store_call cs no_rows)) no_sinks))
          else null_sink)
  unfolding build_metrics
  build_metrics-run true cs = build_run cs [] no_rows
  build_metrics-run false cs = null_run cs
