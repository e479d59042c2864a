-- ===== src/Proxy/Engine/Event.antt =====
-- proxy/engine.py, `handle`: the event of savings that is recorded for each answer of `_handle`. The
-- id that is drawn where the request has none is an argument; the duration is left out.
use parcus.Prelude.{ℕ, Bool, Option, none, some, List, [], ◌∷◌}
use parcus.Text.{Text, codes}
use parcus.Model.{Dialect}
use parcus.Tenant.{Headers, header}
use parcus.Proxy.Usage.{ProviderUsage}
use parcus.Proxy.Engine.Outbound.{StageStat}
use parcus.Proxy.Engine.Result.{
  CacheOutcome, Measured, ProxyResult, Request, Begun, replied, forwarded,
}
use parcus.Proxy.Engine.Handle.{is_some}

pub record SavingsEvent : Type 0 where
  pub request_id : Text
  pub dialect : Dialect
  pub cache : CacheOutcome
  pub canonicalized : Bool
  pub tokens_before : ℕ
  pub tokens_after : ℕ
  pub status_code : ℕ
  pub stages : List StageStat
  pub tenant : Text
  pub upstream_usage : Option ProviderUsage

abbrev nonempty_or : Option Text → Text → Text
nonempty_or none t = t
nonempty_or (some []) t = t
nonempty_or (some (c ∷ s)) t = c ∷ s

-- `_request_id`
unfoldable pub request_id : (Text → Text) → Text → Headers → Text
unfolding header
request_id lower fresh hs =
    nonempty_or (header lower (codes "x-request-id") hs)
      (nonempty_or (header lower (codes "x-correlation-id") hs) fresh)

abbrev before_of : Option Measured → ℕ
before_of none = 0
before_of (some m) = m.tokens_before

abbrev after_of : Option Measured → ℕ
after_of none = 0
after_of (some m) = m.tokens_after

abbrev stages_of : Option Measured → List StageStat
stages_of none = []
stages_of (some m) = m.stages

unfoldable pub event_of : (Text → Text) → Text → Request → ProxyResult → SavingsEvent
unfolding request_id
event_of lower fresh request result = record {
  request_id = request_id lower fresh request.headers;
  dialect = result.meta.dialect;
  cache = result.meta.cache;
  canonicalized = is_some result.meta.measured;
  tokens_before = before_of result.meta.measured;
  tokens_after = after_of result.meta.measured;
  status_code = result.status_code;
  stages = stages_of result.meta.measured;
  tenant = result.meta.tenant;
  upstream_usage = result.meta.upstream_usage;
}

-- What `handle` records when `_handle` answers at once, and when it answers after its call of the
-- upstream or raises.
unfoldable pub recorded_at_once : (Text → Text) → Text → Request → Begun → List SavingsEvent
unfolding event_of
recorded_at_once lower fresh request (replied result) = event_of lower fresh request result ∷ []
recorded_at_once lower fresh request (forwarded out pending) = []

unfoldable pub recorded_after :
    (Text → Text) → Text → Request → Option ProxyResult → List SavingsEvent
unfolding event_of
recorded_after lower fresh request none = []
recorded_after lower fresh request (some result) = event_of lower fresh request result ∷ []
