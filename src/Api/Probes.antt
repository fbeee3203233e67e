-- ===== src/Api/Probes.antt =====
-- docsifer/api/v1/health.py and docsifer/api/v1/stats.py, with their response models in
-- docsifer/api/schemas.py. Each returns its response, with the status 200.
use docsifer.Prelude.{Bool, true, Option, none, some, [], ◌∷◌, Str, if◌then◌else◌}
use docsifer.Prelude.Dict.{Dict}
use docsifer.Prelude.Text.{codes}
use docsifer.Config.{Settings, analytics_persistent}
use docsifer.Analytics.Counter.{Buckets}
use docsifer.Analytics.Service.{Service, stats}

pub record HealthResponse : Type 0 where
  pub status : Str
  pub version : Option Str
  pub details : Option (Dict Str Str)

pub record StatsResponse : Type 0 where
  pub access : Buckets
  pub tokens : Buckets
  pub healthy : Bool

unfoldable pub healthz : Settings → HealthResponse
healthz s = record { status = codes "ok"; version = some s.app_version; details = none }

-- The flag is what `analytics.ping()` returns, which is not called without a persistent store.
unfoldable pub readyz : Settings → Bool → HealthResponse
unfolding analytics_persistent
readyz s ping =
    let healthy = if analytics_persistent s then ping else true in
    if healthy
    then record { status = codes "ready"; version = some s.app_version; details = none }
    else record {
      status = codes "degraded";
      version = some s.app_version;
      details = some ((codes "analytics", codes "unreachable") ∷ []);
    }

unfoldable pub get_stats : Service → StatsResponse
unfolding stats
get_stats s =
    let (snap, healthy) = stats s in
    record { access = snap.access; tokens = snap.tokens; healthy = healthy }
