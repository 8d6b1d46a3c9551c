-- ===== src/Proxy/Server.antt =====
-- The HTTP server of pkg/proxy/autoscaler.go: the target of the proxy, the version, the routes that
-- Run registers and the requests that they take, and the handlers for the version and the metrics.
pub mod Routes
use vllm_chill.Prelude.{
  ℕ, Bytes, codes, same, has_prefix, to_decimal, ◌++◌, Bool, true, false, not, ◌&&◌, ◌||◌, leb,
  length, take, ◌==◌, Option, none, some, List, [], ◌∷◌, map, if◌then◌else◌, Error,
}
use vllm_chill.Kubernetes.Models.{is_empty}
use vllm_chill.Proxy.Config.{Config}
use vllm_chill.Proxy.Scaler.{World, Scaler, Event}

-- os.Getenv
abbrev pub Environ : Type 0
Environ = Bytes → Bytes

pub record Build : Type 0 where
  pub version : Bytes
  pub commit : Bytes
  pub build_date : Bytes

-- AutoScaler with the fields that do not change while it serves
pub record Service (world : World) : Type 0 where
  pub scaler : Scaler world
  pub target_url : Bytes
  pub build : Build

-- `s`, or a default where it is empty
abbrev pub or_default : Bytes → Bytes → Bytes
or_default s d = if is_empty s then d else s

-- The target that NewAutoScaler constructs. url.Parse, which refuses what is no URL, is left out.
unfoldable pub target_of : Environ → Bytes
target_of env =
    codes "http://"
    ++ (or_default (env (codes "VLLM_TARGET")) (codes "vllm")
        ++ (codes ":" ++ or_default (env (codes "VLLM_PORT")) (codes "80")))

-- the AutoScaler that NewAutoScaler makes
unfoldable pub new_service : (world : World) → Environ → Scaler world → Service world
unfolding target_of
new_service world env s = record {
  scaler = s;
  target_url = target_of env;
  build = record { version = codes "dev"; commit = codes "none"; build_date = codes "unknown" };
}

-- SetVersion
unfoldable pub set_version : (world : World) → Build → Service world → Service world
set_version world b s = record s { build = b }

-- SetTargetURL
unfoldable pub set_target_url : (world : World) → Bytes → Service world → Service world
set_target_url world url s = record s { target_url = url }

-- SetMetrics: the recorder with the calls that it has had
unfoldable pub set_metrics : (world : World) → List Event → Service world → Service world
set_metrics world recorder s = record s { scaler = record (s.scaler) { events = recorder } }

-- versionHandler: the fields of the object that it replies with
unfoldable pub version_handler : (world : World) → Service world → List (Bytes × Bytes)
version_handler world s =
    (codes "version", s.build.version)
    ∷ (codes "commit", s.build.commit)
    ∷ (codes "build_date", s.build.build_date)
    ∷ []

-- the URL of vLLM's own metrics page
unfoldable pub metrics_url : (world : World) → Service world → Bytes
metrics_url world s = s.target_url ++ codes "/metrics"

-- What vLLM's own metrics page comes to: no reply, or a status with a body that can be read or not.
pub data Fetched : Type 0 where
  unreachable : Error → Fetched
  replied : ℕ → Option Bytes → Error → Fetched

-- the part of MetricsHandler before "Get proxy metrics"; a newline is the byte 10
unfoldable pub vllm_metrics : Fetched → Bytes
unfolding to_decimal
vllm_metrics (unreachable e) = codes "# vLLM metrics unavailable: " ++ (e.message ++ 10 ∷ [])
vllm_metrics (replied status body e) =
    if status == 200
    then elim body [
      | some b ↦ b
      | none ↦ codes "# Failed to read vLLM metrics: " ++ (e.message ++ 10 ∷ [])
    ]
    else codes "# vLLM metrics returned status " ++ (to_decimal status ++ 10 ∷ [])

-- MetricsHandler: the text of its reply, from what vLLM replies and the page of Prometheus
unfoldable pub metrics_handler : Fetched → Bytes → Bytes
unfolding vllm_metrics
metrics_handler fetched proxy_metrics =
    codes "# vLLM Metrics"
    ++ (10 ∷ (vllm_metrics fetched ++ (10 ∷ (codes "# Proxy Metrics" ++ (10 ∷ proxy_metrics)))))

-- The handlers of the routes.
pub data Endpoint : Type 0 where
  health metrics version stats proxied : Endpoint

pub record Route : Type 0 where
  pub method : Bytes
  pub path : Bytes
  pub endpoint : Endpoint

abbrev get_route : Bytes → Endpoint → Route
get_route path endpoint = record { method = codes "GET"; path = path; endpoint = endpoint }

-- the routes that Run registers
unfoldable pub routes : List Route
routes =
    get_route (codes "/health") health
    ∷ get_route (codes "/readyz") health
    ∷ get_route (codes "/proxy/metrics") metrics
    ∷ get_route (codes "/proxy/version") version
    ∷ get_route (codes "/proxy/stats") stats
    ∷ []

-- logRegisteredRoutes: the base of the URLs, and the routes that are logged with it
unfoldable pub base_url : Config → Bytes
base_url c =
    if is_empty c.public_endpoint then codes "http://0.0.0.0:" ++ c.port else c.public_endpoint

abbrev pub is_logged : Bytes → Bool
is_logged path =
    not (same path (codes "/health") || same path (codes "/readyz"))
    && (leb 6 (length path) && same (take 6 path) (codes "/proxy"))

-- the URLs of a list of routes, as router.Routes gives it
unfoldable pub log_registered_routes : Config → List Route → List Bytes
unfolding base_url same
log_registered_routes c [] = []
log_registered_routes c (r ∷ rs) =
    let rest = log_registered_routes c rs in
    if is_logged r.path then (base_url c ++ r.path) ∷ rest else rest
