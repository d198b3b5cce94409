-- ===== src/App/Server.antt =====
-- The application of cmd/svm/main.go: what `NewApp` makes of the configuration, and the handler that
-- `main` serves with.
pub mod Started
pub mod Requests
use svm_go.Prelude.{
  ◌||◌, not, ℕ, Bool, true, false, ◌&&◌, Option, none, some, List, [], ◌∷◌, Str, pos, if◌then◌else◌,
}
use svm_go.App.AccessLog.{
  RequestLogs, new_request_logs, request_log_entry, enqueue_client_request_log,
}
use svm_go.App.Clients.{Network, Net, parse_trusted_networks}
use svm_go.App.Lifecycle.{Background, Closing, First, run_server_with_lifecycle}
use svm_go.Cache.Clock.{Time}
use svm_go.Cache.Policy.{Policy}
use svm_go.Config.{Parsers, LoadError, Configuration, loaded, load_error, load}
use svm_go.Http.{HttpRequest, HttpResponse, RequestHandler, Handlers, new_router, with_access_log}
use svm_go.Http.Counters.{metrics_handler}
use svm_go.Http.Service.{Encoder, handle_version, health_handler, ping_handler, version_service}
use svm_go.L1.{new_cache_with_max_bytes}
use svm_go.Metrics.{Metrics, new_metrics}
use svm_go.Platform.{Platform}
use svm_go.Upstream.Tokens.{new_threshold_token_provider}
use svm_go.Version.Activity.{new_activity_tracker}
use svm_go.Version.Prep.{new_request_prep_cache}
use svm_go.Version.Queue.{RefreshQueue, new_refresh_queue}
use svm_go.Version.Scheduler.Loop.{RevalidateScheduler, new_revalidate_scheduler}
use svm_go.Version.Store.Memory.{memory_store}
use svm_go.Version.Workers.Pool.{RefreshWorkers, new_refresh_workers}
use svm_go.Version.World.{Config, World, Outside, new_service_config}

-- The parts that refresh in the background.
pub record Runtime : Type 0 where
  pub refresh_queue : RefreshQueue
  pub refresh_workers : RefreshWorkers
  pub revalidate_scheduler : RevalidateScheduler

-- `startRevalidationRuntime`, with whether the application has a hit recorder, a store and a service
-- that refreshes by key; none leaves the parts nil.
unfoldable pub start_revalidation_runtime :
    (has_hit_recorder has_cache_store has_refresher : Bool) → Policy → Option Runtime
start_revalidation_runtime has_hit_recorder has_cache_store has_refresher policy =
    if not has_hit_recorder || not has_cache_store
    then none
    else if not has_refresher
    then none
    else some (record {
      refresh_queue = new_refresh_queue policy.refresh_queue_size;
      refresh_workers =
          new_refresh_workers true true policy.revalidate_workers policy.revalidate_per_worker_rps
            true;
      revalidate_scheduler = new_revalidate_scheduler policy true;
    })

-- What the application does not change while it runs. The upstream client is its allowed hosts; a
-- part that is nil is `none` or `false`.
pub record App : Type 0 where
  pub port : Str
  pub allowed_hosts : List Str
  pub cache_policy : Policy
  pub trusted_networks : List Network
  pub upstream_client : Option (List Str)
  pub has_token_provider : Bool
  pub version_service : Option Config
  pub runtime : Option Runtime

-- `newVersionService`
unfoldable pub new_version_service : Platform → List Str → Policy → Config
new_version_service pl allowed_hosts policy = new_service_config pl allowed_hosts policy

-- The parts that `shutdownBackground` closes.
abbrev pub background_of : Option Runtime → Background
background_of none = record {
  revalidate_scheduler = false;
  refresh_workers = false;
  refresh_queue = false;
}
background_of (some r) = record {
  revalidate_scheduler = true;
  refresh_workers = true;
  refresh_queue = true;
}

-- What changes: the world of the service, with the metrics that all share, and the access log. `panicked` says that a handler has panicked.
pub record RunningApp : Type 0 where
  pub world : World memory_store.State
  pub logs : RequestLogs
  pub panicked : Bool

pub data AppError : Type 0 where
  bad_config : LoadError → AppError
  invalid_cidr : AppError

pub data Created : Type 0 where
  created : App → RunningApp → Created
  app_error : AppError → Created

module _ (pl : Platform) where
  abbrev pub app_of : Configuration → List Network → App
  app_of cfg networks = record {
    port = cfg.port;
    allowed_hosts = cfg.allowed_upstream_hosts;
    cache_policy = cfg.cache_policy;
    trusted_networks = networks;
    upstream_client = some cfg.allowed_upstream_hosts;
    has_token_provider = true;
    version_service = some (new_version_service pl cfg.allowed_upstream_hosts cfg.cache_policy);
    runtime = start_revalidation_runtime true true true cfg.cache_policy;
  }

  abbrev pub running_of : Configuration → RunningApp
  running_of cfg = record {
    world = record {
      store = some (new_cache_with_max_bytes cfg.cache_policy.l1_max_bytes);
      request_prep = new_request_prep_cache (pos 0);
      hit_recorder = some new_activity_tracker;
      tokens = new_threshold_token_provider cfg.github_pats cfg.api_usage_threshold;
      metrics = some new_metrics;
      sent = [];
    };
    logs = new_request_logs (some new_metrics);
    panicked = false;
  }

  -- `NewApp`: no part of the application is nil there.
  unfoldable pub new_app : Parsers → Net → (Str → Str) → Created
  new_app ps net getenv = elim (load ps getenv) [
    | load_error e ↦ app_error (bad_config e)
    | loaded cfg ↦ elim (parse_trusted_networks net cfg.forwarded_allow_ips) [
      | none ↦ app_error invalid_cidr
      | some networks ↦ created (app_of cfg networks) (running_of cfg)
    ]
  ]

unfoldable pub can_serve_requests : Option App → Bool
can_serve_requests none = false
can_serve_requests (some app) = elim app.upstream_client [
  | none ↦ false
  | some _ ↦ app.has_token_provider
]

-- A handler that works on the world of the service alone.
abbrev pub on_world : RequestHandler (World memory_store.State) → RequestHandler RunningApp
on_world handler req resp w =
    let (resp', world') = handler req resp w.world in (resp', record w { world = world' })

-- `enqueueClientRequestLog` as the hook of the router; it shares the metrics of the service.
unfoldable pub access_log_hook :
    Platform → Net → App → HttpRequest → HttpResponse → RunningApp → RunningApp
access_log_hook pl net app req resp w =
    elim (enqueue_client_request_log (request_log_entry pl net app.trusted_networks req resp)
      (record w.logs { metrics = w.world.metrics })) [
        | none ↦ record w { panicked = true }
        | some logs ↦ record w { logs = logs; world = record w.world { metrics = logs.metrics } }
      ]

-- The service of `versionHandler`: a new one where the application has none.
unfoldable pub service_of : Platform → App → Config
service_of pl app = elim app.version_service [
  | none ↦ new_version_service pl app.allowed_hosts app.cache_policy
  | some service ↦ service
]

-- `versionHandler`
unfoldable pub version_handler :
    Platform → Encoder → App → Bool → Outside → Time → RequestHandler RunningApp
version_handler pl enc app canceled out now = on_world (
    handle_version enc pl
      (some (version_service pl memory_store (service_of pl app) canceled out now)))

unfoldable pub app_handlers : Platform → Encoder → App → Bool → Outside → Time → Handlers RunningApp
unfolding version_handler
app_handlers pl enc app canceled out now = record {
  version = version_handler pl enc app canceled out now;
  ping = ping_handler enc;
  health = health_handler enc (some (λ w. can_serve_requests (some app)));
  metrics = metrics_handler (λ w. w.world.metrics);
}

-- The handler that `main` gives to the server, with what comes from outside during the request.
unfoldable pub serve :
    Platform
    → Net
    → Encoder
    → (HttpResponse → HttpResponse)
    → App
    → Bool
    → Outside
    → Time
    → RequestHandler RunningApp
unfolding app_handlers
serve pl net enc not_found app canceled out now =
    with_access_log (new_router not_found (app_handlers pl enc app canceled out now))
      (some (access_log_hook pl net app))

-- The code that `main` exits with, once `NewApp` has returned.
unfoldable pub exit_code : Created → Closing → First → Option (Option Str) → Option (Option Str) → ℕ
exit_code (app_error e) closing first server listen = 1
exit_code (created app w) closing first server listen =
    elim (run_server_with_lifecycle closing first (some (background_of app.runtime)) server
      listen).0 [ none ↦ 0 | some e ↦ 1 ]
