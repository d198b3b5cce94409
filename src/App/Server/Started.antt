-- ===== src/App/Server/Started.antt =====
-- What an application that `NewApp` of cmd/svm/main.go has made is sure of, and that its handlers
-- never panic.
use mathlib.Core.Path.{subst}
use svm_go.Prelude.{
  ◌∙◌, sym, pos_part, zero, suc, ◌<◌, ◌≡◌, refl, Bool, true, false, Option, none, some, List, [],
  ◌∷◌, Str, pos_part, ℤ, pos, negsuc, positive, Member, length, arith, inl,
}
use svm_go.App.AccessLog.{RequestLogs, request_log_entry, enqueue_client_request_log}
use svm_go.App.AccessLog.Runs.{IsSound, answered, happen, happen-Goes}
use svm_go.App.Clients.{Network, Net, parse_trusted_networks}
use svm_go.App.Clients.Trust.{Names, parse_trusted_networks-Names}
use svm_go.App.Server.{
  Runtime, start_revalidation_runtime, LoadError, new_refresh_workers, bad_config, invalid_cidr,
  running_of, app_of, ◌∷◌, new_threshold_token_provider, App, RunningApp, created, app_error,
  new_app, can_serve_requests, access_log_hook, app_handlers, serve,
}
use svm_go.Cache.Clock.{Time}
use svm_go.Config.{Parsers, Configuration, Loaded, loaded, load_error, load}
use svm_go.Config.Checked.{IsPositive, load-Checked}
use svm_go.Http.{HttpRequest, HttpResponse, with_access_log, new_router}
use svm_go.Http.Counters.{metrics_handler}
use svm_go.Http.Routes.{new_router_cases}
use svm_go.Http.Service.{Encoder, handle_version, health_handler, ping_handler}
use svm_go.L1.{new_cache_with_max_bytes}
use svm_go.Platform.{Platform}
use svm_go.Text.{split_comma}
use svm_go.Config.Lists.{IsNamed}
use svm_go.Upstream.Tokens.{new_threshold_token_provider, default_rate_limit_cooldown}
use svm_go.Upstream.Tokens.Build.{new_token_provider-IsBuilt}
use svm_go.Version.Queue.{new_refresh_queue}
use svm_go.Version.Scheduler.{scheduler_policy}
use svm_go.Version.Scheduler.Loop.{new_revalidate_scheduler}
use svm_go.Version.Workers.{normalize_worker_count}
use svm_go.Version.Workers.Pool.{new_refresh_workers}
use svm_go.Version.World.{Outside}

-- The access log is sound and no handler has panicked.
pub record IsSteady (w : RunningApp) : Type 0 where
  pub logs : IsSound w.logs
  pub running : w.panicked ≡ false

module _ (pl : Platform) (net : Net) (enc : Encoder) (not_found : HttpResponse → HttpResponse)
    (app : App) where
  access_log_hook-IsSteady :
      (req : HttpRequest) (resp : HttpResponse) (w : RunningApp)
      → IsSteady w
      → IsSteady (access_log_hook pl net app req resp w)
  unfolding access_log_hook
  access_log_hook-IsSteady req resp w s =
      let entry = request_log_entry pl net app.trusted_networks req resp in
      let logs : RequestLogs = record w.logs { metrics = w.world.metrics } in
      let goes =
        happen-Goes (answered entry) logs
          (record { open_while_attached = s.logs.open_while_attached; bounded = s.logs.bounded }) in
      let happens : enqueue_client_request_log entry logs ≡ some goes.next =
        unfold happen in goes.happens in
      rw (access_log_hook, happens) (record { logs = goes.sound; running = s.running })

  -- No request, of any method and path, makes a handler panic or breaks the access log.
  pub serve-IsSteady :
      (canceled : Bool) (out : Outside) (now : Time) (req : HttpRequest) (resp : HttpResponse)
      (w : RunningApp)
      → IsSteady w
      → IsSteady (serve pl net enc not_found app canceled out now req resp w).1
  unfolding serve with_access_log
  serve-IsSteady canceled out now req resp w s =
      let routes = app_handlers pl enc app canceled out now in
      let (resp', w') = new_router not_found routes req resp w in
      access_log_hook-IsSteady req resp' w' (
        new_router_cases (λ res. IsSteady res.1) not_found routes req resp w s s
          (λ _ _.
            unfold app_handlers in
            unfold handle_version in record { logs = s.logs; running = s.running })
          (unfold app_handlers in unfold ping_handler in s)
          (unfold app_handlers in unfold health_handler in s)
          (unfold app_handlers in unfold metrics_handler in s))

-- An application as the configuration makes it: it serves with the networks that the configuration
-- names, it has a token and a host, and its queue and its workers are open and can work.
pub record Ready (ps : Parsers) (net : Net) (getenv : Str → Str) (app : App) (w : RunningApp)
    : Type 0 where
  pub cfg : Configuration
  pub loads : load ps getenv ≡ loaded cfg
  pub steady : IsSteady w
  pub serving : can_serve_requests (some app) ≡ true
  pub policy : IsPositive app.cache_policy
  pub cache : w.world.store ≡ some (new_cache_with_max_bytes app.cache_policy.l1_max_bytes)
  pub networks :
      (n : Network)
      → Member n app.trusted_networks
      → Names net (split_comma cfg.forwarded_allow_ips) n
  pub token : (t : Str) × Member t w.world.tokens.tokens
  pub host : (h : Str) × Member h cfg.allowed_upstream_hosts
  pub client : app.upstream_client ≡ some cfg.allowed_upstream_hosts
  pub runtime : Runtime
  pub runs : app.runtime ≡ some runtime
  pub queue_empty : runtime.refresh_queue.keys ≡ []
  pub queue_open : runtime.refresh_queue.closed ≡ false
  pub queue_size : runtime.refresh_queue.size ≡ pos_part cfg.cache_policy.refresh_queue_size
  pub workers :
      runtime.refresh_workers.initial_worker_count ≡ pos_part cfg.cache_policy.revalidate_workers
  pub interval : runtime.revalidate_scheduler.interval ≡ cfg.cache_policy.revalidate_interval

first_of : (l : List Str) → 0 < length l → (t : Str) × Member t l
first_of [] h = absurd (omega arith)
first_of (t ∷ l) h = (t, inl refl)

first_token :
    (ts : List Str) (threshold : ℤ)
    → 0 < length ts
    → IsNamed ts
    → (t : Str) × Member t (new_threshold_token_provider ts threshold).tokens
unfolding new_threshold_token_provider
first_token [] threshold h named = absurd (omega arith)
first_token (t ∷ ts) threshold h named = (
  t,
  ((new_token_provider-IsBuilt (t ∷ ts) threshold default_rate_limit_cooldown).1 t).1
      (inl refl, named.0),
)

new_refresh_queue-size :
    (n : ℤ)
    → positive n ≡ true
    → ((new_refresh_queue n).size ≡ pos_part n) × ((new_refresh_queue n).closed ≡ false)
unfolding new_refresh_queue
new_refresh_queue-size (pos zero) h = absurd (cc h)
new_refresh_queue-size (pos (suc n)) h = (refl, refl)
new_refresh_queue-size (negsuc n) h = absurd (cc h)

-- Where a created application comes from.
record CreatedFrom (pl : Platform) (ps : Parsers) (net : Net) (getenv : Str → Str) (app : App)
    (w : RunningApp) : Type 0 where
  cfg : Configuration
  networks : List Network
  loads : load ps getenv ≡ loaded cfg
  parses : parse_trusted_networks net cfg.forwarded_allow_ips ≡ some networks
  app_is : app_of pl cfg networks ≡ app
  running_is : running_of pl cfg ≡ w

module _ (pl : Platform) (ps : Parsers) (net : Net) (getenv : Str → Str) where
  new_app-load_error :
      (err : LoadError)
      → load ps getenv ≡ load_error err
      → new_app pl ps net getenv ≡ app_error (bad_config err)
  unfolding new_app
  new_app-load_error err l = rw (new_app, l) refl

  new_app-loaded :
      (cfg : Configuration) (o : Option (List Network))
      → load ps getenv ≡ loaded cfg
      → parse_trusted_networks net cfg.forwarded_allow_ips ≡ o
      → new_app pl ps net getenv ≡ elim o [
        | none ↦ app_error invalid_cidr
        | some networks ↦ created (app_of pl cfg networks) (running_of pl cfg)
      ]
  unfolding new_app
  new_app-loaded cfg o l p = rw (new_app, l, p) refl

  created_inv :
      (app : App) (w : RunningApp)
      → new_app pl ps net getenv ≡ created app w
      → CreatedFrom pl ps net getenv app w
  created_inv app w e = by_config (load ps getenv) refl
    where
      by_networks :
          (cfg : Configuration) (o : Option (List Network))
          → load ps getenv ≡ loaded cfg
          → parse_trusted_networks net cfg.forwarded_allow_ips ≡ o
          → CreatedFrom pl ps net getenv app w
      by_networks cfg none l p = absurd (cc (new_app-loaded cfg none l p, e))
      by_networks cfg (some networks) l p =
          let same : created (app_of pl cfg networks) (running_of pl cfg) ≡ created app w =
            sym (new_app-loaded cfg (some networks) l p) ∙ e in
          record {
            cfg = cfg;
            networks = networks;
            loads = l;
            parses = p;
            app_is = cc same;
            running_is = cc same;
          }

      by_config :
          (c : Loaded Configuration) → load ps getenv ≡ c → CreatedFrom pl ps net getenv app w
      by_config (load_error err) l = absurd (cc (new_app-load_error err l, e))
      by_config (loaded cfg) l = by_networks cfg _ l refl

Ready-app_of :
    (pl : Platform) (ps : Parsers) (net : Net) (getenv : Str → Str) (cfg : Configuration)
    (networks : List Network)
    → load ps getenv ≡ loaded cfg
    → parse_trusted_networks net cfg.forwarded_allow_ips ≡ some networks
    → Ready ps net getenv (app_of pl cfg networks) (running_of pl cfg)
unfolding can_serve_requests start_revalidation_runtime new_refresh_workers normalize_worker_count
    new_revalidate_scheduler scheduler_policy
Ready-app_of pl ps net getenv cfg networks l p =
    let checked = load-Checked ps getenv cfg l in
    let queue =
      new_refresh_queue-size cfg.cache_policy.refresh_queue_size
        checked.policy.refresh_queue_size in
    record {
      cfg = cfg;
      loads = l;
      steady = record {
        logs = record { open_while_attached = refl; bounded = omega arith };
        running = refl;
      };
      serving = refl;
      policy = checked.policy;
      cache = refl;
      networks = λ n m. parse_trusted_networks-Names net cfg.forwarded_allow_ips networks n p m;
      token =
          first_token cfg.github_pats cfg.api_usage_threshold checked.has_token
            checked.tokens_named;
      host = first_of cfg.allowed_upstream_hosts checked.has_host;
      client = refl;
      runtime = record {
        refresh_queue = new_refresh_queue cfg.cache_policy.refresh_queue_size;
        refresh_workers =
            new_refresh_workers true true cfg.cache_policy.revalidate_workers
              cfg.cache_policy.revalidate_per_worker_rps true;
        revalidate_scheduler = new_revalidate_scheduler cfg.cache_policy true;
      };
      runs = refl;
      queue_empty = unfold new_refresh_queue in refl;
      queue_open = queue.1;
      queue_size = queue.0;
      workers = rw checked.policy.revalidate_workers refl;
      interval = rw checked.policy.revalidate_interval refl;
    }

-- Whatever the environment, an application that is created has loaded its configuration, trusts only
-- networks that FORWARDED_ALLOW_IPS names, starts with an empty cache of
-- the size that was asked for, has a token and an allowed host, has an open, empty
-- refresh queue, workers and a scheduler of the sizes and the interval that were asked for, and is ready to
-- serve.
pub new_app-Ready :
    (pl : Platform) (ps : Parsers) (net : Net) (getenv : Str → Str) (app : App) (w : RunningApp)
    → new_app pl ps net getenv ≡ created app w
    → Ready ps net getenv app w
new_app-Ready pl ps net getenv app w e =
    let from = created_inv pl ps net getenv app w e in
    subst (λ a. Ready ps net getenv a w) from.app_is
      (subst (λ v. Ready ps net getenv (app_of pl from.cfg from.networks) v) from.running_is
        (Ready-app_of pl ps net getenv from.cfg from.networks from.loads from.parses))
