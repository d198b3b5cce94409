-- ===== src/App/Runs/Within.antt =====
-- The cache stays within its budget in every request of the application of cmd/svm/main.go.
use svm_go.Prelude.{ℕ, ◌≡◌, refl, Bool, Option, none, some, List, Str}
use mathlib.Core.Path.{sym, subst}
use svm_go.App.AccessLog.{RequestLogs, request_log_entry, enqueue_client_request_log}
use svm_go.App.Clients.{Net}
use svm_go.App.Server.{
  App, RunningApp, serve, service_of, access_log_hook, app_handlers, version_handler,
}
use svm_go.Cache.Clock.{Time}
use svm_go.Http.{HttpRequest, HttpResponse, with_access_log, new_router}
use svm_go.Http.Counters.{metrics_handler}
use svm_go.Http.Routes.{new_router_cases}
use svm_go.Http.Service.{Encoder, handle_version, version_service, health_handler, ping_handler}
use svm_go.Cache.{Record}
use svm_go.L1
use svm_go.L1.{Cache, new_cache_with_max_bytes}
use svm_go.L1.Runs.{
  Call, get_call, get_readonly_call, set_call, call, spec_call, Stands, call-Stands,
}
use svm_go.Platform.{Platform}
use svm_go.Version.Keeps.{Kept, handle-kept}
use svm_go.Version.Store.Memory.{memory_store, store_get, store_get_readonly, store_set}
use svm_go.Version.World.{Outside}

-- The cache stands for a list of records, and accounts no more than its budget.
abbrev pub IsWithin : ℕ → Option Cache → Type 0
IsWithin budget none = Unit
IsWithin budget (some c) = (l : List (Str × Record)) × Stands budget c l

call-IsWithin :
    (budget : ℕ) (x : Call) (c : Cache)
    → IsWithin budget (some c)
    → IsWithin budget (some (call x c).1)
call-IsWithin budget x c (l, stands) =
    ((spec_call budget x l).1, (call-Stands budget x c l stands).1)

pub store_kept : (budget : ℕ) → Kept memory_store (IsWithin budget)
unfolding L1.get_readonly call
store_kept budget = record { read = read_kept; get = get_kept; set = set_kept }
  where
    read_kept :
        (k : Str) (t : Option Cache) → IsWithin budget t → IsWithin budget (memory_store.read k t).1
    read_kept k none w = unfold store_get_readonly in w
    read_kept k (some c) w =
        unfold store_get_readonly in call-IsWithin budget (get_readonly_call k) c w

    get_kept :
        (k : Str) (t : Option Cache) → IsWithin budget t → IsWithin budget (memory_store.get k t).1
    get_kept k none w = unfold store_get in w
    get_kept k (some c) w = unfold store_get in call-IsWithin budget (get_call k) c w

    set_kept :
        (k : Str) (r : Record) (t : Option Cache)
        → IsWithin budget t
        → IsWithin budget (memory_store.set k r t)
    set_kept k r none w = unfold store_set in w
    set_kept k r (some c) w = unfold store_set in call-IsWithin budget (set_call k r) c w

module _ (pl : Platform) (net : Net) (enc : Encoder) (not_found : HttpResponse → HttpResponse)
    (app : App) (budget : ℕ) where
  hook-store :
      (req : HttpRequest) (resp : HttpResponse) (w : RunningApp)
      → (access_log_hook pl net app req resp w).world.store ≡ w.world.store
  unfolding access_log_hook
  hook-store req resp w = go _ refl
    where
      go :
          (o : Option RequestLogs)
          → enqueue_client_request_log
              (request_log_entry pl net app.trusted_networks req resp)
              (record w.logs { metrics = w.world.metrics })
            ≡ o
          → (access_log_hook pl net app req resp w).world.store ≡ w.world.store
      go none e = rw (access_log_hook, e) refl
      go (some logs) e = rw (access_log_hook, e) refl

  pub serve-IsWithin :
      (canceled : Bool) (out : Outside) (now : Time) (req : HttpRequest) (resp : HttpResponse)
      (w : RunningApp)
      → (IsWithin budget) w.world.store
      → (IsWithin budget) (serve pl net enc not_found app canceled out now req resp w).1.world.store
  unfolding serve with_access_log
  serve-IsWithin canceled out now req resp w v =
      let routes = app_handlers pl enc app canceled out now in
      let (resp', w') = new_router not_found routes req resp w in
      subst (IsWithin budget) (sym (hook-store req resp' w')) (
        new_router_cases (λ res. (IsWithin budget) res.1.world.store) not_found routes req resp w v
          v
          (λ _ _.
            unfold app_handlers in
            unfold version_handler in
            unfold handle_version in
            unfold version_service in
            handle-kept pl memory_store (service_of pl app) (IsWithin budget) (store_kept budget)
              canceled out now _ w.world v)
          (unfold app_handlers in unfold ping_handler in v)
          (unfold app_handlers in unfold health_handler in v)
          (unfold app_handlers in unfold metrics_handler in v))
