-- ===== src/App/Runs/Invariant.antt =====
-- What stays true of the whole program, however its parts run.
use svm_go.Prelude.{
  ℕ, ◌≤◌, ◌≡◌, refl, Bool, Option, none, some, List, [], ◌∷◌, ltb, Str, length, arith, Bool-cases,
  inl, inr,
}
use mathlib.Core.Path.{sym, subst}
use svm_go.App.AccessLog.{RequestLogs, process_request_log, shutdown_request_logs}
use svm_go.App.AccessLog.Runs.{IsSound, happen, goes_on, shuts_down, happen-Goes}
use svm_go.App.Clients.{Net}
use svm_go.App.Runs.{
  Shared, Happening, request_served, swept, job_taken, line_written, log_shut_down, queue_closed,
  sources_of, after_sweep, next, run_all, shared_of, refresh_ended,
}
use svm_go.App.Runs.Within.{IsWithin, store_kept, serve-IsWithin}
use svm_go.App.Runs.Well.{IsWell, take_job-IsWell, end_refresh-IsWell}
use svm_go.App.Server.{App, RunningApp, Runtime, created, new_app}
use svm_go.App.Server.Started.{serve-IsSteady, new_app-Ready}
use svm_go.Config.{Parsers}
use svm_go.Http.{HttpResponse}
use svm_go.Http.Service.{Encoder}
use svm_go.L1.{new_cache_with_max_bytes}
use svm_go.L1.Runs.{new-Stands, budget_of}
use svm_go.Platform.{Platform}
use svm_go.Version.Groups.Background.{initial, occurrences, Reachable-once}
use svm_go.Version.Keeps.{IsBounded, KeptStore, sweep-kept}
use svm_go.Metrics.{Metrics}
use svm_go.Version.Activity.{ActivityTracker}
use svm_go.Version.Queue.{RefreshQueue, dequeue, close}
use svm_go.Version.Scheduler.{Sources, sweep}
use svm_go.Version.Store.Memory.{memory_store}

module _ (pl : Platform) (net : Net) (enc : Encoder) (not_found : HttpResponse → HttpResponse)
    (app : App) (budget workers : ℕ) where
  after_sweep-IsWell :
      (s : Shared) (src : Sources memory_store.State)
      → IsWell budget workers s
      → KeptStore memory_store (IsWithin budget) (store_kept budget) src.cache_store
        × IsBounded src.queue
      → IsWell budget workers (after_sweep s src)
  after_sweep-IsWell s src w k = parts src.active_keys src.cache_store src.queue src.metrics k
    where
      parts :
          (a : Option ActivityTracker) (c : Option memory_store.State) (q : Option RefreshQueue)
          (m : Option Metrics)
          → KeptStore memory_store (IsWithin budget) (store_kept budget) c × IsBounded q
          → IsWell budget workers
              (after_sweep s (record { active_keys = a; cache_store = c; queue = q; metrics = m }))
      parts a none none m k = record {
        store = w.store;
        queue = w.queue;
        pool = w.pool;
        group = w.group;
        steady = record { logs = w.steady.logs; running = w.steady.running };
      }
      parts a none (some q) m k = record {
        store = w.store;
        queue = k.1;
        pool = w.pool;
        group = w.group;
        steady = record { logs = w.steady.logs; running = w.steady.running };
      }
      parts a (some c) none m k = record {
        store = k.0;
        queue = w.queue;
        pool = w.pool;
        group = w.group;
        steady = record { logs = w.steady.logs; running = w.steady.running };
      }
      parts a (some c) (some q) m k = record {
        store = k.0;
        queue = k.1;
        pool = w.pool;
        group = w.group;
        steady = record { logs = w.steady.logs; running = w.steady.running };
      }

  dequeue-bounded :
      (ctx_done favour_ctx : Bool) (q : RefreshQueue)
      → length q.keys ≤ q.size
      → length (dequeue ctx_done favour_ctx q).1.keys ≤ (dequeue ctx_done favour_ctx q).1.size
  unfolding dequeue
  dequeue-bounded ctx_done favour_ctx q h = go q.keys refl
    where
      go :
          (l : List Str)
          → q.keys ≡ l
          → length (dequeue ctx_done favour_ctx q).1.keys ≤ (dequeue ctx_done favour_ctx q).1.size
      go [] e = ground (arith, e)
      go (k ∷ l) e = ground (arith, e)

  logs-IsWell :
      (s : Shared) (logs : RequestLogs)
      → IsWell budget workers s
      → IsSound logs
      → IsWell budget workers (record s { running = record s.running { logs = logs } })
  logs-IsWell s logs w sound = record {
    store = w.store;
    queue = w.queue;
    pool = w.pool;
    group = w.group;
    steady = record { logs = sound; running = w.steady.running };
  }

  next-IsWell :
      (runtime : Runtime)
      → runtime.refresh_workers.initial_worker_count ≡ workers
      → (h : Happening) (s : Shared) → IsWell budget workers s
      → IsWell budget workers (next pl net enc not_found app runtime h s)
  unfolding next
  next-IsWell runtime same (request_served canceled out now req resp) s w = record {
    store =
        serve-IsWithin pl net enc not_found app budget canceled out now req resp s.running w.store;
    queue = w.queue;
    pool = w.pool;
    group = w.group;
    steady = serve-IsSteady pl net enc not_found app canceled out now req resp s.running w.steady;
  }
  next-IsWell runtime same (swept done now) s w =
      after_sweep-IsWell s
        (sweep memory_store runtime.revalidate_scheduler.policy done now (sources_of s)).1 w
        (sweep-kept memory_store (IsWithin budget) (store_kept budget)
          runtime.revalidate_scheduler.policy done now (sources_of s) w.store w.queue)
  next-IsWell runtime same (job_taken ctx_done favour_ctx waited) s w =
      let (got, queue) = dequeue ctx_done favour_ctx s.queue in
      elim (Bool-cases (ltb (length s.refreshing) runtime.refresh_workers.initial_worker_count)) [
        | inl free ↦ rw free (
            take_job-IsWell pl net enc not_found app budget workers runtime waited got
              (record s { queue = queue }) (ground (arith, free, same))
              (record {
                store = w.store;
                queue = dequeue-bounded ctx_done favour_ctx s.queue w.queue;
                pool = w.pool;
                group = w.group;
                steady = w.steady;
              }))
        | inr busy ↦ rw busy w
      ]
  next-IsWell runtime same (refresh_ended n out) s w =
      end_refresh-IsWell pl net enc not_found app budget workers runtime out n s w
  next-IsWell runtime same line_written s w =
      let goes = happen-Goes goes_on s.running.logs w.steady.logs in
      let happens : some (process_request_log s.running.logs) ≡ some goes.next =
        unfold happen in goes.happens in
      logs-IsWell s (process_request_log s.running.logs) w
        (subst IsSound (sym (cc happens)) goes.sound)
  next-IsWell runtime same log_shut_down s w =
      let goes = happen-Goes shuts_down s.running.logs w.steady.logs in
      let happens : shutdown_request_logs s.running.logs ≡ some goes.next =
        unfold happen in goes.happens in
      rw (next, happens) (logs-IsWell s goes.next w goes.sound)
  next-IsWell runtime same queue_closed s w = record {
    store = w.store;
    queue = unfold close in ground (arith, w.queue);
    pool = w.pool;
    group = w.group;
    steady = w.steady;
  }

  run_all-IsWell :
      (runtime : Runtime)
      → runtime.refresh_workers.initial_worker_count ≡ workers
      → (hs : List Happening) (s : Shared) → IsWell budget workers s
      → IsWell budget workers (run_all pl net enc not_found app runtime hs s)
  unfolding run_all
  run_all-IsWell runtime same [] s w = w
  run_all-IsWell runtime same (h ∷ hs) s w =
      run_all-IsWell runtime same hs (next pl net enc not_found app runtime h s)
        (next-IsWell runtime same h s w)

-- From the application that `NewApp` makes, no order of requests, sweeps, begins and ends of background
-- refreshes, log lines and shutdowns ever makes the cache account more than its budget or lose its
-- order of use, the refresh queue hold more than its size, more refreshes go on than there are
-- workers, two of them have one key, the access log hold more than its own size, or a handler panic.
pub run_all-new_app :
    (pl : Platform) (ps : Parsers) (net : Net) (enc : Encoder)
    (not_found : HttpResponse → HttpResponse) (getenv : Str → Str) (app : App) (w : RunningApp)
    (runtime : Runtime) (hs : List Happening)
    → new_app pl ps net getenv ≡ created app w
    → app.runtime ≡ some runtime
    → let end = run_all pl net enc not_found app runtime hs (shared_of w runtime) in
      IsWell
        (budget_of app.cache_policy.l1_max_bytes)
        runtime.refresh_workers.initial_worker_count
        end
      × ((key : Str) → occurrences key end.refreshing ≤ 1)
run_all-new_app pl ps net enc not_found getenv app w runtime hs made runs =
    let ready = new_app-Ready pl ps net getenv app w made in
    let budget = budget_of app.cache_policy.l1_max_bytes in
    let workers = runtime.refresh_workers.initial_worker_count in
    let empty = new_cache_with_max_bytes app.cache_policy.l1_max_bytes in
    let start : IsWithin budget (some empty) = ([], new-Stands app.cache_policy.l1_max_bytes) in
    let well =
      run_all-IsWell pl net enc not_found app budget workers runtime refl hs (shared_of w runtime)
        (record {
          store = subst (IsWithin budget) (sym ready.cache) start;
          queue =
              let same : ready.runtime ≡ runtime = cc (ready.runs, runs) in
              subst (λ r. length r.refresh_queue.keys ≤ r.refresh_queue.size) same
                (rw ready.queue_empty (omega arith));
          pool = omega arith;
          group = initial;
          steady = ready.steady;
        }) in
    let end = run_all pl net enc not_found app runtime hs (shared_of w runtime) in
    (
      well,
      λ key.
          Reachable-once (record { group = end.refresh_group; running = end.refreshing }) key
            well.group,
    )
