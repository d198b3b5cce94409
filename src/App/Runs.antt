-- ===== src/App/Runs.antt =====
-- The whole program: an application of cmd/svm/main.go with its requests, its scheduler, its workers and
-- its access log, in any order.
pub mod Within
pub mod Well
pub mod Invariant
use svm_go.Prelude.{
  true, ℕ, Bool, Option, none, some, List, [], ◌∷◌, ◌++◌, Str, is_empty, not, zero, suc, ltb,
  length, if◌then◌else◌,
}
use svm_go.App.AccessLog.{process_request_log, shutdown_request_logs}
use svm_go.App.Clients.{Net}
use svm_go.App.Server.{App, RunningApp, Runtime, serve, service_of}
use svm_go.Cache.Clock.{Time}
use svm_go.Http.{HttpRequest, HttpResponse}
use svm_go.Http.Service.{Encoder}
use svm_go.Metrics.{inc_refresh_processed}
use svm_go.Platform.{Platform}
use svm_go.Version.Refresh.{refresh_once_by_key}
use svm_go.Version.Groups.{BackgroundRefreshGroup, new_background_refresh_group, admit, done}
use svm_go.Version.Queue.{RefreshQueue, Dequeued, job, stopped, waiting, dequeue, close}
use svm_go.Version.Scheduler.{Sources, sweep}
use svm_go.Version.Store.Memory.{memory_store}
use svm_go.Version.World.{Outside}

-- The state that the goroutines of the program share. The scheduler, the workers and the service have
-- one hit recorder, one store, one queue and one set of metrics. `refreshing` are the keys that workers
-- refresh now, the last one to begin first.
pub record Shared : Type 0 where
  pub running : RunningApp
  pub queue : RefreshQueue
  pub refresh_group : BackgroundRefreshGroup
  pub refreshing : List Str

-- What happens next: a request is served; the scheduler sweeps; a free worker asks for a job; one of
-- the refreshes that go on ends; the log goroutine goes on; the access log is shut down; the queue is
-- closed. A refresh reads and writes the store where it ends.
pub data Happening : Type 0 where
  request_served :
      (canceled : Bool) (out : Outside) (now : Time) → HttpRequest → HttpResponse → Happening
  swept : (done : ℕ → Bool) → Time → Happening
  job_taken : (ctx_done favour_ctx waited : Bool) → Happening
  refresh_ended : (n : ℕ) → Outside → Happening
  line_written log_shut_down queue_closed : Happening

-- What the scheduler sees of the state, and the state after it.
abbrev pub sources_of : Shared → Sources memory_store.State
sources_of s = record {
  active_keys = s.running.world.hit_recorder;
  cache_store = some s.running.world.store;
  queue = some s.queue;
  metrics = s.running.world.metrics;
}

abbrev pub or_else {ℓ} : {A : Type ℓ} → Option A → A → A
or_else none a = a
or_else (some b) a = b

abbrev pub after_sweep : Shared → Sources memory_store.State → Shared
after_sweep s src = record s {
  running = record s.running {
    world = record s.running.world {
      hit_recorder = src.active_keys;
      store = or_else src.cache_store s.running.world.store;
      metrics = src.metrics;
    };
  };
  queue = or_else src.queue s.queue;
}

-- The element at a position, with what stands before it and after it.
abbrev pub split_at {ℓ} : {A : Type ℓ} → ℕ → List A → Option (List A × A × List A)
split_at n [] = none
split_at zero (x ∷ xs) = some ([], x, xs)
split_at (suc n) (x ∷ xs) = elim (split_at n xs) [
  | none ↦ none
  | some (before, y, after) ↦ some (x ∷ before, y, after)
]

-- `IncRefreshProcessed` of a worker.
abbrev pub processed : Shared → Shared
processed s = record s {
  running = record s.running {
    world = record s.running.world { metrics = inc_refresh_processed s.running.world.metrics };
  };
}

module _ (pl : Platform) (net : Net) (enc : Encoder) (not_found : HttpResponse → HttpResponse)
    (app : App) (runtime : Runtime) where
  -- `RefreshByKey` up to the run of the refresh; a job that is not let in is processed with that.
  unfoldable pub begin_refresh : Str → Shared → Shared
  unfolding admit
  begin_refresh key s =
      let (admitted, group) = admit key s.refresh_group in
      if admitted
      then record s { refresh_group = group; refreshing = key ∷ s.refreshing }
      else processed (record s { refresh_group = group })

  -- A worker that has got something from `Dequeue`; `waited` says that its wait was not broken off.
  unfoldable pub take_job : (waited : Bool) → Dequeued → Shared → Shared
  unfolding begin_refresh
  take_job waited stopped s = s
  take_job waited waiting s = s
  take_job waited (job key) s =
      if is_empty key then s else if not waited then s else begin_refresh key s

  -- The refresh of `RefreshByKey` and what follows it.
  unfoldable pub end_refresh : Outside → Option (List Str × Str × List Str) → Shared → Shared
  unfolding done
  end_refresh out none s = s
  end_refresh out (some (before, key, after)) s = processed (record s {
    running = record s.running {
      world = refresh_once_by_key pl memory_store (service_of pl app) out key s.running.world;
    };
    refresh_group = done key s.refresh_group;
    refreshing = before ++ after;
  })

  unfoldable pub next : Happening → Shared → Shared
  unfolding take_job end_refresh
  next (request_served canceled out now req resp) s = record s {
    running = (serve pl net enc not_found app canceled out now req resp s.running).1;
  }
  next (swept done now) s =
      after_sweep s
        (sweep memory_store runtime.revalidate_scheduler.policy done now (sources_of s)).1
  next (job_taken ctx_done favour_ctx waited) s =
      let (got, queue) = dequeue ctx_done favour_ctx s.queue in
      if ltb (length s.refreshing) runtime.refresh_workers.initial_worker_count
      then take_job waited got (record s { queue = queue })
      else s
  next (refresh_ended n out) s = end_refresh out (split_at n s.refreshing) s
  next line_written s = record s {
    running = record s.running { logs = process_request_log s.running.logs };
  }
  next log_shut_down s = elim (shutdown_request_logs s.running.logs) [
    | none ↦ record s { running = record s.running { panicked = true } }
    | some logs ↦ record s { running = record s.running { logs = logs } }
  ]
  next queue_closed s = record s { queue = close s.queue }

  unfoldable pub run_all : List Happening → Shared → Shared
  unfolding next
  run_all [] s = s
  run_all (h ∷ hs) s = run_all hs (next h s)

-- The state in which `NewApp` leaves an application.
abbrev pub shared_of : RunningApp → Runtime → Shared
shared_of w runtime = record {
  running = w;
  queue = runtime.refresh_queue;
  refresh_group = new_background_refresh_group;
  refreshing = [];
}
