-- ===== src/Tests/Pools.antt =====
-- The pool of workers and the loop of the scheduler (internal/service/version) at concrete turns.
use svm_go.Prelude.{
  ◌+◌, ◌*◌, ◌≡◌, ◌≤◌, refl, true, false, some, List, [], ◌∷◌, pos, pos_part, arith, All,
}
use svm_go.Cache.Clock.{second}
use svm_go.Cache.Policy.{default_policy}
use svm_go.Metrics.{new_metrics}
use svm_go.Tests.Parts.{filled, turns, start}
use svm_go.Version.Activity.{new_activity_tracker}
use svm_go.Version.Queue.{new_refresh_queue}
use svm_go.Version.Scheduler.{Sources}
use svm_go.Version.Scheduler.Loop.{Firing, new_revalidate_scheduler, run_with_fixed_delay}
use svm_go.Version.Scheduler.Loop.Delays.{IsCounted, IsDelayed, run_with_fixed_delay-IsDelayed}
use svm_go.Version.Store.Memory.{memory_store}
use svm_go.Version.Workers
use svm_go.Version.Workers.{min_interval, normalize_worker_count, run_worker}
use svm_go.Version.Workers.Pool
use svm_go.Version.Workers.Pool.{new_refresh_workers, run, all_started_in, run-all_started_in}

unfoldable program : Unit {0}
unfolding Workers.take_turn Workers.run_worker Workers.min_interval Workers.effective_rps
    Workers.normalize_worker_count Pool.run Pool.new_refresh_workers Pool.started_in
    Pool.all_started_in
program = tt

-- Two workers start four refreshes in two seconds; the third list of turns has no worker.
four_started :
    all_started_in 0
      (2 * second)
      (run (new_refresh_workers true true (pos 2) (pos 1) true) (turns ∷ turns ∷ turns ∷ []))
    ≡ 4
unfolding program
four_started = refl

run-all_started_in_example :
    all_started_in 0
        (2 * second)
        (run (new_refresh_workers true true (pos 2) (pos 1) true) (turns ∷ turns ∷ []))
      * min_interval (pos 1)
    ≤ normalize_worker_count (pos 2) * (2 * second + min_interval (pos 1))
unfolding program
run-all_started_in_example =
    run-all_started_in true true true (pos 2) (pos 1) (turns ∷ turns ∷ []) 0 (2 * second)
      (ground arith) (ground arith)

abbrev sources : Sources memory_store.State
sources = record {
  active_keys = some new_activity_tracker;
  cache_store = some filled;
  queue = some (new_refresh_queue (pos 1));
  metrics = some new_metrics;
}

abbrev firings : List Firing
firings =
    record { late = 3; done = λ n. false; took = second }
    ∷ record { late = 0; done = λ n. false; took = 5 }
    ∷ []

run_with_fixed_delay-IsDelayed_example :
    let s = new_revalidate_scheduler default_policy true in
    let swept = (run_with_fixed_delay memory_store s start firings sources).0 in
    IsDelayed memory_store (pos_part s.interval) start swept
    × All (λ sweep. IsCounted sweep.result) swept
run_with_fixed_delay-IsDelayed_example =
    run_with_fixed_delay-IsDelayed memory_store (new_revalidate_scheduler default_policy true) start
      firings sources
