-- ===== src/Version/Workers.antt =====
-- internal/service/version/refresh_worker.go: the workers that take jobs from the queue. A worker's
-- run is the list of the jobs that it runs; the clock, the timer and the context come from outside.
pub mod Spacing
pub mod Pool
use svm_go.Prelude.{
  ℕ, zero, suc, ◌+◌, ◌-◌, ◌/◌, Bool, true, false, Option, none, some, List, [], ◌∷◌, Str, ℤ, pos,
  negsuc, is_empty, ltb, leb, if◌then◌else◌, positive, pos_part,
}
use svm_go.Cache.Clock.{Time, second, is_zero, before}
use svm_go.Cache.Policy.{default_policy}

abbrev pub default_refresh_worker_count : ℕ
default_refresh_worker_count = 1

unfoldable pub normalize_worker_count : ℤ → ℕ
normalize_worker_count n = if positive n then pos_part n else default_refresh_worker_count

-- `perWorkerRPS` after its defaults.
unfoldable pub effective_rps : ℤ → ℕ
effective_rps n =
    if positive n
    then pos_part n
    else if positive default_policy.revalidate_per_worker_rps
    then pos_part default_policy.revalidate_per_worker_rps
    else 1

-- `time.Second / time.Duration(perWorkerRPS)`, at least a nanosecond.
unfoldable pub min_interval : ℤ → ℕ
unfolding effective_rps
min_interval rps = if leb (second / effective_rps rps) 0 then 1 else second / effective_rps rps

-- One turn of the loop of `runWorker`, after `Dequeue` has given a job: the clock before the wait,
-- how late the timer fired where one was set, whether it fired before the context was done, and the
-- clock when the refresh had ended.
pub record Turn : Type 0 where
  pub key : Str
  pub checked_at : Time
  pub late : ℕ
  pub fired : Bool
  pub finished_at : Time

-- `minInterval - elapsed` where it is positive, and 0 elsewhere.
abbrev pub wait_for : ℕ → Time → Time → ℕ
wait_for interval last_run_at now = (last_run_at + interval) - now

-- What a turn does: the job is run at a time, it is skipped, or the worker ends.
pub data Ran : Type 0 where
  ran : Time → Ran
  skipped ended : Ran

unfoldable pub take_turn : ℕ → Time → Turn → Ran
take_turn interval last_run_at t =
    if is_empty t.key
    then skipped
    else if is_zero last_run_at
    then ran t.checked_at
    else if ltb 0 (wait_for interval last_run_at t.checked_at)
    then (if t.fired
        then ran (t.checked_at + wait_for interval last_run_at t.checked_at + t.late)
        else ended)
    else ran t.checked_at

-- A refresh that a worker runs.
pub record Run : Type 0 where
  pub key : Str
  pub started_at : Time
  pub finished_at : Time

-- `runWorker` from some `lastRunAt`; the list of turns ends where `Dequeue` gives no job.
unfoldable pub run_worker : ℕ → Time → List Turn → List Run
unfolding take_turn
run_worker interval last_run_at [] = []
run_worker interval last_run_at (t ∷ ts) =
    let same = run_worker interval last_run_at ts in
    let rest = run_worker interval t.finished_at ts in
    elim (take_turn interval last_run_at t) [
      | ran at ↦ record { key = t.key; started_at = at; finished_at = t.finished_at } ∷ rest
      | skipped ↦ same
      | ended ↦ []
    ]
