-- ===== src/Version/Scheduler/Loop.antt =====
-- The scheduler of internal/service/version/revalidate_scheduler.go: how it is made, closed, and how its
-- timer loop sweeps; and the fields of the log line that `finishSweep` writes.
pub mod Delays
use svm_go.Prelude.{
  ℕ, zero, suc, ◌+◌, ◌≤◌, ◌≡◌, refl, Bool, true, false, not, Option, none, some, List, [], ◌∷◌,
  ◌++◌, ℤ, pos, negsuc, pos_part, positive, codes, length, All, arith, if◌then◌else◌,
}
use svm_go.Cache.Clock.{Time, Duration}
use svm_go.Cache.Policy.{Policy, default_policy}
use svm_go.Logger.{Field, Value, raw, int_field, string_field}
use svm_go.Metrics.{Metrics, snapshot}
use svm_go.Version.Scheduler.{RevalidateSweepResult, scheduler_policy, Sources, sweep}
use svm_go.Version.Store.{CacheStore}

-- `started` says that there is a cancel function, `ended` that `done` is closed.
pub record RevalidateScheduler : Type 0 where
  pub policy : Policy
  pub interval : Duration
  pub started : Bool
  pub canceled : Bool
  pub ended : Bool

-- `newRevalidateScheduler`
unfoldable pub new_revalidate_scheduler : Policy → Bool → RevalidateScheduler
unfolding scheduler_policy
new_revalidate_scheduler policy auto_start = record {
  policy = scheduler_policy policy;
  interval = (scheduler_policy policy).revalidate_interval;
  started = auto_start;
  canceled = false;
  ended = not auto_start;
}

-- `Close`: it returns when the loop has ended.
unfoldable pub close_scheduler : RevalidateScheduler → RevalidateScheduler
close_scheduler s = if s.started then record s { canceled = true; ended = true } else s

-- The fields of the line; `none` are metrics that are nil.
unfoldable pub finish_sweep_fields : RevalidateSweepResult → Option Metrics → List Field
finish_sweep_fields result metrics =
    (int_field (codes "candidate_keys") (pos result.candidate_keys)
      ∷ int_field (codes "due_keys") (pos result.due_keys)
      ∷ int_field (codes "not_stale_keys") (pos result.not_stale_keys)
      ∷ int_field (codes "worker_count") result.worker_count
      ∷ int_field (codes "enqueued") (pos result.enqueued)
      ∷ int_field (codes "dropped") (pos result.dropped)
      ∷ [])
    ++ elim metrics [
      | none ↦ []
      | some m ↦ elim (snapshot (some m)).rate_limit_remain [
        | pos n ↦ int_field (codes "rate_limit_remaining") (pos n) ∷ []
        | negsuc n ↦ string_field (codes "rate_limit_remaining") (codes "unknown") ∷ []
      ]
    ]

-- One firing of the timer: how late it is, before which keys the context is done during the sweep, and
-- how long the sweep takes.
pub record Firing : Type 0 where
  pub late : ℕ
  pub done : ℕ → Bool
  pub took : ℕ

-- A sweep that was run.
pub record Swept : Type 0 where
  pub started_at : Time
  pub finished_at : Time
  pub result : RevalidateSweepResult

module _ (store : CacheStore) where
  -- `runWithFixedDelay` with its timer armed at a time; the firings end when the context is done.
  unfoldable pub run_with_fixed_delay :
      RevalidateScheduler
      → Time
      → List Firing
      → Sources store.State
      → List Swept × Sources store.State
  run_with_fixed_delay s armed_at [] sources = ([], sources)
  run_with_fixed_delay s armed_at (f ∷ firings) sources =
      let at = armed_at + pos_part s.interval + f.late in
      let (result, swept) = sweep store s.policy f.done at sources in
      let (rest, last) = run_with_fixed_delay s (at + f.took) firings swept in
      (record { started_at = at; finished_at = at + f.took; result = result } ∷ rest, last)
