-- ===== src/Version/Scheduler.antt =====
-- `Sweep` of internal/service/version/revalidate_scheduler.go: the active keys whose records are due
-- go to the refresh queue. Logging is left out.
pub mod Due
pub mod Loop
pub mod Cases
use svm_go.Prelude.{
  ℕ, zero, suc, ◌+◌, Bool, true, false, Option, none, some, List, [], ◌∷◌, Str, ℤ, pos, positive,
  is_empty, length, if◌then◌else◌,
}
use svm_go.Cache.{Record}
use svm_go.Cache.Clock.{Time, Duration, add, negate}
use svm_go.Cache.Policy.{Policy, default_policy}
use svm_go.Cache.State.{is_revalidation_due}
use svm_go.Metrics.{Metrics, inc_revalidate_run}
use svm_go.Version.Activity.{ActivityTracker, active_keys_since, prune_active_keys_before}
use svm_go.Version.Queue.{RefreshQueue, enqueue}
use svm_go.Version.Store.{Lookup, CacheStore}

pub record RevalidateSweepResult : Type 0 where
  pub candidate_keys : ℕ
  pub due_keys : ℕ
  pub not_stale_keys : ℕ
  pub worker_count : ℤ
  pub enqueued : ℕ
  pub dropped : ℕ

abbrev pub empty_result : RevalidateSweepResult
empty_result = record {
  candidate_keys = 0;
  due_keys = 0;
  not_stale_keys = 0;
  worker_count = pos 0;
  enqueued = 0;
  dropped = 0;
}

-- The defaults of `newRevalidateScheduler`.
unfoldable pub scheduler_policy : Policy → Policy
scheduler_policy p = record p {
  revalidate_interval =
      if positive p.revalidate_interval
      then p.revalidate_interval
      else default_policy.revalidate_interval;
  revalidate_lookback =
      if positive p.revalidate_lookback
      then p.revalidate_lookback
      else default_policy.revalidate_lookback;
  revalidate_workers =
      if positive p.revalidate_workers
      then p.revalidate_workers
      else default_policy.revalidate_workers;
}

-- What a sweep reads and changes; each part may be nil.
pub record Sources (S : Type 0) : Type 0 where
  pub active_keys : Option ActivityTracker
  pub cache_store : Option S
  pub queue : Option RefreshQueue
  pub metrics : Option Metrics

-- The last loop: how many keys were queued and how many dropped.
unfoldable pub enqueue_all : List Str → RefreshQueue → (ℕ × ℕ) × RefreshQueue
enqueue_all [] q = ((0, 0), q)
enqueue_all (key ∷ keys) q =
    let (taken, q') = enqueue key q in
    let ((enqueued, dropped), q'') = enqueue_all keys q' in
    if taken then ((enqueued + 1, dropped), q'') else ((enqueued, dropped + 1), q'')

module _ (store : CacheStore) where
  -- Whether the record that was looked up is due: none where there is no record, or an error.
  unfoldable pub due_record : Time → Duration → Lookup → Option Bool
  due_record now interval lk = if lk.failed then none else elim lk.found [
    | none ↦ none
    | some r ↦ some (is_revalidation_due r.last_checked_at now interval)
  ]

  -- The loop over the active keys: the due keys and the number of records that are not stale.
  unfoldable pub select_due :
      Time → Duration → List Str → store.State → (List Str × ℕ) × store.State
  unfolding due_record
  select_due now interval [] st = (([], 0), st)
  select_due now interval (key ∷ keys) st =
      let (lk, st') = store.get key st in
      let passed = select_due now interval keys st in
      let ((due, not_stale), st'') = select_due now interval keys st' in
      if is_empty key then passed else elim (due_record now interval lk) [
        | none ↦ ((due, not_stale), st'')
        | some is_due ↦
            if is_due then ((key ∷ due, not_stale), st'') else ((due, not_stale + 1), st'')
      ]

  -- The part of a sweep where nothing is nil and the active keys are listed.
  unfoldable pub sweep_keys :
      Policy
      → Time
      → List Str
      → store.State
      → RefreshQueue
      → RevalidateSweepResult × store.State × RefreshQueue
  unfolding select_due enqueue_all
  sweep_keys policy now keys st q =
      let ((due, not_stale), st') = select_due now policy.revalidate_interval keys st in
      let ((enqueued, dropped), q') = enqueue_all due q in
      (
        record {
          candidate_keys = length keys;
          due_keys = length due;
          not_stale_keys = not_stale;
          worker_count = policy.revalidate_workers;
          enqueued = enqueued;
          dropped = dropped;
        },
        st',
        q',
      )

  -- `Sweep`: `now` is the clock, and `done` says before which keys the context is done.
  unfoldable pub sweep :
      Policy → (ℕ → Bool) → Time → Sources store.State → RevalidateSweepResult × Sources store.State
  unfolding sweep_keys
  sweep policy done now s =
      let counted = inc_revalidate_run s.metrics in
      let since = add now (negate policy.revalidate_lookback) in
      elim s.active_keys [
        | none ↦ (empty_result, record s { metrics = counted })
        | some tracker ↦ elim s.cache_store [
          | none ↦ (empty_result, record s { metrics = counted })
          | some st ↦ elim s.queue [
            | none ↦ (empty_result, record s { metrics = counted })
            | some q ↦
                let pruned = prune_active_keys_before since tracker in
                elim (active_keys_since done since (pos 0) pruned) [
                  | none ↦ (empty_result, record s { active_keys = some pruned; metrics = counted })
                  | some keys ↦
                      let (result, st', q') = sweep_keys policy now keys st q in
                      (
                        result,
                        record {
                          active_keys = some pruned;
                          cache_store = some st';
                          queue = some q';
                          metrics = counted;
                        },
                      )
                ]
          ]
        ]
      ]
