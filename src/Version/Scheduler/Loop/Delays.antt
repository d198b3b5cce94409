-- ===== src/Version/Scheduler/Loop/Delays.antt =====
-- When the loop of internal/service/version/revalidate_scheduler.go sweeps, and what its sweeps count.
use svm_go.Prelude.{
  ℕ, ◌+◌, ◌≤◌, ◌≡◌, refl, Bool, List, [], ◌∷◌, Str, pos_part, length, All, arith, Bool-cases, inl,
  inr,
}
use svm_go.Cache.Clock.{Time, Duration}
use svm_go.Cache.Policy.{Policy}
use svm_go.Version.Queue.{RefreshQueue, enqueue}
use svm_go.Version.Scheduler.{
  RevalidateSweepResult, empty_result, Sources, enqueue_all, select_due, sweep_keys, sweep,
}
use svm_go.Version.Scheduler.Cases.{sweep_cases}
use svm_go.Version.Scheduler.Loop.{RevalidateScheduler, Firing, Swept, run_with_fixed_delay}
use svm_go.Version.Store.{CacheStore}

-- What is due was queued or dropped, and no candidate counts twice.
pub record IsCounted (r : RevalidateSweepResult) : Type 0 where
  pub due : r.enqueued + r.dropped ≡ r.due_keys
  pub candidates : r.due_keys + r.not_stale_keys ≤ r.candidate_keys

enqueue_all-total :
    (keys : List Str) (q : RefreshQueue)
    → (enqueue_all keys q).0.0 + (enqueue_all keys q).0.1 ≡ length keys
unfolding enqueue_all
enqueue_all-total [] q = refl
enqueue_all-total (key ∷ keys) q = elim (Bool-cases (enqueue key q).0) [
  | inl taken ↦ rw taken (omega (arith, enqueue_all-total keys (enqueue key q).1))
  | inr dropped ↦ rw dropped (omega (arith, enqueue_all-total keys (enqueue key q).1))
]

module _ (store : CacheStore) where
  select_due-le :
      (now : Time) (interval : Duration) (keys : List Str) (st : store.State)
      → length (select_due store now interval keys st).0.0
          + (select_due store now interval keys st).0.1
        ≤ length keys
  unfolding select_due
  select_due-le now interval [] st = omega arith
  select_due-le now interval (key ∷ keys) st = ground (
    arith,
    select_due-le now interval keys st,
    select_due-le now interval keys (store.get key st).1,
  )

  sweep_keys-IsCounted :
      (policy : Policy) (now : Time) (keys : List Str) (st : store.State) (q : RefreshQueue)
      → IsCounted (sweep_keys store policy now keys st q).0
  unfolding sweep_keys
  sweep_keys-IsCounted policy now keys st q = record {
    due = enqueue_all-total (select_due store now policy.revalidate_interval keys st).0.0 q;
    candidates = select_due-le now policy.revalidate_interval keys st;
  }

  empty_result-IsCounted : IsCounted empty_result
  empty_result-IsCounted = record { due = refl; candidates = omega arith }

  sweep-IsCounted :
      (policy : Policy) (done : ℕ → Bool) (now : Time) (s : Sources store.State)
      → IsCounted (sweep store policy done now s).0
  sweep-IsCounted policy done now s =
      sweep_cases store (λ res. IsCounted res.0) policy done now s
        (λ tracker. empty_result-IsCounted)
        (λ tracker l st q _ _. sweep_keys-IsCounted policy now l st q)

  -- Each sweep starts at least the interval after the end of the one before.
  abbrev pub IsDelayed : ℕ → Time → List Swept → Type 0
  IsDelayed interval last [] = Unit
  IsDelayed interval last (s ∷ rest) =
      (last + interval ≤ s.started_at) × IsDelayed interval s.finished_at rest

  -- However late the timer is and however long a sweep takes, the first sweep comes an interval after
  -- the start and each other one at least an interval after the end of the one before, so that no two
  -- overlap; and each counts every due key once, as queued or dropped, and no candidate twice.
  pub run_with_fixed_delay-IsDelayed :
      (s : RevalidateScheduler) (armed_at : Time) (firings : List Firing)
      (sources : Sources store.State)
      → let swept = (run_with_fixed_delay store s armed_at firings sources).0 in
        IsDelayed (pos_part s.interval) armed_at swept × All (λ sweep. IsCounted sweep.result) swept
  unfolding run_with_fixed_delay
  run_with_fixed_delay-IsDelayed s armed_at [] sources = (tt, tt)
  run_with_fixed_delay-IsDelayed s armed_at (f ∷ firings) sources =
      let at = armed_at + pos_part s.interval + f.late in
      let (delayed, counted) =
        run_with_fixed_delay-IsDelayed s (at + f.took) firings
          (sweep store s.policy f.done at sources).1 in
      ((omega arith, delayed), (sweep-IsCounted s.policy f.done at sources, counted))
