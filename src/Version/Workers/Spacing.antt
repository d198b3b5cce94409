-- ===== src/Version/Workers/Spacing.antt =====
-- How often a worker of internal/service/version/refresh_worker.go runs a job.
use svm_go.Prelude.{ℕ, zero, suc, ◌+◌, ◌≤◌, ◌<◌, ◌≡◌, refl, List, [], ◌∷◌, ℤ, arith, All}
use svm_go.Cache.Clock.{Time}
use svm_go.Version.Workers.{
  min_interval, Turn, Ran, ran, skipped, ended, take_turn, Run, run_worker,
}

-- Each run starts at least the interval after the end of the one before.
abbrev pub IsSpaced : ℕ → Time → List Run → Type 0
IsSpaced interval last [] = Unit
IsSpaced interval last (r ∷ rs) =
    (last + interval ≤ r.started_at) × IsSpaced interval r.finished_at rs

abbrev pub IsSpacedRuns : ℕ → List Run → Type 0
IsSpacedRuns interval [] = Unit
IsSpacedRuns interval (r ∷ rs) = IsSpaced interval r.finished_at rs

-- The clock is past the zero time when a refresh has ended.
abbrev pub IsPastZero : Turn → Type 0
IsPastZero t = 0 < t.finished_at

take_turn-le :
    (interval : ℕ) (last at : Time) (t : Turn)
    → 0 < last
    → take_turn interval last t ≡ ran at
    → last + interval ≤ at
unfolding take_turn
take_turn-le interval zero at t h e = absurd (omega arith)
take_turn-le interval (suc last) at t h e = ground (arith, e)

run_worker-IsSpaced :
    (interval : ℕ) (last_run_at : Time) (ts : List Turn)
    → 0 < last_run_at
    → All IsPastZero ts
    → IsSpaced interval last_run_at (run_worker interval last_run_at ts)
unfolding run_worker
run_worker-IsSpaced interval last [] h d = unfold run_worker in tt
run_worker-IsSpaced interval last (t ∷ ts) h d =
    go (take_turn interval last t) refl (run_worker-IsSpaced interval t.finished_at ts d.0 d.1)
      (run_worker-IsSpaced interval last ts h d.1)
  where
    go :
        (o : Ran)
        → take_turn interval last t ≡ o
        → IsSpaced interval t.finished_at (run_worker interval t.finished_at ts)
        → IsSpaced interval last (run_worker interval last ts)
        → IsSpaced interval last (run_worker interval last (t ∷ ts))
    go (ran at) e later again = rw (e, run_worker) (take_turn-le interval last at t h e, later)
    go skipped e later again = rw (e, run_worker) again
    go ended e later again = rw (e, run_worker) tt

-- A worker starts each refresh at least the minimum interval after the end of its last one, however
-- its turns, its skipped jobs and its timers come, while the clock is past the zero time.
pub run_worker-IsSpacedRuns :
    (rps : ℤ) (ts : List Turn)
    → All IsPastZero ts
    → IsSpacedRuns (min_interval rps) (run_worker (min_interval rps) 0 ts)
unfolding run_worker
run_worker-IsSpacedRuns rps [] d = unfold run_worker in tt
run_worker-IsSpacedRuns rps (t ∷ ts) d =
    go (take_turn (min_interval rps) 0 t) refl (run_worker-IsSpacedRuns rps ts d.1)
  where
    go :
        (o : Ran)
        → take_turn (min_interval rps) 0 t ≡ o
        → IsSpacedRuns (min_interval rps) (run_worker (min_interval rps) 0 ts)
        → IsSpacedRuns (min_interval rps) (run_worker (min_interval rps) 0 (t ∷ ts))
    go (ran at) e again =
        rw (e, run_worker) (run_worker-IsSpaced (min_interval rps) t.finished_at ts d.0 d.1)
    go skipped e again = rw (e, run_worker) again
    go ended e again = rw (e, run_worker) tt
