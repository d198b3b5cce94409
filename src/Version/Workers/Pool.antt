-- ===== src/Version/Workers/Pool.antt =====
-- The pool of internal/service/version/refresh_worker.go: how it is made, run and closed, and how many
-- refreshes it starts.
use native.Mathlib.Nat.{suc-mul, zero-mul, add-mul}
use svm_go.Prelude.{
  All-Member, Member, inl, inr, Bool-cases, ◌⊎◌, ℕ, zero, suc, ◌+◌, ◌*◌, ◌≤◌, ◌<◌, ◌≡◌, refl, Bool,
  true, false, ◌&&◌, List, [], ◌∷◌, ℤ, arith, All, take, map, leb, ltb, if◌then◌else◌, not,
}
use svm_go.Cache.Clock.{Time}
use svm_go.Version.Workers.{normalize_worker_count, min_interval, Turn, Run, run_worker}
use svm_go.Version.Workers.Spacing.{IsSpaced, IsSpacedRuns, IsPastZero, run_worker-IsSpacedRuns}

-- `started` says that there is a cancel function, `canceled` that it was called, and `ended` that
-- `done` is closed.
pub record RefreshWorkers : Type 0 where
  pub has_queue : Bool
  pub has_refresher : Bool
  pub interval : ℕ
  pub initial_worker_count : ℕ
  pub started : Bool
  pub canceled : Bool
  pub ended : Bool

-- `newRefreshWorkers`
unfoldable pub new_refresh_workers :
    (has_queue has_refresher : Bool) → ℤ → ℤ → Bool → RefreshWorkers
new_refresh_workers has_queue has_refresher worker_count per_worker_rps auto_start = record {
  has_queue = has_queue;
  has_refresher = has_refresher;
  interval = min_interval per_worker_rps;
  initial_worker_count = normalize_worker_count worker_count;
  started = auto_start;
  canceled = false;
  ended = not auto_start;
}

-- `run`: every worker has its turns, until the context is done. The workers that there are take the
-- first lists of turns.
unfoldable pub run : RefreshWorkers → List (List Turn) → List (List Run)
run w turns =
    if w.has_queue && w.has_refresher
    then map (run_worker w.interval 0) (take w.initial_worker_count turns)
    else []

-- `Close`: it returns when the workers have ended.
unfoldable pub close_workers : RefreshWorkers → RefreshWorkers
close_workers w = if w.started then record w { canceled = true; ended = true } else w

-- A run starts in the window of a length from a time.
abbrev in_window : Time → ℕ → Run → Bool
in_window from window r = leb from r.started_at && ltb r.started_at (from + window)

-- How many refreshes of a worker start in a window, and how many of all workers.
unfoldable pub started_in : Time → ℕ → List Run → ℕ
started_in from window [] = 0
started_in from window (r ∷ rs) =
    let rest = started_in from window rs in if in_window from window r then suc rest else rest

unfoldable pub all_started_in : Time → ℕ → List (List Run) → ℕ
unfolding started_in
all_started_in from window [] = 0
all_started_in from window (runs ∷ rest) =
    started_in from window runs + all_started_in from window rest

-- A refresh takes time, so it ends no earlier than it starts.
abbrev EndsLater : Run → Type 0
EndsLater r = r.started_at ≤ r.finished_at

-- None starts in the window, or those that start there fill it from some time on.
abbrev FillsFrom : ℕ → Time → ℕ → Time → List Run → Type 0
FillsFrom interval from window least rs =
    (started_in from window rs ≡ 0)
    ⊎ (started_in from window rs * interval + least < from + window + interval)

window_room :
    (count interval : ℕ) (from : Time) (window : ℕ) (least started finished : Time)
    → started ≤ finished
    → from ≤ started
    → started < from + window
    → (least ≤ from) ⊎ (least ≤ started)
    → (count ≡ 0) ⊎ (count * interval + (finished + interval) < from + window + interval)
    → suc count * interval + least < from + window + interval
window_room count interval from window least started finished ends after before bound
      (inl none_left) =
    rw (none_left, suc-mul 0 interval, zero-mul interval) (ground arith)
window_room count interval from window least started finished ends after before bound (inr more) =
    rw (suc-mul count interval) (ground arith)

FillsFrom-cons :
    (interval : ℕ) (from : Time) (window : ℕ) (least : Time) (r : Run) (rs : List Run)
    → EndsLater r
    → (least ≤ from) ⊎ (least ≤ r.started_at)
    → FillsFrom interval from window least rs
    → FillsFrom interval from window (r.finished_at + interval) rs
    → FillsFrom interval from window least (r ∷ rs)
unfolding started_in
FillsFrom-cons interval from window least r rs ends bound passed taken =
    elim (Bool-cases (in_window from window r)) [
      | inr outside ↦ rw outside passed
      | inl inside ↦ inr (
          rw inside (
            window_room (started_in from window rs) interval from window least r.started_at
              r.finished_at ends (ground arith) (ground arith) bound taken))
    ]

IsSpaced-FillsFrom :
    (interval : ℕ) (from last : Time) (window : ℕ) (least : Time) (rs : List Run)
    → IsSpaced interval last rs
    → All EndsLater rs
    → (least ≤ from) ⊎ (least ≤ last + interval)
    → FillsFrom interval from window least rs
IsSpaced-FillsFrom interval from last window least [] s e bound = inl (unfold started_in in refl)
IsSpaced-FillsFrom interval from last window least (r ∷ rs) s e bound =
    FillsFrom-cons interval from window least r rs e.0 (ground (arith, s.0))
      (IsSpaced-FillsFrom interval from r.finished_at window least rs s.1 e.1
        (ground (arith, s.0, e.0)))
      (IsSpaced-FillsFrom interval from r.finished_at window (r.finished_at + interval) rs s.1 e.1
        (inr (omega arith)))

started_in-IsSpacedRuns :
    (interval : ℕ) (from : Time) (window : ℕ) (rs : List Run)
    → 0 < interval
    → IsSpacedRuns interval rs
    → All EndsLater rs
    → started_in from window rs * interval ≤ window + interval
started_in-IsSpacedRuns interval from window [] p s e =
    unfold started_in in ground (arith, zero-mul interval)
started_in-IsSpacedRuns interval from window (r ∷ rs) p s e =
    elim (FillsFrom-cons interval from window from r rs e.0 (inl (omega arith))
      (IsSpaced-FillsFrom interval from r.finished_at window from rs s e.1 (inl (omega arith)))
      (IsSpaced-FillsFrom interval from r.finished_at window (r.finished_at + interval) rs s e.1
        (inr (omega arith)))) [
          | inl none_started ↦ rw (none_started, zero-mul interval) (omega arith)
          | inr filled ↦ omega arith
        ]

all_started_in-le :
    (interval : ℕ) (from : Time) (window : ℕ) (turns : List (List Turn)) (count : ℕ)
    → ((ts : List Turn)
        → Member ts turns
        → started_in from window (run_worker interval 0 ts) * interval ≤ window + interval)
    → all_started_in from window (map (run_worker interval 0) (take count turns)) * interval
      ≤ count * (window + interval)
unfolding all_started_in
all_started_in-le interval from window turns zero each = rw (zero-mul interval) (omega arith)
all_started_in-le interval from window [] (suc count) each = rw (zero-mul interval) (omega arith)
all_started_in-le interval from window (ts ∷ turns) (suc count) each =
    let here = each ts (inl refl) in
    let rest = all_started_in-le interval from window turns count (λ l m. each l (inr m)) in
    rw
      (
        add-mul (started_in from window (run_worker interval 0 ts))
            (all_started_in from window (map (run_worker interval 0) (take count turns))) interval,
        suc-mul count (window + interval),
      )
      (omega arith)

min_interval_pos : (rps : ℤ) → 0 < min_interval rps
unfolding min_interval
min_interval_pos rps = ground arith

-- However the jobs, the timers and the clock come, the pool starts in no window of time more than
-- `window / interval + 1` refreshes for each of its workers, where a refresh does not end before it
-- starts and the clock is past the zero time; a pool without a queue or a refresher starts none.
pub run-all_started_in :
    (has_queue has_refresher auto_start : Bool) (worker_count rps : ℤ) (turns : List (List Turn))
    (from : Time) (window : ℕ)
    → All (All IsPastZero) turns
    → All (λ ts. All EndsLater (run_worker (min_interval rps) 0 ts)) turns
    → all_started_in from window
          (run (new_refresh_workers has_queue has_refresher worker_count rps auto_start) turns)
        * min_interval rps
      ≤ normalize_worker_count worker_count * (window + min_interval rps)
unfolding run new_refresh_workers all_started_in
run-all_started_in has_queue has_refresher auto_start worker_count rps turns from window past ends =
    elim (Bool-cases (has_queue && has_refresher)) [
      | inr nothing ↦ rw (nothing, zero-mul (min_interval rps)) (omega arith)
      | inl runs ↦ rw runs (
          all_started_in-le (min_interval rps) from window turns
            (normalize_worker_count worker_count)
            (λ ts m.
              started_in-IsSpacedRuns (min_interval rps) from window
                (run_worker (min_interval rps) 0 ts) (min_interval_pos rps)
                (run_worker-IsSpacedRuns rps ts (All-Member (All IsPastZero) ts turns past m))
                (All-Member (λ ts. All EndsLater (run_worker (min_interval rps) 0 ts)) ts turns ends
                  m)))
    ]
