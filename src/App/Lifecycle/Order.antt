-- ===== src/App/Lifecycle/Order.antt =====
-- In which order the application of cmd/svm/main.go stops its parts.
use svm_go.Prelude.{
  ◌<◌, ℕ, zero, suc, ◌≡◌, ◌⊎◌, inl, inr, refl, Bool, true, false, Option, none, some, List, [], ◌∷◌,
  ◌++◌, Str, Member, arith,
}
use svm_go.App.Lifecycle.{
  RunError, failed, drop, take, Action, server_shut_down, scheduler_closed, workers_closed,
  queue_closed, logs_shut_down, Background, close_on_shutdown, closers, Closing, in_time, timed_out,
  shutdown_background, shutdown, First, no_signals, signal_first, listen_first,
  run_server_with_lifecycle,
}

-- No later action may stop what an earlier one still needs: the server comes first, then what fills the
-- queue, then what takes from it, then the queue itself. The access log is independent of them.
abbrev pub rank : Action → ℕ
rank server_shut_down = 1
rank scheduler_closed = 2
rank workers_closed = 3
rank queue_closed = 4
rank logs_shut_down = 0

-- Behind an action of a rank come only actions of a higher rank, and the shutdown of the access log.
abbrev pub Follows : ℕ → List Action → Type 0
Follows n [] = Unit
Follows n (a ∷ actions) =
    ((a ≡ logs_shut_down) × Follows n actions) ⊎ ((n < rank a) × Follows (rank a) actions)

Follows-take : (k n : ℕ) (l : List Action) → Follows n l → Follows n (take k l)
Follows-take zero n l h = tt
Follows-take (suc k) n [] h = tt
Follows-take (suc k) n (a ∷ l) (inl h) = inl (h.0, Follows-take k n l h.1)
Follows-take (suc k) n (a ∷ l) (inr h) = inr (h.0, Follows-take k (rank a) l h.1)

-- The shutdown of the access log may come anywhere.
Follows-logs :
    (k m n : ℕ) (l : List Action)
    → Follows n l
    → Follows n (take k l ++ logs_shut_down ∷ take m (drop k l))
Follows-logs zero m n l h = inl (refl, Follows-take m n l h)
Follows-logs (suc k) zero n [] h = inl (refl, tt)
Follows-logs (suc k) (suc m) n [] h = inl (refl, tt)
Follows-logs (suc k) m n (a ∷ l) (inl h) = inl (h.0, Follows-logs k m n l h.1)
Follows-logs (suc k) m n (a ∷ l) (inr h) = inr (h.0, Follows-logs k m (rank a) l h.1)

Follows-last : (n : ℕ) (l : List Action) → Follows n l → Follows n (l ++ logs_shut_down ∷ [])
Follows-last n [] h = inl (refl, tt)
Follows-last n (a ∷ l) (inl h) = inl (h.0, Follows-last n l h.1)
Follows-last n (a ∷ l) (inr h) = inr (h.0, Follows-last (rank a) l h.1)

Follows-closers :
    (scheduler workers queue : Bool)
    → Follows 1 (
        close_on_shutdown (
          closers (record {
            revalidate_scheduler = scheduler;
            refresh_workers = workers;
            refresh_queue = queue;
          })))
unfolding close_on_shutdown
Follows-closers true true true = ground arith
Follows-closers true true false = ground arith
Follows-closers true false true = ground arith
Follows-closers true false false = ground arith
Follows-closers false true true = ground arith
Follows-closers false true false = ground arith
Follows-closers false false true = ground arith
Follows-closers false false false = ground arith

Follows-lower : (n : ℕ) (l : List Action) → Follows (suc n) l → Follows n l
Follows-lower n [] h = tt
Follows-lower n (a ∷ l) (inl h) = inl (h.0, Follows-lower n l h.1)
Follows-lower n (a ∷ l) (inr h) = inr (omega (arith, h.0), h.1)

shutdown_background-Follows :
    (closing : Closing) (b : Background) → Follows 1 (shutdown_background closing b)
unfolding shutdown_background
shutdown_background-Follows in_time b = Follows-last 1 _ (Follows-closers _ _ _)
shutdown_background-Follows (timed_out before later) b =
    Follows-logs before later 1 _ (Follows-closers _ _ _)

shutdown-Follows :
    (closing : Closing) (b : Background) (server : Option (Option Str))
    → Follows 0 (shutdown closing (some b) server).1
unfolding shutdown
shutdown-Follows closing b none = Follows-lower 0 _ (shutdown_background-Follows closing b)
shutdown-Follows closing b (some err) = inr (omega arith, shutdown_background-Follows closing b)

-- On every branch of the run and however the time limit falls, nothing is stopped that a part which
-- still runs needs: the server is shut down before the scheduler is closed, the scheduler before the
-- workers, the workers before the queue, and each at most once.
pub run_server_with_lifecycle-Follows :
    (closing : Closing) (first : First) (app : Option Background)
    (server listen : Option (Option Str))
    → Follows 0 (run_server_with_lifecycle closing first app server listen).1
unfolding run_server_with_lifecycle
run_server_with_lifecycle-Follows closing first none server listen = tt
run_server_with_lifecycle-Follows closing first (some b) server none = tt
run_server_with_lifecycle-Follows closing no_signals (some b) server (some err) =
    shutdown-Follows closing b none
run_server_with_lifecycle-Follows closing listen_first (some b) server (some err) =
    shutdown-Follows closing b none
run_server_with_lifecycle-Follows closing signal_first (some b) server (some err) =
    shutdown-Follows closing b server

-- Every part that the application has is stopped.
pub record StopsAll (b : Background) (actions : List Action) : Type 0 where
  pub scheduler : b.revalidate_scheduler ≡ true → Member scheduler_closed actions
  pub workers : b.refresh_workers ≡ true → Member workers_closed actions
  pub queue : b.refresh_queue ≡ true → Member queue_closed actions
  pub logs : Member logs_shut_down actions

StopsAll-in_time :
    (scheduler workers queue : Bool)
    → let b : Background = record {
      revalidate_scheduler = scheduler;
      refresh_workers = workers;
      refresh_queue = queue;
    } in
      StopsAll b (shutdown_background in_time b)
unfolding shutdown_background close_on_shutdown
StopsAll-in_time true true true = ground arith
StopsAll-in_time true true false = ground arith
StopsAll-in_time true false true = ground arith
StopsAll-in_time true false false = ground arith
StopsAll-in_time false true true = ground arith
StopsAll-in_time false true false = ground arith
StopsAll-in_time false false true = ground arith
StopsAll-in_time false false false = ground arith

StopsAll-shutdown :
    (b : Background) (server : Option (Option Str))
    → StopsAll b (shutdown in_time (some b) server).1
unfolding shutdown
StopsAll-shutdown b none = StopsAll-in_time _ _ _
StopsAll-shutdown b (some err) =
    let s = StopsAll-in_time b.revalidate_scheduler b.refresh_workers b.refresh_queue in
    record {
      scheduler = λ h. inr (s.scheduler h);
      workers = λ h. inr (s.workers h);
      queue = λ h. inr (s.queue h);
      logs = inr s.logs;
    }

-- What a run returns: the error of `listen`, where it failed; without one, the error of the server's
-- shutdown, where a signal asked for a shutdown that failed; and otherwise none.
pub data Returns (first : First) (server_err listen_err : Option Str) (result : Option RunError)
    : Type 0 where
  listen_failed :
      (message : Str)
      → listen_err ≡ some message
      → result ≡ some (failed message)
      → Returns first server_err listen_err result
  shutdown_failed :
      (message : Str)
      → listen_err ≡ none
      → first ≡ signal_first
      → server_err ≡ some message
      → result ≡ some (failed message)
      → Returns first server_err listen_err result
  succeeded :
      listen_err ≡ none
      → (first ≡ signal_first → server_err ≡ none)
      → result ≡ none
      → Returns first server_err listen_err result

Returns-run :
    (first : First) (b : Background) (server_err listen_err : Option Str)
    → Returns first server_err listen_err
        (run_server_with_lifecycle in_time first (some b) (some server_err) (some listen_err)).0
unfolding run_server_with_lifecycle shutdown
Returns-run no_signals b server_err (some m) = listen_failed m refl refl
Returns-run listen_first b server_err (some m) = listen_failed m refl refl
Returns-run signal_first b server_err (some m) = listen_failed m refl refl
Returns-run no_signals b server_err none = succeeded refl (λ e. absurd (cc e)) refl
Returns-run listen_first b server_err none = succeeded refl (λ e. absurd (cc e)) refl
Returns-run signal_first b (some m) none = shutdown_failed m refl refl refl refl
Returns-run signal_first b none none = succeeded refl (λ _. refl) refl

-- Once the server has listened, the run stops every part that the application has when the close
-- goroutine ends in time, and returns the error of `listen`, or else that of the server's shutdown if
-- a signal asked for it.
pub run_server_with_lifecycle-StopsAll :
    (first : First) (b : Background) (server_err listen_err : Option Str)
    → StopsAll b
        (run_server_with_lifecycle in_time first (some b) (some server_err) (some listen_err)).1
      × Returns first server_err listen_err
          (run_server_with_lifecycle in_time first (some b) (some server_err) (some listen_err)).0
unfolding run_server_with_lifecycle
run_server_with_lifecycle-StopsAll no_signals b server_err listen_err =
    (StopsAll-shutdown b none, Returns-run _ b server_err listen_err)
run_server_with_lifecycle-StopsAll listen_first b server_err listen_err =
    (StopsAll-shutdown b none, Returns-run _ b server_err listen_err)
run_server_with_lifecycle-StopsAll signal_first b server_err listen_err =
    (StopsAll-shutdown b (some server_err), Returns-run _ b server_err listen_err)
