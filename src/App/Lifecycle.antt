-- ===== src/App/Lifecycle.antt =====
-- How cmd/svm/main.go runs and shuts down, with CloseOnShutdown of internal/app/app.go. What a run does
-- is the list of its actions, oldest first. Logging is left out.
pub mod Order
use svm_go.Prelude.{
  ℕ, zero, suc, Bool, true, false, Option, none, some, List, [], ◌∷◌, ◌++◌, Str, take, ℤ, pos,
  positive, if◌then◌else◌,
}
use svm_go.Cache.Clock.{Duration}
use svm_go.Cache.Policy.{Policy, default_policy}

pub data Action : Type 0 where
  server_shut_down scheduler_closed workers_closed queue_closed logs_shut_down : Action

-- Which of the background parts are there.
pub record Background : Type 0 where
  pub revalidate_scheduler : Bool
  pub refresh_workers : Bool
  pub refresh_queue : Bool

abbrev pub closer : Bool → Action → Option Action
closer there action = if there then some action else none

-- `CloseOnShutdown`: a closer that is nil is passed over.
unfoldable pub close_on_shutdown : List (Option Action) → List Action
close_on_shutdown [] = []
close_on_shutdown (none ∷ closers) = close_on_shutdown closers
close_on_shutdown (some action ∷ closers) = action ∷ close_on_shutdown closers

abbrev pub closers : Background → List (Option Action)
closers b =
    closer b.revalidate_scheduler scheduler_closed
    ∷ closer b.refresh_workers workers_closed
    ∷ closer b.refresh_queue queue_closed
    ∷ []

unfoldable pub application_shutdown_timeout : Option Policy → Duration
application_shutdown_timeout none = default_policy.shutdown_timeout
application_shutdown_timeout (some policy) =
    if positive policy.shutdown_timeout
    then policy.shutdown_timeout
    else default_policy.shutdown_timeout

abbrev pub drop : ℕ → List Action → List Action
drop zero actions = actions
drop (suc n) [] = []
drop (suc n) (action ∷ actions) = drop n actions

-- How the close goroutine and the time limit meet: it ends in time, or the access log is shut down
-- after `before` of its actions, and `later` more are done while the program still runs.
pub data Closing : Type 0 where
  in_time : Closing
  timed_out : (before later : ℕ) → Closing

-- `shutdownBackground` of an application that is not nil.
unfoldable pub shutdown_background : Closing → Background → List Action
unfolding close_on_shutdown
shutdown_background in_time b = close_on_shutdown (closers b) ++ logs_shut_down ∷ []
shutdown_background (timed_out before later) b =
    let closes = close_on_shutdown (closers b) in
    take before closes ++ logs_shut_down ∷ take later (drop before closes)

-- `shutdown`: the result of the server's shutdown, where there is a server, and the actions. The
-- inner `Option` is an error.
unfoldable pub shutdown :
    Closing → Option Background → Option (Option Str) → Option Str × List Action
unfolding shutdown_background
shutdown closing none server = (none, [])
shutdown closing (some b) none = (none, shutdown_background closing b)
shutdown closing (some b) (some server_err) =
    (server_err, server_shut_down ∷ shutdown_background closing b)

pub data RunError : Type 0 where
  application_required listen_required : RunError
  failed : Str → RunError

abbrev pub failure : Option Str → Option RunError
failure none = none
failure (some message) = some (failed message)

-- Whether there is a signal channel, and which of the signal and the end of `listen` comes first.
pub data First : Type 0 where
  no_signals signal_first listen_first : First

-- The error that is returned once a signal has shut the server down.
abbrev pub listen_or_shutdown : Option Str → Option Str → Option RunError
listen_or_shutdown none shutdown_err = failure shutdown_err
listen_or_shutdown (some listen_err) shutdown_err = some (failed listen_err)

-- `runServerWithLifecycle`; `listen` is the result of the listen function, where it is not nil.
unfoldable pub run_server_with_lifecycle :
    Closing
    → First
    → Option Background
    → Option (Option Str)
    → Option (Option Str)
    → Option RunError × List Action
unfolding shutdown
run_server_with_lifecycle closing first none server listen = (some application_required, [])
run_server_with_lifecycle closing first (some b) server none = (some listen_required, [])
run_server_with_lifecycle closing no_signals (some b) server (some listen_err) =
    (failure listen_err, (shutdown closing (some b) none).1)
run_server_with_lifecycle closing listen_first (some b) server (some listen_err) =
    (failure listen_err, (shutdown closing (some b) none).1)
run_server_with_lifecycle closing signal_first (some b) server (some listen_err) =
    let (shutdown_err, actions) = shutdown closing (some b) server in
    (listen_or_shutdown listen_err shutdown_err, actions)
