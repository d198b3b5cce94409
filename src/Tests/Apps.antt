-- ===== src/Tests/Apps.antt =====
-- The application of cmd/svm/main.go as `NewApp` makes it, and its server at concrete requests.
use svm_go.Prelude.{◌≤◌, Str, ◌∷◌, true, List, codes, some, none, ◌*◌, ◌≡◌, refl, false, []}
use svm_go.App.Clients
use svm_go.App.Server
use svm_go.App.Lifecycle
use svm_go.App.Lifecycle.{in_time, signal_first, listen_first}
use svm_go.App.Server.{
  Runtime, exit_code, app_error, invalid_cidr, App, RunningApp, new_app, app_of, running_of,
  created, serve, access_log_hook, app_handlers,
}
use svm_go.App.Server.Requests.{SentFor, serve-SentFor, serve_hit-sent}
use svm_go.App.Server.Started.{Ready, new_app-Ready, IsSteady, serve-IsSteady}
use svm_go.App.Runs.{
  Happening, request_served, swept, job_taken, refresh_ended, line_written, log_shut_down,
  queue_closed, run_all, shared_of,
}
use svm_go.App.Runs.Well.{IsWell}
use svm_go.App.Runs.Invariant.{run_all-new_app}
use svm_go.L1.Runs.{budget_of}
use svm_go.Version.Groups.Background.{occurrences}
use svm_go.Version.Queue.{new_refresh_queue}
use svm_go.Version.Workers.Pool.{new_refresh_workers}
use svm_go.Version.Scheduler.Loop.{new_revalidate_scheduler}
use svm_go.Cache.Clock.{second}
use svm_go.Http
use svm_go.Http.Service
use svm_go.Tests.Configs
use svm_go.Tests.Configs.{parsers, environment, expected}
use svm_go.Tests.Samples
use svm_go.Tests.Samples.{platform, answering, silent}
use svm_go.Tests.Servers
use svm_go.Tests.Servers.{net, encoder, missing_page, version_request, blank}
use svm_go.Version.World

abbrev app : App
app = app_of platform expected []

abbrev running : RunningApp
running = running_of platform expected

new_app-Ready_example : Ready parsers net environment app running
unfolding Configs.program Server.new_app Clients.parse_trusted_networks
new_app-Ready_example = new_app-Ready platform parsers net environment app running refl

serve-SentFor_example :
    SentFor platform net encoder missing_page app false
      (answering (1000 * second))
      (1000 * second)
      version_request
      running.world.sent
      (serve platform net encoder missing_page app false
        (answering (1000 * second))
        (1000 * second)
        version_request
        blank
        running).1.world.sent
serve-SentFor_example =
    serve-SentFor platform net encoder missing_page app false (answering (1000 * second))
      (1000 * second) version_request blank running

-- Where the first request has led.
abbrev fetched : RunningApp
fetched =
    (serve platform net encoder missing_page app false (answering (1000 * second)) (1000 * second)
      version_request blank running).1

serve_hit-sent_example :
    (serve platform net encoder missing_page app false
      (silent (1001 * second))
      (1001 * second)
      version_request
      blank
      fetched).1.world.sent
    ≡ fetched.world.sent
unfolding Samples.program Servers.program Service.write_json Server.serve Http.with_access_log
    Service.handle_version Service.version_service Server.access_log_hook World.new_service_config
    Server.service_of Server.new_version_service
serve_hit-sent_example =
    serve_hit-sent platform net encoder missing_page app false (silent (1001 * second))
      (1001 * second) version_request blank fetched refl refl refl

serve-IsSteady_example :
    IsSteady
      (serve platform net encoder missing_page app false
        (answering (1000 * second))
        (1000 * second)
        version_request
        blank
        running).1
serve-IsSteady_example =
    serve-IsSteady platform net encoder missing_page app false (answering (1000 * second))
      (1000 * second) version_request blank running new_app-Ready_example.steady

-- A bad configuration and a server that fails to listen end the program with 1, a clean stop with 0.
exits :
    (exit_code (app_error invalid_cidr) in_time signal_first none none ≡ 1)
    × (exit_code
          (created app running)
          in_time
          listen_first
          (some none)
          (some (some (codes "in use")))
        ≡ 1)
    × (exit_code (created app running) in_time signal_first (some none) (some none) ≡ 0)
unfolding Server.exit_code Lifecycle.run_server_with_lifecycle Lifecycle.shutdown
exits = (refl, refl, refl)

abbrev runtime : Runtime
runtime = record {
  refresh_queue = new_refresh_queue expected.cache_policy.refresh_queue_size;
  refresh_workers =
      new_refresh_workers true true expected.cache_policy.revalidate_workers
        expected.cache_policy.revalidate_per_worker_rps true;
  revalidate_scheduler = new_revalidate_scheduler expected.cache_policy true;
}

abbrev happenings : List Happening
happenings =
    request_served false (answering (1000 * second)) (1000 * second) version_request blank
    ∷ swept (λ n. false) (2000 * second)
    ∷ job_taken false false true
    ∷ request_served false (answering (2001 * second)) (2001 * second) version_request blank
    ∷ refresh_ended 0 (silent (2002 * second))
    ∷ line_written
    ∷ queue_closed
    ∷ log_shut_down
    ∷ line_written
    ∷ []

run_all-new_app_example :
    let end =
      run_all platform net encoder missing_page app runtime happenings
        (shared_of running runtime) in
    IsWell
      (budget_of app.cache_policy.l1_max_bytes)
      runtime.refresh_workers.initial_worker_count
      end
    × ((key : Str) → occurrences key end.refreshing ≤ 1)
unfolding Configs.program Server.new_app Clients.parse_trusted_networks
    Server.start_revalidation_runtime
run_all-new_app_example =
    run_all-new_app platform parsers net encoder missing_page environment app running runtime
      happenings refl refl
