-- ===== src/Tests/Servers.antt =====
-- internal/httpapi, cmd/svm/main.go and internal/app/app.go at concrete requests.
use svm_go.Prelude.{
  ℕ, ◌+◌, ◌≡◌, ◌⊎◌, refl, true, false, none, some, List, [], ◌∷◌, codes, lookup, insert, delete,
  str_eq, map,
}
use svm_go.App.AccessLog.{
  RequestLogEntry, RequestLogs, new_request_logs, line_fields, shutdown_request_logs,
  enqueue_client_request_log, try_send, process_request_log,
}
use svm_go.App.AccessLog
use svm_go.App.AccessLog.Runs
use svm_go.App.AccessLog.Runs.{
  Event, answered, goes_on, shuts_down, Logged, log_run-new_request_logs, process_all, accepted,
  shutdown_request_logs-process_all,
}
use svm_go.App.Clients
use svm_go.App.Clients.{Net, Network, get_client_ip, remote_addr_text, parse_trusted_networks}
use svm_go.App.Clients.Trust.{Believed, get_client_ip-Believed}
use svm_go.App.Lifecycle.{Background, timed_out, in_time, signal_first, run_server_with_lifecycle}
use svm_go.App.Lifecycle.Order.{
  Follows, StopsAll, Returns, run_server_with_lifecycle-Follows, run_server_with_lifecycle-StopsAll,
}
use svm_go.Http.{HttpRequest, HttpResponse, Handlers, new_router}
use svm_go.Http
use svm_go.Http.Counters.{metrics_text}
use svm_go.Http.Counters.Samples.{read_samples, read_samples-metrics_text}
use svm_go.Http.Routes.{by_route, route_table, new_router-route_table}
use svm_go.Http.Service.{Answer, Encoder, write_answer}
use svm_go.Http.Service.Answers.{Tells, write_answer-Tells}
use svm_go.Metrics.{new_metrics}
use svm_go.Text
use svm_go.Upstream.Client.{v4, ipv4}
use svm_go.Version.{payload}

unfoldable pub program : Unit {0}
unfolding lookup insert delete str_eq Text.trim_space Text.split_comma Text.split_comma_from
    Text.contains_byte Clients.contains Clients.network_text Clients.add_trusted_networks
    Clients.parse_trusted_networks Clients.remote_ip Clients.is_trusted Clients.forwarded_client
    Clients.get_client_ip Http.new_router Http.get_only Http.write_method_not_allowed
    AccessLog.try_send AccessLog.enqueue_client_request_log AccessLog.line_fields
    AccessLog.process_request_log AccessLog.shutdown_request_logs Runs.happen Runs.log_run
    Runs.accepted Runs.process_all
program = tt

abbrev pub version_request : HttpRequest
version_request = record {
  method = codes "GET";
  path = codes "/version";
  url = codes "https://api.github.com/r";
  refresh = [];
  protocol = codes "HTTP/1.1";
  remote_addr = some (codes "10.0.0.7:4000");
  forwarded_for = codes "203.0.113.9, 10.0.0.1";
}

abbrev pub blank : HttpResponse
blank = record { status_code = 0; content_type = []; headers = []; body = [] }

-- Each handler adds its own number.
abbrev numbered : Handlers ℕ
numbered = record {
  version = λ req resp n. (resp, n + 1);
  ping = λ req resp n. (resp, n + 2);
  health = λ req resp n. (resp, n + 3);
  metrics = λ req resp n. (resp, n + 4);
}

abbrev pub missing_page : HttpResponse → HttpResponse
missing_page resp = record resp { status_code = 404 }

-- A POST is answered 405, whatever the path.
post_is_refused :
    (new_router missing_page numbered
      (record version_request { method = codes "POST" })
      blank
      0).0.status_code
    ≡ 405
unfolding program
post_is_refused = refl

new_router-route_table_example :
    new_router missing_page numbered version_request blank 0
    ≡ by_route missing_page
        (lookup version_request.path (route_table numbered))
        version_request
        blank
        0
new_router-route_table_example =
    new_router-route_table missing_page numbered version_request blank 0

abbrev pub encoder : Encoder
encoder = record { encode = λ b. codes "{}"; encode_health = λ h. []; encode_ping = λ p. [] }

abbrev not_modified_answer : Answer
not_modified_answer = record {
  status_code = 0;
  body = payload (codes "{}");
  cache_status = [];
  cache_key = codes "v1:hash";
  upstream_status = 304;
}

write_answer-Tells_example :
    Tells encoder not_modified_answer blank (write_answer encoder not_modified_answer blank)
write_answer-Tells_example = write_answer-Tells encoder not_modified_answer blank

read_samples-metrics_text_example :
    read_samples (metrics_text (record new_metrics { cache_hits = 120 }))
    ≡ (codes "svm_cache_hits_total", some 120)
      ∷ (codes "svm_cache_misses_total", some 0)
      ∷ (codes "svm_revalidate_runs_total", some 0)
      ∷ (codes "svm_upstream_requests_total", some 0)
      ∷ (codes "svm_upstream_errors_total", some 0)
      ∷ (codes "svm_refresh_updated_total", some 0)
      ∷ (codes "svm_refresh_not_modified_total", some 0)
      ∷ (codes "svm_refresh_skipped_total", some 0)
      ∷ (codes "svm_refresh_failed_total", some 0)
      ∷ (codes "svm_refresh_processed_total", some 0)
      ∷ (codes "svm_access_log_dropped_total", some 0)
      ∷ []
read_samples-metrics_text_example =
    read_samples-metrics_text (record new_metrics { cache_hits = 120 })

-- It reads every address as 10.0.0.7 and every network as 10.0.0.0/8.
abbrev pub net : Net
net = record {
  unicode = record { trim = λ s. s; lower = λ s. s; fold = str_eq };
  parse_ip = λ s. some (v4 (ipv4 10 0 0 7));
  parse_cidr = λ s. some (record { ip = v4 (ipv4 10 0 0 0); ones = 8 });
  split_host_port = λ s. none;
}

abbrev trusted : List Network
trusted = record { ip = v4 (ipv4 10 0 0 0); ones = 8 } ∷ []

-- The first address of the list is the client.
forwarded_is_believed : get_client_ip net trusted version_request ≡ codes "203.0.113.9"
unfolding program
forwarded_is_believed = refl

get_client_ip-Believed_example :
    (get_client_ip net trusted version_request ≡ remote_addr_text version_request)
    ⊎ Believed net (codes "10.0.0.0/8") version_request (get_client_ip net trusted version_request)
unfolding program
get_client_ip-Believed_example =
    get_client_ip-Believed net (codes "10.0.0.0/8") trusted version_request refl

abbrev entry : RequestLogEntry
entry = record {
  client_ip = codes "203.0.113.9";
  method = codes "GET";
  request_uri = codes "/version";
  upstream_url = [];
  proto = codes "HTTP/1.1";
  status_code = 200;
}

abbrev events : List Event
events = answered entry ∷ goes_on ∷ answered (record entry { method = codes "POST" }) ∷ []

log_run-new_request_logs_example :
    Logged
      (answered entry ∷ shuts_down ∷ answered entry ∷ shuts_down ∷ goes_on ∷ [])
      (new_request_logs none)
log_run-new_request_logs_example =
    log_run-new_request_logs none
      (answered entry ∷ shuts_down ∷ answered entry ∷ shuts_down ∷ goes_on ∷ [])

abbrev last : RequestLogs
last = record {
  attached = true;
  queue = record entry { method = codes "POST" } ∷ [];
  closed = false;
  written = line_fields entry ∷ [];
  ended = false;
  metrics = none;
}

abbrev closing : RequestLogs
closing = record last { attached = false; closed = true }

shutdown_request_logs-process_all_example :
    ((process_all 2 closing).ended ≡ true)
    × ((process_all 2 closing).written ≡ map line_fields (accepted events (new_request_logs none)))
unfolding program
shutdown_request_logs-process_all_example =
    shutdown_request_logs-process_all none events last closing refl refl refl

abbrev background : Background
background = record { revalidate_scheduler = true; refresh_workers = true; refresh_queue = true }

run_server_with_lifecycle-Follows_example :
    Follows 0
      (run_server_with_lifecycle
        (timed_out 1 2)
        signal_first
        (some background)
        (some none)
        (some none)).1
run_server_with_lifecycle-Follows_example =
    run_server_with_lifecycle-Follows (timed_out 1 2) signal_first (some background) (some none)
      (some none)

run_server_with_lifecycle-StopsAll_example :
    StopsAll background
      (run_server_with_lifecycle in_time signal_first
        (some background)
        (some (some (codes "late")))
        (some none)).1
    × Returns signal_first
        (some (codes "late"))
        none
        (run_server_with_lifecycle in_time signal_first
          (some background)
          (some (some (codes "late")))
          (some none)).0
run_server_with_lifecycle-StopsAll_example =
    run_server_with_lifecycle-StopsAll signal_first background (some (codes "late")) none
