-- ===== src/App/AccessLog.antt =====
-- The access log of cmd/svm/main.go: the handlers send entries through a bounded channel to one
-- goroutine, which writes them.
pub mod Runs
use svm_go.Prelude.{
  ℕ, zero, suc, Bool, true, false, not, ◌||◌, Option, none, some, List, [], ◌∷◌, ◌++◌, Str, codes,
  pos, is_empty, str_eq, length, ltb, ◌==◌, if◌then◌else◌,
}
use svm_go.App.Clients.{Network, Net, get_client_ip}
use svm_go.Http.{HttpRequest, HttpResponse}
use svm_go.Logger.{Field, string_field, int_field}
use svm_go.Metrics.{Metrics, inc_access_log_dropped}
use svm_go.Platform.{Platform, Url}
use svm_go.Text.{trim_space}

abbrev pub request_log_queue_size : ℕ
request_log_queue_size = 256

pub record RequestLogEntry : Type 0 where
  pub client_ip : Str
  pub method : Str
  pub request_uri : Str
  pub upstream_url : Str
  pub proto : Str
  pub status_code : ℕ

-- `attached` says that `app.requestLogQueue` is not nil. `queue` holds what is in the channel, oldest
-- first. `written` are the lines of the goroutine, and `ended` says that it has closed `done`.
pub record RequestLogs : Type 0 where
  pub attached : Bool
  pub queue : List RequestLogEntry
  pub closed : Bool
  pub written : List (List Field)
  pub ended : Bool
  pub metrics : Option Metrics

-- The channel that `NewApp` makes, with its goroutine.
abbrev pub new_request_logs : Option Metrics → RequestLogs
new_request_logs metrics = record {
  attached = true;
  queue = [];
  closed = false;
  written = [];
  ended = false;
  metrics = metrics;
}

-- `sanitizedUpstreamURLForAccessLog`; the context is never nil.
unfoldable pub sanitized_upstream_url_for_access_log : Platform → HttpRequest → Str
sanitized_upstream_url_for_access_log pl req =
    if not (str_eq req.path (codes "/version"))
    then []
    else elim (pl.parse_url (trim_space pl.unicode req.url)) [
      | none ↦ []
      | some parsed ↦
          if is_empty parsed.scheme || is_empty parsed.host
          then []
          else pl.url_string
              (record parsed { user = none; raw_query = []; force_query = false; fragment = [] })
    ]

-- The entry of a request and its response.
unfoldable pub request_log_entry :
    Platform → Net → List Network → HttpRequest → HttpResponse → RequestLogEntry
unfolding sanitized_upstream_url_for_access_log
request_log_entry pl net trusted req resp = record {
  client_ip = get_client_ip net trusted req;
  method = req.method;
  request_uri = req.path;
  upstream_url = sanitized_upstream_url_for_access_log pl req;
  proto = if is_empty req.protocol then codes "HTTP/1.1" else req.protocol;
  status_code = if resp.status_code == 0 then 200 else resp.status_code;
}

-- What a `select` with a default does with the channel. A send on a closed channel panics, which is
-- none; a nil channel is left out before.
unfoldable pub try_send : RequestLogEntry → RequestLogs → Option RequestLogs
try_send entry logs =
    if logs.closed
    then none
    else if ltb (length logs.queue) request_log_queue_size
    then some (record logs { queue = logs.queue ++ entry ∷ [] })
    else some (record logs { metrics = inc_access_log_dropped logs.metrics })

-- `enqueueClientRequestLog`, on the entry that it makes; none is a panic.
unfoldable pub enqueue_client_request_log : RequestLogEntry → RequestLogs → Option RequestLogs
unfolding try_send
enqueue_client_request_log entry logs = if logs.attached then try_send entry logs else some logs

-- The fields of a line.
unfoldable pub line_fields : RequestLogEntry → List Field
line_fields entry =
    (string_field (codes "client_ip") entry.client_ip
      ∷ string_field (codes "method") entry.method
      ∷ string_field (codes "request_uri") entry.request_uri
      ∷ string_field (codes "protocol") entry.proto
      ∷ int_field (codes "status") (pos entry.status_code)
      ∷ [])
    ++ (if is_empty entry.upstream_url
        then []
        else string_field (codes "upstream_url") entry.upstream_url ∷ [])

-- What the goroutine of `processRequestLogs` does next: it writes an entry, ends when the channel is
-- closed and empty, or waits.
unfoldable pub process_request_log : RequestLogs → RequestLogs
unfolding line_fields
process_request_log logs = elim logs.queue [
  | entry ∷ rest ↦ record logs { queue = rest; written = logs.written ++ line_fields entry ∷ [] }
  | [] ↦ if logs.closed then record logs { ended = true } else logs
]

-- `shutdownRequestLogs` up to its wait for `done`; none is the panic of closing a closed channel.
unfoldable pub shutdown_request_logs : RequestLogs → Option RequestLogs
shutdown_request_logs logs =
    if not logs.attached
    then some logs
    else if logs.closed
    then none
    else some (record logs { closed = true; attached = false })
