-- ===== src/App/AccessLog/Runs.antt =====
-- The access log of cmd/svm/main.go over any sequence of requests, lines and shutdowns.
use svm_go.Prelude.{
  ℕ, zero, suc, ◌≤◌, ◌≡◌, ◌∙◌, refl, ap, sym, true, false, Option, none, some, List, [], ◌∷◌, ◌++◌,
  map, length, ◌&&◌, not, ltb, if◌then◌else◌, length-append, append-nil, append_assoc, arith,
  Bool-cases, inl, inr,
}
use mathlib.Core.List.{map-append}
use svm_go.App.AccessLog.{
  inc_access_log_dropped, not, RequestLogEntry, RequestLogs, new_request_logs,
  request_log_queue_size, try_send, enqueue_client_request_log, line_fields, process_request_log,
  shutdown_request_logs,
}
use svm_go.Logger.{Field}
use svm_go.Metrics.{Metrics}

-- A request is answered, the goroutine goes on, or the application shuts down.
pub data Event : Type 0 where
  answered : RequestLogEntry → Event
  goes_on shuts_down : Event

unfoldable pub happen : Event → RequestLogs → Option RequestLogs
happen (answered entry) logs = enqueue_client_request_log entry logs
happen goes_on logs = some (process_request_log logs)
happen shuts_down logs = shutdown_request_logs logs

-- The entries that get a place in the channel, with the state that the events lead to.
unfoldable pub log_run : List Event → RequestLogs → Option RequestLogs
log_run [] logs = some logs
log_run (e ∷ es) logs = elim (happen e logs) [ none ↦ none | some next ↦ log_run es next ]

-- An entry that is answered at a state is accepted there.
abbrev pub accepts : Event → RequestLogs → List RequestLogEntry
accepts goes_on logs = []
accepts shuts_down logs = []
accepts (answered entry) logs =
    if logs.attached && ltb (length logs.queue) request_log_queue_size then entry ∷ [] else []

unfoldable pub accepted : List Event → RequestLogs → List RequestLogEntry
accepted [] logs = []
accepted (e ∷ es) logs = elim (happen e logs) [
  | none ↦ []
  | some next ↦ accepts e logs ++ accepted es next
]

-- The channel is open exactly while the application has it, and holds no more than its size.
pub record IsSound (logs : RequestLogs) : Type 0 where
  pub open_while_attached : logs.closed ≡ not logs.attached
  pub bounded : length logs.queue ≤ request_log_queue_size

-- The lines that were written and those that will be are those of the entries.
abbrev pub lines_of : RequestLogs → List (List Field)
lines_of logs = logs.written ++ map line_fields logs.queue

-- A step from a sound state never panics, leads to a sound state, and adds the lines of what it accepts.
pub record Goes (e : Event) (logs : RequestLogs) : Type 0 where
  pub next : RequestLogs
  pub happens : happen e logs ≡ some next
  pub sound : IsSound next
  pub lines : lines_of next ≡ lines_of logs ++ map line_fields (accepts e logs)

process_request_log-Goes : (logs : RequestLogs) → IsSound logs → Goes goes_on logs
unfolding happen process_request_log
process_request_log-Goes logs s = go _ refl
  where
    go : (q : List RequestLogEntry) → logs.queue ≡ q → Goes goes_on logs
    go [] e = record {
      next = process_request_log logs;
      happens = refl;
      sound = ground arith;
      lines = ground (arith, append-nil (lines_of logs));
    }
    go (entry ∷ rest) e = record {
      next = process_request_log logs;
      happens = refl;
      sound = ground arith;
      lines = rw e (
          append_assoc logs.written (line_fields entry ∷ []) (map line_fields rest)
          ∙ sym (append-nil (logs.written ++ line_fields entry ∷ map line_fields rest)));
    }

enqueue_client_request_log-Goes :
    (entry : RequestLogEntry) (logs : RequestLogs) → IsSound logs → Goes (answered entry) logs
unfolding happen enqueue_client_request_log try_send
enqueue_client_request_log-Goes entry logs s = elim (Bool-cases logs.attached) [
  | inr gone ↦ record {
    next = logs;
    happens = ground arith;
    sound = s;
    lines = rw gone (sym (append-nil (lines_of logs)));
  }
  | inl here ↦ elim (Bool-cases (ltb (length logs.queue) request_log_queue_size)) [
    | inl room ↦ record {
      next = record logs { queue = logs.queue ++ entry ∷ [] };
      happens = ground arith;
      sound = ground (arith, length-append logs.queue (entry ∷ []));
      lines =
          rw (here, room, map-append line_fields logs.queue (entry ∷ []))
            (sym (append_assoc logs.written (map line_fields logs.queue) (line_fields entry ∷ [])));
    }
    | inr full ↦ record {
      next = record logs { metrics = inc_access_log_dropped logs.metrics };
      happens = ground arith;
      sound = ground arith;
      lines = rw (here, full) (sym (append-nil (lines_of logs)));
    }
  ]
]

shutdown_request_logs-Goes : (logs : RequestLogs) → IsSound logs → Goes shuts_down logs
unfolding happen shutdown_request_logs
shutdown_request_logs-Goes logs s = elim (Bool-cases logs.attached) [
  | inr gone ↦ record {
    next = logs;
    happens = ground arith;
    sound = s;
    lines = sym (append-nil (lines_of logs));
  }
  | inl here ↦ record {
    next = record logs { closed = true; attached = false };
    happens = ground arith;
    sound = ground arith;
    lines = sym (append-nil (lines_of logs));
  }
]

pub happen-Goes : (e : Event) (logs : RequestLogs) → IsSound logs → Goes e logs
happen-Goes goes_on logs s = process_request_log-Goes logs s
happen-Goes shuts_down logs s = shutdown_request_logs-Goes logs s
happen-Goes (answered entry) logs s = enqueue_client_request_log-Goes entry logs s

-- A run that does not panic, whose last state is sound and has the lines of what was accepted.
pub record Logged (es : List Event) (logs : RequestLogs) : Type 0 where
  pub last : RequestLogs
  pub runs : log_run es logs ≡ some last
  pub sound : IsSound last
  pub lines : lines_of last ≡ lines_of logs ++ map line_fields (accepted es logs)

log_run-happen :
    (e : Event) (es : List Event) (logs next : RequestLogs)
    → happen e logs ≡ some next
    → (log_run (e ∷ es) logs ≡ log_run es next)
      × (accepted (e ∷ es) logs ≡ accepts e logs ++ accepted es next)
unfolding log_run accepted
log_run-happen e es logs next h = (ground arith, ground arith)

log_run-Logged : (es : List Event) (logs : RequestLogs) → IsSound logs → Logged es logs
unfolding log_run accepted
log_run-Logged [] logs s = record {
  last = logs;
  runs = refl;
  sound = s;
  lines = sym (append-nil (lines_of logs));
}
log_run-Logged (e ∷ es) logs s =
    let step = happen-Goes e logs s in
    let rest = log_run-Logged es step.next step.sound in
    let (run, took) = log_run-happen e es logs step.next step.happens in
    let now = map line_fields (accepts e logs) in
    let later = map line_fields (accepted es step.next) in
    record {
      last = rest.last;
      runs = run ∙ rest.runs;
      sound = rest.sound;
      lines =
          rest.lines
          ∙ ap (λ l. l ++ later) step.lines
          ∙ append_assoc (lines_of logs) now later
          ∙ sym (
              ap (λ l. lines_of logs ++ l)
                (ap (map line_fields) took
                  ∙ map-append line_fields (accepts e logs) (accepted es step.next)));
    }

-- From the start, no sequence of answered requests, steps of the goroutine and shutdowns panics with
-- a send on a closed channel or a second close; the channel never holds more than its size, and the
-- lines written and those that wait are those of the accepted entries, each once and in their order.
pub log_run-new_request_logs :
    (metrics : Option Metrics) (es : List Event) → Logged es (new_request_logs metrics)
log_run-new_request_logs metrics es =
    log_run-Logged es (new_request_logs metrics)
      (record { open_while_attached = refl; bounded = omega arith })

unfoldable pub process_all : ℕ → RequestLogs → RequestLogs
process_all zero logs = logs
process_all (suc n) logs = process_all n (process_request_log logs)

shutdown_request_logs-closing :
    (last closing : RequestLogs)
    → last.attached ≡ true
    → shutdown_request_logs last ≡ some closing
    → (closing.queue ≡ last.queue) × (closing.closed ≡ true) × (closing.written ≡ last.written)
unfolding shutdown_request_logs
shutdown_request_logs-closing last closing h e = (ground arith, ground arith, ground arith)

process_request_log-entry :
    (entry : RequestLogEntry) (q : List RequestLogEntry) (logs : RequestLogs)
    → logs.queue ≡ entry ∷ q
    → ((process_request_log logs).queue ≡ q)
      × ((process_request_log logs).closed ≡ logs.closed)
      × (lines_of (process_request_log logs) ≡ lines_of logs)
unfolding process_request_log
process_request_log-entry entry q logs e = (
  ground arith,
  ground arith,
  rw e (append_assoc logs.written (line_fields entry ∷ []) (map line_fields q)),
)

process_all-closed :
    (q : List RequestLogEntry) (logs : RequestLogs)
    → logs.queue ≡ q
    → logs.closed ≡ true
    → ((process_all (suc (length q)) logs).ended ≡ true)
      × ((process_all (suc (length q)) logs).written ≡ lines_of logs)
unfolding process_all
process_all-closed [] logs e c =
    unfold process_request_log in (ground arith, rw (e, c) (sym (append-nil logs.written)))
process_all-closed (entry ∷ q) logs e c =
    let (rest, same, lines) = process_request_log-entry entry q logs e in
    let (ended, written) = process_all-closed q (process_request_log logs) rest (same ∙ c) in
    (ended, written ∙ lines)

-- However the application has run, when it shuts down the goroutine has only to go on once for each
-- entry that waits and once more: then it has ended, and a line is written for every entry that was
-- accepted, in their order.
pub shutdown_request_logs-process_all :
    (metrics : Option Metrics) (es : List Event) (last closing : RequestLogs)
    → log_run es (new_request_logs metrics) ≡ some last
    → last.attached ≡ true
    → shutdown_request_logs last ≡ some closing
    → ((process_all (suc (length last.queue)) closing).ended ≡ true)
      × ((process_all (suc (length last.queue)) closing).written
          ≡ map line_fields (accepted es (new_request_logs metrics)))
shutdown_request_logs-process_all metrics es last closing run attached shut =
    let logged = log_run-new_request_logs metrics es in
    let same : logged.last ≡ last = ground (arith, logged.runs, run) in
    let (queue, closed, written) = shutdown_request_logs-closing last closing attached shut in
    let (ended, lines) = process_all-closed last.queue closing queue closed in
    (ended, lines ∙ rw (written, queue) (rw (← same) logged.lines))
