-- ===== src/Lib.antt =====
-- Verification of svm-go, a caching proxy for upstream version documents.
--
-- A request names an https URL. The router hands it to the version handler, which asks the version
-- service. The service prepares the URL (validation, allowlist, cache key, behind a memo), looks it
-- up in the in-memory cache, and answers from there or from upstream, with one of its GitHub tokens.
-- Concurrent requests for one key share one call. What was used is remembered by the activity
-- tracker; a scheduler sweeps the active keys and queues those that are due, and workers take them
-- from the queue and refresh them in the background. Each request leaves an entry in the access log,
-- which one goroutine writes. The application makes these parts from the configuration, and stops
-- them in order.
--
-- The files, and the code they model:
--
--   Prelude    shared names, native numbers, byte strings, Go maps as association lists, the
--              signed integers.
--   Text       what is used of Go's strings, bytes, strconv and fmt packages, on lists of bytes.
--   Platform   url.URL, and net/url, SHA-256, hex and JSON as parameters.
--   Cache      internal/cache: Record (record.go), Clock (time.Time and time.Duration), Policy
--              (policy.go), State (state.go), Key (key.go).
--   L1         internal/cache/l1/cache.go: get, get_readonly, set and the eviction, one function
--              per method or part of one. Linked, Moves, Valid and Refines carry the invariant,
--              Spec is the list of records that a cache stands for, Ends is about the loop's fuel.
--   Security   internal/security/url_validator.go.
--   Upstream   internal/upstream/github: Tokens (token_provider.go) and Client (client.go, with
--              Chain for the clients it makes and the redirects one of them follows). A choice of a
--              token reads the clock once, where the code reads it for each token that it tests.
--   Metrics    internal/observability/metrics.go.
--   Logger     internal/observability/logger.go: the fields of a line; Writing is what the sink
--              receives.
--   Config     internal/config/config.go; the environment is a function from names to values.
--   Version    internal/service/version: Status, Prep, World, Cached, Respond, Handle, Refresh,
--              Groups and Entries (service.go, request_prep_cache.go; Handle is the request handler,
--              which serves with Cached and answers with Respond; Entries are RefreshByKey and
--              RefreshInBackground), Store (the CacheStore interface and its
--              contract, with internal/cache/l1/store.go as an implementation), Activity
--              (activity_tracker.go), Queue (refresh_queue.go), Scheduler
--              (revalidate_scheduler.go, its timer loop in Loop), Workers (refresh_worker.go, all
--              workers together in Pool). Records tells what a record of an answer holds, and Keeps
--              what the store keeps through all of these.
--   Http       internal/httpapi: the router (router.go, handlers.go) in Http, Service (version.go,
--              health.go), Counters (metrics.go).
--   App        cmd/svm/main.go and internal/app/app.go: Clients (the trusted networks and the
--              client's address), AccessLog, Lifecycle (the run and the shutdown), Server (NewApp and
--              the handler that main serves with), Runs (all parts together, in any order).
--   Tests      runs on concrete inputs and the theorems at such inputs.
--
-- How the code is read. State is passed explicitly: a method is a function from its state to its
-- results and the new state, and a mutex makes one such function one step. Interleavings are
-- sequences of such steps (Version.Groups, Version.Queue.Runs, Version.Workers.Pool, the access log,
-- the second lock of the memo); App.Runs takes each request, sweep, begin and end of a refresh, and
-- log line as one step. A channel is the list of what waits in it, with its capacity. The clock, the
-- answers of upstream, the resolver, the contexts and the firings of timers are arguments, and so
-- are the encoder of JSON, fasthttp's not-found page, the quoting verb of fmt and the address
-- parsers of package net. Times are nanoseconds since the zero time; durations are signed. Counters
-- wrap at 2^64, and the limit of the body reader at 2^63. Go maps are association lists whose order
-- nothing depends on. Bytes are numbers. The eviction loop of the cache runs on fuel, one round for
-- each element of the recency list, which is enough since a round removes one; a number n is printed
-- with fuel n + 1, and each digit makes it smaller; everything else is structural.
--
-- Not modelled: what the service and its parts log while they work, the format of times in log
-- lines, the server's listener and timeouts, what a transport of net/http does beyond its proxy and
-- its dialling, and the scheduling of goroutines beyond the order of the events above.
-- Version.Handle.handle is a call while no other call for its key is in flight; the sharing of calls
-- is Version.Groups.
pub mod Prelude
pub mod Text
pub mod Platform
pub mod Cache
pub mod L1
pub mod Security
pub mod Upstream
pub mod Metrics
pub mod Version
pub mod Config
pub mod Http
pub mod Logger
pub mod App
mod Tests
