-- ===== src/Tests/Parts.antt =====
-- The groups, the queue, the tracker, the scheduler and the workers of internal/service/version.
use svm_go.Prelude.{
  ◌*◌, get_elem?, ◌+◌, ◌*◌, ◌≡◌, ◌==◌, ◌≤◌, ◌↔◌, ◌++◌, refl, true, false, none, some, List, [], ◌∷◌,
  Str, codes, pos, length, take, str_eq, lookup, insert, delete, Distinct,
}
use svm_go.Cache.Clock.{Time, second}
use svm_go.Cache.Policy.{default_policy}
use svm_go.Cache.{Record}
use svm_go.L1.{new_cache_with_max_bytes}
use svm_go.L1.Runs.{Call, set_call, run, run-refines-spec_run}
use svm_go.Tests.Samples.{program, key}
use svm_go.Version.{Response, hit, payload}
use svm_go.Version.Activity.{ActivityTracker, active_keys_since}
use svm_go.Version.Activity.Keys.{never, Lists, active_keys_since-Lists}
use svm_go.Version.Groups
use svm_go.Version.Groups.{
  ForegroundRequestGroup, new_foreground_request_group, new_background_refresh_group, admit, enter,
  finish, wait,
}
use svm_go.Version.Groups.Background
use svm_go.Version.Groups.Background.{Running, Reachable, initial, occurrences, Reachable-admit}
use svm_go.Version.Groups.Foreground
use svm_go.Version.Groups.Foreground.{Steps, Steps-enter, Steps-wait}
use svm_go.Version.Respond.{upstream_response}
use svm_go.Version.Queue.{new_refresh_queue}
use svm_go.Version.Queue.Runs.{
  Operation, enqueue_of, dequeue_of, close_of, perform_all, new_history, perform_all-order,
}
use svm_go.Version.Scheduler.{sweep_keys}
use svm_go.Version.Scheduler.Due.{room, IsDueKey, Picks, sweep_keys-Picks}
use svm_go.Version.Store.Memory.{memory_store, memory_store-Contract}
use svm_go.Version.Workers.{Turn}

abbrev pub k : Str
k = codes "k"

abbrev running : Running
running = record { group = (admit k new_background_refresh_group).1; running = k ∷ [] }

running-Reachable : Reachable running
unfolding Groups.admit Groups.start lookup insert delete
running-Reachable = Reachable.next initial (
    Background.Step.admitted k (record { group = new_background_refresh_group; running = [] }) refl)

Reachable-admit_example :
    (occurrences k running.running ≤ 1)
    × ((admit k running.group).0 ≡ (occurrences k running.running == 0))
Reachable-admit_example = Reachable-admit running k running-Reachable refl

abbrev entered : ForegroundRequestGroup
entered = (enter k new_foreground_request_group).1

abbrev answer : Response
answer = upstream_response 200 (payload (codes "{}")) hit k 0

abbrev ended : ForegroundRequestGroup
ended = finish 0 k answer entered

entered-Steps : Steps new_foreground_request_group entered
entered-Steps = Steps.next Steps.done (Foreground.Step.entered k new_foreground_request_group)

Steps-enter_example :
    ((enter k entered).0 ≡ (0, false))
    ↔ (get_elem? entered.calls 0 ≡ some (record { key = k; response = none }))
Steps-enter_example = Steps-enter entered k 0 entered-Steps

Steps-wait_example : wait false true 0 k (enter k ended).1 ≡ some answer
unfolding Groups.enter Groups.finish Groups.set_response Groups.wait lookup insert delete str_eq
Steps-wait_example =
    Steps-wait {g = ended} {g' = (enter k ended).1} false true 0 k answer
      (Steps.next Steps.done (Foreground.Step.entered k ended)) refl

abbrev operations : List Operation
operations =
    enqueue_of (codes "a")
    ∷ enqueue_of (codes "b")
    ∷ enqueue_of (codes "c")
    ∷ dequeue_of false false
    ∷ close_of
    ∷ []

perform_all-order_example :
    let h = perform_all operations (new_history (pos 2)) in
    (h.sent ≡ h.received ++ h.queue.keys) × (length h.queue.keys ≤ h.queue.size)
perform_all-order_example = perform_all-order (pos 2) operations

abbrev tracker : ActivityTracker
tracker = record { last_hits = (codes "a", 5) ∷ (codes "b", 3) ∷ (codes "c", 1) ∷ [] }

tracker-Distinct : Distinct tracker.last_hits
unfolding lookup str_eq
tracker-Distinct = (refl, (refl, (refl, tt)))

active_keys_since-Lists_example : Lists 2 tracker (active_keys_since never 2 (pos 0) tracker)
active_keys_since-Lists_example = active_keys_since-Lists 2 tracker tracker-Distinct

abbrev pub start : Time
start = 1000 * second

abbrev calls : List Call
calls = set_call key old ∷ set_call k new ∷ []
  where
    old : Record
    old = record {
      payload = codes "{}";
      etag = [];
      url = codes "u";
      fetched_at = start;
      last_hit_at = start;
      last_checked_at = start;
      expires_at = 0;
      source_status = 200;
    }

    new : Record
    new = record old { last_checked_at = start + 99 * second }

abbrev pub filled : memory_store.State
filled = some (run calls (new_cache_with_max_bytes (pos 100000))).1

sweep_keys-Picks_example :
    let (result, _, q') =
      sweep_keys memory_store default_policy
        (start + 100 * second)
        (key ∷ k ∷ [])
        filled
        (new_refresh_queue (pos 1)) in
    (due : List Str) × Picks
      (IsDueKey memory_store (start + 100 * second) default_policy.revalidate_interval filled)
      (key ∷ k ∷ [])
      due
    × (result.due_keys ≡ length due)
    × (result.enqueued + result.dropped ≡ result.due_keys)
    × (result.enqueued ≡ length (take (room (new_refresh_queue (pos 1))) due))
    × (q'.keys ≡ (new_refresh_queue (pos 1)).keys ++ take (room (new_refresh_queue (pos 1))) due)
unfolding program memory_store-Contract run
sweep_keys-Picks_example =
    sweep_keys-Picks memory_store memory_store-Contract default_policy (start + 100 * second)
      (key ∷ k ∷ []) filled (new_refresh_queue (pos 1))
      (run-refines-spec_run (pos 100000) calls).1.valid

abbrev pub turns : List Turn
turns =
    record { key = k; checked_at = 10; late = 0; fired = true; finished_at = 20 }
    ∷ record { key = k; checked_at = 30; late = 5; fired = true; finished_at = 3 * second }
    ∷ []
