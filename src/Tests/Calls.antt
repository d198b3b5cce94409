-- ===== src/Tests/Calls.antt =====
-- `Handle` over the in-memory cache at concrete requests.
use svm_go.Prelude.{◌*◌, ◌+◌, ◌≡◌, ◌⊎◌, refl, false, none, [], pos, arith}
use svm_go.Cache.Clock.{Time, second}
use svm_go.L1.Runs.{run, run-refines-spec_run}
use svm_go.Tests.Samples.{
  program, platform, config, url_text, response, answering, silent, fresh_world, request,
}
use svm_go.Version.{Response, CacheStatus, hit}
use svm_go.Version.Respond.{upstream_response}
use svm_go.Version.Handle.{handle, handle_uncoalesced}
use svm_go.Version.Handle.Accounts.{Account, handle-Account}
use svm_go.Version.Handle.Cases.{looked_up}
use svm_go.Version.Handle.Fetches.{handle_uncoalesced-handle_uncoalesced}
use svm_go.Version.Handle.Hits.{HitFrom, handle_uncoalesced-HitFrom}
use svm_go.Version.Handle.Writes.{Writes, handle_uncoalesced-Writes}
use svm_go.Version.Prep.{prepare_request, get_or_prepare, new_request_prep_cache}
use svm_go.Version.Prep.Memo.{IsMemo, get_or_prepare-IsMemo}
use svm_go.Version.Store.Memory.{memory_store, memory_store-Contract}
use svm_go.Version.World.{World, UpstreamResponse}

abbrev start : Time
start = 1000 * second

abbrev fetched_world : World memory_store.State
fetched_world =
    (handle_uncoalesced platform memory_store config (answering start) request fresh_world).1

-- A miss, and then a hit while upstream is silent.
miss_then_hit :
    ((handle_uncoalesced platform memory_store config
        (answering start)
        request
        fresh_world).0.cache_status
      ≡ CacheStatus.miss)
    × ((handle_uncoalesced platform memory_store config
          (silent (start + second))
          request
          fetched_world).0.cache_status
        ≡ hit)
unfolding program
miss_then_hit = (refl, refl)

handle_uncoalesced-HitFrom_example :
    ((handle_uncoalesced platform memory_store config
          (silent (start + second))
          request
          fetched_world).0.cache_status
        ≡ hit
      → HitFrom platform memory_store config
          (start + second)
          request
          fetched_world
          (handle_uncoalesced platform memory_store config
            (silent (start + second))
            request
            fetched_world).0)
    × ((a : Response)
        → HitFrom platform memory_store config (start + second) request fetched_world a
        → (handle_uncoalesced platform memory_store config
            (silent (start + second))
            request
            fetched_world).0
          ≡ a)
handle_uncoalesced-HitFrom_example =
    handle_uncoalesced-HitFrom platform memory_store config (silent (start + second)) request
      fetched_world

-- The first direction at a call that is a hit.
HitFrom-fetched_world :
    HitFrom platform memory_store config
      (start + second)
      request
      fetched_world
      (handle_uncoalesced platform memory_store config
        (silent (start + second))
        request
        fetched_world).0
unfolding program
HitFrom-fetched_world = handle_uncoalesced-HitFrom_example.0 refl

no-IsMemo : IsMemo (prepare_request platform config.allowed_host_set) fresh_world.request_prep
unfolding program
no-IsMemo = record { holds = λ u p h. absurd (cc h); bounded = omega arith }

fetched_again_example :
    let (a, w') =
      handle_uncoalesced platform memory_store config (answering start) request fresh_world in
    ((looked_up platform memory_store config a.cache_key w').found ≡ none)
    ⊎ ((handle_uncoalesced platform memory_store config (silent (start + second)) request w').0
        ≡ upstream_response 200 a.body hit a.cache_key 0)
unfolding program memory_store-Contract run
fetched_again_example =
    handle_uncoalesced-handle_uncoalesced platform memory_store config memory_store-Contract
      (answering start) (silent (start + second)) request request fresh_world
      (run-refines-spec_run (pos 100000) []).1.valid no-IsMemo refl refl refl refl refl
      (omega arith)

handle_uncoalesced-Writes_example :
    Writes platform memory_store config
      (answering start)
      request
      fresh_world
      (handle_uncoalesced platform memory_store config (answering start) request fresh_world)
handle_uncoalesced-Writes_example =
    handle_uncoalesced-Writes platform memory_store config (answering start) request fresh_world

handle-Account_example :
    Account platform memory_store config false request fresh_world
      (handle platform memory_store config false (answering start) start request fresh_world)
handle-Account_example =
    handle-Account platform memory_store config false (answering start) start request fresh_world

abbrev missing : UpstreamResponse
missing = record response { status_code = 404 }

empty-IsMemo : IsMemo (prepare_request platform []) (new_request_prep_cache (pos 2))
unfolding program
empty-IsMemo = record { holds = λ u p h. absurd (cc h); bounded = omega arith }

get_or_prepare-IsMemo_example :
    ((get_or_prepare
        (new_request_prep_cache (pos 2))
        (new_request_prep_cache (pos 2))
        url_text
        (prepare_request platform [])).0
      ≡ prepare_request platform [] url_text)
    × IsMemo
        (prepare_request platform [])
        (get_or_prepare
          (new_request_prep_cache (pos 2))
          (new_request_prep_cache (pos 2))
          url_text
          (prepare_request platform [])).1
get_or_prepare-IsMemo_example =
    get_or_prepare-IsMemo (prepare_request platform []) (new_request_prep_cache (pos 2))
      (new_request_prep_cache (pos 2)) url_text empty-IsMemo empty-IsMemo
