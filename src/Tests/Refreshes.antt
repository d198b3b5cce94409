-- ===== src/Tests/Refreshes.antt =====
-- A background refresh over the in-memory cache.
use svm_go.Prelude.{◌*◌, ◌+◌, ◌≡◌, refl}
use svm_go.Cache.Clock.{Time, second}
use svm_go.Metrics.{snapshot}
use svm_go.Tests.Samples.{program, platform, config, answering, fresh_world, request, key}
use svm_go.Text.Numbers
use svm_go.Version.Handle.{handle_uncoalesced}
use svm_go.Version.Refresh
use svm_go.Version.Refresh.{refresh_once_by_key}
use svm_go.Version.Refresh.Outcomes.{Refreshed, refresh_once_by_key-Refreshed}
use svm_go.Version.Store.Memory.{memory_store}
use svm_go.Version.World.{World}

abbrev start : Time
start = 1000 * second

abbrev filled : World memory_store.State
filled = (handle_uncoalesced platform memory_store config (answering start) request fresh_world).1

refreshes :
    ((snapshot
        (refresh_once_by_key platform memory_store config
          (answering (start + second))
          key
          filled).metrics).refresh_updated
      ≡ 1)
    × ((snapshot
          (refresh_once_by_key platform memory_store config
            (answering start)
            key
            fresh_world).metrics).refresh_skipped
        ≡ 1)
unfolding program Refresh.refresh_once_by_key Refresh.refresh_cached_record Refresh.refresh_send
    Refresh.refresh_request Refresh.refresh_answer Refresh.refresh_ok Numbers.atoi
refreshes = (refl, refl)

refresh_once_by_key-Refreshed_example :
    Refreshed platform memory_store config key
      (answering (start + second))
      filled
      (refresh_once_by_key platform memory_store config (answering (start + second)) key filled)
refresh_once_by_key-Refreshed_example =
    refresh_once_by_key-Refreshed platform memory_store config (answering (start + second)) key
      filled
