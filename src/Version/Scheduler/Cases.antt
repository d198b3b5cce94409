-- ===== src/Version/Scheduler/Cases.antt =====
-- A case rule for `Sweep` of internal/service/version/revalidate_scheduler.go.
use svm_go.Prelude.{ℕ, ◌≡◌, refl, Bool, Option, none, some, List, Str, pos}
use svm_go.Cache.Clock.{Time, add, negate}
use svm_go.Cache.Policy.{Policy}
use svm_go.Metrics.{Metrics, inc_revalidate_run}
use svm_go.Version.Activity.{ActivityTracker, active_keys_since, prune_active_keys_before}
use svm_go.Version.Queue.{RefreshQueue}
use svm_go.Version.Scheduler.{RevalidateSweepResult, empty_result, Sources, sweep_keys, sweep}
use svm_go.Version.Store.{CacheStore}

module _ (store : CacheStore) where
  abbrev pub idle_sources : Sources store.State → Option ActivityTracker → Sources store.State
  idle_sources s tracker = record s {
    active_keys = tracker;
    metrics = inc_revalidate_run s.metrics;
  }

  abbrev pub swept_sources :
      Sources store.State
      → ActivityTracker
      → RevalidateSweepResult × store.State × RefreshQueue
      → RevalidateSweepResult × Sources store.State
  swept_sources s tracker swept = (
    swept.0,
    record {
      active_keys = some tracker;
      cache_store = some swept.1;
      queue = some swept.2;
      metrics = inc_revalidate_run s.metrics;
    },
  )

  module _ (P : RevalidateSweepResult × Sources store.State → Type 0) (policy : Policy)
      (done : ℕ → Bool) (now : Time) where
    abbrev since : Time
    since = add now (negate policy.revalidate_lookback)

    listed :
        (t : ActivityTracker) (st : store.State) (q : RefreshQueue) (m : Option Metrics)
        (keys : Option (List Str))
        → active_keys_since done since (pos 0) (prune_active_keys_before since t) ≡ keys
        → let s : Sources store.State = record {
          active_keys = some t;
          cache_store = some st;
          queue = some q;
          metrics = m;
        } in
          ((tracker : Option ActivityTracker) → P (empty_result, idle_sources s tracker))
          → ((tracker : ActivityTracker) (l : List Str)
              → P (swept_sources s tracker (sweep_keys store policy now l st q)))
          → P (sweep store policy done now s)
    unfolding sweep
    listed t st q m none e idle swept =
        rw (sweep, e) (idle (some (prune_active_keys_before since t)))
    listed t st q m (some l) e idle swept =
        rw (sweep, e) (swept (prune_active_keys_before since t) l)

    parts :
        (a : Option ActivityTracker) (c : Option store.State) (q : Option RefreshQueue)
        (m : Option Metrics)
        → let s : Sources store.State = record {
          active_keys = a;
          cache_store = c;
          queue = q;
          metrics = m;
        } in
          ((tracker : Option ActivityTracker) → P (empty_result, idle_sources s tracker))
          → ((tracker : ActivityTracker) (l : List Str) (st : store.State) (q' : RefreshQueue)
              → c ≡ some st
              → q ≡ some q'
              → P (swept_sources s tracker (sweep_keys store policy now l st q')))
          → P (sweep store policy done now s)
    unfolding sweep
    parts none c q m idle swept = idle none
    parts (some t) none q m idle swept = idle (some t)
    parts (some t) (some st) none m idle swept = idle (some t)
    parts (some t) (some st) (some q) m idle swept =
        listed t st q m _ refl idle (λ tracker l. swept tracker l st q refl refl)

    -- A sweep does nothing but count and prune, or it sweeps a list of keys.
    pub sweep_cases :
        (s : Sources store.State)
        → ((tracker : Option ActivityTracker) → P (empty_result, idle_sources s tracker))
        → ((tracker : ActivityTracker) (l : List Str) (st : store.State) (q : RefreshQueue)
            → s.cache_store ≡ some st
            → s.queue ≡ some q
            → P (swept_sources s tracker (sweep_keys store policy now l st q)))
        → P (sweep store policy done now s)
    sweep_cases s = parts s.active_keys s.cache_store s.queue s.metrics
