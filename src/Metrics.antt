-- ===== src/Metrics.antt =====
-- internal/observability/metrics.go: the counters. A counter is a uint64, which wraps. The remaining
-- rate limit is an int64 that is -1 while nothing is known; a negative observation counts as 0. A nil
-- *Metrics is `none` of `Option Metrics`, where every method does nothing.
use svm_go.Prelude.{ℕ, ◌+◌, ◌%◌, ◌^◌, Option, none, some, ℤ, pos, negsuc, pos_part}

abbrev pub unknown_rate_limit_remaining : ℤ
unknown_rate_limit_remaining = negsuc 0

pub record Metrics : Type 0 where
  pub cache_hits : ℕ
  pub cache_misses : ℕ
  pub revalidate_runs : ℕ
  pub upstream_requests : ℕ
  pub upstream_errors : ℕ
  pub refresh_updated : ℕ
  pub refresh_not_mod : ℕ
  pub refresh_skipped : ℕ
  pub refresh_failed : ℕ
  pub refresh_processed : ℕ
  pub access_log_dropped : ℕ
  pub rate_limit_remain : ℤ

abbrev pub new_metrics : Metrics
new_metrics = record {
  cache_hits = 0;
  cache_misses = 0;
  revalidate_runs = 0;
  upstream_requests = 0;
  upstream_errors = 0;
  refresh_updated = 0;
  refresh_not_mod = 0;
  refresh_skipped = 0;
  refresh_failed = 0;
  refresh_processed = 0;
  access_log_dropped = 0;
  rate_limit_remain = unknown_rate_limit_remaining;
}

-- `counter.Add(1)`
abbrev pub add_one : ℕ → ℕ
add_one n = (n + 1) % 2 ^ 64

abbrev pub inc_cache_hit : Option Metrics → Option Metrics
inc_cache_hit none = none
inc_cache_hit (some m) = some (record m { cache_hits = add_one m.cache_hits })

abbrev pub inc_cache_miss : Option Metrics → Option Metrics
inc_cache_miss none = none
inc_cache_miss (some m) = some (record m { cache_misses = add_one m.cache_misses })

abbrev pub inc_revalidate_run : Option Metrics → Option Metrics
inc_revalidate_run none = none
inc_revalidate_run (some m) = some (record m { revalidate_runs = add_one m.revalidate_runs })

abbrev pub inc_upstream_request : Option Metrics → Option Metrics
inc_upstream_request none = none
inc_upstream_request (some m) = some (record m { upstream_requests = add_one m.upstream_requests })

abbrev pub inc_upstream_error : Option Metrics → Option Metrics
inc_upstream_error none = none
inc_upstream_error (some m) = some (record m { upstream_errors = add_one m.upstream_errors })

abbrev pub inc_refresh_updated : Option Metrics → Option Metrics
inc_refresh_updated none = none
inc_refresh_updated (some m) = some (record m { refresh_updated = add_one m.refresh_updated })

abbrev pub inc_refresh_not_mod : Option Metrics → Option Metrics
inc_refresh_not_mod none = none
inc_refresh_not_mod (some m) = some (record m { refresh_not_mod = add_one m.refresh_not_mod })

abbrev pub inc_refresh_skipped : Option Metrics → Option Metrics
inc_refresh_skipped none = none
inc_refresh_skipped (some m) = some (record m { refresh_skipped = add_one m.refresh_skipped })

abbrev pub inc_refresh_failed : Option Metrics → Option Metrics
inc_refresh_failed none = none
inc_refresh_failed (some m) = some (record m { refresh_failed = add_one m.refresh_failed })

abbrev pub inc_refresh_processed : Option Metrics → Option Metrics
inc_refresh_processed none = none
inc_refresh_processed (some m) = some (record m { refresh_processed = add_one m.refresh_processed })

abbrev pub inc_access_log_dropped : Option Metrics → Option Metrics
inc_access_log_dropped none = none
inc_access_log_dropped (some m) =
    some (record m { access_log_dropped = add_one m.access_log_dropped })

abbrev pub observe_rate_limit_remaining : ℤ → Option Metrics → Option Metrics
observe_rate_limit_remaining remaining none = none
observe_rate_limit_remaining remaining (some m) =
    some (record m { rate_limit_remain = pos (pos_part remaining) })

-- `Snapshot` has the fields of the counters.
abbrev pub snapshot : Option Metrics → Metrics
snapshot none = new_metrics
snapshot (some m) = m
