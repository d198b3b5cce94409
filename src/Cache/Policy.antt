-- ===== src/Cache/Policy.antt =====
-- internal/cache/policy.go. `L1MaxGB` is a float64; here it is the number of bytes that
-- `int64(L1MaxGB * bytesPerGiB)` makes of it.
use svm_go.Prelude.{◌*◌, ◌^◌, ℤ, pos}
use svm_go.Cache.Clock.{Duration, second, minute, hour}

pub record Policy : Type 0 where
  pub hard_ttl : Duration
  pub negative_ttl : Duration
  pub revalidate_interval : Duration
  pub revalidate_lookback : Duration
  pub revalidate_workers : ℤ
  pub revalidate_per_worker_rps : ℤ
  pub refresh_queue_size : ℤ
  pub l1_max_bytes : ℤ
  pub max_upstream_response_bytes : ℤ
  pub shutdown_timeout : Duration

abbrev pub default_policy : Policy
default_policy = record {
  hard_ttl = pos (24 * hour);
  negative_ttl = pos (5 * minute);
  revalidate_interval = pos minute;
  revalidate_lookback = pos (7 * (24 * hour));
  revalidate_workers = pos 2;
  revalidate_per_worker_rps = pos 1;
  refresh_queue_size = pos 256;
  l1_max_bytes = pos (2 ^ 30);
  max_upstream_response_bytes = pos (10 * 1024 * 1024);
  shutdown_timeout = pos (2 * second);
}
