-- ===== src/Version/Status.antt =====
-- The predicates of internal/service/version/service.go on status codes, records and times, and the
-- bounded read of a body.
use svm_go.Prelude.{
  ℕ, ◌+◌, ◌^◌, Bool, false, not, ◌&&◌, ◌||◌, Option, none, some, Str, ℤ, positive, pos_part, ltb,
  leb, length, take, ◌==◌, if◌then◌else◌,
}
use svm_go.Cache.{Record}
use svm_go.Cache.Clock.{Time, Duration, is_zero, add, after}
use svm_go.Cache.Policy.{default_policy}
use svm_go.Platform.{Platform}
use svm_go.Text.{trim_space}
use svm_go.Text.Numbers.{atoi}

unfoldable pub is_negative_cacheable_status : ℕ → Bool
is_negative_cacheable_status code = (code == 404) || (code == 410)

unfoldable pub should_serve_negative_cached_record : Record → Time → Bool
should_serve_negative_cached_record r now =
    is_negative_cacheable_status r.source_status
    && not (is_zero r.expires_at)
    && after r.expires_at now

-- The time from which an old record without `ExpiresAt` lives.
abbrev pub base_time : Record → Time
base_time r = if is_zero r.fetched_at then r.last_checked_at else r.fetched_at

unfoldable pub is_hard_expired : Record → Time → Duration → Bool
is_hard_expired r now hard_ttl =
    if not (positive hard_ttl)
    then false
    else if not (is_zero r.expires_at)
    then not (after r.expires_at now)
    else if is_zero (base_time r)
    then false
    else not (after (add (base_time r) hard_ttl) now)

unfoldable pub hard_expires_at : Time → Duration → Time
hard_expires_at now hard_ttl = if not (positive hard_ttl) then 0 else add now hard_ttl

unfoldable pub should_bypass_cache_write : ℕ → Bool
should_bypass_cache_write code = (code == 401) || (code == 403) || (code == 429) || leb 500 code

unfoldable pub parse_rate_limit_remaining : Platform → Str → Option ℕ
parse_rate_limit_remaining pl raw = elim (atoi (trim_space pl.unicode raw)) [
  | none ↦ none
  | some value ↦ some (pos_part value)
]

-- A body gives its bytes and then ends, or fails with an error instead of ending.
pub record Reader : Type 0 where
  pub bytes : Str
  pub failure : Option Str

pub data ReadResult : Type 0 where
  read : Str → ReadResult
  read_error : Str → ReadResult
  too_large : ReadResult

-- The limit of the reader, `maxBytes+1` as an int64: past the largest int64 it wraps to a negative
-- number, and a reader with such a limit is at its end at once.
abbrev pub read_limit : ℕ → ℕ
read_limit max = if ltb (max + 1) (2 ^ 63) then max + 1 else 0

abbrev pub effective_max : ℤ → ℕ
effective_max max =
    if positive max then pos_part max else pos_part default_policy.max_upstream_response_bytes

unfoldable pub read_bounded_body : Reader → ℤ → ReadResult
read_bounded_body body max_bytes =
    let max = effective_max max_bytes in
    let payload = take (read_limit max) body.bytes in
    let got = if ltb max (length payload) then too_large else read payload in
    if ltb (length body.bytes) (read_limit max)
    then elim body.failure [ none ↦ got | some e ↦ read_error e ]
    else got
