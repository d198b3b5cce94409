-- ===== src/Version/Records.antt =====
-- The records that internal/service/version/service.go makes of answers, told without its code.
use svm_go.Prelude.{
  ℕ, zero, suc, ◌+◌, ◌≤◌, ◌≡◌, ◌⊎◌, ◌↔◌, refl, true, false, [], Str, pos, negsuc, arith, length,
}
use svm_go.Cache.{Record}
use svm_go.Cache.Clock.{Time, Duration, add}
use svm_go.Cache.Policy.{Policy}
use svm_go.Platform.{Platform}
use svm_go.Version.Cached.{fresh_record, negative_record, revalidated_record}
use svm_go.Version.Status.{
  is_negative_cacheable_status, hard_expires_at, read, read_bounded_body, effective_max,
}
use svm_go.Version.World.{UpstreamResponse}

-- The end of a time to live; 0 where it has no end.
abbrev pub deadline : Time → Duration → Time
deadline now (pos zero) = 0
deadline now (pos (suc n)) = now + suc n
deadline now (negsuc n) = 0

pub hard_expires_at-deadline :
    (now : Time) (ttl : Duration) → hard_expires_at now ttl ≡ deadline now ttl
unfolding hard_expires_at
hard_expires_at-deadline now (pos zero) = refl
hard_expires_at-deadline now (pos (suc n)) = refl
hard_expires_at-deadline now (negsuc n) = refl

abbrev pub IsGone : ℕ → Type 0
IsGone status = (status ≡ 404) ⊎ (status ≡ 410)

pub is_negative_cacheable_status-IsGone :
    (status : ℕ) → (is_negative_cacheable_status status ≡ true) ↔ IsGone status
unfolding is_negative_cacheable_status
is_negative_cacheable_status-IsGone status = ground arith

pub is_negative_cacheable_status-not :
    (status : ℕ) → (is_negative_cacheable_status status ≡ false) ↔ (IsGone status → ⊥)
unfolding is_negative_cacheable_status
is_negative_cacheable_status-not status = ground arith

-- The answer is a 200 with a body of valid JSON, within the limit.
pub record IsValidAnswer (pl : Platform) (policy : Policy) (resp : UpstreamResponse) (body : Str)
    : Type 0 where
  pub status : resp.status_code ≡ 200
  pub bytes : read_bounded_body resp.body policy.max_upstream_response_bytes ≡ read body
  pub valid : pl.json_valid body ≡ true
  pub size : length body ≤ effective_max policy.max_upstream_response_bytes

-- The record of such an answer: its body and its etag, kept for the hard TTL.
pub record IsFresh (policy : Policy) (url : Str) (now : Time) (resp : UpstreamResponse) (body : Str)
    (r : Record) : Type 0 where
  pub payload : r.payload ≡ body
  pub etag : r.etag ≡ resp.etag
  pub at_url : r.url ≡ url
  pub fetched : r.fetched_at ≡ now
  pub checked : r.last_checked_at ≡ now
  pub expires : r.expires_at ≡ deadline now policy.hard_ttl
  pub status : r.source_status ≡ 200

-- The record of an answer that says that there is nothing: kept for the negative TTL, without an etag.
pub record IsNegative (policy : Policy) (url : Str) (now : Time) (resp : UpstreamResponse)
    (r : Record) : Type 0 where
  pub gone : IsGone resp.status_code
  pub status : r.source_status ≡ resp.status_code
  pub etag : r.etag ≡ []
  pub at_url : r.url ≡ url
  pub fetched : r.fetched_at ≡ now
  pub checked : r.last_checked_at ≡ now
  pub expires : r.expires_at ≡ add now policy.negative_ttl

-- The old record, checked now and kept for the hard TTL from now on.
pub record IsRevalidated (policy : Policy) (url : Str) (now : Time) (old r : Record) : Type 0 where
  pub payload : r.payload ≡ old.payload
  pub etag : r.etag ≡ old.etag
  pub at_url : r.url ≡ url
  pub fetched : r.fetched_at ≡ old.fetched_at
  pub checked : r.last_checked_at ≡ now
  pub expires : r.expires_at ≡ deadline now policy.hard_ttl
  pub status : r.source_status ≡ old.source_status

pub fresh_record-IsFresh :
    (policy : Policy) (url : Str) (now : Time) (resp : UpstreamResponse) (body : Str)
    → resp.status_code ≡ 200
    → IsFresh policy url now resp body (fresh_record policy url now resp body)
fresh_record-IsFresh policy url now resp body is_200 = record {
  payload = refl;
  etag = refl;
  at_url = refl;
  fetched = refl;
  checked = refl;
  expires = hard_expires_at-deadline now policy.hard_ttl;
  status = is_200;
}

pub negative_record-IsNegative :
    (policy : Policy) (url : Str) (now : Time) (resp : UpstreamResponse) (body : Str)
    → is_negative_cacheable_status resp.status_code ≡ true
    → IsNegative policy url now resp (negative_record policy url now resp body)
negative_record-IsNegative policy url now resp body negative = record {
  gone = (is_negative_cacheable_status-IsGone resp.status_code).0 negative;
  status = refl;
  etag = refl;
  at_url = refl;
  fetched = refl;
  checked = refl;
  expires = refl;
}

pub revalidated_record-IsRevalidated :
    (policy : Policy) (url : Str) (now : Time) (old : Record)
    → IsRevalidated policy url now old (revalidated_record policy url now old)
revalidated_record-IsRevalidated policy url now old = record {
  payload = refl;
  etag = refl;
  at_url = refl;
  fetched = refl;
  checked = refl;
  expires = hard_expires_at-deadline now policy.hard_ttl;
  status = refl;
}

-- A body that is read is within the limit.
pub read_bounded_body-IsValidAnswer :
    (pl : Platform) (policy : Policy) (resp : UpstreamResponse) (body : Str)
    → resp.status_code ≡ 200
    → read_bounded_body resp.body policy.max_upstream_response_bytes ≡ read body
    → pl.json_valid body ≡ true
    → IsValidAnswer pl policy resp body
unfolding read_bounded_body
read_bounded_body-IsValidAnswer pl policy resp body is_200 e valid = record {
  status = is_200;
  bytes = e;
  valid = valid;
  size = ground arith;
}
