-- ===== src/Version/Cached.antt =====
-- What `Service.Handle` of internal/service/version/service.go serves from a cached record, and the records
-- that it makes.
use svm_go.Prelude.{ℕ, Bool, not, ◌&&◌, Option, none, some, [], Str, is_empty, if◌then◌else◌}
use svm_go.Cache.{Record}
use svm_go.Cache.Clock.{Time, add}
use svm_go.Cache.Policy.{Policy}
use svm_go.Version.{Response, CacheStatus, bypass, hit, miss, payload}
use svm_go.Version.Status.{
  is_negative_cacheable_status, should_serve_negative_cached_record, is_hard_expired,
  hard_expires_at,
}
use svm_go.Version.Store.{Lookup}
use svm_go.Version.World.{UpstreamResponse}

abbrev pub hit_response : ℕ → Str → Record → Response
hit_response status key r = record {
  status_code = status;
  body = payload r.payload;
  cache_status = hit;
  cache_key = key;
  upstream_status = 0;
}

-- The cache-hit fast return, on the record of a hit.
unfoldable pub serve_record : Policy → Bool → Str → Time → Record → Option Response
serve_record policy force key now r =
    let negative = is_negative_cacheable_status r.source_status in
    if not negative && is_hard_expired r now policy.hard_ttl
    then none
    else if force
    then none
    else if should_serve_negative_cached_record r now
    then some (hit_response r.source_status key r)
    else if not negative
    then some (hit_response 200 key r)
    else none

unfoldable pub serve_cached : Policy → Bool → Str → Time → Lookup → Option Response
unfolding serve_record
serve_cached policy force key now lk = elim lk.found [
  | none ↦ none
  | some r ↦ serve_record policy force key now r
]

-- The record whose etag makes the request conditional.
unfoldable pub conditional_candidate : Lookup → Option Record
conditional_candidate lk = elim lk.found [
  | none ↦ none
  | some r ↦
      if not (is_negative_cacheable_status r.source_status) && not (is_empty r.etag)
      then some r
      else none
]

abbrev pub candidate_etag : Option Record → Str
candidate_etag none = []
candidate_etag (some r) = r.etag

-- `resultCacheStatus`
abbrev pub result_cache_status : Bool → CacheStatus
result_cache_status force = if force then bypass else miss

-- The record of a 200 answer.
abbrev pub fresh_record : Policy → Str → Time → UpstreamResponse → Str → Record
fresh_record policy url now resp body = record {
  payload = body;
  etag = resp.etag;
  url = url;
  fetched_at = now;
  last_hit_at = now;
  last_checked_at = now;
  expires_at = hard_expires_at now policy.hard_ttl;
  source_status = resp.status_code;
}

-- The record of a 404 or 410 answer.
abbrev pub negative_record : Policy → Str → Time → UpstreamResponse → Str → Record
negative_record policy url now resp body = record {
  payload = body;
  etag = [];
  url = url;
  fetched_at = now;
  last_hit_at = now;
  last_checked_at = now;
  expires_at = add now policy.negative_ttl;
  source_status = resp.status_code;
}

-- The cached record after a 304 answer.
abbrev pub revalidated_record : Policy → Str → Time → Record → Record
revalidated_record policy url now r = record r {
  last_checked_at = now;
  expires_at = hard_expires_at now policy.hard_ttl;
  url = url;
}
