-- ===== src/Version/Respond.antt =====
-- How `Service.Handle` of internal/service/version/service.go answers a response of upstream, and what it
-- stores of it.
use svm_go.Prelude.{
  ℕ, Bool, true, false, not, none, some, Str, codes, leb, ltb, length, ◌==◌, if◌then◌else◌,
}
use svm_go.Cache.{Record}
use svm_go.Cache.Clock.{Time}
use svm_go.Cache.Policy.{Policy}
use svm_go.Metrics.{inc_upstream_error}
use svm_go.Platform.{Platform}
use svm_go.Version.{Response, CacheStatus, revalidated, Body, payload, error_response, api_error}
use svm_go.Version.Status.{
  is_negative_cacheable_status, should_bypass_cache_write, read, too_large, read_error,
  read_bounded_body,
}
use svm_go.Version.Store.{Lookup, CacheStore}
use svm_go.Version.World.{Config, World, UpstreamResponse, world_activity}
use svm_go.Version.Cached.{
  conditional_candidate, result_cache_status, fresh_record, negative_record, revalidated_record,
}

-- The message of an upstream error: the decoded body, or the status text.
unfoldable pub error_message : Platform → Policy → UpstreamResponse → Bool × Str
error_message pl policy resp =
    elim (read_bounded_body resp.body policy.max_upstream_response_bytes) [
      | read bytes ↦
          if ltb 0 (length bytes)
          then elim (pl.json_decode bytes) [
            | none ↦ (false, resp.status)
            | some value ↦ (true, value)
          ]
          else (false, resp.status)
      | too_large ↦ (false, resp.status)
      | read_error _ ↦ (false, resp.status)
    ]

abbrev pub upstream_response : ℕ → Body → CacheStatus → Str → ℕ → Response
upstream_response status body cache_status key upstream = record {
  status_code = status;
  body = body;
  cache_status = cache_status;
  cache_key = key;
  upstream_status = upstream;
}

module _ (pl : Platform) (store : CacheStore) (cfg : Config) where
  -- `setToCache`
  abbrev pub put_store : Str → Record → World store.State → World store.State
  put_store key r w = record w { store = store.set key r w.store }

  -- `if !cacheHit { s.recordActivity(cacheKey, now) }`
  abbrev pub activity_if_new : Lookup → Str → Time → World store.State → World store.State
  activity_if_new lk key now w = elim lk.found [ none ↦ world_activity key now w | some _ ↦ w ]

  -- The answer to 304 for a conditional request.
  unfoldable pub respond_not_modified :
      (url key : Str) → Time → Record → World store.State → Response × World store.State
  respond_not_modified url key now r w = (
    upstream_response 200 (payload r.payload) revalidated key 304,
    put_store key (revalidated_record cfg.policy url now r) (world_activity key now w),
  )

  -- The answer to 200.
  unfoldable pub respond_ok :
      (url key : Str)
      → Time
      → Bool
      → Lookup
      → UpstreamResponse
      → World store.State
      → Response × World store.State
  respond_ok url key now force lk resp w =
      let answer = λ (status : ℕ) (body : Body).
        upstream_response status body (result_cache_status force) key resp.status_code in
      elim (read_bounded_body resp.body cfg.policy.max_upstream_response_bytes) [
        | too_large ↦ (
          answer 502 (
              error_response (codes "Invalid upstream response")
                (codes "upstream response exceeds configured size limit")),
          w,
        )
        | read_error e ↦ (answer 502 (error_response (codes "Invalid upstream response") e), w)
        | read body ↦
            if not (pl.json_valid body)
            then (
              answer 502 (
                  error_response (codes "Failed to parse response")
                    (codes "invalid JSON from upstream")),
              w,
            )
            else (
              answer 200 (payload body),
              activity_if_new lk key now
                  (put_store key (fresh_record cfg.policy url now resp body) w),
            )
      ]

  -- What is kept of an error answer: a 404 or 410, for the negative TTL.
  unfoldable pub store_negative :
      (url key : Str) → Time → Lookup → UpstreamResponse → World store.State → World store.State
  store_negative url key now lk resp w =
      let (decoded, message) = error_message pl cfg.policy resp in
      if should_bypass_cache_write resp.status_code
      then w
      else if is_negative_cacheable_status resp.status_code
      then elim (pl.marshal_error (codes "Upstream API error") decoded message) [
        | none ↦ w
        | some body ↦
            activity_if_new lk key now
              (put_store key (negative_record cfg.policy url now resp body) w)
      ]
      else w

  abbrev pub count_error : ℕ → World store.State → World store.State
  count_error status w =
      if leb 400 status then record w { metrics = inc_upstream_error w.metrics } else w

  -- The answer to anything else.
  unfoldable pub respond_error :
      (url key : Str)
      → Time
      → Bool
      → Lookup
      → UpstreamResponse
      → World store.State
      → Response × World store.State
  unfolding store_negative error_message
  respond_error url key now force lk resp w =
      let (decoded, message) = error_message pl cfg.policy resp in
      (
        upstream_response resp.status_code (api_error decoded message) (result_cache_status force)
            key resp.status_code,
        store_negative url key now lk resp (count_error resp.status_code w),
      )

  unfoldable pub respond :
      (url key : Str)
      → Time
      → Bool
      → Lookup
      → UpstreamResponse
      → World store.State
      → Response × World store.State
  respond url key now force lk resp w =
      if resp.status_code == 304
      then elim (conditional_candidate lk) [
        | some r ↦ respond_not_modified url key now r w
        | none ↦ respond_error url key now force lk resp w
      ]
      else if resp.status_code == 200
      then respond_ok url key now force lk resp w
      else respond_error url key now force lk resp w
