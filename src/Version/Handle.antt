-- ===== src/Version/Handle.antt =====
-- `Service.Handle` of internal/service/version/service.go: a version request is answered from the
-- cache or from upstream. Logging is left out. The handler calls itself once, with coalescing off,
-- behind the request group: `handle_with` is the part that both calls share, up to the cache miss.
pub mod Cases
pub mod Servable
pub mod Hits
pub mod Fetches
pub mod Stored
pub mod Writes
pub mod Counted
pub mod Accounts
pub mod Quiet
use svm_go.Prelude.{
  ℕ, Bool, true, false, not, ◌&&◌, ◌||◌, Option, none, some, List, [], ◌∷◌, ◌++◌, Str, codes,
  is_empty, leb, ltb, length, ◌==◌, ℤ, pos, if◌then◌else◌,
}
use svm_go.Cache.{Record}
use svm_go.Cache.Clock.{Time, add}
use svm_go.Cache.Policy.{Policy}
use svm_go.Metrics.{
  inc_cache_hit, inc_cache_miss, inc_upstream_request, inc_upstream_error,
  observe_rate_limit_remaining,
}
use svm_go.Platform.{Platform}
use svm_go.Security.{UrlError}
use svm_go.Upstream.Client.{observe_rate_limit}
use svm_go.Upstream.Tokens.{next_token, observe_token_remaining}
use svm_go.Version.{
  Request, Response, CacheStatus, bypass, hit, miss, revalidated, Body, payload, error_response,
  api_error,
}
use svm_go.Version.Prep.{Prepared, failed, prepared, prepare_request, get_or_prepare}
use svm_go.Version.Status.{
  is_negative_cacheable_status, should_serve_negative_cached_record, is_hard_expired,
  hard_expires_at, should_bypass_cache_write, parse_rate_limit_remaining, ReadResult, read,
  too_large, read_error, read_bounded_body,
}
use svm_go.Version.Store.{Lookup, CacheStore}
use svm_go.Version.World.{
  Config, Sent, World, UpstreamResponse, Fetched, fetched, fetch_error, Outside, world_activity,
}
use svm_go.Version.Cached.{
  hit_response, serve_record, serve_cached, conditional_candidate, candidate_etag,
  result_cache_status, fresh_record, negative_record, revalidated_record,
}
use svm_go.Version.Respond.{
  error_message, upstream_response, put_store, activity_if_new, respond_not_modified, respond_ok,
  store_negative, count_error, respond_error, respond,
}

abbrev pub error_text : UrlError → Str
error_text UrlError.url_required = codes "url parameter is required"
error_text UrlError.invalid_url = codes "url parameter is invalid"
error_text UrlError.https_only = codes "url scheme must be https"
error_text UrlError.upstream_host_not_allowed = codes "upstream host is not allowlisted"
error_text UrlError.url_userinfo_not_allowed = codes "url userinfo is not allowed"
error_text UrlError.https_port_only = codes "url port must be 443"

abbrev pub bad_request : UrlError → Response
bad_request e = record {
  status_code = 400;
  body = error_response (codes "Invalid parameter") (error_text e);
  cache_status = bypass;
  cache_key = [];
  upstream_status = 0;
}

module _ (pl : Platform) (store : CacheStore) (cfg : Config) where
  -- The rate limit that a response tells of: the remaining requests, and a cooldown.
  unfoldable pub observe_response :
      Time → Str → UpstreamResponse → World store.State → World store.State
  observe_response at token resp w =
      let remaining = parse_rate_limit_remaining pl resp.remaining in
      record w {
        tokens = observe_rate_limit at token resp.status_code (elim remaining [
          | none ↦ w.tokens
          | some n ↦ observe_token_remaining token (pos n) w.tokens
        ]);
        metrics = elim remaining [
          | none ↦ w.metrics
          | some n ↦ observe_rate_limit_remaining (pos n) w.metrics
        ];
      }

  -- The request to upstream, and the world when it is on its way.
  unfoldable pub sent_request : (url : Str) → Time → Lookup → World store.State → Sent
  sent_request url at lk w = record {
    url = url;
    token = (next_token at w.tokens).0;
    etag = candidate_etag (conditional_candidate lk);
  }

  unfoldable pub send : (url : Str) → Time → Lookup → World store.State → World store.State
  unfolding sent_request
  send url at lk w = record w {
    tokens = (next_token at w.tokens).1;
    metrics = inc_upstream_request (inc_cache_miss w.metrics);
    sent = w.sent ++ sent_request url at lk w ∷ [];
  }

  -- The part of the handler behind the cache and the request group.
  unfoldable pub fetch_upstream :
      Outside
      → Bool
      → (url key : Str) → Lookup
      → Time
      → World store.State
      → Response × World store.State
  fetch_upstream out force url key lk now w =
      let request = sent_request url out.choosing_at lk w in
      let w' = send url out.choosing_at lk w in
      elim (out.upstream request) [
        | fetch_error ↦ (
          upstream_response (if out.ctx_done then 504 else 502)
              (error_response (codes "Upstream request failed") []) bypass key 0,
          record w' { metrics = inc_upstream_error w'.metrics },
        )
        | fetched resp ↦
            respond pl store cfg url key now force lk resp
              (observe_response out.observing_at request.token resp w')
      ]

  -- The handler up to the cache miss, which `on_miss` takes from there.
  unfoldable pub handle_with :
      ((url key : Str) → Lookup → Time → World store.State → Response × World store.State)
      → Time
      → Request
      → World store.State
      → Response × World store.State
  handle_with on_miss now request w =
      let (prep, memo) =
        get_or_prepare w.request_prep w.request_prep request.raw_url
          (prepare_request pl cfg.allowed_host_set) in
      elim prep [
        | failed e ↦ (bad_request e, record w { request_prep = memo })
        | prepared url key ↦
            let (lk, st) = store.read key w.store in
            let w' : World store.State = record w { request_prep = memo; store = st } in
            elim (serve_cached cfg.policy request.force_refresh key now lk) [
              | some r ↦
                  (r, record (world_activity key now w') { metrics = inc_cache_hit w'.metrics })
              | none ↦ on_miss url key lk now w'
            ]
      ]

  -- `handle(ctx, request, false)`
  unfoldable pub handle_uncoalesced :
      Outside → Request → World store.State → Response × World store.State
  unfolding handle_with
  handle_uncoalesced out request w =
      handle_with (fetch_upstream out request.force_refresh) out.now request w

  -- `Do` of the request group where no call for the key is in flight: the shared call runs, and the
  -- caller has its response unless its own context is done first.
  unfoldable pub do_alone :
      Bool → Outside → Request → (key : Str) → World store.State → Response × World store.State
  unfolding handle_uncoalesced
  do_alone canceled out request key w =
      let (r, w') = handle_uncoalesced out request w in
      (
        if canceled
            then upstream_response 504 (error_response (codes "Request canceled") []) bypass key 0
            else r,
        w',
      )

  -- `Handle` while no other call is in flight; `now` is the clock before the request group.
  unfoldable pub handle :
      Bool → Outside → Time → Request → World store.State → Response × World store.State
  unfolding do_alone handle_with
  handle canceled out now request w =
      handle_with (λ url key lk now' w'. do_alone canceled out request key w') now request w
