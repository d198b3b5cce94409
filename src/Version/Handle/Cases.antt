-- ===== src/Version/Handle/Cases.antt =====
-- Case rules for the handler of internal/service/version/service.go: a property of a result is proved
-- on each branch of the code.
use svm_go.Prelude.{
  ◌≡◌, ◌≢◌, refl, sym, Bool, true, false, Option, none, some, Str, arith, Bool-cases, Option-cases,
  inl, inr, if◌then◌else◌, ◌==◌, codes, [],
}
use mathlib.Core.Path.{subst}
use svm_go.Cache.{Record}
use svm_go.Cache.Clock.{Time}
use svm_go.Metrics.{inc_cache_hit, inc_upstream_error}
use svm_go.Platform.{Platform}
use svm_go.Security.{UrlError}
use svm_go.Version.{Request, Response, bypass, error_response}
use svm_go.Version.Cached.{serve_cached, conditional_candidate}
use svm_go.Version.Respond.{
  respond_not_modified, respond_ok, respond_error, respond, upstream_response,
}
use svm_go.Version.Handle.{
  bad_request, observe_response, sent_request, send, fetch_upstream, handle_with,
}
use svm_go.Version.Prep.{
  Prepared, failed, prepared, prepare_request, get_or_prepare, RequestPrepCache,
}
use svm_go.Version.Store.{Lookup, CacheStore}
use svm_go.Version.World.{
  Config, World, UpstreamResponse, Fetched, fetched, fetch_error, Outside, world_activity,
}

module _ (pl : Platform) (store : CacheStore) (cfg : Config) where
  abbrev pub Result : Type 0
  Result = Response × World store.State

  pub respond_cases :
      (P : Result → Type 0) (url key : Str) (now : Time) (force : Bool) (lk : Lookup)
      (resp : UpstreamResponse) (w : World store.State)
      → ((r : Record)
          → resp.status_code ≡ 304
          → conditional_candidate lk ≡ some r
          → P (respond_not_modified pl store cfg url key now r w))
      → (resp.status_code ≡ 200 → P (respond_ok pl store cfg url key now force lk resp w))
      → (resp.status_code ≢ 200
          → (resp.status_code ≡ 304 → conditional_candidate lk ≡ none)
          → P (respond_error pl store cfg url key now force lk resp w))
      → P (respond pl store cfg url key now force lk resp w)
  respond_cases P url key now force lk resp w on_304 on_200 other =
      elim (Bool-cases (resp.status_code == 304)) [
        | inl is_304 ↦ elim (Option-cases (conditional_candidate lk)) [
          | inl missing ↦
              subst P (sym (respond_304_none is_304 missing))
                (other (λ e. ground arith) (λ _. missing))
          | inr (r, found) ↦
              subst P (sym (respond_304_some is_304 found)) (on_304 r (ground arith) found)
        ]
        | inr not_304 ↦ elim (Bool-cases (resp.status_code == 200)) [
          | inl is_200 ↦ subst P (sym (respond_200 not_304 is_200)) (on_200 (ground arith))
          | inr not_200 ↦
              subst P (sym (respond_other not_304 not_200))
                (other (λ e. ground arith) (λ e. absurd (ground arith)))
        ]
      ]
    where
      respond_304_none :
          (resp.status_code == 304) ≡ true
          → conditional_candidate lk ≡ none
          → respond pl store cfg url key now force lk resp w
            ≡ respond_error pl store cfg url key now force lk resp w
      respond_304_none is_304 missing = unfold respond in ground arith

      respond_304_some :
          {r : Record}
          → (resp.status_code == 304) ≡ true
          → conditional_candidate lk ≡ some r
          → respond pl store cfg url key now force lk resp w
            ≡ respond_not_modified pl store cfg url key now r w
      respond_304_some is_304 found = unfold respond in ground arith

      respond_200 :
          (resp.status_code == 304) ≡ false
          → (resp.status_code == 200) ≡ true
          → respond pl store cfg url key now force lk resp w
            ≡ respond_ok pl store cfg url key now force lk resp w
      respond_200 not_304 is_200 = unfold respond in ground arith

      respond_other :
          (resp.status_code == 304) ≡ false
          → (resp.status_code == 200) ≡ false
          → respond pl store cfg url key now force lk resp w
            ≡ respond_error pl store cfg url key now force lk resp w
      respond_other not_304 not_200 = unfold respond in ground arith

  -- What the handler answers when upstream cannot be reached.
  abbrev pub unreachable : Outside → (key : Str) → World store.State → Result
  unreachable out key w = (
    upstream_response (if out.ctx_done then 504 else 502)
        (error_response (codes "Upstream request failed") []) bypass key 0,
    record w { metrics = inc_upstream_error w.metrics },
  )

  abbrev pub observed :
      Outside → (url : Str) → Lookup → UpstreamResponse → World store.State → World store.State
  observed out url lk resp w =
      observe_response pl store cfg out.observing_at
        (sent_request pl store cfg url out.choosing_at lk w).token resp
        (send pl store cfg url out.choosing_at lk w)

  pub fetch_cases :
      (P : Result → Type 0) (out : Outside) (force : Bool) (url key : Str) (lk : Lookup)
      (now : Time) (w : World store.State)
      → (out.upstream (sent_request pl store cfg url out.choosing_at lk w) ≡ fetch_error
          → P (unreachable out key (send pl store cfg url out.choosing_at lk w)))
      → ((resp : UpstreamResponse)
          → out.upstream (sent_request pl store cfg url out.choosing_at lk w) ≡ fetched resp
          → P (respond pl store cfg url key now force lk resp (observed out url lk resp w)))
      → P (fetch_upstream pl store cfg out force url key lk now w)
  fetch_cases P out force url key lk now w on_error on_answer =
      go (out.upstream (sent_request pl store cfg url out.choosing_at lk w)) refl
    where
      go :
          (f : Fetched)
          → out.upstream (sent_request pl store cfg url out.choosing_at lk w) ≡ f
          → P (fetch_upstream pl store cfg out force url key lk now w)
      go fetch_error e =
          let same : fetch_upstream pl store cfg out force url key lk now w
              ≡ unreachable out key (send pl store cfg url out.choosing_at lk w) =
            unfold fetch_upstream in ground arith in
          subst P (sym same) (on_error e)
      go (fetched resp) e =
          let same : fetch_upstream pl store cfg out force url key lk now w
              ≡ respond pl store cfg url key now force lk resp (observed out url lk resp w) =
            unfold fetch_upstream in ground arith in
          subst P (sym same) (on_answer resp e)

  -- The memo and the preparation of a request.
  abbrev pub preparation : Request → World store.State → Prepared × RequestPrepCache
  preparation request w =
      get_or_prepare w.request_prep w.request_prep request.raw_url
        (prepare_request pl cfg.allowed_host_set)

  abbrev pub looked_up : (key : Str) → World store.State → Lookup
  looked_up key w = (store.read key w.store).0

  -- The world after the preparation and the read of the cache.
  abbrev pub after_read : Request → (key : Str) → World store.State → World store.State
  after_read request key w = record w {
    request_prep = (preparation request w).1;
    store = (store.read key w.store).1;
  }

  pub handle_with_cases :
      (P : Result → Type 0) (on_miss : (url key : Str) → Lookup → Time → World store.State → Result)
      (now : Time) (request : Request) (w : World store.State)
      → ((e : UrlError)
          → (preparation request w).0 ≡ failed e
          → P (bad_request e, record w { request_prep = (preparation request w).1 }))
      → ((url key : Str) (r : Response)
          → (preparation request w).0 ≡ prepared url key
          → serve_cached cfg.policy request.force_refresh key now (looked_up key w) ≡ some r
          → P (
            r,
            record (world_activity key now (after_read request key w)) {
              metrics = inc_cache_hit w.metrics;
            },
          ))
      → ((url key : Str)
          → (preparation request w).0 ≡ prepared url key
          → serve_cached cfg.policy request.force_refresh key now (looked_up key w) ≡ none
          → P (on_miss url key (looked_up key w) now (after_read request key w)))
      → P (handle_with pl store cfg on_miss now request w)
  handle_with_cases P on_miss now request w on_bad on_hit missed = go (preparation request w).0 refl
    where
      served :
          (url key : Str) (o : Option Response)
          → (preparation request w).0 ≡ prepared url key
          → serve_cached cfg.policy request.force_refresh key now (looked_up key w) ≡ o
          → P (handle_with pl store cfg on_miss now request w)
      served url key none e s =
          let same : handle_with pl store cfg on_miss now request w
              ≡ on_miss url key (looked_up key w) now (after_read request key w) =
            unfold handle_with in ground arith in
          subst P (sym same) (missed url key e s)
      served url key (some r) e s =
          let same : handle_with pl store cfg on_miss now request w ≡ (
            r,
            record (world_activity key now (after_read request key w)) {
              metrics = inc_cache_hit w.metrics;
            },
          ) =
            unfold handle_with in ground arith in
          subst P (sym same) (on_hit url key r e s)

      go :
          (p : Prepared)
          → (preparation request w).0 ≡ p
          → P (handle_with pl store cfg on_miss now request w)
      go (failed e) h =
          let same : handle_with pl store cfg on_miss now request w
              ≡ (bad_request e, record w { request_prep = (preparation request w).1 }) =
            unfold handle_with in ground arith in
          subst P (sym same) (on_bad e h)
      go (prepared url key) h =
          served url key (serve_cached cfg.policy request.force_refresh key now (looked_up key w)) h
            refl
