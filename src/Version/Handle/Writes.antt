-- ===== src/Version/Handle/Writes.antt =====
-- What `Handle` of internal/service/version/service.go writes to the cache.
use svm_go.Prelude.{leb, ◌≡◌, ◌≢◌, none, refl, sym, Bool, some, Str, arith, Bool-cases, inl, inr}
use mathlib.Core.Path.{subst}
use svm_go.Cache.{Record}
use svm_go.Cache.Clock.{Time}
use svm_go.Platform.{Platform}
use svm_go.Version.{Request, hit}
use svm_go.Version.Handle.Hits.{serve_cached_hit, fetch_upstream-ne-hit}
use svm_go.Version.Records.{revalidated_record-IsRevalidated}
use svm_go.Version.Cached.{conditional_candidate, revalidated_record}
use svm_go.Version.Respond.{respond_not_modified, respond_error, respond, store_negative}
use svm_go.Version.Handle.{
  sent_request, prepared, failed, inc_upstream_error, UrlError, handle_uncoalesced, fetch_upstream,
  observe_response, send,
}
use svm_go.Version.Handle.Cases.{
  Result, respond_cases, fetch_cases, handle_with_cases, observed, after_read, looked_up,
  preparation,
}
use svm_go.Version.Store.{Lookup, CacheStore}
use svm_go.Version.World.{Config, World, UpstreamResponse, Outside, Fetched, fetched}
use svm_go.Version.Handle.Stored.{
  Stores, of_not_modified, unchanged, no_answer, conditional_candidate-IsConditional,
  respond_ok-Stores, store_negative-Stores,
}

module _ (pl : Platform) (store : CacheStore) (cfg : Config) where
  respond_not_modified-Stores :
      (url key : Str) (now : Time) (lk : Lookup) (resp : UpstreamResponse) (r : Record)
      (w : World store.State)
      → resp.status_code ≡ 304
      → conditional_candidate lk ≡ some r
      → Stores pl store cfg lk url key now
          (fetched resp)
          w.store
          (respond_not_modified pl store cfg url key now r w).1.store
  respond_not_modified-Stores url key now lk resp r w is_304 e =
      of_not_modified resp r (revalidated_record cfg.policy url now r) refl is_304
        (conditional_candidate-IsConditional pl store cfg lk r e)
        (revalidated_record-IsRevalidated cfg.policy url now r)
        (unfold respond_not_modified in refl)

  respond_error-Stores :
      (url key : Str) (now : Time) (force : Bool) (lk : Lookup) (resp : UpstreamResponse)
      (w : World store.State)
      → resp.status_code ≢ 200
      → (resp.status_code ≡ 304 → conditional_candidate lk ≡ none)
      → Stores pl store cfg lk url key now
          (fetched resp)
          w.store
          (respond_error pl store cfg url key now force lk resp w).1.store
  respond_error-Stores url key now force lk resp w not_200 asked =
      elim (Bool-cases (leb 400 resp.status_code)) [
        | inl e ↦
            let same : (respond_error pl store cfg url key now force lk resp w).1.store
                ≡ (store_negative pl store cfg url key now lk resp
                    (record w { metrics = inc_upstream_error w.metrics })).store =
              unfold respond_error in ground arith in
            subst (Stores pl store cfg lk url key now (fetched resp) w.store) (sym same) (
              store_negative-Stores pl store cfg url key now lk resp
                (record w { metrics = inc_upstream_error w.metrics }) not_200 asked)
        | inr e ↦
            let same : (respond_error pl store cfg url key now force lk resp w).1.store
                ≡ (store_negative pl store cfg url key now lk resp w).store =
              unfold respond_error in ground arith in
            subst (Stores pl store cfg lk url key now (fetched resp) w.store) (sym same)
              (store_negative-Stores pl store cfg url key now lk resp w not_200 asked)
      ]

  respond-Stores :
      (url key : Str) (now : Time) (force : Bool) (lk : Lookup) (resp : UpstreamResponse)
      (w : World store.State)
      → Stores pl store cfg lk url key now
          (fetched resp)
          w.store
          (respond pl store cfg url key now force lk resp w).1.store
  respond-Stores url key now force lk resp w =
      respond_cases pl store cfg
        (λ x. Stores pl store cfg lk url key now (fetched resp) w.store x.1.store) url key now force
        lk resp w (λ r s e. respond_not_modified-Stores url key now lk resp r w s e)
        (λ e. respond_ok-Stores pl store cfg url key now force lk resp w e)
        (λ s e. respond_error-Stores url key now force lk resp w s e)

  store-observed :
      (out : Outside) (url : Str) (lk : Lookup) (resp : UpstreamResponse) (w : World store.State)
      → (observed pl store cfg out url lk resp w).store ≡ w.store
  unfolding observe_response send
  store-observed out url lk resp w = refl

  store-send :
      (out : Outside) (url : Str) (lk : Lookup) (w : World store.State)
      → (send pl store cfg url out.choosing_at lk w).store ≡ w.store
  store-send out url lk w = unfold send in refl

  -- The answer to the request of the handler, where the cache has given `lk`.
  abbrev pub answer_to : Outside → (url : Str) → Lookup → World store.State → Fetched
  answer_to out url lk w = out.upstream (sent_request pl store cfg url out.choosing_at lk w)

  pub fetch_upstream-Stores :
      (out : Outside) (force : Bool) (url key : Str) (lk : Lookup) (now : Time)
      (w : World store.State)
      → Stores pl store cfg lk url key now
          (answer_to out url lk w)
          w.store
          (fetch_upstream pl store cfg out force url key lk now w).1.store
  fetch_upstream-Stores out force url key lk now w =
      fetch_cases pl store cfg
        (λ x. Stores pl store cfg lk url key now (answer_to out url lk w) w.store x.1.store) out
        force url key lk now w
        (λ e.
          subst
            (λ f.
              Stores pl store cfg lk url key now f w.store
                (send pl store cfg url out.choosing_at lk w).store)
            (sym e) (unchanged no_answer (store-send out url lk w)))
        (λ resp e.
          subst
            (λ f.
              Stores pl store cfg lk url key now f w.store
                (respond pl store cfg url key now force lk resp
                  (observed pl store cfg out url lk resp w)).1.store)
            (sym e)
            (subst
              (λ t.
                Stores pl store cfg lk url key now (fetched resp) t
                  (respond pl store cfg url key now force lk resp
                    (observed pl store cfg out url lk resp w)).1.store)
              (store-observed out url lk resp w)
              (respond-Stores url key now force lk resp (observed pl store cfg out url lk resp w))))

  -- What a call does to the cache: nothing, where the request is refused; else it reads one key, and a
  -- hit leaves it at that; any other call then writes what it does of the answer of upstream.
  pub data Writes (out : Outside) (request : Request) (w : World store.State)
      (res : Result pl store cfg) : Type 0 where
    refused :
        {e : UrlError}
        → (preparation pl store cfg request w).0 ≡ failed e
        → res.1.store ≡ w.store
        → Writes out request w res
    served :
        {url key : Str}
        → (preparation pl store cfg request w).0 ≡ prepared url key
        → res.0.cache_status ≡ hit
        → res.1.store ≡ (store.read key w.store).1
        → Writes out request w res
    asked :
        {url key : Str}
        → (preparation pl store cfg request w).0 ≡ prepared url key
        → res.0.cache_status ≢ hit
        → Stores pl store cfg
            (looked_up pl store cfg key w)
            url
            key
            out.now
            (answer_to out url
              (looked_up pl store cfg key w)
              (after_read pl store cfg request key w))
            (store.read key w.store).1
            res.1.store
        → Writes out request w res

  -- The cache after a call that no other call interrupts: as it was, where the request is refused;
  -- else the cache after the read of one key, in which a hit changes nothing more. Otherwise upstream
  -- has been asked: after a 200 with valid JSON within the size limit its record is written under that
  -- key, for the hard TTL; after a 404 or 410 the record of its error, for the negative TTL, unless the
  -- error cannot be encoded; after a 304 that was asked for the record that the cache gave, with only
  -- its URL and its times changed; and after any other answer, or none, nothing.
  pub handle_uncoalesced-Writes :
      (out : Outside) (request : Request) (w : World store.State)
      → Writes out request w (handle_uncoalesced pl store cfg out request w)
  unfolding handle_uncoalesced
  handle_uncoalesced-Writes out request w =
      handle_with_cases pl store cfg (Writes out request w)
        (fetch_upstream pl store cfg out request.force_refresh) out.now request w
        (λ e h. refused h refl)
        (λ url key r h s.
          served h
            (serve_cached_hit pl store cfg key out.now request.force_refresh
              (looked_up pl store cfg key w) s)
            refl)
        (λ url key h _.
          asked h
            (fetch_upstream-ne-hit pl store cfg out request.force_refresh url key
              (looked_up pl store cfg key w) out.now (after_read pl store cfg request key w))
            (fetch_upstream-Stores out request.force_refresh url key (looked_up pl store cfg key w)
              out.now (after_read pl store cfg request key w)))
