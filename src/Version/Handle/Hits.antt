-- ===== src/Version/Handle/Hits.antt =====
-- When `Handle` of internal/service/version/service.go answers from the cache.
use svm_go.Prelude.{◌≡◌, ◌≢◌, ◌∙◌, ap, sym, Bool, false, some, Str, arith}
use svm_go.Cache.{Record}
use svm_go.Cache.Clock.{Time}
use svm_go.Platform.{Platform}
use svm_go.Version.{Request, Response, hit, payload}
use svm_go.Version.Cached.{serve_record, serve_cached}
use svm_go.Version.Respond.{respond_not_modified, respond_ok, respond_error, respond}
use svm_go.Version.Handle.{handle_uncoalesced, fetch_upstream}
use svm_go.Version.Handle.Cases.{
  respond_cases, fetch_cases, handle_with_cases, observed, after_read, looked_up, preparation,
}
use svm_go.Version.Prep.{prepared}
use svm_go.Version.Store.{Lookup, CacheStore}
use svm_go.Version.World.{Config, World, UpstreamResponse, Outside}
use svm_go.Version.Handle.Servable.{Servable, serve_record-Servable, Servable-serve_record}

module _ (pl : Platform) (store : CacheStore) (cfg : Config) where
  -- Where a hit comes from: a record that the cache holds under the key of the request, which may be
  -- served at the time of the call, for a request that forces no refresh.
  pub record HitFrom (now : Time) (request : Request) (w : World store.State) (a : Response)
      : Type 0 where
    pub url : Str
    pub key : Str
    pub cached : Record
    pub prepares : (preparation pl store cfg request w).0 ≡ prepared url key
    pub found : (looked_up pl store cfg key w).found ≡ some cached
    pub not_forced : request.force_refresh ≡ false
    pub answer : a ≡ record {
      status_code = a.status_code;
      body = payload cached.payload;
      cache_status = hit;
      cache_key = key;
      upstream_status = 0;
    }
    pub servable : Servable cfg.policy now cached a.status_code

  respond-ne-hit :
      (url key : Str) (now : Time) (force : Bool) (lk : Lookup) (resp : UpstreamResponse)
      (w : World store.State)
      → (respond pl store cfg url key now force lk resp w).0.cache_status ≢ hit
  respond-ne-hit url key now force lk resp w =
      respond_cases pl store cfg (λ res. res.0.cache_status ≢ hit) url key now force lk resp w
        (λ r _ _. unfold respond_not_modified in (λ e. cc e))
        (λ _. unfold respond_ok in ground arith) (λ _ _. unfold respond_error in ground arith)

  pub fetch_upstream-ne-hit :
      (out : Outside) (force : Bool) (url key : Str) (lk : Lookup) (now : Time)
      (w : World store.State)
      → (fetch_upstream pl store cfg out force url key lk now w).0.cache_status ≢ hit
  fetch_upstream-ne-hit out force url key lk now w =
      fetch_cases pl store cfg (λ res. res.0.cache_status ≢ hit) out force url key lk now w
        (λ _ e. cc e)
        (λ resp _.
          respond-ne-hit url key now force lk resp (observed pl store cfg out url lk resp w))

  pub serve_cached_inv :
      (key : Str) (now : Time) (force : Bool) (lk : Lookup) {a : Response}
      → serve_cached cfg.policy force key now lk ≡ some a
      → (r : Record) × (lk.found ≡ some r) × (serve_record cfg.policy force key now r ≡ some a)
  unfolding serve_cached
  serve_cached_inv key now force lk h = ground arith

  pub serve_cached_hit :
      (key : Str) (now : Time) (force : Bool) (lk : Lookup) {a : Response}
      → serve_cached cfg.policy force key now lk ≡ some a
      → a.cache_status ≡ hit
  serve_cached_hit key now force lk {a = a} h =
      let (r, found, served) = serve_cached_inv key now force lk {a = a} h in
      let (_, shape, _) = serve_record-Servable cfg.policy force key now r {a = a} served in
      ap (λ x. x.cache_status) shape

  serve_cached_found :
      (key : Str) (now : Time) (force : Bool) (lk : Lookup) {r : Record}
      → lk.found ≡ some r
      → serve_cached cfg.policy force key now lk ≡ serve_record cfg.policy force key now r
  unfolding serve_cached
  serve_cached_found key now force lk h = ground arith

  only_HitFrom :
      (out : Outside) (request : Request) (w : World store.State)
      → (handle_uncoalesced pl store cfg out request w).0.cache_status ≡ hit
      → HitFrom out.now request w (handle_uncoalesced pl store cfg out request w).0
  unfolding handle_uncoalesced
  only_HitFrom out request w =
      handle_with_cases pl store cfg
        (λ res. res.0.cache_status ≡ hit → HitFrom out.now request w res.0)
        (fetch_upstream pl store cfg out request.force_refresh) out.now request w
        (λ e _ h. absurd (cc h))
        (λ url key a p s h.
          let (r, found, served) =
            serve_cached_inv key out.now request.force_refresh (looked_up pl store cfg key w) s in
          let (not_forced, answer, servable) =
            serve_record-Servable cfg.policy request.force_refresh key out.now r served in
          record {
            url = url;
            key = key;
            cached = r;
            prepares = p;
            found = found;
            not_forced = not_forced;
            answer = answer;
            servable = servable;
          })
        (λ url key _ _ h. absurd (
          fetch_upstream-ne-hit out request.force_refresh url key (looked_up pl store cfg key w)
            out.now (after_read pl store cfg request key w) h))

  -- And every record that may be served is served.
  pub HitFrom-handle_uncoalesced :
      (out : Outside) (request : Request) (w : World store.State) (a : Response)
      → HitFrom out.now request w a
      → (handle_uncoalesced pl store cfg out request w).0 ≡ a
  unfolding handle_uncoalesced
  HitFrom-handle_uncoalesced out request w a h =
      let served : serve_cached cfg.policy request.force_refresh h.key out.now
            (looked_up pl store cfg h.key w)
          ≡ some a =
        serve_cached_found h.key out.now request.force_refresh (looked_up pl store cfg h.key w)
          h.found
        ∙ ap (λ f. serve_record cfg.policy f h.key out.now h.cached) h.not_forced
        ∙ Servable-serve_record cfg.policy h.key out.now h.cached a.status_code h.servable
        ∙ ap some (sym h.answer) in
      handle_with_cases pl store cfg (λ res. res.0 ≡ a)
        (fetch_upstream pl store cfg out request.force_refresh) out.now request w
        (λ e p. absurd (cc (p, h.prepares)))
        (λ url key b p s. let same : key ≡ h.key = cc (p, h.prepares) in cc (same, s, served))
        (λ url key p s.
          let same : key ≡ h.key = cc (p, h.prepares) in absurd (cc (same, s, served)))

  -- A call behind the request group answers with a hit only from a record that the cache holds and
  -- that may be served: a 404 or 410 before its end, any other record while the hard TTL lasts, and
  -- none if the request forces a refresh. And every record that may be served is served, with its
  -- payload, whatever upstream would answer.
  pub handle_uncoalesced-HitFrom :
      (out : Outside) (request : Request) (w : World store.State)
      → ((handle_uncoalesced pl store cfg out request w).0.cache_status ≡ hit
          → HitFrom out.now request w (handle_uncoalesced pl store cfg out request w).0)
        × ((a : Response)
            → HitFrom out.now request w a
            → (handle_uncoalesced pl store cfg out request w).0 ≡ a)
  handle_uncoalesced-HitFrom out request w =
      (only_HitFrom out request w, HitFrom-handle_uncoalesced out request w)
