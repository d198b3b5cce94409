-- ===== src/Version/Handle/Fetches.antt =====
-- What `Handle` of internal/service/version/service.go fetched is what it answers later: two calls for
-- one URL, over any store that keeps its promise.
use svm_go.Prelude.{
  ◌≢◌, ℕ, ◌+◌, ◌<◌, ◌≡◌, ◌⊎◌, ◌∙◌, refl, ap, sym, Bool, true, false, none, some, Str, arith,
  Bool-cases, inl, inr, positive, pos_part,
}
use svm_go.Cache.{Record}
use svm_go.Cache.Clock.{Time, before}
use svm_go.Platform.{Platform}
use svm_go.Version.{Request, hit, payload}
use svm_go.Version.Cached.{fresh_record, hit_response, serve_record}
use svm_go.Version.Respond.{
  upstream_response, respond_not_modified, respond_ok, respond_error, respond,
}
use svm_go.Version.Handle.{handle_uncoalesced, fetch_upstream, observe_response, send}
use svm_go.Version.Handle.Cases.{
  Result, respond_cases, fetch_cases, handle_with_cases, observed, after_read, looked_up,
  preparation,
}
use svm_go.Version.Handle.Servable.{serve_record-fresh_record, serve_record-Servable}
use svm_go.Version.Handle.Hits.{HitFrom-handle_uncoalesced, serve_cached_inv}
use svm_go.Version.Prep.{prepared, prepare_request, RequestPrepCache}
use svm_go.Version.Prep.Memo.{IsMemo, get_or_prepare-IsMemo}
use svm_go.Version.Status.{ReadResult, read, too_large, read_error, read_bounded_body}
use svm_go.Version.Store.{Lookup, CacheStore, Contract}
use svm_go.Version.World.{Config, World, UpstreamResponse, Outside}

ne_304 : ◌≢◌ {A = ℕ} 304 200
ne_304 e = omega arith

module _ (pl : Platform) (store : CacheStore) (cfg : Config) where
  -- A 200 answer of upstream has been returned and written.
  record Kept (key : Str) (now : Time) (t : store.State) (memo : RequestPrepCache)
      (a : Result pl store cfg) : Type 0 where
    pub url : Str
    pub resp : UpstreamResponse
    pub body : Str
    pub is_200 : resp.status_code ≡ 200
    pub same_key : a.0.cache_key ≡ key
    pub same_body : a.0.body ≡ payload body
    pub same_memo : a.1.request_prep ≡ memo
    pub stored : a.1.store ≡ store.set key (fresh_record cfg.policy url now resp body) t

  respond_ok-Kept :
      (url key : Str) (now : Time) (force : Bool) (lk : Lookup) (resp : UpstreamResponse)
      (w : World store.State)
      → resp.status_code ≡ 200
      → (respond_ok pl store cfg url key now force lk resp w).0.status_code ≡ 200
      → Kept key now w.store w.request_prep (respond_ok pl store cfg url key now force lk resp w)
  respond_ok-Kept url key now force lk resp w is_200 answered =
      go (read_bounded_body resp.body cfg.policy.max_upstream_response_bytes) refl
    where
      go :
          (b : ReadResult)
          → read_bounded_body resp.body cfg.policy.max_upstream_response_bytes ≡ b
          → Kept key now w.store w.request_prep
              (respond_ok pl store cfg url key now force lk resp w)
      go too_large e = absurd (unfold respond_ok in ground arith)
      go (read_error m) e = absurd (unfold respond_ok in ground arith)
      go (read body) e = elim (Bool-cases (pl.json_valid body)) [
        | inr invalid ↦ absurd (unfold respond_ok in ground arith)
        | inl valid ↦ record {
          url = url;
          resp = resp;
          body = body;
          is_200 = is_200;
          same_key = unfold respond_ok in ground arith;
          same_body = unfold respond_ok in ground arith;
          same_memo = unfold respond_ok in ground arith;
          stored = unfold respond_ok in ground arith;
        }
      ]

  -- The answer is upstream's 200.
  abbrev Answered : Result pl store cfg → Type 0
  Answered a = (a.0.upstream_status ≡ 200) × (a.0.status_code ≡ 200)

  respond-Kept :
      (url key : Str) (now : Time) (force : Bool) (lk : Lookup) (resp : UpstreamResponse)
      (w : World store.State)
      → Answered (respond pl store cfg url key now force lk resp w)
      → Kept key now w.store w.request_prep (respond pl store cfg url key now force lk resp w)
  respond-Kept url key now force lk resp w =
      respond_cases pl store cfg (λ x. Answered x → Kept key now w.store w.request_prep x) url key
        now force lk resp w (λ r _ _ h. absurd (unfold respond_not_modified in ne_304 h.0))
        (λ e h. respond_ok-Kept url key now force lk resp w e h.1)
        (λ ne _ h. absurd (ne (unfold respond_error in h.0)))

  fetch_upstream-Kept :
      (out : Outside) (force : Bool) (url key : Str) (lk : Lookup) (now : Time)
      (w : World store.State)
      → Answered (fetch_upstream pl store cfg out force url key lk now w)
      → Kept key now w.store w.request_prep (fetch_upstream pl store cfg out force url key lk now w)
  unfolding observe_response send
  fetch_upstream-Kept out force url key lk now w =
      fetch_cases pl store cfg (λ x. Answered x → Kept key now w.store w.request_prep x) out force
        url key lk now w (λ _ h. absurd (cc h.0))
        (λ resp _ h.
          respond-Kept url key now force lk resp (observed pl store cfg out url lk resp w) h)

  record KeptFor (request : Request) (now : Time) (w : World store.State) (a : Result pl store cfg)
      : Type 0 where
    pub url : Str
    pub key : Str
    pub prepares : (preparation pl store cfg request w).0 ≡ prepared url key
    pub kept : Kept key now (store.read key w.store).1 (preparation pl store cfg request w).1 a

  handle_uncoalesced-KeptFor :
      (out : Outside) (request : Request) (w : World store.State)
      → Answered (handle_uncoalesced pl store cfg out request w)
      → KeptFor request out.now w (handle_uncoalesced pl store cfg out request w)
  unfolding handle_uncoalesced
  handle_uncoalesced-KeptFor out request w =
      handle_with_cases pl store cfg (λ x. Answered x → KeptFor request out.now w x)
        (fetch_upstream pl store cfg out request.force_refresh) out.now request w
        (λ e _ h. absurd (cc h.0))
        (λ url key a _ s h.
          let (r, _, served) =
            serve_cached_inv pl store cfg key out.now request.force_refresh
              (looked_up pl store cfg key w) s in
          let (_, answer, _) =
            serve_record-Servable cfg.policy request.force_refresh key out.now r served in
          let zero_is : a.upstream_status ≡ 0 = ap (λ b. b.upstream_status) answer in
          absurd (cc (zero_is, h.0)))
        (λ url key p _ h. record {
          url = url;
          key = key;
          prepares = p;
          kept =
              fetch_upstream-Kept out request.force_refresh url key (looked_up pl store cfg key w)
                out.now (after_read pl store cfg request key w) h;
        })

  -- A positive record that is found and not expired is the answer.
  again_found :
      (later : Outside) (again : Request) (w : World store.State) (url key : Str) (r : Record)
      → (preparation pl store cfg again w).0 ≡ prepared url key
      → (looked_up pl store cfg key w).found ≡ some r
      → again.force_refresh ≡ false
      → serve_record cfg.policy false key later.now r ≡ some (hit_response 200 key r)
      → (handle_uncoalesced pl store cfg later again w).0 ≡ hit_response 200 key r
  again_found later again w url key r p found unforced served =
      HitFrom-handle_uncoalesced pl store cfg later again w (hit_response 200 key r) (record {
        url = url;
        key = key;
        cached = r;
        prepares = p;
        found = found;
        not_forced = unforced;
        answer = refl;
        servable = (serve_record-Servable cfg.policy false key later.now r served).2;
      })

  Kept-again :
      (contract : Contract store) (later : Outside) (again : Request) (now : Time) (url key : Str)
      (t : store.State) (memo : RequestPrepCache) (a : Result pl store cfg)
      → Kept key now t memo a
      → contract.IsValid t
      → IsMemo (prepare_request pl cfg.allowed_host_set) memo
      → prepare_request pl cfg.allowed_host_set again.raw_url ≡ prepared url key
      → positive cfg.policy.hard_ttl ≡ true
      → again.force_refresh ≡ false
      → later.now < now + pos_part cfg.policy.hard_ttl
      → ((looked_up pl store cfg a.0.cache_key a.1).found ≡ none)
        ⊎ ((handle_uncoalesced pl store cfg later again a.1).0
            ≡ upstream_response 200 a.0.body hit a.0.cache_key 0)
  Kept-again contract later again now url key t memo a k valid m p bounded unforced in_time =
      elim (contract.read_set_self key r t valid) [
        | inl lost ↦ inl (rw (k.same_key, k.stored) lost)
        | inr found ↦ inr (
            again_found later again a.1 url key r prepares (rw k.stored found) unforced served
            ∙ rw (k.same_key, k.same_body) refl)
      ]
    where
      r : Record
      r = fresh_record cfg.policy k.url now k.resp k.body

      prepares : (preparation pl store cfg again a.1).0 ≡ prepared url key
      prepares = rw k.same_memo (
          (get_or_prepare-IsMemo (prepare_request pl cfg.allowed_host_set) memo memo again.raw_url m
            m).0
          ∙ p)

      served : serve_record cfg.policy false key later.now r ≡ some (hit_response 200 key r)
      served =
          let in_time' : before later.now (now + pos_part cfg.policy.hard_ttl) ≡ true =
            ground arith in
          serve_record-fresh_record cfg.policy k.url key now later.now k.resp k.body k.is_200
            bounded
          ∙ rw in_time' refl

  -- Over a store that keeps its promise, with nothing but results of the preparation in the memo: when
  -- a call is answered with upstream's 200, a call for the same URL that forces no refresh, before the
  -- hard TTL is over and with no call between, either no longer finds the key in the cache, or is a
  -- hit with the same body under the same key, whatever upstream would answer.
  pub handle_uncoalesced-handle_uncoalesced :
      (contract : Contract store) (out later : Outside) (request again : Request)
      (w : World store.State)
      → contract.IsValid w.store
      → IsMemo (prepare_request pl cfg.allowed_host_set) w.request_prep
      → positive cfg.policy.hard_ttl ≡ true
      → (handle_uncoalesced pl store cfg out request w).0.upstream_status ≡ 200
      → (handle_uncoalesced pl store cfg out request w).0.status_code ≡ 200
      → again.raw_url ≡ request.raw_url
      → again.force_refresh ≡ false
      → later.now < out.now + pos_part cfg.policy.hard_ttl
      → let (a, w') = handle_uncoalesced pl store cfg out request w in
        ((looked_up pl store cfg a.cache_key w').found ≡ none)
        ⊎ ((handle_uncoalesced pl store cfg later again w').0
            ≡ upstream_response 200 a.body hit a.cache_key 0)
  handle_uncoalesced-handle_uncoalesced contract out later request again w valid memo bounded
        upstream_ok ok same_url unforced in_time =
      let k : KeptFor request out.now w (handle_uncoalesced pl store cfg out request w) =
        handle_uncoalesced-KeptFor out request w (upstream_ok, ok) in
      let (same, m) =
        get_or_prepare-IsMemo (prepare_request pl cfg.allowed_host_set) w.request_prep
          w.request_prep request.raw_url memo memo in
      Kept-again contract later again out.now k.url k.key (store.read k.key w.store).1
        (preparation pl store cfg request w).1 (handle_uncoalesced pl store cfg out request w)
        k.kept (contract.read_valid k.key w.store valid) m
        (ap (prepare_request pl cfg.allowed_host_set) same_url ∙ sym same ∙ k.prepares) bounded
        unforced in_time
