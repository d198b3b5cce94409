-- ===== src/Version/Handle/Counted.antt =====
-- What the parts of `Handle` (internal/service/version/service.go) count and send.
use svm_go.Prelude.{
  ◌≡◌, ◌∙◌, ◌+◌, ◌%◌, ◌^◌, ℕ, refl, Bool, Option, none, some, [], ◌∷◌, ◌++◌, Str, arith,
}
use svm_go.Cache.{Record}
use svm_go.Cache.Clock.{Time}
use svm_go.Metrics.{Metrics, snapshot, inc_cache_hit}
use svm_go.Platform.{Platform}
use svm_go.Version.{Request}
use svm_go.Version.Handle.Cases.{respond_cases, fetch_cases, unreachable, observed, after_read}
use svm_go.Version.Respond.{
  respond_not_modified, respond_ok, store_negative, respond_error, respond,
}
use svm_go.Version.Handle.{observe_response, sent_request, send, fetch_upstream}
use svm_go.Version.Store.{Lookup, CacheStore}
use svm_go.Version.World.{Config, Sent, world_activity, World, UpstreamResponse, Outside}

-- The requests and the three counters are the same in both worlds.
pub record SameCalls {S : Type 0} (w w' : World S) : Type 0 where
  pub sent : w'.sent ≡ w.sent
  pub hits : (snapshot w'.metrics).cache_hits ≡ (snapshot w.metrics).cache_hits
  pub misses : (snapshot w'.metrics).cache_misses ≡ (snapshot w.metrics).cache_misses
  pub requests : (snapshot w'.metrics).upstream_requests ≡ (snapshot w.metrics).upstream_requests

-- A uint64 that is counted up, where there are metrics to count in.
abbrev pub one_more : Option Metrics → ℕ → ℕ
one_more none n = n
one_more (some m) n = (n + 1) % 2 ^ 64

module _ (pl : Platform) (store : CacheStore) (cfg : Config) where
  respond_not_modified-SameCalls :
      (url key : Str) (now : Time) (r : Record) (w : World store.State)
      → SameCalls w (respond_not_modified pl store cfg url key now r w).1
  unfolding respond_not_modified
  respond_not_modified-SameCalls url key now r w = ground arith

  respond_ok-SameCalls :
      (url key : Str) (now : Time) (force : Bool) (lk : Lookup) (resp : UpstreamResponse)
      (w : World store.State)
      → SameCalls w (respond_ok pl store cfg url key now force lk resp w).1
  unfolding respond_ok
  respond_ok-SameCalls url key now force lk resp w = ground arith

  respond_error-SameCalls :
      (url key : Str) (now : Time) (force : Bool) (lk : Lookup) (resp : UpstreamResponse)
      (w : World store.State)
      → SameCalls w (respond_error pl store cfg url key now force lk resp w).1
  unfolding respond_error store_negative
  respond_error-SameCalls url key now force lk resp w = ground arith

  respond-SameCalls :
      (url key : Str) (now : Time) (force : Bool) (lk : Lookup) (resp : UpstreamResponse)
      (w : World store.State)
      → SameCalls w (respond pl store cfg url key now force lk resp w).1
  respond-SameCalls url key now force lk resp w =
      respond_cases pl store cfg (λ res. SameCalls w res.1) url key now force lk resp w
        (λ r _ _. respond_not_modified-SameCalls url key now r w)
        (λ _. respond_ok-SameCalls url key now force lk resp w)
        (λ _ _. respond_error-SameCalls url key now force lk resp w)

  observe_response-SameCalls :
      (at : Time) (token : Str) (resp : UpstreamResponse) (w : World store.State)
      → SameCalls w (observe_response pl store cfg at token resp w)
  unfolding observe_response
  observe_response-SameCalls at token resp w = ground arith

  -- One cache hit was counted, and nothing was sent.
  pub record ServedOne (w w' : World store.State) : Type 0 where
    pub sent : w'.sent ≡ w.sent
    pub hits : (snapshot w'.metrics).cache_hits ≡ one_more w.metrics (snapshot w.metrics).cache_hits
    pub misses : (snapshot w'.metrics).cache_misses ≡ (snapshot w.metrics).cache_misses
    pub requests : (snapshot w'.metrics).upstream_requests ≡ (snapshot w.metrics).upstream_requests

  -- One request was sent, and one cache miss and one upstream request were counted.
  pub record SentOne (w w' : World store.State) : Type 0 where
    pub request : Sent
    pub sent : w'.sent ≡ w.sent ++ request ∷ []
    pub hits : (snapshot w'.metrics).cache_hits ≡ (snapshot w.metrics).cache_hits
    pub misses :
        (snapshot w'.metrics).cache_misses ≡ one_more w.metrics (snapshot w.metrics).cache_misses
    pub requests :
        (snapshot w'.metrics).upstream_requests
        ≡ one_more w.metrics (snapshot w.metrics).upstream_requests

  SentOne-send :
      (url : Str) (at : Time) (lk : Lookup) (w : World store.State)
      → SentOne w (send pl store cfg url at lk w)
  unfolding send
  SentOne-send url at lk w = record {
    request = sent_request pl store cfg url at lk w;
    sent = refl;
    hits = ground arith;
    misses = ground arith;
    requests = ground arith;
  }

  pub hit-ServedOne :
      (request : Request) (key : Str) (now : Time) (w : World store.State)
      → ServedOne w (record (world_activity key now (after_read pl store cfg request key w)) {
        metrics = inc_cache_hit w.metrics;
      })
  hit-ServedOne request key now w = record {
    sent = refl;
    hits = ground arith;
    misses = ground arith;
    requests = ground arith;
  }

  pub SentOne-after_read :
      (request : Request) (key : Str) (w u : World store.State)
      → SentOne (after_read pl store cfg request key w) u
      → SentOne w u
  SentOne-after_read request key w u e = record {
    request = e.request;
    sent = e.sent;
    hits = e.hits;
    misses = e.misses;
    requests = e.requests;
  }

  SentOne-SameCalls : (w v u : World store.State) → SentOne w v → SameCalls v u → SentOne w u
  SentOne-SameCalls w v u s e = record {
    request = s.request;
    sent = e.sent ∙ s.sent;
    hits = e.hits ∙ s.hits;
    misses = e.misses ∙ s.misses;
    requests = e.requests ∙ s.requests;
  }

  SameCalls-trans : (w v u : World store.State) → SameCalls w v → SameCalls v u → SameCalls w u
  SameCalls-trans w v u d e = record {
    sent = e.sent ∙ d.sent;
    hits = e.hits ∙ d.hits;
    misses = e.misses ∙ d.misses;
    requests = e.requests ∙ d.requests;
  }

  pub fetch_upstream-SentOne :
      (out : Outside) (force : Bool) (url key : Str) (lk : Lookup) (now : Time)
      (w : World store.State)
      → SentOne w (fetch_upstream pl store cfg out force url key lk now w).1
  fetch_upstream-SentOne out force url key lk now w =
      let s = send pl store cfg url out.choosing_at lk w in
      fetch_cases pl store cfg (λ res. SentOne w res.1) out force url key lk now w
        (λ _.
          SentOne-SameCalls w s (unreachable pl store cfg out key s).1
            (SentOne-send url out.choosing_at lk w) (ground arith))
        (λ resp _.
          let o = observed pl store cfg out url lk resp w in
          let token = (sent_request pl store cfg url out.choosing_at lk w).token in
          SentOne-SameCalls w s (respond pl store cfg url key now force lk resp o).1
            (SentOne-send url out.choosing_at lk w)
            (SameCalls-trans s o (respond pl store cfg url key now force lk resp o).1
              (observe_response-SameCalls out.observing_at token resp s)
              (respond-SameCalls url key now force lk resp o)))
