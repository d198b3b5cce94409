-- ===== src/Version/Handle/Accounts.antt =====
-- What a call of `Handle` (internal/service/version/service.go) counts and sends.
use svm_go.Prelude.{
  ◌≡◌, ◌≢◌, refl, Bool, true, false, [], Str, arith, codes, lookup-insert, str_eq_refl,
  if◌then◌else◌,
}
use svm_go.Cache.Clock.{Time}
use svm_go.Platform.{Platform}
use svm_go.Version.{Request, Response, hit, bypass, error_response}
use svm_go.Version.Handle.Cases.{Result, handle_with_cases, after_read, looked_up, preparation}
use svm_go.Version.Respond.{upstream_response}
use svm_go.Version.Handle.{handle, do_alone, fetch_upstream, handle_uncoalesced}
use svm_go.Security.{UrlError}
use svm_go.Version.Handle.Hits.{serve_cached_hit, fetch_upstream-ne-hit}
use svm_go.Version.Prep.{
  Prepared, RequestPrepCache, failed, prepared, prepare_request, get_or_prepare,
}
use svm_go.Version.Store.{CacheStore}
use svm_go.Version.World.{Config, World, Outside}
use svm_go.Version.Handle.Counted.{
  SameCalls, ServedOne, SentOne, hit-ServedOne, SentOne-after_read, fetch_upstream-SentOne,
}

get_or_prepare_again :
    (c : RequestPrepCache) (raw_url : Str) (prepare : Str → Prepared)
    → let after = (get_or_prepare c c raw_url prepare).1 in
      (get_or_prepare after after raw_url prepare).0 ≡ (get_or_prepare c c raw_url prepare).0
unfolding get_or_prepare
get_or_prepare_again c raw_url prepare =
    ground (arith, lookup-insert raw_url raw_url (prepare raw_url) c.entries, str_eq_refl raw_url)

module _ (pl : Platform) (store : CacheStore) (cfg : Config) where
  -- What became of a call: its URL was refused; or it has been answered from the cache, with a hit
  -- unless its caller was gone; or it has been answered otherwise.
  pub data Account (canceled : Bool) (request : Request) (w : World store.State)
      (res : Result pl store cfg) : Type 0 where
    refused :
        {e : UrlError}
        → (preparation pl store cfg request w).0 ≡ failed e
        → SameCalls w res.1
        → Account canceled request w res
    served :
        {url key : Str}
        → (preparation pl store cfg request w).0 ≡ prepared url key
        → (canceled ≡ false → res.0.cache_status ≡ hit)
        → ServedOne pl store cfg w res.1
        → Account canceled request w res
    sent :
        {url key : Str}
        → (preparation pl store cfg request w).0 ≡ prepared url key
        → res.0.cache_status ≢ hit
        → SentOne pl store cfg w res.1
        → Account canceled request w res

  handle_uncoalesced-Account :
      (out : Outside) (request : Request) (w : World store.State)
      → Account false request w (handle_uncoalesced pl store cfg out request w)
  unfolding handle_uncoalesced
  handle_uncoalesced-Account out request w =
      handle_with_cases pl store cfg (Account false request w)
        (fetch_upstream pl store cfg out request.force_refresh) out.now request w
        (λ e h. refused h (record { sent = refl; hits = refl; misses = refl; requests = refl }))
        (λ url key r h s.
          served h
            (λ _.
              serve_cached_hit pl store cfg key out.now request.force_refresh
                (looked_up pl store cfg key w) s)
            (hit-ServedOne pl store cfg request key out.now w))
        (λ url key h _.
          sent h
            (fetch_upstream-ne-hit pl store cfg out request.force_refresh url key
              (looked_up pl store cfg key w) out.now (after_read pl store cfg request key w))
            (SentOne-after_read pl store cfg request key w _ (
              fetch_upstream-SentOne pl store cfg out request.force_refresh url key
                (looked_up pl store cfg key w) out.now (after_read pl store cfg request key w))))

  -- A preparation that has been made is made again with the memo that it left.
  preparation_again :
      (request : Request) (key : Str) (w : World store.State)
      → (preparation pl store cfg request (after_read pl store cfg request key w)).0
        ≡ (preparation pl store cfg request w).0
  preparation_again request key w =
      get_or_prepare_again w.request_prep request.raw_url (prepare_request pl cfg.allowed_host_set)

  -- The shared call of a caller that finds no other one, and what its caller gets.
  do_alone-Account :
      (canceled : Bool) (out : Outside) (request : Request) (url key : Str) (w : World store.State)
      → (preparation pl store cfg request w).0 ≡ prepared url key
      → Account canceled request w
          (do_alone pl store cfg canceled out request key (after_read pl store cfg request key w))
  unfolding do_alone
  do_alone-Account canceled out request url key w h =
      let v = after_read pl store cfg request key w in
      elim (handle_uncoalesced-Account out request v) [
        | refused f e ↦ absurd (cc (preparation_again request key w, f, h))
        | served f s e ↦
            served h (answered canceled (handle_uncoalesced pl store cfg out request v).0 (s refl))
              (record { sent = e.sent; hits = e.hits; misses = e.misses; requests = e.requests })
        | sent f s e ↦
            sent h (unanswered canceled (handle_uncoalesced pl store cfg out request v).0 s)
              (SentOne-after_read pl store cfg request key w _ e)
      ]
    where
      timeout : Response
      timeout = upstream_response 504 (error_response (codes "Request canceled") []) bypass key 0

      answered :
          (b : Bool) (r : Response)
          → r.cache_status ≡ hit
          → b ≡ false
          → (if b then timeout else r).cache_status ≡ hit
      answered b r s e = rw e s

      unanswered :
          (b : Bool) (r : Response)
          → r.cache_status ≢ hit
          → (if b then timeout else r).cache_status ≢ hit
      unanswered true r s = λ e. cc e
      unanswered false r s = s

  -- A call for a URL that is refused counts and sends nothing. Any other is answered with a hit, where
  -- its caller waits for it, and then one cache hit is counted and nothing sent; or it is answered
  -- otherwise, and then one request is sent, and one cache miss and one upstream request are counted.
  pub handle-Account :
      (canceled : Bool) (out : Outside) (now : Time) (request : Request) (w : World store.State)
      → Account canceled request w (handle pl store cfg canceled out now request w)
  unfolding handle
  handle-Account canceled out now request w =
      handle_with_cases pl store cfg (Account canceled request w)
        (λ url key lk now' w'. do_alone pl store cfg canceled out request key w') now request w
        (λ e h. refused h (record { sent = refl; hits = refl; misses = refl; requests = refl }))
        (λ url key r h s.
          served h
            (λ _.
              serve_cached_hit pl store cfg key now request.force_refresh
                (looked_up pl store cfg key w) s)
            (hit-ServedOne pl store cfg request key now w))
        (λ url key h _. do_alone-Account canceled out request url key w h)
