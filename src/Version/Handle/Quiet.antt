-- ===== src/Version/Handle/Quiet.antt =====
-- A hit of `Handle` (internal/service/version/service.go) costs no request to upstream.
use svm_go.Prelude.{◌≡◌, refl, Bool, true, false, Str}
use svm_go.Cache.Clock.{Time}
use svm_go.Platform.{Platform}
use svm_go.Version.{Request, hit}
use svm_go.Version.Handle.{handle, do_alone, handle_uncoalesced, fetch_upstream}
use svm_go.Version.Handle.Cases.{Result, handle_with_cases, after_read, looked_up}
use svm_go.Version.Handle.Hits.{fetch_upstream-ne-hit}
use svm_go.Version.Store.{CacheStore}
use svm_go.Version.World.{Config, World, Outside}

module _ (pl : Platform) (store : CacheStore) (cfg : Config) where
  -- If the answer is a hit, nothing was sent.
  abbrev pub IsQuiet : World store.State → Result pl store cfg → Type 0
  IsQuiet w res = res.0.cache_status ≡ hit → res.1.sent ≡ w.sent

  handle_uncoalesced-IsQuiet :
      (out : Outside) (request : Request) (w : World store.State)
      → IsQuiet w (handle_uncoalesced pl store cfg out request w)
  unfolding handle_uncoalesced
  handle_uncoalesced-IsQuiet out request w =
      handle_with_cases pl store cfg (IsQuiet w)
        (fetch_upstream pl store cfg out request.force_refresh) out.now request w
        (λ e _ h. absurd (cc h)) (λ url key a _ _ _. refl)
        (λ url key _ _ h. absurd (
          fetch_upstream-ne-hit pl store cfg out request.force_refresh url key
            (looked_up pl store cfg key w) out.now (after_read pl store cfg request key w) h))

  do_alone-IsQuiet :
      (canceled : Bool) (out : Outside) (request : Request) (key : Str) (w : World store.State)
      → IsQuiet w (do_alone pl store cfg canceled out request key w)
  unfolding do_alone
  do_alone-IsQuiet true out request key w h = absurd (cc h)
  do_alone-IsQuiet false out request key w h = handle_uncoalesced-IsQuiet out request w h

  pub handle-IsQuiet :
      (canceled : Bool) (out : Outside) (now : Time) (request : Request) (w : World store.State)
      → IsQuiet w (handle pl store cfg canceled out now request w)
  unfolding handle
  handle-IsQuiet canceled out now request w =
      handle_with_cases pl store cfg (IsQuiet w)
        (λ url key lk now' w'. do_alone pl store cfg canceled out request key w') now request w
        (λ e _ h. absurd (cc h)) (λ url key a _ _ _. refl)
        (λ url key _ _.
          do_alone-IsQuiet canceled out request key (after_read pl store cfg request key w))
