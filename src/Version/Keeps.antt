-- ===== src/Version/Keeps.antt =====
-- What the store of internal/service/version keeps through every operation of the service and of the
-- scheduler, when its own reads and writes keep it.
use svm_go.Prelude.{
  length-append, ◌≤◌, length, ℕ, ◌≡◌, Bool, Option, none, some, List, [], ◌∷◌, Str, is_empty,
  Bool-cases, inl, inr, arith, if◌then◌else◌,
}
use mathlib.Core.Path.{sym, subst}
use svm_go.Cache.{Record}
use svm_go.Cache.Clock.{Time, Duration}
use svm_go.Cache.Policy.{Policy}
use svm_go.Platform.{Platform}
use svm_go.Version.{Request}
use svm_go.Version.Handle.{handle, do_alone, handle_with, handle_uncoalesced, fetch_upstream}
use svm_go.Version.Handle.Cases.{Result, handle_with_cases, after_read, looked_up}
use svm_go.Version.Handle.Stored.{Stores, unchanged, of_ok, of_negative, of_not_modified}
use svm_go.Version.Handle.Writes.{answer_to, fetch_upstream-Stores}
use svm_go.Version.Queue.{RefreshQueue, enqueue}
use svm_go.Version.Scheduler.Cases.{sweep_cases}
use svm_go.Version.Refresh.{refresh_once_by_key}
use svm_go.Version.Refresh.Answers.{Answered, updated, not_modified, failed}
use svm_go.Version.Refresh.Outcomes.{skipped, unread, tried, refresh_once_by_key-Refreshed}
use svm_go.Version.Scheduler.{Sources, enqueue_all, select_due, sweep_keys, sweep}
use svm_go.Version.Store.{Lookup, CacheStore}
use svm_go.Version.World.{Fetched, Config, World, Outside}

-- Reads and writes keep a property of the store.
pub record Kept (store : CacheStore) (K : store.State → Type 0) : Type 0 where
  pub read : (k : Str) (t : store.State) → K t → K (store.read k t).1
  pub get : (k : Str) (t : store.State) → K t → K (store.get k t).1
  pub set : (k : Str) (r : Record) (t : store.State) → K t → K (store.set k r t)

module _ (pl : Platform) (store : CacheStore) (cfg : Config) (K : store.State → Type 0)
    (kept : Kept store K) where
  Stores-kept :
      (lk : Lookup) (url key : Str) (now : Time) (answer : Fetched) (t u : store.State)
      → Stores pl store cfg lk url key now answer t u
      → K t
      → K u
  Stores-kept lk url key now answer t u (unchanged _ e) k = subst K (sym e) k
  Stores-kept lk url key now answer t u (of_ok _ _ r _ _ _ e) k =
      subst K (sym e) (kept.set key r t k)
  Stores-kept lk url key now answer t u (of_negative _ r _ _ _ e) k =
      subst K (sym e) (kept.set key r t k)
  Stores-kept lk url key now answer t u (of_not_modified _ _ r _ _ _ _ e) k =
      subst K (sym e) (kept.set key r t k)

  handle_with-kept :
      (on_miss : (url key : Str) → Lookup → Time → World store.State → Result pl store cfg)
      (now : Time) (request : Request) (w : World store.State)
      → ((url key : Str) (lk : Lookup) (v : World store.State)
          → K v.store
          → K (on_miss url key lk now v).1.store)
      → K w.store
      → K (handle_with pl store cfg on_miss now request w).1.store
  handle_with-kept on_miss now request w missed k =
      handle_with_cases pl store cfg (λ res. K res.1.store) on_miss now request w (λ e _. k)
        (λ url key r _ _. kept.read key w.store k)
        (λ url key _ _.
          missed url key (looked_up pl store cfg key w) (after_read pl store cfg request key w)
            (kept.read key w.store k))

  handle_uncoalesced-kept :
      (out : Outside) (request : Request) (w : World store.State)
      → K w.store
      → K (handle_uncoalesced pl store cfg out request w).1.store
  unfolding handle_uncoalesced
  handle_uncoalesced-kept out request w =
      handle_with-kept (fetch_upstream pl store cfg out request.force_refresh) out.now request w
        (λ url key lk v k.
          Stores-kept lk url key out.now (answer_to pl store cfg out url lk v) v.store
            (fetch_upstream pl store cfg out request.force_refresh url key lk out.now v).1.store
            (fetch_upstream-Stores pl store cfg out request.force_refresh url key lk out.now v) k)

  -- A call of the service keeps what its store keeps.
  pub handle-kept :
      (canceled : Bool) (out : Outside) (now : Time) (request : Request) (w : World store.State)
      → K w.store
      → K (handle pl store cfg canceled out now request w).1.store
  unfolding handle do_alone
  handle-kept canceled out now request w =
      handle_with-kept (λ url key lk now' w'. do_alone pl store cfg canceled out request key w') now
        request w (λ url key lk v k. handle_uncoalesced-kept out request v k)

  Answered-kept :
      (key url : Str) (now : Time) (r : Record) (answer : Fetched) (w w' : World store.State)
      → Answered pl store cfg key url now r answer w w'
      → K w.store
      → K w'.store
  Answered-kept key url now r answer w w' (updated _ _ fresh _ _ _ _ e) k =
      subst K (sym e) (kept.set key fresh w.store k)
  Answered-kept key url now r answer w w' (not_modified _ old _ _ _ _ e) k =
      subst K (sym e) (kept.set key old w.store k)
  Answered-kept key url now r answer w w' (failed _ _ e) k = subst K (sym e) k

  -- A background refresh keeps it too.
  pub refresh_once_by_key-kept :
      (out : Outside) (key : Str) (w : World store.State)
      → K w.store
      → K (refresh_once_by_key pl store cfg out key w).store
  refresh_once_by_key-kept out key w k =
      elim (refresh_once_by_key-Refreshed pl store cfg out key w) [
        | skipped _ _ _ _ e ↦ subst K (sym e) (kept.read key w.store k)
        | unread _ _ _ e ↦ subst K (sym e) (kept.read key w.store k)
        | tried r request _ _ _ _ _ _ a ↦
            Answered-kept key r.url out.now r (out.upstream request)
              (record w { store = (store.read key w.store).1 })
              (refresh_once_by_key pl store cfg out key w) a (kept.read key w.store k)
      ]

abbrev pub IsBounded : Option RefreshQueue → Type 0
IsBounded none = Unit
IsBounded (some q) = length q.keys ≤ q.size

enqueue-IsBounded :
    (key : Str) (q : RefreshQueue) → IsBounded (some q) → IsBounded (some (enqueue key q).1)
unfolding enqueue
enqueue-IsBounded key q b = ground (arith, length-append q.keys (key ∷ []))

enqueue_all-IsBounded :
    (keys : List Str) (q : RefreshQueue)
    → IsBounded (some q)
    → IsBounded (some (enqueue_all keys q).1)
unfolding enqueue_all
enqueue_all-IsBounded [] q b = b
enqueue_all-IsBounded (key ∷ keys) q b =
    let rest = enqueue_all-IsBounded keys (enqueue key q).1 (enqueue-IsBounded key q b) in
    elim (Bool-cases (enqueue key q).0) [
      | inl taken ↦ rw taken rest
      | inr dropped ↦ rw dropped rest
    ]

module _ (store : CacheStore) (K : store.State → Type 0) (kept : Kept store K) where
  select_due-store :
      (now : Time) (interval : Duration) (key : Str) (keys : List Str) (st : store.State)
      → (select_due store now interval (key ∷ keys) st).1 ≡ (
          if is_empty key
          then (select_due store now interval keys st).1
          else (select_due store now interval keys (store.get key st).1).1)
  unfolding select_due
  select_due-store now interval key keys st = ground arith

  select_due-kept :
      (now : Time) (interval : Duration) (keys : List Str) (st : store.State)
      → K st
      → K (select_due store now interval keys st).1
  unfolding select_due
  select_due-kept now interval [] st k = k
  select_due-kept now interval (key ∷ keys) st k =
      subst K (sym (select_due-store now interval key keys st)) (elim (Bool-cases (is_empty key)) [
        | inl blank ↦ rw blank (select_due-kept now interval keys st k)
        | inr named ↦
            rw named (select_due-kept now interval keys (store.get key st).1 (kept.get key st k))
      ])

  abbrev pub KeptStore : Option store.State → Type 0
  KeptStore none = Unit
  KeptStore (some st) = K st

  sweep_keys-kept :
      (policy : Policy) (now : Time) (l : List Str) (st : store.State) (q : RefreshQueue)
      → K st
      → IsBounded (some q)
      → let swept = sweep_keys store policy now l st q in K swept.1 × IsBounded (some swept.2)
  unfolding sweep_keys
  sweep_keys-kept policy now l st q k b = (
    select_due-kept now policy.revalidate_interval l st k,
    enqueue_all-IsBounded (select_due store now policy.revalidate_interval l st).0.0 q b,
  )

  -- A sweep keeps what the store keeps, and the bound of the queue.
  pub sweep-kept :
      (policy : Policy) (done : ℕ → Bool) (now : Time) (s : Sources store.State)
      → KeptStore s.cache_store
      → IsBounded s.queue
      → KeptStore (sweep store policy done now s).1.cache_store
        × IsBounded (sweep store policy done now s).1.queue
  sweep-kept policy done now s k b =
      sweep_cases store (λ res. KeptStore res.1.cache_store × IsBounded res.1.queue) policy done now
        s (λ tracker. (k, b))
        (λ tracker l st q c e. sweep_keys-kept policy now l st q (rw c at k) (rw e at b))
