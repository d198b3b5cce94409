-- ===== src/Version/Scheduler/Due.antt =====
-- Which keys a sweep of internal/service/version/revalidate_scheduler.go queues.
use svm_go.Cache.{Record}
use svm_go.Cache.State.{is_revalidation_due}
use svm_go.Prelude.{
  ◌≤◌, ◌↔◌, pos, negsuc, ◌⊎◌, append_assoc, append-nil, take-[], ℕ, suc, ◌+◌, ◌-◌, ◌≡◌, refl, sym,
  ◌∙◌, Bool, true, false, Option, none, some, List, [], ◌∷◌, ◌++◌, Str, is_empty, length,
  length-append, take, ltb, arith, if◌then◌else◌, Bool-cases, inl, inr, All,
}
use svm_go.Cache.Clock.{Time, Duration}
use svm_go.Cache.Policy.{Policy}
use svm_go.Version.Queue.{RefreshQueue, enqueue}
use svm_go.Version.Scheduler.{enqueue_all, due_record, select_due, sweep_keys}
use svm_go.Version.Store.{CacheStore, Contract, Lookup}

-- The room in a queue: none in a closed one.
abbrev pub room : RefreshQueue → ℕ
room q = if q.closed then 0 else q.size - length q.keys

-- A list of keys none of which is empty.
abbrev pub IsNamed : List Str → Type 0
IsNamed keys = All (λ key. is_empty key ≡ false) keys

enqueue-room :
    (key : Str) (q : RefreshQueue)
    → is_empty key ≡ false
    → enqueue key q
      ≡ (if ltb 0 (room q) then (true, record q { keys = q.keys ++ key ∷ [] }) else (false, q))
unfolding enqueue
enqueue-room key q named = ground arith

-- At least the interval has gone by since the check.
abbrev pub IsStale : Time → Time → Duration → Type 0
IsStale last_checked_at now (pos d) = last_checked_at + d ≤ now
IsStale last_checked_at now (negsuc d) = last_checked_at ≤ now + d + 1

is_revalidation_due-IsStale :
    (last_checked_at now : Time) (interval : Duration)
    → (is_revalidation_due last_checked_at now interval ≡ true)
      ↔ IsStale last_checked_at now interval
unfolding is_revalidation_due
is_revalidation_due-IsStale last_checked_at now (pos d) = ground arith
is_revalidation_due-IsStale last_checked_at now (negsuc d) = ground arith

-- The second list is what is left of the first without the elements that have not the property.
pub data Picks (P : Str → Type 0) : List Str → List Str → Type 0 where
  nothing : Picks P [] []
  picked : {k : Str} {keys due : List Str} → P k → Picks P keys due → Picks P (k ∷ keys) (k ∷ due)
  passed : {k : Str} {keys due : List Str} → (P k → ⊥) → Picks P keys due → Picks P (k ∷ keys) due

module _ (store : CacheStore) where
  -- A key that is not empty, whose record the cache gives without an error, and it is stale.
  pub record IsDueKey (now : Time) (interval : Duration) (st : store.State) (key : Str)
      : Type 0 where
    pub named : is_empty key ≡ false
    pub given : (store.get key st).0.failed ≡ false
    pub cached : Record
    pub found : (store.get key st).0.found ≡ some cached
    pub stale : IsStale cached.last_checked_at now interval

  -- Which keys are due in one state of the cache.
  abbrev due_in : Time → Duration → store.State → List Str → List Str
  due_in now interval st [] = []
  due_in now interval st (key ∷ keys) =
      let rest = due_in now interval st keys in
      if is_empty key then rest else elim (due_record store now interval (store.get key st).0) [
        | none ↦ rest
        | some is_due ↦ if is_due then key ∷ rest else rest
      ]

  due_record_inv :
      (now : Time) (interval : Duration) (lk : Lookup)
      → due_record store now interval lk ≡ some true
      → (lk.failed ≡ false)
        × (r : Record) × (lk.found ≡ some r)
        × (is_revalidation_due r.last_checked_at now interval ≡ true)
  unfolding due_record
  due_record_inv now interval lk h = ground arith

  due_record-found :
      (now : Time) (interval : Duration) (lk : Lookup) (r : Record)
      → lk.failed ≡ false
      → lk.found ≡ some r
      → is_revalidation_due r.last_checked_at now interval ≡ true
      → due_record store now interval lk ≡ some true
  unfolding due_record
  due_record-found now interval lk r h h' h'' = ground arith

  due_record-IsDueKey :
      (now : Time) (interval : Duration) (st : store.State) (key : Str)
      → IsDueKey now interval st key
      → due_record store now interval (store.get key st).0 ≡ some true
  due_record-IsDueKey now interval st key d =
      due_record-found now interval (store.get key st).0 d.cached d.given d.found
        ((is_revalidation_due-IsStale d.cached.last_checked_at now interval).1 d.stale)

  IsDueKey-due_record :
      (now : Time) (interval : Duration) (st : store.State) (key : Str)
      → is_empty key ≡ false
      → due_record store now interval (store.get key st).0 ≡ some true
      → IsDueKey now interval st key
  IsDueKey-due_record now interval st key named e =
      let (given, r, found, due) = due_record_inv now interval (store.get key st).0 e in
      record {
        named = named;
        given = given;
        cached = r;
        found = found;
        stale = (is_revalidation_due-IsStale r.last_checked_at now interval).0 due;
      }

  due_in-Picks :
      (now : Time) (interval : Duration) (st : store.State) (keys : List Str)
      → Picks (IsDueKey now interval st) keys (due_in now interval st keys)
  due_in-Picks now interval st [] = nothing
  due_in-Picks now interval st (key ∷ keys) =
      go (Bool-cases (is_empty key)) (due_record store now interval (store.get key st).0) refl
        (due_in-Picks now interval st keys)
    where
      go :
          ((is_empty key ≡ true) ⊎ (is_empty key ≡ false))
          → (o : Option Bool) → due_record store now interval (store.get key st).0 ≡ o
          → Picks (IsDueKey now interval st) keys (due_in now interval st keys)
          → Picks (IsDueKey now interval st) (key ∷ keys) (due_in now interval st (key ∷ keys))
      go (inl empty) o e rest = rw empty (passed (λ d. absurd (cc (empty, d.named))) rest)
      go (inr named) none e rest =
          rw (named, e)
            (passed (λ d. absurd (cc (e, due_record-IsDueKey now interval st key d))) rest)
      go (inr named) (some true) e rest =
          rw (named, e) (picked (IsDueKey-due_record now interval st key named e) rest)
      go (inr named) (some false) e rest =
          rw (named, e)
            (passed (λ d. absurd (cc (e, due_record-IsDueKey now interval st key d))) rest)

  -- The two states give the same records.
  abbrev Agree : store.State → store.State → Type 0
  Agree t st = (j : Str) → (store.get j t).0 ≡ (store.get j st).0

  select_due-due_in :
      (contract : Contract store) (now : Time) (interval : Duration) (keys : List Str)
      (st t : store.State)
      → contract.IsValid t
      → Agree t st
      → (select_due store now interval keys t).0.0 ≡ due_in now interval st keys
  unfolding select_due
  select_due-due_in contract now interval [] st t v a = refl
  select_due-due_in contract now interval (key ∷ keys) st t v a =
      let after : Agree (store.get key t).1 st = λ j. contract.get_get key j t v ∙ a j in
      ground (
        arith,
        a key,
        select_due-due_in contract now interval keys st t v a,
        select_due-due_in contract now interval keys st (store.get key t).1
            (contract.get_valid key t v) after,
      )

  due_in-IsNamed :
      (now : Time) (interval : Duration) (st : store.State) (keys : List Str)
      → IsNamed (due_in now interval st keys)
  due_in-IsNamed now interval st [] = tt
  due_in-IsNamed now interval st (key ∷ keys) =
      go (Bool-cases (is_empty key)) (due_record store now interval (store.get key st).0) refl
        (due_in-IsNamed now interval st keys)
    where
      go :
          ((is_empty key ≡ true) ⊎ (is_empty key ≡ false))
          → (o : Option Bool) → due_record store now interval (store.get key st).0 ≡ o
          → IsNamed (due_in now interval st keys)
          → IsNamed (due_in now interval st (key ∷ keys))
      go (inl empty) o e rest = rw empty rest
      go (inr named) none e rest = rw (named, e) rest
      go (inr named) (some true) e rest = rw (named, e) (named, rest)
      go (inr named) (some false) e rest = rw (named, e) rest

enqueue_all-room :
    (keys : List Str) (q : RefreshQueue)
    → IsNamed keys
    → ((enqueue_all keys q).0.0 ≡ length (take (room q) keys))
      × ((enqueue_all keys q).0.0 + (enqueue_all keys q).0.1 ≡ length keys)
      × ((enqueue_all keys q).1.keys ≡ q.keys ++ take (room q) keys)
unfolding enqueue_all
enqueue_all-room [] q n = rw take-[] (refl, refl, sym (append-nil q.keys))
enqueue_all-room (key ∷ keys) q n = elim (Bool-cases (ltb 0 (room q))) [
  | inl free ↦
      let q' : RefreshQueue = record q { keys = q.keys ++ key ∷ [] } in
      let taken : enqueue key q ≡ (true, q') = enqueue-room key q n.0 ∙ rw free refl in
      let one : room q ≡ suc (room q') = ground (arith, free, length-append q.keys (key ∷ [])) in
      let (a, b, c) = enqueue_all-room keys q' n.1 in
      rw (taken, one)
        (
          omega (arith, a),
          omega (arith, b),
          c ∙ append_assoc q.keys (key ∷ []) (take (room q') keys),
        )
  | inr full ↦
      let dropped : enqueue key q ≡ (false, q) = enqueue-room key q n.0 ∙ rw full refl in
      let none_left : room q ≡ 0 = ground (arith, full) in
      let (a, b, c) = enqueue_all-room keys q n.1 in
      rw (dropped, none_left) (a ∙ rw none_left refl, omega (arith, b), c ∙ rw none_left refl)
]

module _ (store : CacheStore) where
  -- Over a store that keeps its promise, a sweep of keys queues a first part of the due keys, as many
  -- as there is room for and none where the queue is closed, in the order of the active keys and
  -- behind what waits, and it counts every due key once, as queued or as dropped. The due keys are
  -- those of the keys for which the cache held, before the sweep, a record that was last checked at
  -- least an interval ago: the sweep's own reads change none of them.
  pub sweep_keys-Picks :
      (contract : Contract store) (policy : Policy) (now : Time) (keys : List Str)
      (st : store.State) (q : RefreshQueue)
      → contract.IsValid st
      → let (result, _, q') = sweep_keys store policy now keys st q in
        (due : List Str) × Picks (IsDueKey store now policy.revalidate_interval st) keys due
        × (result.due_keys ≡ length due)
        × (result.enqueued + result.dropped ≡ result.due_keys)
        × (result.enqueued ≡ length (take (room q) due))
        × (q'.keys ≡ q.keys ++ take (room q) due)
  unfolding sweep_keys
  sweep_keys-Picks contract policy now keys st q v =
      let same =
        select_due-due_in store contract now policy.revalidate_interval keys st st v (λ j. refl) in
      let (a, b, c) =
        enqueue_all-room (due_in store now policy.revalidate_interval st keys) q
          (due_in-IsNamed store now policy.revalidate_interval st keys) in
      rw same (
        due_in store now policy.revalidate_interval st keys,
        due_in-Picks store now policy.revalidate_interval st keys,
        refl,
        b,
        a,
        c,
      )
