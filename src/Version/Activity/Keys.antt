-- ===== src/Version/Activity/Keys.antt =====
-- Which keys `ActiveKeysSince` of internal/service/version/activity_tracker.go lists, and what
-- recording and pruning do to them.
use svm_go.Prelude.{
  ℕ, ◌+◌, ◌≤◌, ◌≡◌, ◌⊎◌, ◌↔◌, ◌∙◌, refl, ap, Bool, true, false, Option, none, some, List, [], ◌∷◌,
  Str, Assoc, map, arith, if◌then◌else◌, Bool-cases, Option-cases, inl, inr, Member, lookup, insert,
  Distinct, Distinct-insert, lookup-insert, str_eq, str_eq_iff, str_eq_refl, is_empty, ℤ, pos, ltb,
}
use svm_go.Cache.Clock.{Time, before}
use svm_go.Version.Activity.{
  ActivityTracker, hit_time, record_activity, active_since, sort_active, limited, active_keys_since,
  collect_keys, prune_active_keys_before,
}
use svm_go.Version.Activity.Order.{
  IsOldestFirst, sort_active-IsOldestFirst, Member-sort_active, Member-active_since,
}

lookup-active_since-none :
    (since : Time) (key : Str) (m : Assoc Time)
    → lookup key m ≡ none
    → lookup key (active_since since m) ≡ none
unfolding active_since lookup
lookup-active_since-none since key [] h = refl
lookup-active_since-none since key ((j, t) ∷ m) h =
    ground (arith, lookup-active_since-none since key m)

active_since-Distinct :
    (since : Time) (m : Assoc Time) → Distinct m → Distinct (active_since since m)
unfolding active_since
active_since-Distinct since [] d = tt
active_since-Distinct since ((k, t) ∷ m) d = elim (Bool-cases (before t since)) [
  | inl old ↦ rw old (active_since-Distinct since m d.1)
  | inr kept ↦ rw kept (lookup-active_since-none since k m d.0, active_since-Distinct since m d.1)
]

Member-lookup-none :
    (key : Str) (t : Time) (m : Assoc Time) → lookup key m ≡ none → Member (key, t) m → ⊥
unfolding lookup
Member-lookup-none key t [] h i = i
Member-lookup-none key t ((j, s) ∷ m) h i =
    ground (arith, str_eq_iff j key, Member-lookup-none key t m)

Member-lookup :
    (key : Str) (t : Time) (m : Assoc Time)
    → Distinct m
    → Member (key, t) m ↔ (lookup key m ≡ some t)
unfolding lookup
Member-lookup key t [] d = ground arith
Member-lookup key t ((j, s) ∷ m) d =
    ground (arith, str_eq_iff j key, Member-lookup key t m d.1, d.0, Member-lookup-none key t m)

-- A context that is never done.
abbrev pub never : ℕ → Bool
never i = false

collect_keys-never : (i : ℕ) (l : Assoc Time) → collect_keys never i l ≡ some (map (λ x. x.0) l)
unfolding collect_keys
collect_keys-never i [] = refl
collect_keys-never i (x ∷ l) = ground (arith, collect_keys-never (i + 1) l)

-- What a listing without a limit is: the keys of entries in their order.
pub record Lists (since : Time) (t : ActivityTracker) (keys : Option (List Str)) : Type 0 where
  pub entries : Assoc Time
  pub listed : keys ≡ some (map (λ x. x.0) entries)
  pub sorted : IsOldestFirst entries
  pub exact :
      (key : Str) (hit_at : Time)
      → Member (key, hit_at) entries ↔ ((lookup key t.last_hits ≡ some hit_at) × (since ≤ hit_at))

-- While the context is not done, a listing without a limit gives the keys of exactly the entries that
-- were used at or after the given time, from the oldest use to the latest, and in the order of the
-- keys where the times are equal.
pub active_keys_since-Lists :
    (since : Time) (t : ActivityTracker)
    → Distinct t.last_hits
    → Lists since t (active_keys_since never since (pos 0) t)
unfolding active_keys_since
active_keys_since-Lists since t d = record {
  entries = sort_active (active_since since t.last_hits);
  listed = collect_keys-never 0 (sort_active (active_since since t.last_hits));
  sorted = sort_active-IsOldestFirst (active_since since t.last_hits);
  exact = λ key hit_at. ground (
    arith,
    Member-sort_active (key, hit_at) (active_since since t.last_hits),
    Member-active_since since key hit_at t.last_hits,
    Member-lookup key hit_at t.last_hits d,
  );
}

-- The later of two uses, where the first may be missing.
abbrev pub later_of : Option Time → Time → Time
later_of none t = t
later_of (some s) t = if ltb s t then t else s

-- A use of a key that is not empty leaves the latest use of the key that the tracker has been told,
-- and those of the other keys as they were; and no key stands twice.
pub record_activity-later_of :
    (now : Time) (key : Str) (hit_at : Time) (t : ActivityTracker)
    → is_empty key ≡ false
    → Distinct t.last_hits
    → let t' = (record_activity now key hit_at t).1 in
      (lookup key t'.last_hits ≡ some (later_of (lookup key t.last_hits) (hit_time now hit_at)))
      × ((j : Str) → (str_eq key j ≡ true) ⊎ (lookup j t'.last_hits ≡ lookup j t.last_hits))
      × Distinct t'.last_hits
unfolding record_activity
record_activity-later_of now key hit_at t named d = elim (Option-cases (lookup key t.last_hits)) [
  | inl absent ↦ rw (named, absent) (there, others, distinct)
  | inr (previous, found) ↦ elim (Bool-cases (ltb previous at)) [
    | inl newer ↦ rw (named, found, newer) (there, others, distinct)
    | inr older ↦ rw (named, found, older) (found, λ j. inr refl, d)
  ]
]
  where
    at : Time
    at = hit_time now hit_at

    there : lookup key (insert key at t.last_hits) ≡ some at
    there = lookup-insert key key at t.last_hits ∙ rw (str_eq_refl key) refl

    others :
        (j : Str)
        → (str_eq key j ≡ true) ⊎ (lookup j (insert key at t.last_hits) ≡ lookup j t.last_hits)
    others j = elim (Bool-cases (str_eq key j)) [
      | inl same ↦ inl same
      | inr ne ↦ inr (lookup-insert key j at t.last_hits ∙ rw ne refl)
    ]

    distinct : Distinct (insert key at t.last_hits)
    distinct = Distinct-insert key at t.last_hits d

active_since-active_since :
    (since cutoff : Time) (m : Assoc Time)
    → cutoff ≤ since
    → active_since since (active_since cutoff m) ≡ active_since since m
unfolding active_since
active_since-active_since since cutoff [] h = refl
active_since-active_since since cutoff ((k, t) ∷ m) h =
    ground (arith, active_since-active_since since cutoff m)

-- Pruning is not seen: a listing since the cutoff or a later time is the same before and after it, with
-- any limit and any context.
pub active_keys_since-prune_active_keys_before :
    (done : ℕ → Bool) (since cutoff : Time) (limit : ℤ) (t : ActivityTracker)
    → cutoff ≤ since
    → active_keys_since done since limit (prune_active_keys_before cutoff t)
      ≡ active_keys_since done since limit t
unfolding active_keys_since prune_active_keys_before
active_keys_since-prune_active_keys_before done since cutoff limit t h =
    ap (λ m. collect_keys done 0 (limited limit (sort_active m)))
      (active_since-active_since since cutoff t.last_hits h)
