-- ===== src/Version/Activity.antt =====
-- internal/service/version/activity_tracker.go: when each cache key was last used.
pub mod Order
pub mod Keys
use svm_go.Prelude.{
  ℕ, zero, suc, ◌+◌, Bool, true, false, not, Option, none, some, List, [], ◌∷◌, Str, Assoc, ℤ, pos,
  negsuc, is_empty, lookup, insert, length, take, ltb, ◌==◌, str_lt, if◌then◌else◌,
}
use svm_go.Cache.Clock.{Time, is_zero, before, after}

pub record ActivityTracker : Type 0 where
  pub last_hits : Assoc Time

abbrev pub new_activity_tracker : ActivityTracker
new_activity_tracker = record { last_hits = [] }

-- The time that a call records: `now` is the clock, which is read for the zero time.
abbrev pub hit_time : Time → Time → Time
hit_time now hit_at = if is_zero hit_at then now else hit_at

unfoldable pub record_activity : Time → Str → Time → ActivityTracker → Bool × ActivityTracker
record_activity now key hit_at t =
    if is_empty key then (false, t) else elim (lookup key t.last_hits) [
      | none ↦ (true, record t { last_hits = insert key (hit_time now hit_at) t.last_hits })
      | some previous ↦
          if after (hit_time now hit_at) previous
          then (true, record t { last_hits = insert key (hit_time now hit_at) t.last_hits })
          else (true, t)
    ]

-- The entries that were used at or after a time.
unfoldable pub active_since : Time → Assoc Time → Assoc Time
active_since since [] = []
active_since since ((key, hit_at) ∷ m) =
    let rest = active_since since m in
    if not (before hit_at since) then (key, hit_at) ∷ rest else rest

-- The order of `sort.Slice`: the time, and the key where the times are equal.
unfoldable pub sorts_before : Str × Time → Str × Time → Bool
sorts_before (k, t) (j, s) = if t == s then str_lt k j else before t s

unfoldable pub insert_active : Str × Time → Assoc Time → Assoc Time
unfolding sorts_before
insert_active x [] = x ∷ []
insert_active x (y ∷ l) =
    let rest = insert_active x l in if sorts_before y x then y ∷ rest else x ∷ y ∷ l

unfoldable pub sort_active : Assoc Time → Assoc Time
unfolding insert_active
sort_active [] = []
sort_active (x ∷ l) = insert_active x (sort_active l)

-- `if limit > 0 && len(active) > limit`
abbrev pub limited : ℤ → Assoc Time → Assoc Time
limited (pos zero) l = l
limited (pos (suc n)) l = if ltb (suc n) (length l) then take (suc n) l else l
limited (negsuc n) l = l

-- The keys, or none where the context is done before the i-th of them.
unfoldable pub collect_keys : (ℕ → Bool) → ℕ → Assoc Time → Option (List Str)
collect_keys done i [] = some []
collect_keys done i ((key, _) ∷ l) =
    let rest = collect_keys done (i + 1) l in
    if done i then none else elim rest [ none ↦ none | some keys ↦ some (key ∷ keys) ]

unfoldable pub active_keys_since : (ℕ → Bool) → Time → ℤ → ActivityTracker → Option (List Str)
unfolding active_since sort_active collect_keys
active_keys_since done since limit t =
    collect_keys done 0 (limited limit (sort_active (active_since since t.last_hits)))

-- An entry is deleted if it was last used before the cutoff, so the others stay.
unfoldable pub prune_active_keys_before : Time → ActivityTracker → ActivityTracker
unfolding active_since
prune_active_keys_before cutoff t = record t { last_hits = active_since cutoff t.last_hits }
