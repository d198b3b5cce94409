-- ===== src/Version/Groups/Background.antt =====
-- At most one refresh runs for a key: `backgroundRefreshGroup` of internal/service/version/service.go.
use svm_go.Prelude.{
  ℕ, ◌+◌, ◌≤◌, ◌≡◌, ◌==◌, refl, true, false, none, some, List, [], ◌∷◌, ◌++◌, Str, is_empty, lookup,
  lookup-insert, lookup-delete, str_eq, str_eq_iff, arith, if◌then◌else◌, Option-cases, inl, inr,
}
use svm_go.Version.Groups.{BackgroundRefreshGroup, new_background_refresh_group, start, done, admit}

-- The group, and the keys whose `fn` runs.
pub record Running : Type 0 where
  pub group : BackgroundRefreshGroup
  pub running : List Str

-- How often a key stands in a list.
abbrev pub occurrences : Str → List Str → ℕ
occurrences key [] = 0
occurrences key (j ∷ l) = let rest = occurrences key l in if str_eq j key then rest + 1 else rest

-- A call of `Do` or `DoSync` is let in or refused, or a run ends.
pub data Step : Running → Running → Type 0 where
  admitted :
      (key : Str) (s : Running)
      → (admit key s.group).0 ≡ true
      → Step s (record { group = (admit key s.group).1; running = key ∷ s.running })
  refused :
      (key : Str) (s : Running)
      → (admit key s.group).0 ≡ false
      → Step s (record s { group = (admit key s.group).1 })
  ended :
      (key : Str) (before after : List Str) (g : BackgroundRefreshGroup)
      → Step
          (record { group = g; running = before ++ key ∷ after })
          (record { group = done key g; running = before ++ after })

pub data Reachable : Running → Type 0 where
  initial : Reachable (record { group = new_background_refresh_group; running = [] })
  next : {s s' : Running} → Reachable s → Step s s' → Reachable s'

abbrev in_flight_count : Str → BackgroundRefreshGroup → ℕ
in_flight_count key g = elim (lookup key g.in_flight) [ none ↦ 0 | some _ ↦ 1 ]

-- The keys in flight are those that run, each once.
abbrev Exact : Running → Type 0
Exact s = (key : Str) → occurrences key s.running ≡ in_flight_count key s.group

occurrences-append :
    (key : Str) (xs ys : List Str)
    → occurrences key (xs ++ ys) ≡ occurrences key xs + occurrences key ys
occurrences-append key [] ys = omega arith
occurrences-append key (x ∷ xs) ys = ground (arith, occurrences-append key xs ys)

Exact-admitted :
    (key : Str) (s : Running)
    → Exact s
    → (admit key s.group).0 ≡ true
    → Exact (record { group = (admit key s.group).1; running = key ∷ s.running })
unfolding admit start
Exact-admitted key s e h =
    λ j. ground (arith, e j, e key, lookup-insert key j tt s.group.in_flight, str_eq_iff key j)

Exact-refused :
    (key : Str) (s : Running)
    → Exact s
    → (admit key s.group).0 ≡ false
    → Exact (record s { group = (admit key s.group).1 })
unfolding admit start
Exact-refused key s e h = λ j. ground (arith, e j)

Exact-ended :
    (key : Str) (before after : List Str) (g : BackgroundRefreshGroup)
    → Exact (record { group = g; running = before ++ key ∷ after })
    → Exact (record { group = done key g; running = before ++ after })
unfolding done
Exact-ended key before after g e = λ j. ground (
  arith,
  e j,
  lookup-delete key j g.in_flight,
  str_eq_iff key j,
  occurrences-append j before (key ∷ after),
  occurrences-append j before after,
)

Reachable-Exact : (s : Running) → Reachable s → Exact s
Reachable-Exact _ initial = λ key. unfold lookup in refl
Reachable-Exact _ (next r (admitted key s h)) = Exact-admitted key s (Reachable-Exact s r) h
Reachable-Exact _ (next r (refused key s h)) = Exact-refused key s (Reachable-Exact s r) h
Reachable-Exact _ (next r (ended key before after g)) =
    Exact-ended key before after g
      (Reachable-Exact (record { group = g; running = before ++ key ∷ after }) r)

-- However calls and ends of runs follow each other, at most one run of a key is going on; and a call
-- for a key that is not empty is let in exactly when none is.
pub Reachable-admit :
    (s : Running) (key : Str)
    → Reachable s
    → is_empty key ≡ false
    → (occurrences key s.running ≤ 1) × ((admit key s.group).0 ≡ (occurrences key s.running == 0))
unfolding admit start
Reachable-admit s key r named =
    let exact : occurrences key s.running ≡ in_flight_count key s.group = Reachable-Exact s r key in
    elim (Option-cases (lookup key s.group.in_flight)) [
      | inl absent ↦ (ground arith, ground arith)
      | inr (_, present) ↦ (ground arith, ground arith)
    ]

-- And no key at all has two runs.
pub Reachable-once : (s : Running) (key : Str) → Reachable s → occurrences key s.running ≤ 1
Reachable-once s key r =
    let exact : occurrences key s.running ≡ in_flight_count key s.group = Reachable-Exact s r key in
    elim (Option-cases (lookup key s.group.in_flight)) [
      | inl absent ↦ ground arith
      | inr (_, present) ↦ ground arith
    ]
