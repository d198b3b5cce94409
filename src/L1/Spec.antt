-- ===== src/L1/Spec.antt =====
-- The abstract cache: records under their keys, most recently used first, kept within a budget.
use svm_go.Prelude.{
  ℕ, ◌+◌, ◌-◌, ◌≤◌, ◌<◌, ◌≡◌, refl, Option, none, some, List, [], ◌∷◌, ◌++◌, arith, Str, str_eq,
  leb, if◌then◌else◌,
}
use svm_go.Cache.{Record}
use svm_go.L1.{estimate_entry_usage}

-- The bytes that are accounted for a list of records.
unfoldable pub weigh : List (Str × Record) → ℕ
weigh [] = 0
weigh ((k, r) ∷ l) = estimate_entry_usage k r + weigh l

-- The longest prefix within a budget.
unfoldable pub trim : ℕ → List (Str × Record) → List (Str × Record)
trim budget [] = []
trim budget ((k, r) ∷ l) =
    let rest = trim (budget - estimate_entry_usage k r) l in
    if leb (estimate_entry_usage k r) budget then (k, r) ∷ rest else []

unfoldable pub find : Str → List (Str × Record) → Option Record
find k [] = none
find k ((j, r) ∷ l) = let rest = find k l in if str_eq j k then some r else rest

pub weigh-trim-le : (budget : ℕ) (l : List (Str × Record)) → weigh (trim budget l) ≤ budget
unfolding weigh trim
weigh-trim-le budget [] = omega arith
weigh-trim-le budget ((k, r) ∷ l) =
    ground (arith, weigh-trim-le (budget - estimate_entry_usage k r) l)

pub trim_fits : (budget : ℕ) (l : List (Str × Record)) → weigh l ≤ budget → trim budget l ≡ l
unfolding weigh trim
trim_fits budget [] h = refl
trim_fits budget ((k, r) ∷ l) h = ground (arith, trim_fits (budget - estimate_entry_usage k r) l)

-- What does not fit loses its last record first.
pub trim_over :
    (budget : ℕ) (l : List (Str × Record)) (x : Str × Record)
    → budget < weigh (l ++ x ∷ [])
    → trim budget (l ++ x ∷ []) ≡ trim budget l
unfolding weigh trim
trim_over budget [] (k, r) h = ground arith
trim_over budget ((k, r) ∷ l) x h =
    ground (arith, trim_over (budget - estimate_entry_usage k r) l x)

pub weigh-append :
    (l : List (Str × Record)) (k : Str) (r : Record)
    → weigh (l ++ (k, r) ∷ []) ≡ weigh l + estimate_entry_usage k r
unfolding weigh
weigh-append [] k r = omega arith
weigh-append ((j, q) ∷ l) k r = omega (arith, weigh-append l k r)
