-- ===== src/L1/Runs.antt =====
-- Any sequence of calls of the cache (internal/cache/l1/cache.go) against the list of records that
-- it stands for.
use svm_go.Prelude.{
  ℕ, ◌≤◌, ◌≡◌, ◌∙◌, refl, ap, Option, none, List, [], ◌∷◌, arith, Str, ℤ, pos, negsuc, zero, suc,
  is_empty, lookup, if◌then◌else◌, Bool-cases, inl, inr,
}
use svm_go.Cache.{Record}
use svm_go.L1.{Cache, clone_record, get, get_readonly, set, new_cache_with_max_bytes}
use svm_go.L1.Linked.{view}
use svm_go.L1.Spec.{weigh, find}
use svm_go.L1.Valid.{IsValid, contents}
use svm_go.L1.Refines.{touch, put, get-Reads, set-Writes}

pub data Call : Type 0 where
  get_call get_readonly_call : Str → Call
  set_call : Str → Record → Call

-- A call with its answer; `Set` has none.
unfoldable pub call : Call → Cache → Option Record × Cache
call (get_call k) c = get k c
call (get_readonly_call k) c = get_readonly k c
call (set_call k r) c = (none, set k r c)

unfoldable pub run : List Call → Cache → List (Option Record) × Cache
run [] c = ([], c)
run (x ∷ xs) c = let (o, c') = call x c in let (os, c'') = run xs c' in (o ∷ os, c'')

-- The same on the list of records, most recently used first. The empty key is never stored.
unfoldable pub spec_call : ℕ → Call → List (Str × Record) → Option Record × List (Str × Record)
spec_call budget (get_call k) l = if is_empty k then (none, l) else (find k l, touch k l)
spec_call budget (get_readonly_call k) l = if is_empty k then (none, l) else (find k l, touch k l)
spec_call budget (set_call k r) l = (none, put budget k r l)

unfoldable pub spec_run :
    ℕ → List Call → List (Str × Record) → List (Option Record) × List (Str × Record)
spec_run budget [] l = ([], l)
spec_run budget (x ∷ xs) l =
    let (o, l') = spec_call budget x l in let (os, l'') = spec_run budget xs l' in (o ∷ os, l'')

-- A cache that stands for a list of records within a budget.
pub record Stands (budget : ℕ) (c : Cache) (l : List (Str × Record)) : Type 0 where
  pub valid : IsValid c
  pub shown : contents c ≡ l
  pub limit : c.max_usage_bytes ≡ budget
  pub within : c.usage_bytes ≤ budget

pub get_readonly-get : (k : Str) (c : Cache) → get_readonly k c ≡ get k c
unfolding get get_readonly clone_record
get_readonly-get k c = ground arith

call-get :
    (budget : ℕ) (k : Str) (c : Cache) (l : List (Str × Record))
    → Stands budget c l
    → ((get k c).0 ≡ (spec_call budget (get_call k) l).0)
      × Stands budget (get k c).1 (spec_call budget (get_call k) l).1
unfolding spec_call
call-get budget k c l s = elim (Bool-cases (is_empty k)) [
  | inl empty ↦ rw empty (unfold get in rw empty (refl, s))
  | inr ne ↦
      let g = get-Reads k c s.valid ne in
      rw ne (
        g.found ∙ ap (find k) s.shown,
        record {
          valid = g.valid;
          shown = g.shown ∙ ap (touch k) s.shown;
          limit = g.budget ∙ s.limit;
          within = rw g.usage s.within;
        },
      )
]

call-set :
    (budget : ℕ) (k : Str) (r : Record) (c : Cache) (l : List (Str × Record))
    → Stands budget c l
    → Stands budget (set k r c) (put budget k r l)
call-set budget k r c l s =
    let w = set-Writes k r c s.valid in
    let shown : contents (set k r c) ≡ put budget k r l =
      w.shown ∙ ap (λ b. put b k r (contents c)) s.limit ∙ ap (put budget k r) s.shown in
    record {
      valid = w.valid;
      shown = shown;
      limit = w.budget ∙ s.limit;
      within =
          let fits = w.within (omega (arith, s.within, s.limit)) in
          omega (arith, fits, w.budget, s.limit);
    }

pub call-Stands :
    (budget : ℕ) (x : Call) (c : Cache) (l : List (Str × Record))
    → Stands budget c l
    → ((call x c).0 ≡ (spec_call budget x l).0)
      × Stands budget (call x c).1 (spec_call budget x l).1
unfolding call spec_call
call-Stands budget (get_call k) c l s = unfold spec_call in call-get budget k c l s
call-Stands budget (get_readonly_call k) c l s = rw get_readonly-get (call-get budget k c l s)
call-Stands budget (set_call k r) c l s = (refl, call-set budget k r c l s)

run-Stands :
    (budget : ℕ) (xs : List Call) (c : Cache) (l : List (Str × Record))
    → Stands budget c l
    → ((run xs c).0 ≡ (spec_run budget xs l).0)
      × Stands budget (run xs c).1 (spec_run budget xs l).1
unfolding run spec_run
run-Stands budget [] c l s = (refl, s)
run-Stands budget (x ∷ xs) c l s =
    let (same, s') = call-Stands budget x c l s in
    let (rest, s'') = run-Stands budget xs (call x c).1 (spec_call budget x l).1 s' in
    (cc (same, rest), s'')

-- The budget that the constructor sets: what it is given, or 1 GiB where that is not positive.
unfoldable pub budget_of : ℤ → ℕ
budget_of (pos zero) = 1073741824
budget_of (pos (suc n)) = suc n
budget_of (negsuc n) = 1073741824

max-new : (n : ℤ) → (new_cache_with_max_bytes n).max_usage_bytes ≡ budget_of n
unfolding new_cache_with_max_bytes budget_of
max-new (pos zero) = refl
max-new (pos (suc n)) = refl
max-new (negsuc n) = refl

pub new-Stands : (n : ℤ) → Stands (budget_of n) (new_cache_with_max_bytes n) []
unfolding new_cache_with_max_bytes budget_of view weigh lookup
new-Stands n = record {
  valid = record { linked = refl; distinct = tt; fresh = λ k e h. absurd (cc h); counted = refl };
  shown = refl;
  limit = max-new n;
  within = omega arith;
}

-- Whatever the calls, a cache answers each as the list of records does, and never accounts more
-- than its budget.
pub run-refines-spec_run :
    (n : ℤ) (xs : List Call)
    → ((run xs (new_cache_with_max_bytes n)).0 ≡ (spec_run (budget_of n) xs []).0)
      × Stands
          (budget_of n)
          (run xs (new_cache_with_max_bytes n)).1
          (spec_run (budget_of n) xs []).1
run-refines-spec_run n xs =
    run-Stands (budget_of n) xs (new_cache_with_max_bytes n) [] (new-Stands n)
