-- ===== src/Tests/Caches.antt =====
-- Runs of internal/cache/l1/cache.go.
use svm_go.Prelude.{
  ◌≡◌, refl, none, some, List, [], ◌∷◌, codes, pos, arith, str_eq, lookup, delete, insert,
}
use svm_go.Cache.{Record}
use svm_go.L1.Ends.{Stops, evict_to_budget-Stops}
use svm_go.L1.{evict_to_budget, evict_loop}
use svm_go.L1
use svm_go.L1.{Cache, get, set, new_cache_with_max_bytes, len, estimate_entry_usage}
use svm_go.L1.Linked.{view, without}
use svm_go.L1.Spec.{weigh, trim, find}
use svm_go.L1.Valid.{IsValid, contents}
use svm_go.L1.Refines.{touch, put}
use svm_go.L1.Runs.{
  Call, get_call, get_readonly_call, set_call, call, run, spec_call, spec_run, Stands, budget_of,
  run-refines-spec_run,
}
use svm_go.L1.Reads.{get-set_self, set_oversized}

program : Unit {0}
unfolding L1.get L1.get_readonly L1.set L1.new_cache_with_max_bytes L1.len L1.remove_element
    L1.element_value L1.move_to_front L1.back L1.evict_loop L1.evict_to_budget L1.evict_oldest
    L1.replace L1.add_entry L1.estimate_entry_usage L1.clone_record lookup delete insert str_eq call
    run spec_call spec_run touch put view without weigh trim find budget_of
program = tt

abbrev small : Record
small = record {
  payload = codes "{}";
  etag = codes "e";
  url = codes "https://api.github.com/";
  fetched_at = 5;
  last_hit_at = 5;
  last_checked_at = 5;
  expires_at = 10;
  source_status = 200;
}

abbrev big : Record
big = record small { payload = codes "0123456789012345678901234567890123456789" }

-- Two small records fit into 600 bytes, a third one does not.
abbrev calls : List Call
calls =
    set_call (codes "a") small
    ∷ set_call (codes "b") small
    ∷ get_call (codes "a")
    ∷ set_call (codes "c") small
    ∷ get_readonly_call (codes "b")
    ∷ get_call (codes "a")
    ∷ []

abbrev empty : Cache
empty = new_cache_with_max_bytes (pos 600)

-- The least recently used record went.
answers : (run calls empty).0 ≡ none ∷ none ∷ some small ∷ none ∷ none ∷ some small ∷ []
unfolding program
answers = refl

run-refines_example :
    ((run calls empty).0 ≡ (spec_run (budget_of (pos 600)) calls []).0)
    × Stands (budget_of (pos 600)) (run calls empty).1 (spec_run (budget_of (pos 600)) calls []).1
run-refines_example = run-refines-spec_run (pos 600) calls

full-IsValid : IsValid (run calls empty).1
full-IsValid = run-refines_example.1.valid

get-set_self_example : (get (codes "d") (set (codes "d") big (run calls empty).1)).0 ≡ some big
unfolding program
get-set_self_example =
    get-set_self (codes "d") big (run calls empty).1 full-IsValid refl (omega arith)

abbrev tiny : Cache
tiny = (run (set_call (codes "a") small ∷ []) (new_cache_with_max_bytes (pos 290))).1

tiny-IsValid : IsValid tiny
tiny-IsValid = (run-refines-spec_run (pos 290) (set_call (codes "a") small ∷ [])).1.valid

set_oversized_example : contents (set (codes "b") big tiny) ≡ []
unfolding program
set_oversized_example = set_oversized (codes "b") big tiny tiny-IsValid refl (omega arith)

-- Over its budget, with a fuel beyond what is needed.
evict_to_budget-Stops_example :
    Stops (evict_to_budget (record tiny { max_usage_bytes = 10 }))
    × (evict_loop 7 (record tiny { max_usage_bytes = 10 })
        ≡ evict_to_budget (record tiny { max_usage_bytes = 10 }))
unfolding program
evict_to_budget-Stops_example =
    evict_to_budget-Stops (record tiny { max_usage_bytes = 10 }) 7 (omega arith)
