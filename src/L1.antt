-- ===== src/L1.antt =====
-- internal/cache/l1/cache.go: the in-memory cache. `recency` is the linked list of `container/list`,
-- front first: an element is its identity and its value, and an entry holds the identity of its
-- element, as it holds the pointer in the code. `next_element` is the identity of the next element
-- that the list allocates. A nil cache is handled in L1/Store.antt.
pub mod Linked
mod Moves
pub mod Spec
pub mod Valid
pub mod Refines
pub mod Runs
pub mod Reads
pub mod Ends
use svm_go.Prelude.{
  ℕ, zero, suc, ◌+◌, ◌-◌, ◌^◌, Bool, true, false, Option, none, some, List, [], ◌∷◌, ◌++◌, ℤ, pos,
  negsuc, Str, Assoc, is_empty, lookup, delete, insert, length, ltb, ◌==◌, if◌then◌else◌,
}
use svm_go.Cache.{Record}
use svm_go.Cache.Policy.{default_policy}

abbrev pub record_metadata_overhead_bytes : ℕ
record_metadata_overhead_bytes = 256

pub record Entry : Type 0 where
  pub cached_record : Record
  pub size_bytes : ℕ
  pub element : ℕ

pub record Cache : Type 0 where
  pub entries : Assoc Entry
  pub recency : List (ℕ × Str)
  pub next_element : ℕ
  pub usage_bytes : ℕ
  pub max_usage_bytes : ℕ

-- `list.Remove`: the element goes wherever it stands.
unfoldable pub remove_element : ℕ → List (ℕ × Str) → List (ℕ × Str)
remove_element id [] = []
remove_element id ((j, k) ∷ r) =
    let rest = remove_element id r in if j == id then r else (j, k) ∷ rest

-- The value of an element.
unfoldable pub element_value : ℕ → List (ℕ × Str) → Option Str
element_value id [] = none
element_value id ((j, k) ∷ r) = let rest = element_value id r in if j == id then some k else rest

-- `list.MoveToFront`
unfoldable pub move_to_front : ℕ → List (ℕ × Str) → List (ℕ × Str)
move_to_front id r = elim (element_value id r) [ none ↦ r | some k ↦ (id, k) ∷ remove_element id r ]

-- `list.Back`
unfoldable pub back : List (ℕ × Str) → Option (ℕ × Str)
back [] = none
back (x ∷ []) = some x
back (x ∷ y ∷ r) = back (y ∷ r)

unfoldable pub new_cache_with_max_bytes : ℤ → Cache
new_cache_with_max_bytes max_usage_bytes = record {
  entries = [];
  recency = [];
  next_element = 0;
  usage_bytes = 0;
  max_usage_bytes = elim max_usage_bytes [
    | pos zero ↦ 2 ^ 30
    | pos (suc n) ↦ suc n
    | negsuc n ↦ 2 ^ 30
  ];
}

unfoldable pub clone_record : Record → Record
clone_record r = record r { payload = [] ++ r.payload }

unfoldable pub estimate_entry_usage : Str → Record → ℕ
estimate_entry_usage key r =
    length key + length r.payload + length r.etag + length r.url + record_metadata_overhead_bytes

-- A hit moves the element of the entry to the front and returns a copy of the record.
unfoldable pub get : Str → Cache → Option Record × Cache
unfolding clone_record move_to_front
get key c = if is_empty key then (none, c) else elim (lookup key c.entries) [
  | none ↦ (none, c)
  | some stored ↦ (
    some (clone_record stored.cached_record),
    record c { recency = move_to_front stored.element c.recency },
  )
]

-- The same without the copy of the payload.
unfoldable pub get_readonly : Str → Cache → Option Record × Cache
unfolding move_to_front
get_readonly key c = if is_empty key then (none, c) else elim (lookup key c.entries) [
  | none ↦ (none, c)
  | some stored ↦
      (some stored.cached_record, record c { recency = move_to_front stored.element c.recency })
]

-- What one round of the eviction loop does with the oldest element. The subtraction stops at 0, as
-- the code's reset of a negative usage does.
unfoldable pub evict_oldest : ℕ × Str → Cache → Cache
evict_oldest (id, key) c =
    let rest = remove_element id c.recency in
    elim (lookup key c.entries) [
      | none ↦ record c { recency = rest }
      | some existing ↦ record c {
        recency = rest;
        entries = delete key c.entries;
        usage_bytes = c.usage_bytes - existing.size_bytes;
      }
    ]

-- `evictToBudgetLocked`, with fuel.
unfoldable pub evict_loop : ℕ → Cache → Cache
evict_loop zero c = c
evict_loop (suc fuel) c =
    if ltb c.max_usage_bytes c.usage_bytes
    then elim (back c.recency) [ none ↦ c | some oldest ↦ evict_loop fuel (evict_oldest oldest c) ]
    else c

-- Each round removes an element, and one more finds the list empty.
unfoldable pub evict_to_budget : Cache → Cache
evict_to_budget c = evict_loop (suc (length c.recency)) c

-- The branch of `Set` for a key that is in the map.
unfoldable pub replace : Str → Record → Entry → Cache → Cache
unfolding move_to_front
replace key cloned existing c =
    let size = estimate_entry_usage key cloned in
    record c {
      entries =
          insert key (record existing { cached_record = cloned; size_bytes = size }) c.entries;
      usage_bytes = c.usage_bytes + size - existing.size_bytes;
      recency = move_to_front existing.element c.recency;
    }

-- The branch of `Set` for a new key.
unfoldable pub add_entry : Str → Record → Cache → Cache
add_entry key cloned c =
    let size = estimate_entry_usage key cloned in
    record c {
      entries =
          insert key
            (record { cached_record = cloned; size_bytes = size; element = c.next_element })
            c.entries;
      usage_bytes = c.usage_bytes + size;
      recency = (c.next_element, key) ∷ c.recency;
      next_element = c.next_element + 1;
    }

unfoldable pub set : Str → Record → Cache → Cache
set key r c =
    if is_empty key
    then c
    else let cloned = clone_record r in
      elim (lookup key c.entries) [
        | none ↦ evict_to_budget (add_entry key cloned c)
        | some existing ↦ evict_to_budget (replace key cloned existing c)
      ]

unfoldable pub estimated_usage_bytes : Cache → ℕ
estimated_usage_bytes c = c.usage_bytes

unfoldable pub len : Cache → ℕ
len c = length c.entries
