-- ===== src/L1/Valid.antt =====
-- The invariant of the cache (internal/cache/l1/cache.go), and the eviction loop.
use svm_go.Prelude.{
  ℕ, zero, suc, ◌+◌, ◌-◌, ◌≤◌, ◌<◌, ◌≡◌, ◌∙◌, refl, ap, sym, true, false, Option, none, some, List,
  [], ◌∷◌, ◌++◌, arith, Str, Assoc, lookup, delete, Distinct, Distinct-delete, length, ltb, ◌==◌,
  Bool-cases, inl, inr,
}
use svm_go.Cache.{Record}
use svm_go.L1.{
  Entry, Cache, remove_element, element_value, back, estimate_entry_usage, evict_oldest, evict_loop,
  evict_to_budget,
}
use svm_go.L1.Linked.{Linked, view, without, Linked-unlink, view-unlink, lookup-delete_inv}
use svm_go.L1.Moves.{Linked-Holds, element_value-Linked, back-Linked}
use svm_go.L1.Spec.{weigh, trim, trim_fits, trim_over, weigh-append}

abbrev pub contents : Cache → List (Str × Record)
contents c = view c.recency c.entries

pub record IsValid (c : Cache) : Type 0 where
  pub linked : Linked c.recency c.entries
  pub distinct : Distinct c.entries
  pub fresh : (k : Str) (e : Entry) → lookup k c.entries ≡ some e → e.element < c.next_element
  pub counted : c.usage_bytes ≡ weigh (contents c)

length-remove_element :
    (id : ℕ) (r : List (ℕ × Str)) {k : Str}
    → element_value id r ≡ some k
    → length r ≡ length (remove_element id r) + 1
unfolding element_value remove_element
length-remove_element id [] h = absurd (cc h)
length-remove_element id ((j, q) ∷ r) {k} h = elim (Bool-cases (j == id)) [
  | inl same ↦ rw same (omega arith)
  | inr ne ↦ rw ne (omega (arith, length-remove_element id r {k = k} (ground arith)))
]

back-nil : (r : List (ℕ × Str)) → back r ≡ none → r ≡ []
unfolding back
back-nil [] h = refl
back-nil (x ∷ []) h = absurd (cc h)
back-nil (x ∷ y ∷ r) h = cc (back-nil (y ∷ r) h)

weigh-view_nil : (es : Assoc Entry) → weigh (view [] es) ≡ 0
unfolding view weigh
weigh-view_nil es = refl

-- What a round of the eviction loop does to a valid cache.
record Evicted (k : Str) (c c' : Cache) : Type 0 where
  valid : IsValid c'
  shorter : length c.recency ≡ length c'.recency + 1
  last : Record
  shown : contents c ≡ contents c' ++ (k, last) ∷ []
  budget : c'.max_usage_bytes ≡ c.max_usage_bytes

abbrev without_entry : Str → Entry → Cache → Cache
without_entry k e c = record c {
  recency = remove_element e.element c.recency;
  entries = delete k c.entries;
  usage_bytes = c.usage_bytes - e.size_bytes;
}

evict_oldest_found :
    (k : Str) (c : Cache) {e : Entry}
    → lookup k c.entries ≡ some e
    → evict_oldest (e.element, k) c ≡ without_entry k e c
unfolding evict_oldest
evict_oldest_found k c h = ground arith

without_entry-Evicted :
    (k : Str) (c : Cache) (e : Entry) (l : List (Str × Record))
    → IsValid c
    → lookup k c.entries ≡ some e
    → contents c ≡ l ++ (k, e.cached_record) ∷ []
    → without k (contents c) ≡ l
    → Evicted k c (without_entry k e c)
without_entry-Evicted k c e l v found shown gone =
    let after : contents (without_entry k e c) ≡ l =
      view-unlink c.recency c.entries k e v.linked found ∙ gone in
    let held = Linked-Holds c.recency c.entries k e v.linked found in
    let size : e.size_bytes ≡ estimate_entry_usage k e.cached_record =
      ground (arith, held.found, held.sized, found) in
    let total : weigh (contents c) ≡ weigh l + e.size_bytes =
      ap weigh shown ∙ weigh-append l k e.cached_record ∙ omega (arith, size) in
    record {
      valid = record {
        linked = Linked-unlink c.recency c.entries k e v.linked found;
        distinct = Distinct-delete k c.entries v.distinct;
        fresh = λ q f h. v.fresh q f (lookup-delete_inv k q c.entries f h).0;
        counted = rw after (omega (arith, v.counted, total));
      };
      shorter =
          length-remove_element e.element c.recency
            (element_value-Linked c.recency c.entries k e v.linked found);
      last = e.cached_record;
      shown = rw after shown;
      budget = refl;
    }

evict_oldest-Evicted :
    (id : ℕ) (k : Str) (c : Cache)
    → IsValid c
    → back c.recency ≡ some (id, k)
    → Evicted k c (evict_oldest (id, k) c)
evict_oldest-Evicted id k c v b =
    let (e, l, found, element, shown, gone) = back-Linked c.recency c.entries id k v.linked b in
    rw (← element, evict_oldest_found k c found) (without_entry-Evicted k c e l v found shown gone)

-- The cache after the eviction loop.
pub record Trimmed (c c' : Cache) : Type 0 where
  pub valid : IsValid c'
  pub within : c'.usage_bytes ≤ c'.max_usage_bytes
  pub shown : contents c' ≡ trim c.max_usage_bytes (contents c)
  pub budget : c'.max_usage_bytes ≡ c.max_usage_bytes

Trimmed-fits : (c : Cache) → IsValid c → ltb c.max_usage_bytes c.usage_bytes ≡ false → Trimmed c c
Trimmed-fits c v h =
    let fits : c.usage_bytes ≤ c.max_usage_bytes = ground arith in
    record {
      valid = v;
      within = fits;
      shown = sym (trim_fits c.max_usage_bytes (contents c) (omega (arith, v.counted)));
      budget = refl;
    }

Trimmed-step :
    (k : Str) (c d c' : Cache)
    → IsValid c
    → c.max_usage_bytes < c.usage_bytes
    → Evicted k c d
    → Trimmed d c'
    → Trimmed c c'
Trimmed-step k c d c' v over e t = record {
  valid = t.valid;
  within = t.within;
  shown =
      t.shown
      ∙ ap (λ m. trim m (contents d)) e.budget
      ∙ sym (
          trim_over c.max_usage_bytes (contents d) (k, e.last)
            (omega (arith, v.counted, ap weigh e.shown)))
      ∙ ap (trim c.max_usage_bytes) (sym e.shown);
  budget = t.budget ∙ e.budget;
}

-- With fuel for every element the loop ends by its test, and what is left is the longest prefix
-- of the contents that fits the budget.
evict_loop-Trimmed :
    (fuel : ℕ) (c : Cache) → IsValid c → length c.recency < fuel → Trimmed c (evict_loop fuel c)
unfolding evict_loop
evict_loop-Trimmed zero c v h = absurd (omega arith)
evict_loop-Trimmed (suc fuel) c v h = elim (Bool-cases (ltb c.max_usage_bytes c.usage_bytes)) [
  | inr fits ↦ rw fits (Trimmed-fits c v fits)
  | inl over ↦ rw over (go (evict_loop-Trimmed fuel) over (back c.recency) refl)
]
  where
    over_empty : c.max_usage_bytes < c.usage_bytes → c.recency ≡ [] → ⊥
    over_empty over empty =
        omega (arith, v.counted, ap (λ r. weigh (view r c.entries)) empty, weigh-view_nil c.entries)

    go :
        ((d : Cache) → IsValid d → length d.recency < fuel → Trimmed d (evict_loop fuel d))
        → ltb c.max_usage_bytes c.usage_bytes ≡ true
        → (b : Option (ℕ × Str)) → back c.recency ≡ b
        → Trimmed c (elim b [ none ↦ c | some oldest ↦ evict_loop fuel (evict_oldest oldest c) ])
    go rest over none e = absurd (over_empty (ground arith) (back-nil c.recency e))
    go rest over (some (id, k)) e =
        let step = evict_oldest-Evicted id k c v e in
        Trimmed-step k c (evict_oldest (id, k) c) (evict_loop fuel (evict_oldest (id, k) c)) v
          (ground arith) step
          (rest (evict_oldest (id, k) c) step.valid (omega (arith, step.shorter)))

pub evict_to_budget-Trimmed : (c : Cache) → IsValid c → Trimmed c (evict_to_budget c)
unfolding evict_to_budget
evict_to_budget-Trimmed c v = evict_loop-Trimmed (suc (length c.recency)) c v (omega arith)
