-- ===== src/L1/Refines.antt =====
-- `Get` and `Set` of the cache (internal/cache/l1/cache.go) are the operations of a list of records,
-- most recently used first.
use svm_go.Prelude.{
  ℕ, ◌+◌, ◌≤◌, ◌≡◌, ◌∙◌, refl, ap, sym, false, Option, none, some, List, [], ◌∷◌, arith, Str, Assoc,
  lookup, delete, lookup-delete, lookup-insert, delete_absent, str_eq, str_eq_iff, Distinct-insert,
  is_empty, if◌then◌else◌, Bool-cases, Option-cases, inl, inr,
}
use svm_go.Cache.{Record}
use svm_go.L1.{
  Entry, Cache, clone_record, estimate_entry_usage, move_to_front, evict_to_budget, replace,
  add_entry, get, set, remove_element,
}
use svm_go.L1.Linked.{Linked, view, view_found, without, Linked-unlink, view-unlink, without-absent}
use svm_go.L1.Moves.{
  Linked-Holds, Linked-move_to_front, Linked-insert, move_to_front_found, element_value-Linked,
}
use svm_go.L1.Spec.{weigh, trim, find}
use svm_go.L1.Valid.{IsValid, contents, evict_to_budget-Trimmed}

-- The map has what the list has.
find-view :
    (r : List (ℕ × Str)) (es : Assoc Entry) (k : Str)
    → Linked r es
    → find k (view r es) ≡ elim (lookup k es) [ none ↦ none | some e ↦ some e.cached_record ]
unfolding find view
find-view [] es k h = rw h (unfold lookup in refl)
find-view ((id, q) ∷ r) es k (h, t) = ground (
  arith,
  h.found,
  view_found id q r es h.found,
  find-view r (delete q es) k t,
  lookup-delete q k es,
  str_eq_iff q k,
)

weigh-without :
    (r : List (ℕ × Str)) (es : Assoc Entry) (k : Str) (e : Entry)
    → Linked r es
    → lookup k es ≡ some e
    → weigh (view r es) ≡ weigh (without k (view r es)) + e.size_bytes
unfolding weigh without
weigh-without [] es k e h found = absurd (unfold lookup in cc (found, ap (lookup k) h))
weigh-without ((id, q) ∷ r) es k e (h, t) found = elim (Bool-cases (str_eq q k)) [
  | inl same ↦
      let q_k : q ≡ k = (str_eq_iff q k).0 same in
      let gone = without-absent r (delete q es) k t (ground (arith, lookup-delete q k es)) in
      ground (arith, view_found id q r es h.found, h.found, h.sized, q_k, gone, same)
  | inr ne ↦ ground (
    arith,
    view_found id q r es h.found,
    ne,
    lookup-delete q k es,
    weigh-without r (delete q es) k e t,
  )
]

-- The contents after a hit and after a write.
unfoldable pub touch : Str → List (Str × Record) → List (Str × Record)
touch k l = elim (find k l) [ none ↦ l | some r ↦ (k, r) ∷ without k l ]

unfoldable pub put : ℕ → Str → Record → List (Str × Record) → List (Str × Record)
put budget k r l = if is_empty k then l else trim budget ((k, r) ∷ without k l)

get_found :
    (k : Str) (c : Cache) {e : Entry}
    → is_empty k ≡ false
    → lookup k c.entries ≡ some e
    → get k c ≡ (some e.cached_record, record c { recency = move_to_front e.element c.recency })
unfolding get clone_record
get_found k c ne h = ground arith

get_missing : (k : Str) (c : Cache) → lookup k c.entries ≡ none → get k c ≡ (none, c)
unfolding get
get_missing k c h = ground arith

-- No entry has the empty key: `Set` refuses it, so a hit on it is impossible.
pub record Reads (k : Str) (c : Cache) (o : Option Record) (c' : Cache) : Type 0 where
  pub valid : IsValid c'
  pub found : o ≡ find k (contents c)
  pub shown : contents c' ≡ touch k (contents c)
  pub usage : c'.usage_bytes ≡ c.usage_bytes
  pub budget : c'.max_usage_bytes ≡ c.max_usage_bytes

Reads-hit :
    (k : Str) (c : Cache) (e : Entry)
    → IsValid c
    → lookup k c.entries ≡ some e
    → Reads k c (some e.cached_record) (record c { recency = move_to_front e.element c.recency })
unfolding touch weigh
Reads-hit k c e v found =
    let held = Linked-Holds c.recency c.entries k e v.linked found in
    let size : e.size_bytes ≡ estimate_entry_usage k e.cached_record =
      ground (arith, held.found, held.sized, found) in
    let (linked, shown) = Linked-move_to_front c.recency c.entries k e v.linked found in
    let f = find-view c.recency c.entries k v.linked in
    record {
      valid = record {
        linked = linked;
        distinct = v.distinct;
        fresh = v.fresh;
        counted =
            rw shown (
              omega (arith, size, v.counted, weigh-without c.recency c.entries k e v.linked found));
      };
      found = ground (arith, f, found);
      shown = shown ∙ ground (arith, f, found);
      usage = refl;
      budget = refl;
    }

Reads-miss : (k : Str) (c : Cache) → IsValid c → lookup k c.entries ≡ none → Reads k c none c
unfolding touch
Reads-miss k c v miss =
    let f = find-view c.recency c.entries k v.linked in
    record {
      valid = v;
      found = ground (arith, f, miss);
      shown = ground (arith, f, miss);
      usage = refl;
      budget = refl;
    }

replace-IsValid :
    (k : Str) (r : Record) (e : Entry) (c : Cache)
    → IsValid c
    → lookup k c.entries ≡ some e
    → IsValid (replace k r e c) × (contents (replace k r e c) ≡ (k, r) ∷ without k (contents c))
unfolding replace weigh
replace-IsValid k r e c v found =
    let moved =
      move_to_front_found e.element c.recency
        (element_value-Linked c.recency c.entries k e v.linked found) in
    let held = Linked-Holds c.recency c.entries k e v.linked found in
    let e' : Entry = record e { cached_record = r; size_bytes = estimate_entry_usage k r } in
    let (linked, shown) =
      Linked-insert (remove_element e.element c.recency) c.entries k e'
        (Linked-unlink c.recency c.entries k e v.linked found) refl
        (λ q f h. ground (arith, held.alone q f h)) in
    let shown' = shown ∙ ap (◌∷◌ (k, r)) (view-unlink c.recency c.entries k e v.linked found) in
    rw moved (
      record {
        linked = linked;
        distinct = Distinct-insert k e' c.entries v.distinct;
        fresh =
            λ q f h. ground (arith, lookup-insert k q e' c.entries, v.fresh q f, v.fresh k e found);
        counted =
            rw shown'
              (omega (arith, v.counted, weigh-without c.recency c.entries k e v.linked found));
      },
      shown',
    )

add_entry-IsValid :
    (k : Str) (r : Record) (c : Cache)
    → IsValid c
    → lookup k c.entries ≡ none
    → IsValid (add_entry k r c) × (contents (add_entry k r c) ≡ (k, r) ∷ without k (contents c))
unfolding add_entry weigh
add_entry-IsValid k r c v miss =
    let e : Entry = record {
      cached_record = r;
      size_bytes = estimate_entry_usage k r;
      element = c.next_element;
    } in
    let gone = delete_absent k c.entries miss in
    let (linked, shown) =
      Linked-insert c.recency c.entries k e (rw gone v.linked) refl
        (λ q f h. omega (arith, v.fresh q f (rw gone at h))) in
    let shown' =
      shown
      ∙ ap (λ m. (k, r) ∷ view c.recency m) gone
      ∙ ap (◌∷◌ (k, r)) (sym (without-absent c.recency c.entries k v.linked miss)) in
    (
      record {
        linked = linked;
        distinct = Distinct-insert k e c.entries v.distinct;
        fresh = λ q f h. ground (arith, lookup-insert k q e c.entries, v.fresh q f);
        counted = rw shown' (
            omega
              (arith, v.counted, ap weigh (without-absent c.recency c.entries k v.linked miss)));
      },
      shown',
    )

-- A write: the record comes to the front, and the least recently used records go until the rest
-- fits.
pub record Writes (k : Str) (r : Record) (c c' : Cache) : Type 0 where
  pub valid : IsValid c'
  pub shown : contents c' ≡ put c.max_usage_bytes k r (contents c)
  pub within : c.usage_bytes ≤ c.max_usage_bytes → c'.usage_bytes ≤ c'.max_usage_bytes
  pub budget : c'.max_usage_bytes ≡ c.max_usage_bytes

Writes-trimmed :
    (k : Str) (r : Record) (c d : Cache)
    → is_empty k ≡ false
    → IsValid d × (contents d ≡ (k, r) ∷ without k (contents c))
    → d.max_usage_bytes ≡ c.max_usage_bytes
    → Writes k r c (evict_to_budget d)
unfolding put
Writes-trimmed k r c d ne (v, shown) budget =
    let t = evict_to_budget-Trimmed d v in
    record {
      valid = t.valid;
      shown =
          rw ne
            (t.shown ∙ ap (λ m. trim m (contents d)) budget ∙ ap (trim c.max_usage_bytes) shown);
      within = λ _. t.within;
      budget = t.budget ∙ budget;
    }

pub set-Writes : (k : Str) (r : Record) (c : Cache) → IsValid c → Writes k r c (set k r c)
unfolding set clone_record put
set-Writes k r c v = elim (Bool-cases (is_empty k)) [
  | inl empty ↦
      rw empty (record { valid = v; shown = rw empty refl; within = λ h. h; budget = refl })
  | inr ne ↦ elim (Option-cases (lookup k c.entries)) [
    | inl miss ↦
        rw (ne, miss)
          (Writes-trimmed k r c (add_entry k r c) ne (add_entry-IsValid k r c v miss)
            (unfold add_entry in refl))
    | inr (e, found) ↦
        rw (ne, found)
          (Writes-trimmed k r c (replace k r e c) ne (replace-IsValid k r e c v found)
            (unfold replace in refl))
  ]
]

pub get-Reads :
    (k : Str) (c : Cache) → IsValid c → is_empty k ≡ false → Reads k c (get k c).0 (get k c).1
get-Reads k c v ne = elim (Option-cases (lookup k c.entries)) [
  | inl miss ↦ rw (get_missing k c miss) (Reads-miss k c v miss)
  | inr (e, found) ↦ rw (get_found k c ne found) (Reads-hit k c e v found)
]
