-- ===== src/L1/Linked.antt =====
-- How the list of elements and the map of entries of the cache (internal/cache/l1/cache.go) fit
-- together, and what taking one key out of both leaves.
use svm_go.Prelude.{
  ℕ, ◌≡◌, ◌≢◌, ◌∙◌, refl, ap, true, false, none, some, List, [], ◌∷◌, arith, Str, Assoc, lookup,
  delete, lookup-delete, delete-delete, str_eq, str_eq_iff, str_eq_refl, if◌then◌else◌, ◌==◌,
  Bool-cases, inl, inr,
}
use svm_go.Cache.{Record}
use svm_go.L1.{Entry, remove_element, estimate_entry_usage}

-- The head `(id, k)` of the list and the map: the entry of `k` points to the element and has the
-- size that was accounted, and no other entry points to it.
pub record Holds (id : ℕ) (k : Str) (es : Assoc Entry) : Type 0 where
  pub entry : Entry
  pub found : lookup k es ≡ some entry
  pub element : entry.element ≡ id
  pub sized : entry.size_bytes ≡ estimate_entry_usage k entry.cached_record
  pub alone : (q : Str) (f : Entry) → lookup q (delete k es) ≡ some f → f.element ≢ id

-- The elements of the list are those of the entries of the map, one for each.
abbrev pub Linked : List (ℕ × Str) → Assoc Entry → Type 0
Linked [] es = es ≡ []
Linked ((id, k) ∷ r) es = Holds id k es × Linked r (delete k es)

-- What the cache stores, most recently used first.
unfoldable pub view : List (ℕ × Str) → Assoc Entry → List (Str × Record)
view [] es = []
view ((id, k) ∷ r) es =
    let rest = view r (delete k es) in
    elim (lookup k es) [ none ↦ rest | some e ↦ (k, e.cached_record) ∷ rest ]

-- The pairs of a list without a key.
unfoldable pub without : Str → List (Str × Record) → List (Str × Record)
without k [] = []
without k ((j, r) ∷ l) = let rest = without k l in if str_eq j k then rest else (j, r) ∷ rest

pub lookup-delete_inv :
    (k q : Str) (es : Assoc Entry) (f : Entry)
    → lookup q (delete k es) ≡ some f
    → (lookup q es ≡ some f) × (str_eq k q ≡ false)
lookup-delete_inv k q es f h = ground (arith, lookup-delete k q es)

pub lookup-delete_ne :
    (k q : Str) (es : Assoc Entry) → str_eq k q ≡ false → lookup q (delete k es) ≡ lookup q es
lookup-delete_ne k q es h = ground (arith, lookup-delete k q es)

pub sym_ne : (k q : Str) → str_eq k q ≡ false → str_eq q k ≡ false
sym_ne k q h = ground (arith, str_eq_iff k q, str_eq_iff q k)

pub view_found :
    (id : ℕ) (k : Str) (r : List (ℕ × Str)) (es : Assoc Entry) {e : Entry}
    → lookup k es ≡ some e
    → view ((id, k) ∷ r) es ≡ (k, e.cached_record) ∷ view r (delete k es)
unfolding view
view_found id k r es h = ground arith

-- A head stays a head when another key goes.
Holds-delete :
    (id : ℕ) (k q : Str) (es : Assoc Entry)
    → str_eq k q ≡ false
    → Holds id q es
    → Holds id q (delete k es)
Holds-delete id k q es ne h = record {
  entry = h.entry;
  found = lookup-delete_ne k q es ne ∙ h.found;
  element = h.element;
  sized = h.sized;
  alone = λ p f e. h.alone p f (lookup-delete_inv k p (delete q es) f (rw delete-delete at e)).0;
}

-- Taking an entry out of the map and its element out of the list keeps them linked.
pub Linked-unlink :
    (r : List (ℕ × Str)) (es : Assoc Entry) (k : Str) (e : Entry)
    → Linked r es
    → lookup k es ≡ some e
    → Linked (remove_element e.element r) (delete k es)
unfolding remove_element lookup
Linked-unlink [] es k e h found = cc (found, ap (lookup k) h)
Linked-unlink ((id, q) ∷ r) es k e (h, t) found = elim (Bool-cases (str_eq k q)) [
  | inl same ↦
      let k_q : k ≡ q = (str_eq_iff k q).0 same in
      let id_e : (id == e.element) ≡ true = ground (arith, h.found, h.element) in rw (id_e, k_q) t
  | inr ne ↦
      let found' : lookup k (delete q es) ≡ some e =
        lookup-delete_ne q k es (sym_ne k q ne) ∙ found in
      let id_e : (id == e.element) ≡ false = ground (arith, h.alone k e found') in
      rw id_e
        (Holds-delete id k q es ne h, rw delete-delete (Linked-unlink r (delete q es) k e t found'))
]

-- A key that the map lacks is not in the view.
pub without-absent :
    (r : List (ℕ × Str)) (es : Assoc Entry) (k : Str)
    → Linked r es
    → lookup k es ≡ none
    → without k (view r es) ≡ view r es
unfolding view without
without-absent [] es k h miss = refl
without-absent ((id, q) ∷ r) es k (h, t) miss =
    let ne : str_eq q k ≡ false = ground (arith, h.found, str_eq_iff q k) in
    let ih : without k (view r (delete q es)) ≡ view r (delete q es) =
      without-absent r (delete q es) k t (ground (arith, lookup-delete q k es)) in
    ground (arith, h.found, ne, ih)

pub view-unlink :
    (r : List (ℕ × Str)) (es : Assoc Entry) (k : Str) (e : Entry)
    → Linked r es
    → lookup k es ≡ some e
    → view (remove_element e.element r) (delete k es) ≡ without k (view r es)
unfolding remove_element lookup view without
view-unlink [] es k e h found = refl
view-unlink ((id, q) ∷ r) es k e (h, t) found = elim (Bool-cases (str_eq k q)) [
  | inl same ↦
      let k_q : k ≡ q = (str_eq_iff k q).0 same in
      let id_e : (id == e.element) ≡ true = ground (arith, h.found, h.element) in
      let gone : without k (view r (delete k es)) ≡ view r (delete k es) =
        without-absent r (delete k es) k (rw k_q t)
          (ground (arith, lookup-delete k k es, str_eq_refl k)) in
      ground (arith, id_e, k_q, gone, h.found, str_eq_refl k)
  | inr ne ↦
      let found' : lookup k (delete q es) ≡ some e =
        lookup-delete_ne q k es (sym_ne k q ne) ∙ found in
      let id_e : (id == e.element) ≡ false = ground (arith, h.alone k e found') in
      ground (
        arith,
        id_e,
        ne,
        sym_ne k q ne,
        h.found,
        lookup-delete k q es,
        delete-delete q k es,
        view-unlink r (delete q es) k e t found',
      )
]
