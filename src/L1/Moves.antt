-- ===== src/L1/Moves.antt =====
-- Moving an element to the front of the list of the cache (internal/cache/l1/cache.go), putting a
-- new one there, and taking the one at the back.
use svm_go.Prelude.{
  ℕ, ◌≡◌, ◌≢◌, ◌⊎◌, ◌∙◌, refl, ap, true, false, some, List, [], ◌∷◌, ◌++◌, arith, Str, Assoc,
  lookup, delete, insert, lookup-delete, lookup-insert, delete-delete, delete_absent, str_eq,
  str_eq_iff, str_eq_refl, Bool-cases, inl, inr,
}
use svm_go.Cache.{Record}
use svm_go.L1.{Entry, remove_element, element_value, move_to_front, back, estimate_entry_usage}
use svm_go.L1.Linked.{
  Holds, Linked, view, view_found, without, lookup-delete_inv, lookup-delete_ne, sym_ne,
  Linked-unlink, view-unlink,
}

delete-insert : (k : Str) (e : Entry) (es : Assoc Entry) → delete k (insert k e es) ≡ delete k es
unfolding delete insert
delete-insert k e es =
    ground (arith, str_eq_refl k, delete_absent k (delete k es), lookup-delete k k es)

-- An entry of a linked map is the head of the map when its element comes to the front.
pub Linked-Holds :
    (r : List (ℕ × Str)) (es : Assoc Entry) (k : Str) (e : Entry)
    → Linked r es
    → lookup k es ≡ some e
    → Holds e.element k es
unfolding lookup
Linked-Holds [] es k e h found = absurd (cc (found, ap (lookup k) h))
Linked-Holds ((id, q) ∷ r) es k e (h, t) found = elim (Bool-cases (str_eq q k)) [
  | inl same ↦
      let q_k : q ≡ k = (str_eq_iff q k).0 same in
      let e_h : e ≡ h.entry = ground (arith, h.found, found) in rw (e_h, h.element, ← q_k) h
  | inr ne ↦
      let found' : lookup k (delete q es) ≡ some e = lookup-delete_ne q k es ne ∙ found in
      let ih = Linked-Holds r (delete q es) k e t found' in
      record {
        entry = e;
        found = found;
        element = refl;
        sized = ground (arith, ih.found, ih.sized, found');
        alone = λ p f at_p. other p f at_p ih found' (Bool-cases (str_eq q p));
      }
]
  where
    other :
        (p : Str) (f : Entry)
        → lookup p (delete k es) ≡ some f
        → Holds e.element k (delete q es)
        → lookup k (delete q es) ≡ some e
        → (str_eq q p ≡ true) ⊎ (str_eq q p ≡ false)
        → f.element ≢ e.element
    other p f at_p ih found' (inl same) = ground (
      arith,
      str_eq_iff q p,
      lookup-delete_inv k p es f at_p,
      h.found,
      h.element,
      h.alone k e found',
    )
    other p f at_p ih found' (inr ne) =
        ih.alone p f (rw delete-delete (lookup-delete_ne q p (delete k es) ne ∙ at_p))

-- The element of an entry has its key as value.
pub element_value-Linked :
    (r : List (ℕ × Str)) (es : Assoc Entry) (k : Str) (e : Entry)
    → Linked r es
    → lookup k es ≡ some e
    → element_value e.element r ≡ some k
unfolding element_value lookup
element_value-Linked [] es k e h found = cc (found, ap (lookup k) h)
element_value-Linked ((id, q) ∷ r) es k e (h, t) found = elim (Bool-cases (str_eq q k)) [
  | inl same ↦ ground (arith, str_eq_iff q k, h.found, h.element)
  | inr ne ↦
      let found' : lookup k (delete q es) ≡ some e = lookup-delete_ne q k es ne ∙ found in
      ground (arith, h.alone k e found', element_value-Linked r (delete q es) k e t found')
]

pub move_to_front_found :
    (id : ℕ) (r : List (ℕ × Str)) {k : Str}
    → element_value id r ≡ some k
    → move_to_front id r ≡ (id, k) ∷ remove_element id r
unfolding move_to_front
move_to_front_found id r h = ground arith

-- A hit links the same map, with the key in front of what was there without it.
pub Linked-move_to_front :
    (r : List (ℕ × Str)) (es : Assoc Entry) (k : Str) (e : Entry)
    → Linked r es
    → lookup k es ≡ some e
    → Linked (move_to_front e.element r) es
      × (view (move_to_front e.element r) es ≡ (k, e.cached_record) ∷ without k (view r es))
Linked-move_to_front r es k e h found =
    rw (move_to_front_found e.element r (element_value-Linked r es k e h found)) (
      (Linked-Holds r es k e h found, Linked-unlink r es k e h found),
      view_found _ k _ es found ∙ ap (◌∷◌ (k, e.cached_record)) (view-unlink r es k e h found),
    )

-- A written entry, with its element in front of those of the other keys.
pub Linked-insert :
    (r : List (ℕ × Str)) (es : Assoc Entry) (k : Str) (e : Entry)
    → Linked r (delete k es)
    → e.size_bytes ≡ estimate_entry_usage k e.cached_record
    → ((q : Str) (f : Entry) → lookup q (delete k es) ≡ some f → f.element ≢ e.element)
    → Linked ((e.element, k) ∷ r) (insert k e es)
      × (view ((e.element, k) ∷ r) (insert k e es) ≡ (k, e.cached_record) ∷ view r (delete k es))
Linked-insert r es k e t sized alone =
    let at : lookup k (insert k e es) ≡ some e =
      ground (arith, lookup-insert k k e es, str_eq_refl k) in
    (
      (
        record {
          entry = e;
          found = at;
          element = refl;
          sized = sized;
          alone = rw delete-insert alone;
        },
        rw delete-insert t,
      ),
      view_found e.element k r (insert k e es) at
          ∙ ap (λ m. (k, e.cached_record) ∷ view r m) (delete-insert k e es),
    )

view_nil : (es : Assoc Entry) → view [] es ≡ []
unfolding view
view_nil es = refl

-- The element at the back belongs to the entry that stands last in the view.
pub back-Linked :
    (r : List (ℕ × Str)) (es : Assoc Entry) (id : ℕ) (k : Str)
    → Linked r es
    → back r ≡ some (id, k)
    → (e : Entry) × (l : List (Str × Record)) × (lookup k es ≡ some e)
      × (e.element ≡ id)
      × (view r es ≡ l ++ (k, e.cached_record) ∷ [])
      × (without k (view r es) ≡ l)
unfolding back without
back-Linked [] es id k h b = absurd (cc b)
back-Linked ((j, q) ∷ []) es id k (h, t) b = (
  h.entry,
  [],
  ground (arith, h.found),
  ground (arith, h.element),
  ground (arith, h.found, view_found j q [] es h.found, view_nil (delete q es)),
  ground (arith, h.found, view_found j q [] es h.found, view_nil (delete q es), str_eq_refl k),
)
back-Linked ((j, q) ∷ x ∷ r) es id k (h, t) b =
    let (e, l, found, element, shown, gone) = back-Linked (x ∷ r) (delete q es) id k t b in
    let (found', ne) = lookup-delete_inv q k es e found in
    (
      e,
      (q, h.entry.cached_record) ∷ l,
      found',
      element,
      view_found j q (x ∷ r) es h.found ∙ ap (◌∷◌ (q, h.entry.cached_record)) shown,
      ground (arith, view_found j q (x ∷ r) es h.found, sym_ne q k ne, ne, gone),
    )
