-- ===== src/L1/Reads.antt =====
-- What can be read after a write to the cache (internal/cache/l1/cache.go).
use svm_go.Prelude.{
  inr, Bool-cases, ℕ, ◌-◌, ◌≤◌, ◌<◌, ◌≡◌, ◌⊎◌, ◌∙◌, refl, ap, sym, false, none, some, List, [], ◌∷◌,
  arith, Str, is_empty, str_eq, str_eq_iff, str_eq_refl, inl, length, delete, Distinct,
  Distinct-delete, length-delete, Assoc,
}
use svm_go.Cache.{Record}
use svm_go.L1.{Entry, Cache, get, set, estimate_entry_usage, len}
use svm_go.L1.Linked.{Linked, view, view_found, without}
use svm_go.L1.Spec.{trim, find}
use svm_go.L1.Valid.{IsValid, contents}
use svm_go.L1.Refines.{put, touch, get-Reads, set-Writes}

find-trim :
    (k : Str) (budget : ℕ) (l : List (Str × Record))
    → (find k (trim budget l) ≡ none) ⊎ (find k (trim budget l) ≡ find k l)
unfolding find trim
find-trim k budget [] = inl refl
find-trim k budget ((j, r) ∷ l) = ground (arith, find-trim k (budget - estimate_entry_usage j r) l)

find-without :
    (j k : Str) (l : List (Str × Record)) → str_eq k j ≡ false → find j (without k l) ≡ find j l
unfolding find without
find-without j k [] ne = refl
find-without j k ((q, r) ∷ l) ne =
    ground (arith, find-without j k l, str_eq_iff q k, str_eq_iff q j, str_eq_iff k j)

-- A record that fits the budget alone is read back after it was written.
pub get-set_self :
    (k : Str) (r : Record) (c : Cache)
    → IsValid c
    → is_empty k ≡ false
    → estimate_entry_usage k r ≤ c.max_usage_bytes
    → (get k (set k r c)).0 ≡ some r
unfolding put trim find
get-set_self k r c v ne fits =
    let w = set-Writes k r c v in
    (get-Reads k (set k r c) w.valid ne).found ∙ ap (find k) w.shown ∙ ground (arith, str_eq_refl k)

-- A record that does not fit the budget alone is not stored, and takes every other record with
-- it: the cache is empty after the write.
pub set_oversized :
    (k : Str) (r : Record) (c : Cache)
    → IsValid c
    → is_empty k ≡ false
    → c.max_usage_bytes < estimate_entry_usage k r
    → contents (set k r c) ≡ []
unfolding put trim
set_oversized k r c v ne over = (set-Writes k r c v).shown ∙ ground arith

-- A write of one key leaves each other key as it was or evicts it.
pub get-set_ne :
    (k j : Str) (r : Record) (c : Cache)
    → IsValid c
    → str_eq k j ≡ false
    → ((get j (set k r c)).0 ≡ none) ⊎ ((get j (set k r c)).0 ≡ (get j c).0)
unfolding put find
get-set_ne k j r c v other = elim (Bool-cases (is_empty j)) [
  | inl empty ↦ inl (unfold get in rw empty refl)
  | inr ne ↦
      let w = set-Writes k r c v in
      let read = (get-Reads j (set k r c) w.valid ne).found ∙ ap (find j) w.shown in
      ground (
        arith,
        read,
        (get-Reads j c v ne).found,
        find-trim j c.max_usage_bytes ((k, r) ∷ without k (contents c)),
        find-without j k (contents c) other,
      )
]

length-view :
    (r : List (ℕ × Str)) (es : Assoc Entry)
    → Linked r es
    → Distinct es
    → length (view r es) ≡ length es
length-view [] es h d = rw h (unfold view in refl)
length-view ((id, k) ∷ r) es (h, t) d = rw (view_found id k r es h.found) (
    omega
      (arith, length-view r (delete k es) t (Distinct-delete k es d), length-delete k es d h.found))

-- `Len` is the number of records that can be read.
pub len-contents : (c : Cache) → IsValid c → len c ≡ length (contents c)
unfolding len
len-contents c v = sym (length-view c.recency c.entries v.linked v.distinct)

-- Whatever the sizes, a read after a write of the key gives the record or nothing.
pub get-set_or_none :
    (k : Str) (r : Record) (c : Cache)
    → IsValid c
    → ((get k (set k r c)).0 ≡ none) ⊎ ((get k (set k r c)).0 ≡ some r)
unfolding put trim find
get-set_or_none k r c v = elim (Bool-cases (is_empty k)) [
  | inl empty ↦ inl (unfold get in rw empty refl)
  | inr ne ↦
      let w = set-Writes k r c v in
      let read = (get-Reads k (set k r c) w.valid ne).found ∙ ap (find k) w.shown in
      ground (arith, read, str_eq_refl k)
]

find-touch : (j k : Str) (l : List (Str × Record)) → find j (touch k l) ≡ find j l
unfolding touch find
find-touch j k l = elim (Bool-cases (str_eq k j)) [
  | inl same ↦ ground (arith, str_eq_iff k j, same)
  | inr ne ↦ ground (arith, ne, find-without j k l ne)
]

pub get-IsValid : (k : Str) (c : Cache) → IsValid c → IsValid (get k c).1
get-IsValid k c v = elim (Bool-cases (is_empty k)) [
  | inl empty ↦ unfold get in rw empty v
  | inr ne ↦ (get-Reads k c v ne).valid
]

-- A read changes nothing that a later read can tell.
pub get-get : (k j : Str) (c : Cache) → IsValid c → (get j (get k c).1).0 ≡ (get j c).0
get-get k j c v = elim (Bool-cases (is_empty k)) [
  | inl empty ↦ ap (λ d. (get j d).0) (unfold get in rw empty refl)
  | inr ne ↦ elim (Bool-cases (is_empty j)) [
    | inl empty ↦ unfold get in rw empty refl
    | inr ne' ↦
        let g = get-Reads k c v ne in
        (get-Reads j (get k c).1 g.valid ne').found
        ∙ ap (find j) g.shown
        ∙ find-touch j k (contents c)
        ∙ sym (get-Reads j c v ne').found
  ]
]
