-- ===== src/Prelude/Maps.antt =====
-- A Go map with string keys as an association list. No code of the program depends on its order.
use Prim.Native.Nat.{◌+◌}
use mathlib.Core.Path.{◌≡◌, refl}
use mathlib.Core.Logic.{inl, inr}
use mathlib.Core.List.{List, [], ◌∷◌}
use mathlib.Core.Option.{Option, none, some}
use native.Mathlib.Omega.{arith}
use svm_go.Prelude.Tests.{if◌then◌else◌, Bool-cases}
use svm_go.Prelude.Lists.{length}
use svm_go.Prelude.Bytes.{Str, str_eq, str_eq_iff, str_eq_refl}

abbrev pub Assoc {ℓ} : Type ℓ → Type ℓ
Assoc V = List (Str × V)

module _ {ℓ} {V : Type ℓ} where
  -- `v, ok := m[k]`
  unfoldable pub lookup : Str → Assoc V → Option V
  lookup k [] = none
  lookup k ((j, v) ∷ m) = let rest = lookup k m in if str_eq j k then some v else rest

  -- `delete(m, k)`
  unfoldable pub delete : Str → Assoc V → Assoc V
  delete k [] = []
  delete k ((j, v) ∷ m) = let rest = delete k m in if str_eq j k then rest else (j, v) ∷ rest

  -- `m[k] = v`
  unfoldable pub insert : Str → V → Assoc V → Assoc V
  insert k v m = (k, v) ∷ delete k m

  pub lookup-delete :
      (k j : Str) (m : Assoc V) → lookup j (delete k m) ≡ (if str_eq k j then none else lookup j m)
  unfolding lookup delete
  lookup-delete k j [] = ground arith
  lookup-delete k j ((i, v) ∷ m) =
      ground (arith, lookup-delete k j m, str_eq_iff i k, str_eq_iff i j, str_eq_iff k j)

  pub lookup-insert :
      (k j : Str) (v : V) (m : Assoc V)
      → lookup j (insert k v m) ≡ (if str_eq k j then some v else lookup j m)
  unfolding lookup insert
  lookup-insert k j v m = ground (arith, lookup-delete k j m, str_eq_iff k j)

  pub delete-delete : (k j : Str) (m : Assoc V) → delete k (delete j m) ≡ delete j (delete k m)
  unfolding delete
  delete-delete k j [] = refl
  delete-delete k j ((i, v) ∷ m) = ground (arith, delete-delete k j m)

  -- No key stands twice, as in a Go map.
  abbrev pub Distinct : Assoc V → Type ℓ
  Distinct [] = Unit
  Distinct ((k, v) ∷ m) = (lookup k m ≡ none) × Distinct m

  pub Distinct-delete : (k : Str) (m : Assoc V) → Distinct m → Distinct (delete k m)
  unfolding delete
  Distinct-delete k [] d = tt
  Distinct-delete k ((j, v) ∷ m) d = elim (Bool-cases (str_eq j k)) [
    | inl same ↦ rw same (Distinct-delete k m d.1)
    | inr ne ↦ rw ne (ground (arith, lookup-delete k j m, d.0), Distinct-delete k m d.1)
  ]

  pub Distinct-insert : (k : Str) (v : V) (m : Assoc V) → Distinct m → Distinct (insert k v m)
  unfolding insert
  Distinct-insert k v m d =
      (ground (arith, lookup-delete k k m, str_eq_refl k), Distinct-delete k m d)

  pub delete_absent : (k : Str) (m : Assoc V) → lookup k m ≡ none → delete k m ≡ m
  unfolding delete lookup
  delete_absent k [] h = refl
  delete_absent k ((j, e) ∷ m) h = ground (arith, delete_absent k m)

  pub length-delete :
      (k : Str) (m : Assoc V) {v : V}
      → Distinct m
      → lookup k m ≡ some v
      → length m ≡ length (delete k m) + 1
  unfolding delete lookup
  length-delete k [] d h = absurd (cc h)
  length-delete k ((j, v) ∷ m) {v = w} d h = elim (Bool-cases (str_eq j k)) [
    | inl same ↦
        let j_k : j ≡ k = (str_eq_iff j k).0 same in
        rw (same, delete_absent k m (rw (← j_k) d.0)) (omega arith)
    | inr ne ↦ rw ne (omega (arith, length-delete k m {v = w} d.1 (ground arith)))
  ]
