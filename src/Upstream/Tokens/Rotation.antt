-- ===== src/Upstream/Tokens/Rotation.antt =====
-- The loops of `NextToken` (internal/upstream/github/token_provider.go) search the rotated list.
use svm_go.Prelude.{
  ℕ, zero, suc, ◌+◌, ◌-◌, ◌%◌, ◌≤◌, ◌<◌, ◌≡◌, inl, inr, ◌∙◌, refl, ap, sym, Bool, Option, none,
  some, List, [], ◌∷◌, ◌++◌, Str, arith, length, take, if◌then◌else◌, ltb, Bool-cases,
  length-append,
}
use native.Mathlib.Nat.{mod-eq_of_lt, mod-eq-sub-mod, zero-add, suc-add}
use native.Mathlib.Numerals.{add-one}
use svm_go.Upstream.Tokens.{first_from, token_at}

module _ {ℓ} {A : Type ℓ} where
  abbrev pub drop : ℕ → List A → List A
  drop zero xs = xs
  drop (suc n) [] = []
  drop (suc n) (x ∷ xs) = drop n xs

  -- The list from its i-th element on, and then what stands before it.
  abbrev pub rotate : ℕ → List A → List A
  rotate i xs = drop i xs ++ take i xs

  pub length-rotate : (i : ℕ) (xs : List A) → length (rotate i xs) ≡ length xs
  length-rotate zero [] = refl
  length-rotate zero (x ∷ xs) = ap suc (length-rotate zero xs)
  length-rotate (suc i) [] = refl
  length-rotate (suc i) (x ∷ xs) = omega (
    arith,
    length-rotate i xs,
    length-append {ℓ} (drop i xs) (x ∷ take i xs),
    length-append {ℓ} (drop i xs) (take i xs),
  )

-- The first element that passes a test.
unfoldable pub first : (Str → Bool) → List Str → Option Str
first test [] = none
first test (t ∷ ts) = let rest = first test ts in if test t then some t else rest

token_at-append :
    (xs ys : List Str) (o : ℕ)
    → token_at (xs ++ ys) o
      ≡ (if ltb o (length xs) then token_at xs o else token_at ys (o - length xs))
token_at-append [] ys o = let same : o - 0 ≡ o = omega arith in rw same (ground arith)
token_at-append (x ∷ xs) ys zero = ground arith
token_at-append (x ∷ xs) ys (suc o) = rw (token_at-append xs ys o) (ground arith)

token_at-drop : (i o : ℕ) (ts : List Str) → token_at (drop i ts) o ≡ token_at ts (i + o)
token_at-drop zero o ts = rw zero-add refl
token_at-drop (suc i) o [] = refl
token_at-drop (suc i) o (t ∷ ts) = rw suc-add (token_at-drop i o ts)

token_at-take : (i o : ℕ) (ts : List Str) → o < i → token_at (take i ts) o ≡ token_at ts o
token_at-take zero o ts h = absurd (omega arith)
token_at-take (suc i) o [] h = refl
token_at-take (suc i) zero (t ∷ ts) h = refl
token_at-take (suc i) (suc o) (t ∷ ts) h = token_at-take i o ts (omega arith)

length-drop : (i : ℕ) (ts : List Str) → length (drop i ts) ≡ length ts - i
length-drop zero ts = omega arith
length-drop (suc i) [] = omega arith
length-drop (suc i) (t ∷ ts) = omega (arith, length-drop i ts)

-- The element at an offset of the rotated list.
pub token_at-rotate :
    (i o : ℕ) (ts : List Str)
    → i < length ts
    → o < length ts
    → token_at (rotate i ts) o ≡ token_at ts ((i + o) % length ts)
token_at-rotate i o ts hi ho = elim (Bool-cases (ltb o (length (drop i ts)))) [
  | inl inside ↦
      let below : i + o < length ts = ground (arith, length-drop i ts) in
      token_at-append (drop i ts) (take i ts) o
      ∙ rw inside (token_at-drop i o ts ∙ ap (token_at ts) (sym (mod-eq_of_lt below)))
  | inr outside ↦
      let wrapped : (i + o) % length ts ≡ o - length (drop i ts) =
        grind (arith, length-drop i ts, mod-eq-sub-mod, mod-eq_of_lt) in
      token_at-append (drop i ts) (take i ts) o
      ∙ rw outside (
          token_at-take i (o - length (drop i ts)) ts (ground (arith, length-drop i ts))
          ∙ ap (token_at ts) (sym wrapped))
]

pub drop_all : (o : ℕ) (l : List Str) → length l ≤ o → drop o l ≡ []
drop_all zero [] h = refl
drop_all zero (t ∷ l) h = absurd (omega arith)
drop_all (suc o) [] h = refl
drop_all (suc o) (t ∷ l) h = drop_all o l (omega arith)

pub drop_head : (o : ℕ) (l : List Str) → o < length l → drop o l ≡ token_at l o ∷ drop (suc o) l
drop_head o [] h = absurd (omega arith)
drop_head zero (t ∷ l) h = refl
drop_head (suc o) (t ∷ l) h = drop_head o l (omega arith)

-- The loop over the offsets searches what is left of the rotated list.
first_from-drop :
    (test : Str → Bool) (ts : List Str) (i o rounds : ℕ)
    → i < length ts
    → o + rounds ≡ length ts
    → first_from test ts i o rounds ≡ first test (drop o (rotate i ts))
unfolding first_from first
first_from-drop test ts i o zero hi e =
    rw (drop_all o (rotate i ts) (omega (arith, length-rotate i ts))) refl
first_from-drop test ts i o (suc rounds) hi e =
    let inside : o < length ts = omega arith in
    rw
      (
        drop_head o (rotate i ts) (omega (arith, length-rotate i ts)),
        token_at-rotate i o ts hi inside,
        add-one,
        first_from-drop test ts i (suc o) rounds hi (omega arith),
      )
      refl

-- The loop finds the first token from `i` on, round the list, that passes the test.
pub first_from-rotate :
    (test : Str → Bool) (ts : List Str) (i : ℕ)
    → i < length ts
    → first_from test ts i 0 (length ts) ≡ first test (rotate i ts)
first_from-rotate test ts i hi = first_from-drop test ts i 0 (length ts) hi (omega arith)
