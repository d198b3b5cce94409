-- ===== src/L1/Ends.antt =====
-- The eviction loop of internal/cache/l1/cache.go ends.
use svm_go.Prelude.{
  sym, ℕ, zero, suc, ◌≤◌, ◌<◌, ◌≡◌, ◌∙◌, inl, inr, refl, ap, true, false, Option, none, some, List,
  [], ◌∷◌, Str, length, lookup, ltb, ◌==◌, arith, Bool-cases,
}
use svm_go.L1.{Cache, Entry, remove_element, back, evict_oldest, evict_loop, evict_to_budget}

-- The element that is last goes once.
length-remove_element-back :
    (r : List (ℕ × Str)) (id : ℕ) (key : Str)
    → back r ≡ some (id, key)
    → length r ≡ suc (length (remove_element id r))
unfolding back remove_element
length-remove_element-back [] id key e = absurd (cc e)
length-remove_element-back ((j, k) ∷ []) id key e = ground arith
length-remove_element-back ((j, k) ∷ y ∷ r) id key e =
    let rest = length-remove_element-back (y ∷ r) id key e in
    elim (Bool-cases (j == id)) [ inl here ↦ rw here refl | inr later ↦ rw later (ap suc rest) ]

evict_oldest-recency :
    (id : ℕ) (key : Str) (c : Cache)
    → (evict_oldest (id, key) c).recency ≡ remove_element id c.recency
unfolding evict_oldest
evict_oldest-recency id key c = go _ refl
  where
    go :
        (o : Option Entry)
        → lookup key c.entries ≡ o
        → (evict_oldest (id, key) c).recency ≡ remove_element id c.recency
    go none e = rw (evict_oldest, e) refl
    go (some x) e = rw (evict_oldest, e) refl

-- The test of the loop fails, or no element is left.
pub data Stops (c : Cache) : Type 0 where
  within : c.usage_bytes ≤ c.max_usage_bytes → Stops c
  exhausted : back c.recency ≡ none → Stops c

-- The oldest element, where the list has one, and a smaller list behind it.
data Round (c : Cache) : Type 0 where
  over : Stops c → ((n : ℕ) → evict_loop n c ≡ c) → Round c
  round :
      (next : Cache)
      → length c.recency ≡ suc (length next.recency)
      → ((n : ℕ) → evict_loop (suc n) c ≡ evict_loop n next)
      → Round c

evict_loop-within :
    (c : Cache) (n : ℕ) → ltb c.max_usage_bytes c.usage_bytes ≡ false → evict_loop n c ≡ c
unfolding evict_loop
evict_loop-within c zero h = refl
evict_loop-within c (suc n) h = rw h refl

evict_loop-exhausted : (c : Cache) (n : ℕ) → back c.recency ≡ none → evict_loop n c ≡ c
unfolding evict_loop
evict_loop-exhausted c zero h = refl
evict_loop-exhausted c (suc n) h = ground arith

evict_loop-round :
    (c : Cache) (n : ℕ) (oldest : ℕ × Str)
    → ltb c.max_usage_bytes c.usage_bytes ≡ true
    → back c.recency ≡ some oldest
    → evict_loop (suc n) c ≡ evict_loop n (evict_oldest oldest c)
unfolding evict_loop
evict_loop-round c n oldest h e = rw (h, e) refl

rounds : (c : Cache) → Round c
rounds c = elim (Bool-cases (ltb c.max_usage_bytes c.usage_bytes)) [
  | inr fits ↦ over (within (ground arith)) (λ n. evict_loop-within c n fits)
  | inl exceeds ↦ by_back _ refl exceeds
]
  where
    by_back :
        (o : Option (ℕ × Str))
        → back c.recency ≡ o
        → ltb c.max_usage_bytes c.usage_bytes ≡ true
        → Round c
    by_back none e h = over (exhausted e) (λ n. evict_loop-exhausted c n e)
    by_back (some (id, key)) e h =
        round (evict_oldest (id, key) c)
          (length-remove_element-back c.recency id key e
            ∙ sym (ap (λ r. suc (length r)) (evict_oldest-recency id key c)))
          (λ n. evict_loop-round c n (id, key) h e)

evict_loop-Stops : (fuel : ℕ) (c : Cache) → length c.recency < fuel → Stops (evict_loop fuel c)
evict_loop-Stops zero c h = absurd (omega arith)
evict_loop-Stops (suc fuel) c h = elim (rounds c) [
  | over stops same ↦ rw (same (suc fuel)) stops
  | round next shorter step ↦ rw (step fuel) (evict_loop-Stops fuel next (omega (arith, shorter)))
]

evict_loop_same :
    (fuel more : ℕ) (c : Cache)
    → length c.recency < fuel
    → length c.recency < more
    → evict_loop fuel c ≡ evict_loop more c
evict_loop_same zero more c h k = absurd (omega arith)
evict_loop_same (suc fuel) zero c h k = absurd (omega arith)
evict_loop_same (suc fuel) (suc more) c h k = elim (rounds c) [
  | over stops same ↦ rw (same (suc fuel), same (suc more)) refl
  | round next shorter step ↦
      rw (step fuel, step more)
        (evict_loop_same fuel more next (omega (arith, shorter)) (omega (arith, shorter)))
]

-- The eviction ends on every cache, sound or not: it stops where the usage is within the budget or no
-- element is left, and any number of rounds beyond the length of the recency list, such as the one that
-- the model takes, leads to the same cache.
pub evict_to_budget-Stops :
    (c : Cache) (fuel : ℕ)
    → length c.recency < fuel
    → Stops (evict_to_budget c) × (evict_loop fuel c ≡ evict_to_budget c)
unfolding evict_to_budget
evict_to_budget-Stops c fuel h = (
  evict_loop-Stops (suc (length c.recency)) c (omega arith),
  evict_loop_same fuel (suc (length c.recency)) c h (omega arith),
)
