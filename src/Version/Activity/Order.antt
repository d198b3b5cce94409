-- ===== src/Version/Activity/Order.antt =====
-- The order of the active keys of internal/service/version/activity_tracker.go.
use svm_go.Prelude.{
  ◌≤◌, ◌<◌, ◌≡◌, str_lt, ◌⊎◌, ◌↔◌, true, false, [], ◌∷◌, Str, Assoc, arith, Bool-cases, inl, inr,
  All, Member, str_lt_asymm, str_lt_trans_not,
}
use svm_go.Cache.Clock.{Time}
use svm_go.Version.Activity.{active_since, sorts_before, insert_active, sort_active}

-- Nothing stands before something that has to stand before it.
abbrev IsSorted : Assoc Time → Type 0
IsSorted [] = Unit
IsSorted (x ∷ l) = All (λ y. sorts_before y x ≡ false) l × IsSorted l

sorts_before_asymm : (x y : Str × Time) → sorts_before x y ≡ true → sorts_before y x ≡ false
unfolding sorts_before
sorts_before_asymm (k, t) (j, s) h = ground (arith, str_lt_asymm k j)

sorts_before_trans_not :
    (x y z : Str × Time)
    → sorts_before x y ≡ false
    → sorts_before y z ≡ false
    → sorts_before x z ≡ false
unfolding sorts_before
sorts_before_trans_not (k, t) (j, s) (i, r) h h' = ground (arith, str_lt_trans_not k j i)

All-insert_active :
    (P : Str × Time → Type 0) (x : Str × Time) (l : Assoc Time)
    → P x
    → All P l
    → All P (insert_active x l)
unfolding insert_active
All-insert_active P x [] p a = (p, tt)
All-insert_active P x (y ∷ l) p a = elim (Bool-cases (sorts_before y x)) [
  | inl first ↦ rw first (a.0, All-insert_active P x l p a.1)
  | inr later ↦ rw later (p, a)
]

All-trans_not :
    (x y : Str × Time) (l : Assoc Time)
    → sorts_before y x ≡ false
    → All (λ z. sorts_before z y ≡ false) l
    → All (λ z. sorts_before z x ≡ false) l
All-trans_not x y [] h a = tt
All-trans_not x y (z ∷ l) h a = (sorts_before_trans_not z y x a.0 h, All-trans_not x y l h a.1)

insert_active-IsSorted :
    (x : Str × Time) (l : Assoc Time) → IsSorted l → IsSorted (insert_active x l)
unfolding insert_active
insert_active-IsSorted x [] s = (tt, tt)
insert_active-IsSorted x (y ∷ l) s = elim (Bool-cases (sorts_before y x)) [
  | inl first ↦ rw first (
    All-insert_active (λ z. sorts_before z y ≡ false) x l (sorts_before_asymm y x first) s.0,
    insert_active-IsSorted x l s.1,
  )
  | inr later ↦ rw later ((later, All-trans_not x y l later s.0), s)
]

sort_active-IsSorted : (l : Assoc Time) → IsSorted (sort_active l)
unfolding sort_active
sort_active-IsSorted [] = tt
sort_active-IsSorted (x ∷ l) = insert_active-IsSorted x (sort_active l) (sort_active-IsSorted l)

Member-insert_active :
    (x y : Str × Time) (l : Assoc Time) → Member y (insert_active x l) ↔ ((y ≡ x) ⊎ Member y l)
unfolding insert_active
Member-insert_active x y [] = ground arith
Member-insert_active x y (z ∷ l) = elim (Bool-cases (sorts_before z x)) [
  | inl first ↦ rw first (ground (arith, Member-insert_active x y l))
  | inr later ↦ rw later (ground arith)
]

pub Member-sort_active : (y : Str × Time) (l : Assoc Time) → Member y (sort_active l) ↔ Member y l
unfolding sort_active
Member-sort_active y [] = ground arith
Member-sort_active y (x ∷ l) =
    ground (arith, Member-insert_active x y (sort_active l), Member-sort_active y l)

pub Member-active_since :
    (since : Time) (key : Str) (hit_at : Time) (m : Assoc Time)
    → Member (key, hit_at) (active_since since m) ↔ (Member (key, hit_at) m × (since ≤ hit_at))
unfolding active_since
Member-active_since since key hit_at [] = ground arith
Member-active_since since key hit_at ((j, t) ∷ m) =
    ground (arith, Member-active_since since key hit_at m)

-- Used earlier, or at the same time under a key that is not later.
abbrev pub IsNotLater : Str × Time → Str × Time → Type 0
IsNotLater (k, t) (j, s) = (t < s) ⊎ ((t ≡ s) × (str_lt j k ≡ false))

-- Every entry was used no later than those behind it.
abbrev pub IsOldestFirst : Assoc Time → Type 0
IsOldestFirst [] = Unit
IsOldestFirst (x ∷ l) = All (IsNotLater x) l × IsOldestFirst l

sorts_before-IsNotLater : (x y : Str × Time) → sorts_before y x ≡ false → IsNotLater x y
unfolding sorts_before
sorts_before-IsNotLater (k, t) (j, s) h = ground (arith, h)

All-IsNotLater :
    (x : Str × Time) (l : Assoc Time) → All (λ y. sorts_before y x ≡ false) l → All (IsNotLater x) l
All-IsNotLater x [] a = tt
All-IsNotLater x (y ∷ l) a = (sorts_before-IsNotLater x y a.0, All-IsNotLater x l a.1)

IsSorted-IsOldestFirst : (l : Assoc Time) → IsSorted l → IsOldestFirst l
IsSorted-IsOldestFirst [] s = tt
IsSorted-IsOldestFirst (x ∷ l) s = (All-IsNotLater x l s.0, IsSorted-IsOldestFirst l s.1)

pub sort_active-IsOldestFirst : (l : Assoc Time) → IsOldestFirst (sort_active l)
sort_active-IsOldestFirst l = IsSorted-IsOldestFirst (sort_active l) (sort_active-IsSorted l)
