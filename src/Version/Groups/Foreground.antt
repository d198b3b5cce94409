-- ===== src/Version/Groups/Foreground.antt =====
-- The callers of one call get one answer: `foregroundRequestGroup` of
-- internal/service/version/service.go.
use svm_go.Prelude.{
  ◌∙◌, ◌↔◌, ℕ, zero, suc, ◌<◌, ◌≡◌, ◌==◌, refl, ap, Bool, false, Option, none, some, List, [], ◌∷◌,
  ◌++◌, Str, lookup, lookup-insert, lookup-delete, str_eq_iff, arith, if◌then◌else◌, Option-cases,
  inl, inr, get_elem?, length,
}
use svm_go.Version.{Response}
use svm_go.Version.Groups.{
  ForegroundCall, ForegroundRequestGroup, new_foreground_request_group, enter, set_response, finish,
  wait,
}

-- A caller enters, or the goroutine of a call that has no response yet ends with one.
pub data Step : ForegroundRequestGroup → ForegroundRequestGroup → Type 0 where
  entered : (key : Str) (g : ForegroundRequestGroup) → Step g (enter key g).1
  finished :
      (i : ℕ) (key : Str) (r : Response) (g : ForegroundRequestGroup)
      → get_elem? g.calls i ≡ some (record { key = key; response = none })
      → Step g (finish i key r g)

pub data Steps : ForegroundRequestGroup → ForegroundRequestGroup → Type 0 where
  done : {g : ForegroundRequestGroup} → Steps g g
  next : {g g' g'' : ForegroundRequestGroup} → Steps g g' → Step g' g'' → Steps g g''

get_elem?-append_one :
    (l : List ForegroundCall) (c : ForegroundCall) (i : ℕ)
    → get_elem? (l ++ c ∷ []) i ≡ (if i == length l then some c else get_elem? l i)
get_elem?-append_one [] c zero = refl
get_elem?-append_one [] c (suc i) = ground arith
get_elem?-append_one (x ∷ l) c zero = ground arith
get_elem?-append_one (x ∷ l) c (suc i) = ground (arith, get_elem?-append_one l c i)

get_elem?-le :
    (l : List ForegroundCall) (i : ℕ) {c : ForegroundCall} → get_elem? l i ≡ some c → i < length l
get_elem?-le [] i h = absurd (cc h)
get_elem?-le (x ∷ l) zero h = omega arith
get_elem?-le (x ∷ l) (suc i) {c = c} h = omega (arith, get_elem?-le l i {c = c} h)

get_elem?-set_response :
    (i j : ℕ) (r : Response) (l : List ForegroundCall)
    → get_elem? (set_response i r l) j ≡ (
        if i == j
        then elim (get_elem? l j) [ none ↦ none | some c ↦ some (record c { response = some r }) ]
        else get_elem? l j)
unfolding set_response
get_elem?-set_response i j r [] = ground arith
get_elem?-set_response zero zero r (c ∷ l) = refl
get_elem?-set_response zero (suc j) r (c ∷ l) = ground arith
get_elem?-set_response (suc i) zero r (c ∷ l) = ground arith
get_elem?-set_response (suc i) (suc j) r (c ∷ l) = ground (arith, get_elem?-set_response i j r l)

-- The call that a key has in flight is the one that runs for it.
abbrev pub IsExact : ForegroundRequestGroup → Type 0
IsExact g =
    (key : Str) (i : ℕ)
    → (lookup key g.in_flight ≡ some i)
      ↔ (get_elem? g.calls i ≡ some (record { key = key; response = none }))

IsExact-enter : (key : Str) (g : ForegroundRequestGroup) → IsExact g → IsExact (enter key g).1
unfolding enter lookup
IsExact-enter key g e k i = elim (Option-cases (lookup key g.in_flight)) [
  | inr (_, present) ↦ rw (present, enter) (e k i)
  | inl absent ↦ (there absent, back absent)
]
  where
    there :
        lookup key g.in_flight ≡ none
        → lookup k (enter key g).1.in_flight ≡ some i
        → get_elem? (enter key g).1.calls i ≡ some (record { key = k; response = none })
    there absent h =
        unfold enter in
        ground (
          arith,
          absent,
          h,
          lookup-insert key k (length g.calls) g.in_flight,
          str_eq_iff key k,
          e k i,
          get_elem?-append_one g.calls (record { key = key; response = none }) i,
          get_elem?-le g.calls i {c = record { key = k; response = none }},
        )

    back :
        lookup key g.in_flight ≡ none
        → get_elem? (enter key g).1.calls i ≡ some (record { key = k; response = none })
        → lookup k (enter key g).1.in_flight ≡ some i
    back absent h =
        unfold enter in
        ground (
          arith,
          absent,
          h,
          lookup-insert key k (length g.calls) g.in_flight,
          str_eq_iff key k,
          e k i,
          get_elem?-append_one g.calls (record { key = key; response = none }) i,
        )

IsExact-finish :
    (i : ℕ) (key : Str) (r : Response) (g : ForegroundRequestGroup)
    → get_elem? g.calls i ≡ some (record { key = key; response = none })
    → IsExact g
    → IsExact (finish i key r g)
unfolding finish
IsExact-finish i key r g running e k j = (
  λ h. ground (
    arith,
    h,
    running,
    lookup-delete key k g.in_flight,
    str_eq_iff key k,
    e k j,
    e key i,
    get_elem?-set_response i j r g.calls,
  ),
  λ h. ground (
    arith,
    h,
    running,
    lookup-delete key k g.in_flight,
    str_eq_iff key k,
    e k j,
    e key i,
    e key j,
    get_elem?-set_response i j r g.calls,
  ),
)

Step-IsExact : {g g' : ForegroundRequestGroup} → Step g g' → IsExact g → IsExact g'
Step-IsExact (entered key g) e = IsExact-enter key g e
Step-IsExact (finished i key r g h) e = IsExact-finish i key r g h e

Steps-IsExact : {g g' : ForegroundRequestGroup} → Steps g g' → IsExact g → IsExact g'
Steps-IsExact done e = e
Steps-IsExact (next before step) e = Step-IsExact step (Steps-IsExact before e)

new-IsExact : IsExact new_foreground_request_group
new-IsExact key i = unfold lookup in (λ h. absurd (cc h), λ h. absurd (cc h))

-- In every state that calls and ends of runs lead to, a caller joins the call that runs for its key,
-- and none else: two calls for one key never run at once.
pub Steps-enter :
    (g : ForegroundRequestGroup) (key : Str) (i : ℕ)
    → Steps new_foreground_request_group g
    → ((enter key g).0 ≡ (i, false))
      ↔ (get_elem? g.calls i ≡ some (record { key = key; response = none }))
unfolding enter
Steps-enter g key i steps =
    let e = Steps-IsExact steps new-IsExact key i in
    (λ h. e.0 (ground arith), λ h. let found = e.1 h in ground arith)

-- A call that has its response keeps it.
Step-answered :
    {g g' : ForegroundRequestGroup} (i : ℕ) (key : Str) (r : Response)
    → Step g g'
    → get_elem? g.calls i ≡ some (record { key = key; response = some r })
    → get_elem? g'.calls i ≡ some (record { key = key; response = some r })
Step-answered i key r (entered other g) h =
    unfold enter in
    ground (
      arith,
      h,
      get_elem?-append_one g.calls (record { key = other; response = none }) i,
      get_elem?-le g.calls i {c = record { key = key; response = some r }},
    )
Step-answered i key r (finished j other s g running) h =
    unfold finish in ground (arith, h, running, get_elem?-set_response j i s g.calls)

Steps-answered :
    {g g' : ForegroundRequestGroup} (i : ℕ) (key : Str) (r : Response)
    → Steps g g'
    → get_elem? g.calls i ≡ some (record { key = key; response = some r })
    → get_elem? g'.calls i ≡ some (record { key = key; response = some r })
Steps-answered i key r done h = h
Steps-answered i key r (next before step) h =
    Step-answered i key r step (Steps-answered i key r before h)

-- All callers of one call whose contexts are not done get one answer: what one of them got, another
-- gets too, however many steps later it looks.
pub Steps-wait :
    {g g' : ForegroundRequestGroup} (favour favour' : Bool) (i : ℕ) (key : Str) (r : Response)
    → Steps g g'
    → wait false favour i key g ≡ some r
    → wait false favour' i key g' ≡ some r
unfolding wait
Steps-wait {g = g} {g' = g'} favour favour' i key r steps h = go (get_elem? g.calls i) refl
  where
    go :
        (o : Option ForegroundCall) → get_elem? g.calls i ≡ o → wait false favour' i key g' ≡ some r
    go none e = absurd (ground arith)
    go (some c) e =
        let answered : c.response ≡ some r = ground arith in
        let later =
          Steps-answered i c.key r steps
            (e ∙ ap some (ap (λ x. record { key = c.key; response = x }) answered)) in
        ground arith
