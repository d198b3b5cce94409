-- ===== src/Upstream/Tokens/Build.antt =====
-- The constructor and the observers of internal/upstream/github/token_provider.go.
use svm_go.Prelude.{
  ◌≡◌, ◌↔◌, ◌⊎◌, sym, true, false, List, [], ◌∷◌, ◌++◌, Str, arith, ℤ, is_empty, lookup, insert,
  lookup-insert, str_eq, str_eq_iff, Member, Member-append, Bool-cases, Option-cases, inl, inr,
  if◌then◌else◌,
}
use svm_go.Cache.Clock.{Time, Duration, add, before}
use svm_go.Upstream.Tokens.{
  RoundRobinTokenProvider, add_tokens, new_token_provider, has_token, is_in_cooldown,
  observe_rate_limited_token,
}

-- No element stands twice.
abbrev pub NoRepeat : List Str → Type 0
NoRepeat [] = Unit
NoRepeat (t ∷ ts) = (¬ Member t ts) × NoRepeat ts

NoRepeat-append : (ts : List Str) (t : Str) → NoRepeat ts → ¬ Member t ts → NoRepeat (ts ++ t ∷ [])
NoRepeat-append [] t d new = (λ m. m, tt)
NoRepeat-append (s ∷ ts) t d new = (
  λ m. elim ((Member-append s ts (t ∷ [])).0 m) [
    | inl old ↦ d.0 old
    | inr (inl same) ↦ new (inl (sym same))
    | inr (inr none_left) ↦ none_left
  ],
  NoRepeat-append ts t d.1 (λ m. new (inr m)),
)

-- The list and the set of tokens agree, and hold no token twice and no empty one.
pub record IsBuilt (p : RoundRobinTokenProvider) : Type 0 where
  pub no_repeat : NoRepeat p.tokens
  pub listed : (t : Str) → has_token t p ≡ true → Member t p.tokens
  pub known : (t : Str) → Member t p.tokens → has_token t p ≡ true
  pub not_empty : (t : Str) → Member t p.tokens → is_empty t ≡ false

-- What the loop over the tokens leaves: those of before and those of the list.
record Added (ts : List Str) (p p' : RoundRobinTokenProvider) : Type 0 where
  built : IsBuilt p'
  from_old : (t : Str) → Member t p.tokens → Member t p'.tokens
  from_new : (t : Str) → Member t ts → is_empty t ≡ false → Member t p'.tokens
  nothing_else : (t : Str) → Member t p'.tokens → Member t p.tokens ⊎ Member t ts

abbrev with_token : Str → RoundRobinTokenProvider → RoundRobinTokenProvider
with_token t p = record p { tokens = p.tokens ++ t ∷ []; token_set = insert t tt p.token_set }

has_token-with_token :
    (t s : Str) (p : RoundRobinTokenProvider)
    → has_token s (with_token t p) ≡ (if str_eq t s then true else has_token s p)
unfolding has_token
has_token-with_token t s p = ground (arith, lookup-insert t s (tt {0}) p.token_set)

with_token-IsBuilt :
    (t : Str) (p : RoundRobinTokenProvider)
    → is_empty t ≡ false
    → has_token t p ≡ false
    → IsBuilt p
    → IsBuilt (with_token t p)
with_token-IsBuilt t p ne new b = record {
  no_repeat = NoRepeat-append p.tokens t b.no_repeat (λ m. cc (b.known t m, new));
  listed = λ s h. ground (
    arith,
    has_token-with_token t s p,
    str_eq_iff t s,
    b.listed s,
    Member-append s p.tokens (t ∷ []),
  );
  known = λ s m. ground (
    arith,
    has_token-with_token t s p,
    str_eq_iff t s,
    b.known s,
    Member-append s p.tokens (t ∷ []),
  );
  not_empty = λ s m. ground (arith, b.not_empty s, Member-append s p.tokens (t ∷ []));
}

Added-skip :
    (t : Str) (ts : List Str) (p p' : RoundRobinTokenProvider)
    → (is_empty t ≡ true) ⊎ Member t p.tokens
    → Added ts p p'
    → Added (t ∷ ts) p p'
Added-skip t ts p p' old a = record {
  built = a.built;
  from_old = a.from_old;
  from_new = λ s m ne. ground (arith, a.from_new s, a.from_old t);
  nothing_else = λ s m. ground (arith, a.nothing_else s);
}

Added-take :
    (t : Str) (ts : List Str) (p p' : RoundRobinTokenProvider)
    → Added ts (with_token t p) p'
    → Added (t ∷ ts) p p'
Added-take t ts p p' a = record {
  built = a.built;
  from_old = λ s m. a.from_old s ((Member-append s p.tokens (t ∷ [])).1 (inl m));
  from_new = λ s m ne. elim m [
    | inl same ↦ a.from_old s ((Member-append s p.tokens (t ∷ [])).1 (inr (inl same)))
    | inr later ↦ a.from_new s later ne
  ];
  nothing_else = λ s m. ground (arith, a.nothing_else s, Member-append s p.tokens (t ∷ []));
}

add_tokens-Added :
    (ts : List Str) (p : RoundRobinTokenProvider) → IsBuilt p → Added ts p (add_tokens ts p)
unfolding add_tokens
add_tokens-Added [] p b = record {
  built = b;
  from_old = λ t m. m;
  from_new = λ t m ne. absurd m;
  nothing_else = λ t m. inl m;
}
add_tokens-Added (t ∷ ts) p b = elim (Bool-cases (is_empty t)) [
  | inl empty ↦ rw empty (Added-skip t ts p (add_tokens ts p) (inl empty) (add_tokens-Added ts p b))
  | inr ne ↦ elim (Option-cases (lookup t p.token_set)) [
    | inl new ↦
        rw (ne, new)
          (Added-take t ts p (add_tokens ts (with_token t p)) (
            add_tokens-Added ts (with_token t p)
              (with_token-IsBuilt t p ne (unfold has_token in ground arith) b)))
    | inr (u, old) ↦
        rw (ne, old)
          (Added-skip t ts p (add_tokens ts p) (inr (b.listed t (unfold has_token in ground arith)))
            (add_tokens-Added ts p b))
  ]
]

-- The provider keeps the tokens that are not empty, each once, and nothing else.
pub new_token_provider-IsBuilt :
    (ts : List Str) (threshold : ℤ) (d : Duration)
    → IsBuilt (new_token_provider ts threshold d)
      × ((t : Str)
          → Member t (new_token_provider ts threshold d).tokens
            ↔ (Member t ts × (is_empty t ≡ false)))
unfolding new_token_provider
new_token_provider-IsBuilt ts threshold d =
    let p : RoundRobinTokenProvider = record {
      tokens = [];
      token_set = [];
      next_index = 0;
      threshold = threshold;
      cooldown_duration = d;
      remaining = [];
      cooldown_until = [];
    } in
    let a = add_tokens-Added ts p (record {
      no_repeat = tt;
      listed = λ t h. absurd (unfold has_token lookup in cc h);
      known = λ t m. absurd m;
      not_empty = λ t m. absurd m;
    }) in
    (
      a.built,
      λ t. (
        λ m. (fresh t (a.nothing_else t m), a.built.not_empty t m),
        λ (m, ne). a.from_new t m ne,
      ),
    )
  where
    fresh : (t : Str) → ⊥ ⊎ Member t ts → Member t ts
    fresh t (inl none_left) = absurd none_left
    fresh t (inr m) = m

-- After a 403 or 429 for a known token, that token is in cooldown exactly until the cooldown is
-- over, and no other token is affected.
pub observe_rate_limited_token-is_in_cooldown :
    (now later : Time) (t s : Str) (p : RoundRobinTokenProvider)
    → IsBuilt p
    → Member t p.tokens
    → is_in_cooldown later s (observe_rate_limited_token now t p) ≡ (
        if str_eq t s then before later (add now p.cooldown_duration) else is_in_cooldown later s p)
unfolding observe_rate_limited_token is_in_cooldown
observe_rate_limited_token-is_in_cooldown now later t s p b m =
    rw (b.not_empty t m, b.known t m)
      (ground (arith, lookup-insert t s (add now p.cooldown_duration) p.cooldown_until))
