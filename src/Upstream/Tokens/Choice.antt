-- ===== src/Upstream/Tokens/Choice.antt =====
-- Which token `NextToken` (internal/upstream/github/token_provider.go) hands out.
pub mod Fairness
use svm_go.Prelude.{
  ℕ, zero, suc, ◌+◌, ◌%◌, ◌≤◌, ◌<◌, ◌≡◌, ◌↔◌, ◌⊎◌, ◌∙◌, refl, ap, sym, Bool, true, false, not,
  Option, none, some, List, [], ◌∷◌, ◌++◌, Str, arith, length, take, All, Member, Member-append,
  All-append, leb, ltb, positive, lookup, if◌then◌else◌, Bool-cases, Option-cases, inl, inr,
}
use svm_go.Cache.Clock.{Time}
use svm_go.Upstream.Tokens.{
  RoundRobinTokenProvider, first_from, token_at, turn, choose, next_token, is_preferred,
  is_in_cooldown,
}
use svm_go.Upstream.Tokens.Rotation.{drop, rotate, first, first_from-rotate}

Member-rotate : (t : Str) (i : ℕ) (ts : List Str) → Member t (rotate i ts) → Member t ts
Member-rotate t i ts h = elim ((Member-append t (drop i ts) (take i ts)).0 h) [
  | inl l ↦ Member-drop i ts l
  | inr r ↦ Member-take i ts r
]
  where
    Member-drop : (i : ℕ) (ts : List Str) → Member t (drop i ts) → Member t ts
    Member-drop zero ts h = h
    Member-drop (suc i) [] h = h
    Member-drop (suc i) (x ∷ ts) h = inr (Member-drop i ts h)

    Member-take : (i : ℕ) (ts : List Str) → Member t (take i ts) → Member t ts
    Member-take zero ts h = elim h [ ]
    Member-take (suc i) [] h = h
    Member-take (suc i) (x ∷ ts) (inl h) = inl h
    Member-take (suc i) (x ∷ ts) (inr h) = inr (Member-take i ts h)

rotate-Member : (t : Str) (i : ℕ) (ts : List Str) → Member t ts → Member t (rotate i ts)
rotate-Member t zero ts h = (Member-append t ts []).1 (inl h)
rotate-Member t (suc i) [] h = h
rotate-Member t (suc i) (x ∷ ts) (inl h) =
    (Member-append t (drop i ts) (x ∷ take i ts)).1 (inr (inl h))
rotate-Member t (suc i) (x ∷ ts) (inr h) =
    elim ((Member-append t (drop i ts) (take i ts)).0 (rotate-Member t i ts h)) [
      | inl l ↦ (Member-append t (drop i ts) (x ∷ take i ts)).1 (inl l)
      | inr r ↦ (Member-append t (drop i ts) (x ∷ take i ts)).1 (inr (inr r))
    ]

first-some :
    (test : Str → Bool) (l : List Str) {t : Str}
    → first test l ≡ some t
    → (test t ≡ true) × Member t l
unfolding first
first-some test [] h = absurd (cc h)
first-some test (x ∷ l) {t} h = ground (arith, first-some test l {t = t})

first-none :
    (test : Str → Bool) (l : List Str) {t : Str} → first test l ≡ none → Member t l → test t ≡ false
unfolding first
first-none test [] h m = absurd m
first-none test (x ∷ l) {t} h m = ground (arith, first-none test l {t = t})

Member-length : (t : Str) (l : List Str) → Member t l → 0 < length l
Member-length t [] m = absurd m
Member-length t (x ∷ l) m = omega arith

is_preferred_cool :
    (now : Time) (t : Str) (p : RoundRobinTokenProvider)
    → is_preferred now t p ≡ true
    → is_in_cooldown now t p ≡ false
unfolding is_preferred
is_preferred_cool now t p h = ground arith

-- The three choices of `NextToken`, over the tokens from the turn on.
pub best : (preferred usable : Str → Bool) → List Str → Str → Str
best preferred usable l last = elim (first preferred l) [
  | some token ↦ token
  | none ↦ elim (first usable l) [ some token ↦ token | none ↦ last ]
]

best_preferred :
    (preferred usable : Str → Bool) (l : List Str) (last t : Str)
    → Member t l
    → preferred t ≡ true
    → preferred (best preferred usable l last) ≡ true
unfolding best
best_preferred preferred usable l last t m good = elim (Option-cases (first preferred l)) [
  | inl miss ↦ absurd (ground (arith, first-none preferred l miss m))
  | inr (s, found) ↦ rw (found, best) (first-some preferred l found).0
]

best_usable :
    (preferred usable : Str → Bool) (l : List Str) (last t : Str)
    → ((s : Str) → preferred s ≡ true → usable s ≡ true)
    → Member t l
    → usable t ≡ true
    → usable (best preferred usable l last) ≡ true
unfolding best
best_usable preferred usable l last t sub m good = elim (Option-cases (first preferred l)) [
  | inl miss ↦
      rw (miss, best)
        (elim (Option-cases (first usable l)) [
          | inl miss' ↦ absurd (ground (arith, first-none usable l miss' m))
          | inr (s, found) ↦ rw found (first-some usable l found).0
        ])
  | inr (s, found) ↦ rw (found, best) (sub s (first-some preferred l found).0)
]

not-true : {b : Bool} → not b ≡ true → b ≡ false
not-true {b = true} h = cc
not-true {b = false} h = refl

pub turn-lt : (p : RoundRobinTokenProvider) → 0 < length p.tokens → turn p < length p.tokens
turn-lt p h = omega arith

-- The token that is handed out is the first preferred one from the turn on, round the list; where
-- no token is preferred, the first one that is not in cooldown; where all are, the one whose turn
-- it is.
pub next_token-best :
    (now : Time) (p : RoundRobinTokenProvider)
    → 0 < length p.tokens
    → (next_token now p).0
      ≡ best
          (λ t. is_preferred now t p)
          (λ t. not (is_in_cooldown now t p))
          (rotate (turn p) p.tokens)
          (token_at p.tokens (turn p))
unfolding next_token choose best
next_token-best now p h =
    let i = turn-lt p h in
    ground (
      arith,
      first_from-rotate (λ t. is_preferred now t p) p.tokens (turn p) i,
      first_from-rotate (λ t. not (is_in_cooldown now t p)) p.tokens (turn p) i,
    )

-- While a token is not in cooldown, no token in cooldown is handed out.
pub next_token_avoids_cooldown :
    (now : Time) (p : RoundRobinTokenProvider) (t : Str)
    → Member t p.tokens
    → is_in_cooldown now t p ≡ false
    → is_in_cooldown now (next_token now p).0 p ≡ false
next_token_avoids_cooldown now p t m cool =
    let usable =
      best_usable (λ s. is_preferred now s p) (λ s. not (is_in_cooldown now s p))
        (rotate (turn p) p.tokens) (token_at p.tokens (turn p)) t
        (λ s h. ap not (is_preferred_cool now s p h)) (rotate-Member t (turn p) p.tokens m)
        (ap not cool) in
    rw (next_token-best now p (Member-length t p.tokens m)) (not-true usable)

-- While a token is preferred, only preferred tokens are handed out.
pub next_token_prefers :
    (now : Time) (p : RoundRobinTokenProvider) (t : Str)
    → Member t p.tokens
    → is_preferred now t p ≡ true
    → is_preferred now (next_token now p).0 p ≡ true
next_token_prefers now p t m good = rw (next_token-best now p (Member-length t p.tokens m)) (
    best_preferred (λ s. is_preferred now s p) (λ s. not (is_in_cooldown now s p))
      (rotate (turn p) p.tokens) (token_at p.tokens (turn p)) t
      (rotate-Member t (turn p) p.tokens m) good)
