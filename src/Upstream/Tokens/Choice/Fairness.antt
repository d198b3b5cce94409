-- ===== src/Upstream/Tokens/Choice/Fairness.antt =====
-- The rotation of `NextToken` (internal/upstream/github/token_provider.go) while nothing is known
-- against any token.
use svm_go.Prelude.{
  ℕ, zero, suc, ◌+◌, ◌-◌, ◌%◌, ◌^◌, ◌<◌, ◌≡◌, ◌∙◌, refl, ap, sym, Bool, true, false, some, List, [],
  ◌∷◌, Str, arith, length, lookup, positive,
}
use native.Mathlib.Nat.{mod-add-mod, mod-eq_of_lt, add-zero}
use svm_go.Cache.Clock.{Time}
use svm_go.Upstream.Tokens.{
  RoundRobinTokenProvider, first_from, token_at, turn, choose, next_token, is_preferred,
  is_in_cooldown, uint64,
}
use svm_go.Upstream.Tokens.Rotation.{
  drop, rotate, drop_all, drop_head, token_at-rotate, length-rotate,
}
use svm_go.Upstream.Tokens.Choice.{turn-lt}

-- The tokens of so many calls in a row.
unfoldable pub next_tokens : Time → ℕ → RoundRobinTokenProvider → List Str
next_tokens now zero p = []
next_tokens now (suc n) p = let (t, p') = next_token now p in t ∷ next_tokens now n p'

turn_of_index :
    (p : RoundRobinTokenProvider) → p.next_index < 2 ^ 64 → turn p ≡ p.next_index % length p.tokens
turn_of_index p h =
    let same : uint64 (uint64 (p.next_index + 1) + 2 ^ 64 - 1) ≡ p.next_index = omega arith in
    ap (λ i. i % length p.tokens) same

-- With no threshold and no cooldown every token is preferred.
pub record IsFresh (p : RoundRobinTokenProvider) : Type 0 where
  pub no_threshold : positive p.threshold ≡ false
  pub no_cooldown : p.cooldown_until ≡ []

IsFresh-is_preferred :
    (now : Time) (t : Str) (p : RoundRobinTokenProvider) → IsFresh p → is_preferred now t p ≡ true
unfolding is_preferred is_in_cooldown
IsFresh-is_preferred now t p f = rw (f.no_cooldown, f.no_threshold) (unfold lookup in refl)

first_from_all :
    (test : Str → Bool) (ts : List Str) (i : ℕ)
    → ((t : Str) → test t ≡ true)
    → i < length ts
    → first_from test ts i 0 (length ts) ≡ some (token_at ts i)
unfolding first_from
first_from_all test [] i all h = absurd (omega arith)
first_from_all test (t ∷ ts) i all h =
    let place : (i + 0) % length (t ∷ ts) ≡ i = rw add-zero (mod-eq_of_lt h) in
    rw all (ap (λ j. some (token_at (t ∷ ts) j)) place)

choose_fresh :
    (now : Time) (p : RoundRobinTokenProvider)
    → IsFresh p
    → 0 < length p.tokens
    → choose now p ≡ token_at p.tokens (turn p)
unfolding choose
choose_fresh now p f h = ground (
  arith,
  first_from_all (λ t. is_preferred now t p) p.tokens (turn p) (λ t. IsFresh-is_preferred now t p f)
      (turn-lt p h),
)

next_token_fresh :
    (now : Time) (p : RoundRobinTokenProvider)
    → IsFresh p
    → 0 < length p.tokens
    → p.next_index + 1 < 2 ^ 64
    → next_token now p ≡ (
      token_at p.tokens (p.next_index % length p.tokens),
      record p { next_index = p.next_index + 1 },
    )
unfolding next_token
next_token_fresh now p f h small =
    let i : uint64 (p.next_index + 1) ≡ p.next_index + 1 = omega arith in
    let c : choose now p ≡ token_at p.tokens (p.next_index % length p.tokens) =
      choose_fresh now p f h ∙ ap (token_at p.tokens) (turn_of_index p (omega arith)) in
    ground (arith, i, c)

next_tokens_from :
    (now : Time) (start k o : ℕ) (p : RoundRobinTokenProvider)
    → IsFresh p
    → p.next_index ≡ start + o
    → o + k ≡ length p.tokens
    → start + length p.tokens < 2 ^ 64
    → next_tokens now k p ≡ drop o (rotate (start % length p.tokens) p.tokens)
unfolding next_tokens
next_tokens_from now start zero o p f at size small = sym (
    drop_all o (rotate (start % length p.tokens) p.tokens)
      (omega (arith, length-rotate (start % length p.tokens) p.tokens)))
next_tokens_from now start (suc k) o p f at size small =
    let n = length p.tokens in
    let some_left : 0 < n = omega arith in
    let place : (start % n + o) % n ≡ p.next_index % n =
      mod-add-mod start n o ∙ ap (λ j. j % n) (sym at) in
    let rest =
      next_tokens_from now start k (suc o) (record p { next_index = p.next_index + 1 })
        (record { no_threshold = f.no_threshold; no_cooldown = f.no_cooldown }) (omega arith)
        (omega arith) small in
    rw
      (
        next_token_fresh now p f some_left (omega arith),
        drop_head o (rotate (start % n) p.tokens)
            (omega (arith, length-rotate (start % n) p.tokens)),
        token_at-rotate (start % n) o p.tokens (omega arith) (omega arith),
        place,
        rest,
      )
      refl

-- With no threshold and no cooldown, as many calls as there are tokens hand out each token once, in
-- their order, from the one whose turn it is, as long as the counter does not wrap.
pub next_tokens_round :
    (now : Time) (p : RoundRobinTokenProvider)
    → IsFresh p
    → p.next_index + length p.tokens < 2 ^ 64
    → next_tokens now (length p.tokens) p ≡ rotate (p.next_index % length p.tokens) p.tokens
next_tokens_round now p f small =
    next_tokens_from now p.next_index (length p.tokens) 0 p f (omega arith) (omega arith) small
