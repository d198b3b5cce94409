-- ===== src/Upstream/Tokens.antt =====
-- internal/upstream/github/token_provider.go. `now` is an argument of the operations that read the
-- clock: a call reads one time.
pub mod Rotation
pub mod Choice
pub mod Build
use svm_go.Prelude.{
  ℕ, zero, suc, ◌+◌, ◌-◌, ◌%◌, ◌^◌, Bool, true, false, not, Option, none, some, List, [], ◌∷◌, ◌++◌,
  Str, Assoc, ℤ, pos, negsuc, is_empty, lookup, insert, get_elem?, length, ltb, leb, positive,
  pos_part, if◌then◌else◌,
}
use mathlib.Core.Option.{get_or}
use svm_go.Cache.Clock.{Time, Duration, add, before, minute}

pub record RoundRobinTokenProvider : Type 0 where
  pub tokens : List Str
  pub token_set : Assoc (Unit {0})
  pub next_index : ℕ
  pub threshold : ℤ
  pub cooldown_duration : Duration
  pub remaining : Assoc ℕ
  pub cooldown_until : Assoc Time

abbrev pub default_rate_limit_cooldown : Duration
default_rate_limit_cooldown = pos minute

-- The loop of the constructor: an empty token and one seen before are left out.
unfoldable pub add_tokens : List Str → RoundRobinTokenProvider → RoundRobinTokenProvider
add_tokens [] p = p
add_tokens (token ∷ rest) p = add_tokens rest (
    if is_empty token then p else elim (lookup token p.token_set) [
      | some _ ↦ p
      | none ↦ record p { tokens = p.tokens ++ token ∷ []; token_set = insert token tt p.token_set }
    ])

unfoldable pub new_token_provider : List Str → ℤ → Duration → RoundRobinTokenProvider
unfolding add_tokens
new_token_provider tokens threshold cooldown_duration = add_tokens tokens (record {
  tokens = [];
  token_set = [];
  next_index = 0;
  threshold = threshold;
  cooldown_duration = cooldown_duration;
  remaining = [];
  cooldown_until = [];
})

unfoldable pub new_threshold_token_provider : List Str → ℤ → RoundRobinTokenProvider
unfolding new_token_provider
new_threshold_token_provider tokens threshold =
    new_token_provider tokens threshold default_rate_limit_cooldown

unfoldable pub has_token : Str → RoundRobinTokenProvider → Bool
has_token token p = elim (lookup token p.token_set) [ none ↦ false | some _ ↦ true ]

unfoldable pub is_in_cooldown : Time → Str → RoundRobinTokenProvider → Bool
is_in_cooldown now token p = elim (lookup token p.cooldown_until) [
  | none ↦ false
  | some until ↦ before now until
]

unfoldable pub is_preferred : Time → Str → RoundRobinTokenProvider → Bool
is_preferred now token p =
    if is_in_cooldown now token p
    then false
    else if not (positive p.threshold)
    then true
    else elim (lookup token p.remaining) [
      | none ↦ true
      | some remaining ↦ leb (pos_part p.threshold) remaining
    ]

abbrev pub token_at : List Str → ℕ → Str
token_at ts i = get_or (get_elem? ts i) []

-- A loop over the offsets of `NextToken`: the first token from `index` on that passes the test.
unfoldable pub first_from : (Str → Bool) → List Str → ℕ → ℕ → ℕ → Option Str
first_from test ts index offset zero = none
first_from test ts index offset (suc rounds) =
    let token = token_at ts ((index + offset) % length ts) in
    let rest = first_from test ts index (offset + 1) rounds in
    if test token then some token else rest

abbrev pub uint64 : ℕ → ℕ
uint64 n = n % 2 ^ 64

-- The result of `atomic.AddUint64(&p.nextIndex, 1) - 1`, and the index that it makes.
abbrev pub turn : RoundRobinTokenProvider → ℕ
turn p = uint64 (uint64 (p.next_index + 1) + 2 ^ 64 - 1) % length p.tokens

unfoldable pub choose : Time → RoundRobinTokenProvider → Str
choose now p =
    let index = turn p in
    let n = length p.tokens in
    elim (first_from (λ t. is_preferred now t p) p.tokens index 0 n) [
      | some token ↦ token
      | none ↦ elim (first_from (λ t. not (is_in_cooldown now t p)) p.tokens index 0 n) [
        | some token ↦ token
        | none ↦ token_at p.tokens index
      ]
    ]

unfoldable pub next_token : Time → RoundRobinTokenProvider → Str × RoundRobinTokenProvider
next_token now p =
    if leb (length p.tokens) 0
    then ([], p)
    else (choose now p, record p { next_index = uint64 (p.next_index + 1) })

unfoldable pub observe_token_remaining : Str → ℤ → RoundRobinTokenProvider → RoundRobinTokenProvider
observe_token_remaining token remaining p =
    if is_empty token
    then p
    else if not (has_token token p)
    then p
    else record p { remaining = insert token (pos_part remaining) p.remaining }

unfoldable pub observe_rate_limited_token :
    Time → Str → RoundRobinTokenProvider → RoundRobinTokenProvider
observe_rate_limited_token now token p =
    if is_empty token
    then p
    else if not (has_token token p)
    then p
    else record p { cooldown_until = insert token (add now p.cooldown_duration) p.cooldown_until }
