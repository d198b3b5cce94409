-- ===== src/Tests/Tokens.antt =====
-- Runs of internal/upstream/github/token_provider.go.
use svm_go.Prelude.{
  ◌%◌, ◌≡◌, refl, not, List, [], ◌∷◌, Str, codes, pos, arith, str_eq, lookup, delete, insert,
  length,
}
use svm_go.Upstream.Tokens
use svm_go.Upstream.Tokens.{
  RoundRobinTokenProvider, new_token_provider, new_threshold_token_provider, next_token, turn,
  token_at, is_preferred, is_in_cooldown, observe_rate_limited_token, observe_token_remaining,
  default_rate_limit_cooldown,
}
use svm_go.Upstream.Tokens.Rotation.{rotate}
use svm_go.Upstream.Tokens.Choice.{best, next_token-best}
use svm_go.Upstream.Tokens.Choice.Fairness.{next_tokens, IsFresh, next_tokens_round}
use svm_go.Upstream.Tokens.Build.{IsBuilt, new_token_provider-IsBuilt}

program : Unit {0}
unfolding Tokens.add_tokens Tokens.new_token_provider Tokens.new_threshold_token_provider
    Tokens.has_token Tokens.is_in_cooldown Tokens.is_preferred Tokens.first_from Tokens.choose
    Tokens.next_token Tokens.observe_token_remaining Tokens.observe_rate_limited_token lookup delete
    insert str_eq next_tokens
program = tt

abbrev names : List Str
names = codes "t1" ∷ [] ∷ codes "t2" ∷ codes "t1" ∷ codes "t3" ∷ []

abbrev fresh : RoundRobinTokenProvider
fresh = new_threshold_token_provider names (pos 0)

abbrev limited : RoundRobinTokenProvider
limited = observe_rate_limited_token 1 (codes "t1") fresh

built : fresh.tokens ≡ codes "t1" ∷ codes "t2" ∷ codes "t3" ∷ []
unfolding program
built = refl

skips : (next_token 2 limited).0 ≡ codes "t2"
unfolding program
skips = refl

fresh-IsBuilt : IsBuilt fresh
unfolding program
fresh-IsBuilt = (new_token_provider-IsBuilt names (pos 0) default_rate_limit_cooldown).0

next_token-best_example :
    (next_token 2 limited).0
    ≡ best
        (λ t. is_preferred 2 t limited)
        (λ t. not (is_in_cooldown 2 t limited))
        (rotate (turn limited) limited.tokens)
        (token_at limited.tokens (turn limited))
unfolding program
next_token-best_example = next_token-best 2 limited (omega arith)

fresh-IsFresh : IsFresh fresh
unfolding program
fresh-IsFresh = record { no_threshold = refl; no_cooldown = refl }

next_tokens_round_example :
    next_tokens 2 (length fresh.tokens) fresh
    ≡ rotate (fresh.next_index % length fresh.tokens) fresh.tokens
unfolding program
next_tokens_round_example = next_tokens_round 2 fresh fresh-IsFresh (omega arith)
