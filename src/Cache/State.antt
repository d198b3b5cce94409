-- ===== src/Cache/State.antt =====
-- internal/cache/state.go
use svm_go.Prelude.{Bool, not}
use svm_go.Cache.Clock.{Time, Duration, add, negate, before, after}

unfoldable pub is_revalidation_eligible : Time → Time → Duration → Bool
is_revalidation_eligible last_hit_at now lookback =
    not (before last_hit_at (add now (negate lookback)))

unfoldable pub is_revalidation_due : Time → Time → Duration → Bool
is_revalidation_due last_checked_at now interval = not (after (add last_checked_at interval) now)
