-- ===== src/Cache.antt =====
-- internal/cache: the record of a cached payload (record.go), the policy (policy.go), the two
-- revalidation predicates (state.go), and time.
pub mod Clock
pub mod Policy
pub mod State
pub mod Key
use svm_go.Prelude.{ℕ, Str}
use svm_go.Cache.Clock.{Time}

pub record Record : Type 0 where
  pub payload : Str
  pub etag : Str
  pub url : Str
  pub fetched_at : Time
  pub last_hit_at : Time
  pub last_checked_at : Time
  pub expires_at : Time
  pub source_status : ℕ
