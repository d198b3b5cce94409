-- ===== src/Version.antt =====
-- internal/service/version: the resolution of a version request from the cache or from upstream.
-- This file has the types of service.go; the children have the parts.
pub mod Status
pub mod Store
pub mod Prep
pub mod Activity
pub mod Queue
pub mod World
pub mod Records
pub mod Cached
pub mod Respond
pub mod Handle
pub mod Refresh
pub mod Groups
pub mod Entries
pub mod Scheduler
pub mod Workers
pub mod Keeps
use svm_go.Prelude.{ℕ, Bool, true, false, Str}

pub record Request : Type 0 where
  pub raw_url : Str
  pub force_refresh : Bool

pub data CacheStatus : Type 0 where
  bypass hit miss revalidated : CacheStatus

-- What `Response.Body` holds: the raw JSON of a payload, an `ErrorResponse` with its error and its
-- detail, or the map with the keys `error` and `message`, whose message is a decoded JSON value
-- (`true`) or the status text (`false`).
pub data Body : Type 0 where
  payload : Str → Body
  error_response : Str → Str → Body
  api_error : Bool → Str → Body

pub record Response : Type 0 where
  pub status_code : ℕ
  pub body : Body
  pub cache_status : CacheStatus
  pub cache_key : Str
  pub upstream_status : ℕ
