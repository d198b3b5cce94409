-- ===== src/Version/World.antt =====
-- What the service of internal/service/version/service.go keeps and reaches: the configuration of
-- `Service`, the state of its parts, and what comes from outside during a call.
use svm_go.Prelude.{ℕ, Bool, Option, none, some, List, Str, Assoc, positive, if◌then◌else◌}
use svm_go.Cache.Clock.{Time}
use svm_go.Cache.Policy.{Policy, default_policy}
use svm_go.Metrics.{Metrics}
use svm_go.Platform.{Platform}
use svm_go.Upstream.Tokens.{RoundRobinTokenProvider}
use svm_go.Version.Activity.{ActivityTracker, record_activity}
use svm_go.Version.Prep.{RequestPrepCache, build_allowed_host_set}
use svm_go.Version.Status.{Reader}

-- The fields of `Service` that no call changes.
pub record Config : Type 0 where
  pub policy : Policy
  pub allowed_host_set : Assoc (Unit {0})

-- What `NewService` makes of its parameters: a negative TTL and a size limit that are not positive
-- take their defaults.
unfoldable pub new_service_config : Platform → List Str → Policy → Config
new_service_config pl allowed_hosts policy = record {
  policy = record policy {
    negative_ttl =
        if positive policy.negative_ttl then policy.negative_ttl else default_policy.negative_ttl;
    max_upstream_response_bytes =
        if positive policy.max_upstream_response_bytes
        then policy.max_upstream_response_bytes
        else default_policy.max_upstream_response_bytes;
  };
  allowed_host_set = build_allowed_host_set pl allowed_hosts;
}

-- A call of the upstream client: the URL, the token, and the etag of a conditional request.
pub record Sent : Type 0 where
  pub url : Str
  pub token : Str
  pub etag : Str

-- The parts that a call changes. `hit_recorder` and `metrics` may be nil. `sent` lists the calls of
-- the upstream client, oldest first: what the client does is not part of the program's state.
pub record World {ℓ} (S : Type ℓ) : Type ℓ where
  pub store : S
  pub request_prep : RequestPrepCache
  pub hit_recorder : Option ActivityTracker
  pub tokens : RoundRobinTokenProvider
  pub metrics : Option Metrics
  pub sent : List Sent

-- What the program reads of an `http.Response`.
pub record UpstreamResponse : Type 0 where
  pub status_code : ℕ
  pub status : Str
  pub etag : Str
  pub remaining : Str
  pub body : Reader

pub data Fetched : Type 0 where
  fetched : UpstreamResponse → Fetched
  fetch_error : Fetched

-- What comes from outside during a call: the clock of the service, the clock of the token provider
-- when a token is chosen and when a response is observed, the answer of upstream to a request, and
-- whether the context is done when that answer is an error.
pub record Outside : Type 0 where
  pub now : Time
  pub choosing_at : Time
  pub observing_at : Time
  pub upstream : Sent → Fetched
  pub ctx_done : Bool

module _ {S : Type 0} where
  -- `recordActivity`; `now` is never the zero time where the clock is read.
  abbrev pub world_activity : Str → Time → World S → World S
  world_activity key now w = record w {
    hit_recorder = elim w.hit_recorder [
      | none ↦ none
      | some t ↦ some (record_activity now key now t).1
    ];
  }
