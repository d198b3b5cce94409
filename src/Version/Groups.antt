-- ===== src/Version/Groups.antt =====
-- The two groups of internal/service/version/service.go that keep calls for one key from running
-- twice: `backgroundRefreshGroup`, and `foregroundRequestGroup`, whose callers share one answer. Each
-- function here is what runs under the mutex at one time; other calls may come between two of them.
pub mod Background
pub mod Foreground
use svm_go.Prelude.{
  ℕ, zero, suc, ◌+◌, Bool, true, false, not, ◌&&◌, Option, none, some, List, [], ◌∷◌, ◌++◌, Str,
  Assoc, is_empty, lookup, insert, delete, length, get_elem?, codes, if◌then◌else◌,
}
use svm_go.Version.{Response, bypass, error_response}
use svm_go.Version.Respond.{upstream_response}

-- The keys in flight.
pub record BackgroundRefreshGroup : Type 0 where
  pub in_flight : Assoc (Unit {0})

abbrev pub new_background_refresh_group : BackgroundRefreshGroup
new_background_refresh_group = record { in_flight = [] }

unfoldable pub start : Str → BackgroundRefreshGroup → Bool × BackgroundRefreshGroup
start key g = elim (lookup key g.in_flight) [
  | some _ ↦ (false, g)
  | none ↦ (true, record g { in_flight = insert key tt g.in_flight })
]

unfoldable pub done : Str → BackgroundRefreshGroup → BackgroundRefreshGroup
done key g = record g { in_flight = delete key g.in_flight }

-- `Do` and `DoSync` up to the run of `fn`: whether it is to run, after which `done` follows.
unfoldable pub admit : Str → BackgroundRefreshGroup → Bool × BackgroundRefreshGroup
unfolding start
admit key g = if is_empty key then (false, g) else start key g

-- A call, which its callers hold: its key, and its response once `done` is closed.
pub record ForegroundCall : Type 0 where
  pub key : Str
  pub response : Option Response

-- The calls that were made, oldest first, and the index of the call in flight for a key.
pub record ForegroundRequestGroup : Type 0 where
  pub calls : List ForegroundCall
  pub in_flight : Assoc ℕ

abbrev pub new_foreground_request_group : ForegroundRequestGroup
new_foreground_request_group = record { calls = []; in_flight = [] }

-- The first part of `Do`: the call that the caller waits for, and whether it has just been started.
unfoldable pub enter : Str → ForegroundRequestGroup → (ℕ × Bool) × ForegroundRequestGroup
enter key g = elim (lookup key g.in_flight) [
  | some i ↦ ((i, false), g)
  | none ↦ (
    (length g.calls, true),
    record g {
      calls = g.calls ++ record { key = key; response = none } ∷ [];
      in_flight = insert key (length g.calls) g.in_flight;
    },
  )
]

unfoldable pub set_response : ℕ → Response → List ForegroundCall → List ForegroundCall
set_response i r [] = []
set_response zero r (c ∷ l) = record c { response = some r } ∷ l
set_response (suc i) r (c ∷ l) = c ∷ set_response i r l

-- The end of the goroutine of a call, when `fn` has returned.
unfoldable pub finish : ℕ → Str → Response → ForegroundRequestGroup → ForegroundRequestGroup
unfolding set_response
finish i key r g = record g { calls = set_response i r g.calls; in_flight = delete key g.in_flight }

abbrev pub request_canceled : Str → Response
request_canceled key =
    upstream_response 504 (error_response (codes "Request canceled") []) bypass key 0

-- The `select` of `Do`: an answer, or none while the caller waits. Where both the call and the context
-- are done it takes either: `favour_ctx` says which.
unfoldable pub wait : Bool → Bool → ℕ → Str → ForegroundRequestGroup → Option Response
wait ctx_done favour_ctx i key g =
    if ctx_done && favour_ctx then some (request_canceled key) else elim (get_elem? g.calls i) [
      | none ↦ if ctx_done then some (request_canceled key) else none
      | some c ↦ elim c.response [
        | some r ↦ some r
        | none ↦ if ctx_done then some (request_canceled key) else none
      ]
    ]
