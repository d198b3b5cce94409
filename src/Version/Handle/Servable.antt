-- ===== src/Version/Handle/Servable.antt =====
-- Which records `Handle` of internal/service/version/service.go may serve, and for how long.
use svm_go.Cache.Clock.{Duration}
use svm_go.Version.Records.{
  IsGone, is_negative_cacheable_status-IsGone, is_negative_cacheable_status-not,
}
use svm_go.Prelude.{
  ◌⊎◌, ◌↔◌, ℕ, zero, suc, ◌+◌, ◌<◌, ◌≡◌, refl, Bool, true, false, none, some, Str, ℤ, pos, negsuc,
  positive, pos_part, arith, Bool-cases, inl, inr, if◌then◌else◌,
}
use svm_go.Cache.{Record}
use svm_go.Cache.Clock.{Time, is_zero, before}
use svm_go.Cache.Policy.{Policy}
use svm_go.Version.{Response}
use svm_go.Version.Cached.{serve_record, hit_response, fresh_record, negative_record}
use svm_go.Version.Status.{
  is_negative_cacheable_status, should_serve_negative_cached_record, is_hard_expired,
  hard_expires_at,
}
use svm_go.Version.World.{UpstreamResponse}

-- A record that is not of a 404 or 410 may be served for the hard TTL: without a hard TTL always, else
-- until its own end, or where it has none, for the TTL from when it was fetched or, that unknown, last
-- checked, and always where neither is known.
abbrev pub Lives : Duration → Time → Record → Type 0
Lives (pos zero) now r = Unit
Lives (negsuc d) now r = Unit
Lives (pos (suc d)) now r =
    ((0 < r.expires_at) × (now < r.expires_at))
    ⊎ ((r.expires_at ≡ 0) × (0 < r.fetched_at) × (now < r.fetched_at + suc d))
    ⊎ ((r.expires_at ≡ 0)
        × (r.fetched_at ≡ 0)
        × (0 < r.last_checked_at)
        × (now < r.last_checked_at + suc d))
    ⊎ ((r.expires_at ≡ 0) × (r.fetched_at ≡ 0) × (r.last_checked_at ≡ 0))

-- A record may be served with a status: a 404 or 410 until it expires, with its own status, and any
-- other record while it lives, with 200.
pub data Servable (policy : Policy) (now : Time) (r : Record) (status : ℕ) : Type 0 where
  positive_hit :
      (IsGone r.source_status → ⊥)
      → Lives policy.hard_ttl now r
      → status ≡ 200
      → Servable policy now r status
  negative_hit :
      IsGone r.source_status
      → now < r.expires_at
      → status ≡ r.source_status
      → Servable policy now r status

is_zero_iff : (t : Time) → (is_zero t ≡ true) ↔ (t ≡ 0)
is_zero_iff zero = ground arith
is_zero_iff (suc t) = ground arith

is_hard_expired-Lives :
    (ttl : Duration) (now : Time) (r : Record)
    → (is_hard_expired r now ttl ≡ false) ↔ Lives ttl now r
unfolding is_hard_expired
is_hard_expired-Lives (pos zero) now r = ground arith
is_hard_expired-Lives (negsuc d) now r = ground arith
is_hard_expired-Lives (pos (suc d)) now r = elim (Bool-cases (is_zero r.fetched_at)) [
  | inl unknown ↦ rw unknown (
      ground (
        arith,
        is_zero_iff r.expires_at,
        is_zero_iff r.last_checked_at,
        (is_zero_iff r.fetched_at).0 unknown,
      ))
  | inr known ↦ rw known (ground (arith, is_zero_iff r.expires_at, is_zero_iff r.fetched_at))
]

is_zero_pos : (t : Time) → 0 < t → is_zero t ≡ false
is_zero_pos zero h = absurd (omega arith)
is_zero_pos (suc t) h = refl

positive_pos : (d : ℤ) → positive d ≡ true → (n : ℕ) × (d ≡ pos (suc n))
positive_pos (pos zero) h = absurd (cc h)
positive_pos (pos (suc n)) h = (n, refl)
positive_pos (negsuc n) h = absurd (cc h)

pub serve_record-Servable :
    (policy : Policy) (force : Bool) (key : Str) (now : Time) (r : Record) {a : Response}
    → serve_record policy force key now r ≡ some a
    → (force ≡ false) × (a ≡ hit_response a.status_code key r) × Servable policy now r a.status_code
unfolding serve_record should_serve_negative_cached_record
serve_record-Servable policy force key now r h =
    elim (Bool-cases (is_negative_cacheable_status r.source_status)) [
      | inl n ↦ (
        ground arith,
        ground arith,
        negative_hit ((is_negative_cacheable_status-IsGone r.source_status).0 n) (ground arith)
            (ground arith),
      )
      | inr n ↦
          let alive : is_hard_expired r now policy.hard_ttl ≡ false = ground arith in
          (
            ground arith,
            ground arith,
            positive_hit ((is_negative_cacheable_status-not r.source_status).0 n)
                ((is_hard_expired-Lives policy.hard_ttl now r).0 alive) (ground arith),
          )
    ]

pub Servable-serve_record :
    (policy : Policy) (key : Str) (now : Time) (r : Record) (status : ℕ)
    → Servable policy now r status
    → serve_record policy false key now r ≡ some (hit_response status key r)
unfolding serve_record should_serve_negative_cached_record
Servable-serve_record policy key now r status (positive_hit n e s) =
    let positive : is_negative_cacheable_status r.source_status ≡ false =
      (is_negative_cacheable_status-not r.source_status).1 n in
    let alive : is_hard_expired r now policy.hard_ttl ≡ false =
      (is_hard_expired-Lives policy.hard_ttl now r).1 e in
    ground (arith, positive, alive)
Servable-serve_record policy key now r status (negative_hit n e s) =
    let negative : is_negative_cacheable_status r.source_status ≡ true =
      (is_negative_cacheable_status-IsGone r.source_status).1 n in
    ground (arith, negative, is_zero_pos r.expires_at)

-- The record of a 200 answer is served until the hard TTL is over, and from then on is not.
pub serve_record-fresh_record :
    (policy : Policy) (url key : Str) (now later : Time) (resp : UpstreamResponse) (body : Str)
    → resp.status_code ≡ 200
    → positive policy.hard_ttl ≡ true
    → serve_record policy false key later (fresh_record policy url now resp body) ≡ (
        if before later (now + pos_part policy.hard_ttl)
        then some (hit_response 200 key (fresh_record policy url now resp body))
        else none)
unfolding serve_record should_serve_negative_cached_record is_negative_cacheable_status
    is_hard_expired hard_expires_at
serve_record-fresh_record policy url key now later resp body is_200 bounded =
    let (n, d) = positive_pos policy.hard_ttl bounded in
    ground (arith, d, is_zero_pos (now + suc n))

-- The record of a 404 or 410 answer is served with its status until the negative TTL is over, and
-- from then on is not.
pub serve_record-negative_record :
    (policy : Policy) (url key : Str) (now later : Time) (resp : UpstreamResponse) (body : Str)
    → is_negative_cacheable_status resp.status_code ≡ true
    → positive policy.negative_ttl ≡ true
    → serve_record policy false key later (negative_record policy url now resp body) ≡ (
        if before later (now + pos_part policy.negative_ttl)
        then some (hit_response resp.status_code key (negative_record policy url now resp body))
        else none)
unfolding serve_record should_serve_negative_cached_record
serve_record-negative_record policy url key now later resp body negative bounded =
    let (n, d) = positive_pos policy.negative_ttl bounded in
    ground (arith, d, is_zero_pos (now + suc n))
