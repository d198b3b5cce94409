-- ===== src/Version/Handle/Stored.antt =====
-- What `Handle` of internal/service/version/service.go may write to the cache of an answer.
use svm_go.Prelude.{
  codes, ◌≡◌, ◌≢◌, none, [], ◌∷◌, is_empty, ◌==◌, refl, Bool, true, false, Option, some, Str, arith,
  Bool-cases, Option-cases, inl, inr,
}
use svm_go.Cache.{Record}
use svm_go.Cache.Clock.{Time}
use svm_go.Platform.{Platform}
use svm_go.Version.Records.{
  IsGone, IsValidAnswer, IsFresh, IsNegative, IsRevalidated, fresh_record-IsFresh,
  negative_record-IsNegative, read_bounded_body-IsValidAnswer, is_negative_cacheable_status-IsGone,
  is_negative_cacheable_status-not,
}
use svm_go.Version.Cached.{conditional_candidate, fresh_record, negative_record}
use svm_go.Version.Respond.{error_message, respond_ok, store_negative}
use svm_go.Version.Handle.{ReadResult}
use svm_go.Version.Status.{
  is_negative_cacheable_status, should_bypass_cache_write, read, too_large, read_error,
  read_bounded_body,
}
use svm_go.Version.Store.{Lookup, CacheStore}
use svm_go.Version.World.{Config, World, UpstreamResponse, Fetched, fetched, fetch_error}

nonempty : (s : Str) → s ≢ [] → is_empty s ≡ false
nonempty [] h = absurd (h refl)
nonempty (c ∷ s) h = refl

module _ (pl : Platform) (store : CacheStore) (cfg : Config) where
  -- The cache may be asked about: it holds a record that is not of a 404 or 410, with an etag.
  pub record IsConditional (lk : Lookup) (old : Record) : Type 0 where
    pub found : lk.found ≡ some old
    pub positive : IsGone old.source_status → ⊥
    pub tagged : old.etag ≢ []

  -- Nothing is stored of an answer: there is none; it is a 200 without a valid body, a 304 that was
  -- not asked for, or another answer that is no 404 or 410; or its error cannot be encoded.
  pub data IsUnstored (lk : Lookup) : Fetched → Type 0 where
    no_answer : IsUnstored lk fetch_error
    bad_body :
        {resp : UpstreamResponse}
        → resp.status_code ≡ 200
        → ((body : Str) → IsValidAnswer pl cfg.policy resp body → ⊥)
        → IsUnstored lk (fetched resp)
    not_asked :
        {resp : UpstreamResponse}
        → resp.status_code ≡ 304
        → ((old : Record) → IsConditional lk old → ⊥)
        → IsUnstored lk (fetched resp)
    other_status :
        {resp : UpstreamResponse}
        → resp.status_code ≢ 200
        → resp.status_code ≢ 304
        → (IsGone resp.status_code → ⊥)
        → IsUnstored lk (fetched resp)
    no_encoding :
        {resp : UpstreamResponse}
        → IsGone resp.status_code
        → pl.marshal_error
            (codes "Upstream API error")
            (error_message pl cfg.policy resp).0
            (error_message pl cfg.policy resp).1
          ≡ none
        → IsUnstored lk (fetched resp)

  -- What is written under the key of an answer, where the cache has given `lk`: the record of a valid
  -- 200; that of a 404 or 410, with its error encoded; after a 304, the record of the cache with new
  -- times; or nothing.
  pub data Stores (lk : Lookup) (url key : Str) (now : Time) (answer : Fetched) (t u : store.State)
      : Type 0 where
    of_ok :
        (resp : UpstreamResponse) (body : Str) (r : Record)
        → answer ≡ fetched resp
        → IsValidAnswer pl cfg.policy resp body
        → IsFresh cfg.policy url now resp body r
        → u ≡ store.set key r t
        → Stores lk url key now answer t u
    of_negative :
        (resp : UpstreamResponse) (r : Record)
        → answer ≡ fetched resp
        → IsNegative cfg.policy url now resp r
        → pl.marshal_error
            (codes "Upstream API error")
            (error_message pl cfg.policy resp).0
            (error_message pl cfg.policy resp).1
          ≡ some r.payload
        → u ≡ store.set key r t
        → Stores lk url key now answer t u
    of_not_modified :
        (resp : UpstreamResponse) (old r : Record)
        → answer ≡ fetched resp
        → resp.status_code ≡ 304
        → IsConditional lk old
        → IsRevalidated cfg.policy url now old r
        → u ≡ store.set key r t
        → Stores lk url key now answer t u
    unchanged : IsUnstored lk answer → u ≡ t → Stores lk url key now answer t u

  pub conditional_candidate-IsConditional :
      (lk : Lookup) (r : Record) → conditional_candidate lk ≡ some r → IsConditional lk r
  unfolding conditional_candidate
  conditional_candidate-IsConditional lk r h =
      let positive : is_negative_cacheable_status r.source_status ≡ false = ground arith in
      let tagged : is_empty r.etag ≡ false = ground arith in
      record {
        found = ground arith;
        positive = (is_negative_cacheable_status-not r.source_status).0 positive;
        tagged = λ e. cc (e, tagged);
      }

  IsConditional-conditional_candidate :
      (lk : Lookup) (r : Record) → IsConditional lk r → conditional_candidate lk ≡ some r
  unfolding conditional_candidate
  IsConditional-conditional_candidate lk r c =
      let positive : is_negative_cacheable_status r.source_status ≡ false =
        (is_negative_cacheable_status-not r.source_status).1 c.positive in
      let tagged = nonempty r.etag c.tagged in rw c.found (rw (positive, tagged) refl)

  pub respond_ok-Stores :
      (url key : Str) (now : Time) (force : Bool) (lk : Lookup) (resp : UpstreamResponse)
      (w : World store.State)
      → resp.status_code ≡ 200
      → Stores lk url key now
          (fetched resp)
          w.store
          (respond_ok pl store cfg url key now force lk resp w).1.store
  respond_ok-Stores url key now force lk resp w is_200 =
      go (read_bounded_body resp.body cfg.policy.max_upstream_response_bytes) refl
    where
      written_ok :
          (body : Str)
          → read_bounded_body resp.body cfg.policy.max_upstream_response_bytes ≡ read body
          → pl.json_valid body ≡ true
          → Stores lk url key now
              (fetched resp)
              w.store
              (respond_ok pl store cfg url key now force lk resp w).1.store
      written_ok body e valid =
          of_ok resp body (fresh_record cfg.policy url now resp body) refl
            (read_bounded_body-IsValidAnswer pl cfg.policy resp body is_200 e valid)
            (fresh_record-IsFresh cfg.policy url now resp body is_200)
            (unfold respond_ok in ground arith)

      go :
          (b : ReadResult)
          → read_bounded_body resp.body cfg.policy.max_upstream_response_bytes ≡ b
          → Stores lk url key now
              (fetched resp)
              w.store
              (respond_ok pl store cfg url key now force lk resp w).1.store
      go too_large e =
          unchanged (bad_body is_200 (λ body v. absurd (cc (e, v.bytes))))
            (unfold respond_ok in ground arith)
      go (read_error m) e =
          unchanged (bad_body is_200 (λ body v. absurd (cc (e, v.bytes))))
            (unfold respond_ok in ground arith)
      go (read body) e = elim (Bool-cases (pl.json_valid body)) [
        | inl valid ↦ written_ok body e valid
        | inr invalid ↦
            unchanged
              (bad_body is_200 (λ other v.
                let same : other ≡ body = cc (e, v.bytes) in absurd (cc (same, v.valid, invalid))))
              (unfold respond_ok in ground arith)
      ]

  IsUnstored-fetched :
      (lk : Lookup) (resp : UpstreamResponse)
      → resp.status_code ≢ 200
      → (resp.status_code ≡ 304 → conditional_candidate lk ≡ none)
      → (IsGone resp.status_code → ⊥)
      → IsUnstored lk (fetched resp)
  IsUnstored-fetched lk resp not_200 asked other = elim (Bool-cases (resp.status_code == 304)) [
    | inl is_304 ↦
        let status : resp.status_code ≡ 304 = ground arith in
        not_asked status
          (λ old c. absurd (cc (asked status, IsConditional-conditional_candidate lk old c)))
    | inr not_304 ↦ other_status not_200 (λ e. ground arith) other
  ]

  pub store_negative-Stores :
      (url key : Str) (now : Time) (lk : Lookup) (resp : UpstreamResponse) (w : World store.State)
      → resp.status_code ≢ 200
      → (resp.status_code ≡ 304 → conditional_candidate lk ≡ none)
      → Stores lk url key now
          (fetched resp)
          w.store
          (store_negative pl store cfg url key now lk resp w).store
  store_negative-Stores url key now lk resp w not_200 asked =
      elim (Bool-cases (should_bypass_cache_write resp.status_code)) [
        | inl bypassed ↦
            unchanged
              (IsUnstored-fetched lk resp not_200 asked
                (λ gone. unfold should_bypass_cache_write in ground arith))
              (unfold store_negative in ground arith)
        | inr kept ↦ elim (Bool-cases (is_negative_cacheable_status resp.status_code)) [
          | inr positive ↦
              unchanged
                (IsUnstored-fetched lk resp not_200 asked
                  ((is_negative_cacheable_status-not resp.status_code).0 positive))
                (unfold store_negative in ground arith)
          | inl negative ↦ elim (Option-cases marshaled) [
            | inl missing ↦
                unchanged
                  (no_encoding ((is_negative_cacheable_status-IsGone resp.status_code).0 negative)
                    missing)
                  (unfold store_negative in ground arith)
            | inr (body, e) ↦
                of_negative resp (negative_record cfg.policy url now resp body) refl
                  (negative_record-IsNegative cfg.policy url now resp body negative) e
                  (unfold store_negative in ground arith)
          ]
        ]
      ]
    where
      marshaled : Option Str
      marshaled =
          let (decoded, message) = error_message pl cfg.policy resp in
          pl.marshal_error (codes "Upstream API error") decoded message
