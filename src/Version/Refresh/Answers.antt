-- ===== src/Version/Refresh/Answers.antt =====
-- What a background refresh of internal/service/version/service.go does with an answer.
use svm_go.Prelude.{
  ℕ, ◌+◌, ◌%◌, ◌^◌, none, some, ◌≡◌, ◌≢◌, ◌∙◌, ap, refl, sym, Option, Str, arith, Bool-cases, inl,
  inr, ◌==◌,
}
use mathlib.Core.Path.{ap, subst}
use svm_go.Cache.{Record}
use svm_go.Cache.Clock.{Time}
use svm_go.Metrics.{Metrics, snapshot}
use svm_go.Platform.{Platform}
use svm_go.Version.Cached.{revalidated_record, fresh_record}
use svm_go.Version.Respond.{count_error}
use svm_go.Version.Handle.{observe_response}
use svm_go.Version.Refresh.{refresh_ok, refresh_answer, refresh_request, refresh_send}
use svm_go.Version.Status.{ReadResult, read, too_large, read_error, read_bounded_body}
use svm_go.Version.Store.{CacheStore}
use svm_go.Version.World.{Config, World, UpstreamResponse, Outside, Fetched, fetched, fetch_error}
use svm_go.Version.Records.{
  IsValidAnswer, IsFresh, IsRevalidated, fresh_record-IsFresh, revalidated_record-IsRevalidated,
  read_bounded_body-IsValidAnswer,
}

-- The four counters of refreshes: updated, not modified, skipped and failed.
abbrev pub refresh_counters : Option Metrics → ℕ × ℕ × ℕ × ℕ
refresh_counters m = (
  (snapshot m).refresh_updated,
  (snapshot m).refresh_not_mod,
  (snapshot m).refresh_skipped,
  (snapshot m).refresh_failed,
)

-- The four counters with one of them counted up, as a uint64, where there are metrics to count in.
abbrev pub updated_once : Option Metrics → ℕ × ℕ × ℕ × ℕ
updated_once none = refresh_counters none
updated_once (some m) =
    ((m.refresh_updated + 1) % 2 ^ 64, m.refresh_not_mod, m.refresh_skipped, m.refresh_failed)

abbrev pub not_modified_once : Option Metrics → ℕ × ℕ × ℕ × ℕ
not_modified_once none = refresh_counters none
not_modified_once (some m) =
    (m.refresh_updated, (m.refresh_not_mod + 1) % 2 ^ 64, m.refresh_skipped, m.refresh_failed)

abbrev pub skipped_once : Option Metrics → ℕ × ℕ × ℕ × ℕ
skipped_once none = refresh_counters none
skipped_once (some m) =
    (m.refresh_updated, m.refresh_not_mod, (m.refresh_skipped + 1) % 2 ^ 64, m.refresh_failed)

abbrev pub failed_once : Option Metrics → ℕ × ℕ × ℕ × ℕ
failed_once none = refresh_counters none
failed_once (some m) =
    (m.refresh_updated, m.refresh_not_mod, m.refresh_skipped, (m.refresh_failed + 1) % 2 ^ 64)

module _ (pl : Platform) (store : CacheStore) (cfg : Config) where
  -- The answer gives no record: there is none, it is neither a 200 nor a 304, or it is a 200 whose
  -- body cannot be read within the limit or is not valid JSON.
  pub data IsUseless : Fetched → Type 0 where
    no_answer : IsUseless fetch_error
    other_status :
        {resp : UpstreamResponse}
        → resp.status_code ≢ 200
        → resp.status_code ≢ 304
        → IsUseless (fetched resp)
    bad_body :
        {resp : UpstreamResponse}
        → resp.status_code ≡ 200
        → ((body : Str) → IsValidAnswer pl cfg.policy resp body → ⊥)
        → IsUseless (fetched resp)

  -- What a refresh of `r` under a key did with an answer: it is counted as one of three, and the cache
  -- holds the record of a valid 200, the old one with new times after a 304, or what it held.
  pub data Answered (key url : Str) (now : Time) (r : Record) (answer : Fetched)
      (w w' : World store.State) : Type 0 where
    updated :
        (resp : UpstreamResponse) (body : Str) (fresh : Record)
        → answer ≡ fetched resp
        → IsValidAnswer pl cfg.policy resp body
        → IsFresh cfg.policy url now resp body fresh
        → refresh_counters w'.metrics ≡ updated_once w.metrics
        → w'.store ≡ store.set key fresh w.store
        → Answered key url now r answer w w'
    not_modified :
        (resp : UpstreamResponse) (kept : Record)
        → answer ≡ fetched resp
        → resp.status_code ≡ 304
        → IsRevalidated cfg.policy url now r kept
        → refresh_counters w'.metrics ≡ not_modified_once w.metrics
        → w'.store ≡ store.set key kept w.store
        → Answered key url now r answer w w'
    failed :
        IsUseless answer
        → refresh_counters w'.metrics ≡ failed_once w.metrics
        → w'.store ≡ w.store
        → Answered key url now r answer w w'

  refresh_ok-Answered :
      (key url : Str) (now : Time) (r : Record) (resp : UpstreamResponse) (w : World store.State)
      → resp.status_code ≡ 200
      → Answered key url now r (fetched resp) w (refresh_ok pl store cfg key url now resp w)
  refresh_ok-Answered key url now r resp w is_200 =
      go (read_bounded_body resp.body cfg.policy.max_upstream_response_bytes) refl
    where
      go :
          (b : ReadResult)
          → read_bounded_body resp.body cfg.policy.max_upstream_response_bytes ≡ b
          → Answered key url now r (fetched resp) w (refresh_ok pl store cfg key url now resp w)
      go too_large e =
          failed (bad_body is_200 (λ body v. absurd (cc (e, v.bytes))))
            (unfold refresh_ok in ground arith) (unfold refresh_ok in ground arith)
      go (read_error m) e =
          failed (bad_body is_200 (λ body v. absurd (cc (e, v.bytes))))
            (unfold refresh_ok in ground arith) (unfold refresh_ok in ground arith)
      go (read body) e = elim (Bool-cases (pl.json_valid body)) [
        | inl valid ↦
            updated resp body (fresh_record cfg.policy url now resp body) refl
              (read_bounded_body-IsValidAnswer pl cfg.policy resp body is_200 e valid)
              (fresh_record-IsFresh cfg.policy url now resp body is_200)
              (unfold refresh_ok in ground arith) (unfold refresh_ok in ground arith)
        | inr invalid ↦
            failed
              (bad_body is_200 (λ other v.
                let same : other ≡ body = cc (e, v.bytes) in absurd (cc (same, v.valid, invalid))))
              (unfold refresh_ok in ground arith) (unfold refresh_ok in ground arith)
      ]

  pub refresh_answer-Answered :
      (key url : Str) (now : Time) (r : Record) (resp : UpstreamResponse) (w : World store.State)
      → Answered key url now r (fetched resp) w (refresh_answer pl store cfg key url now r resp w)
  refresh_answer-Answered key url now r resp w = elim (Bool-cases (resp.status_code == 304)) [
    | inl is_304 ↦
        not_modified resp (revalidated_record cfg.policy url now r) refl (ground arith)
          (revalidated_record-IsRevalidated cfg.policy url now r)
          (unfold refresh_answer in ground arith) (unfold refresh_answer in ground arith)
    | inr not_304 ↦ elim (Bool-cases (resp.status_code == 200)) [
      | inl is_200 ↦
          let same : refresh_answer pl store cfg key url now r resp w
              ≡ refresh_ok pl store cfg key url now resp w =
            unfold refresh_answer in ground arith in
          subst (Answered key url now r (fetched resp) w) (sym same)
            (refresh_ok-Answered key url now r resp w (ground arith))
      | inr not_200 ↦
          failed (other_status (λ e. ground arith) (λ e. ground arith))
            (unfold refresh_answer in ground arith) (unfold refresh_answer in ground arith)
    ]
  ]

  -- The world in which the answer to a refresh is looked at.
  abbrev pub answered_world :
      Outside → (url : Str) → Record → UpstreamResponse → World store.State → World store.State
  answered_world out url r resp w =
      observe_response pl store cfg out.observing_at
        (refresh_request pl store cfg url out.choosing_at r w).token resp
        (count_error pl store cfg resp.status_code
          (refresh_send pl store cfg url out.choosing_at r w))

  -- Neither the cache nor a counter of refreshes changes.
  pub record SameRefreshes (w w' : World store.State) : Type 0 where
    pub counters : refresh_counters w'.metrics ≡ refresh_counters w.metrics
    pub updated_next : updated_once w'.metrics ≡ updated_once w.metrics
    pub not_modified_next : not_modified_once w'.metrics ≡ not_modified_once w.metrics
    pub failed_next : failed_once w'.metrics ≡ failed_once w.metrics
    pub same_store : w'.store ≡ w.store

  pub Answered-SameRefreshes :
      (key url : Str) (now : Time) (r : Record) (answer : Fetched) (w v w' : World store.State)
      → SameRefreshes w v
      → Answered key url now r answer v w'
      → Answered key url now r answer w w'
  Answered-SameRefreshes key url now r answer w v w' s (updated resp body fresh e valid made c t) =
      updated resp body fresh e valid made (c ∙ s.updated_next)
        (t ∙ ap (store.set key fresh) s.same_store)
  Answered-SameRefreshes key url now r answer w v w' s (not_modified resp kept e is_304 made c t) =
      not_modified resp kept e is_304 made (c ∙ s.not_modified_next)
        (t ∙ ap (store.set key kept) s.same_store)
  Answered-SameRefreshes key url now r answer w v w' s (failed useless c t) =
      failed useless (c ∙ s.failed_next) (t ∙ s.same_store)

  pub answered_world-SameRefreshes :
      (out : Outside) (url : Str) (r : Record) (resp : UpstreamResponse) (w : World store.State)
      → SameRefreshes w (answered_world out url r resp w)
  unfolding observe_response refresh_send
  answered_world-SameRefreshes out url r resp w = record {
    counters = ground arith;
    updated_next = ground arith;
    not_modified_next = ground arith;
    failed_next = ground arith;
    same_store = ground arith;
  }
