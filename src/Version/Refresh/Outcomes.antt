-- ===== src/Version/Refresh/Outcomes.antt =====
-- What a background refresh of internal/service/version/service.go counts, sends and writes.
use svm_go.Prelude.{
  ◌≡◌, ◌≢◌, ◌⊎◌, ◌∙◌, ap, refl, sym, true, false, none, some, [], ◌∷◌, ◌++◌, Str, arith, Bool-cases,
  Option-cases, inl, inr, is_empty,
}
use mathlib.Core.Path.{ap, subst}
use svm_go.Cache.{Record}
use svm_go.Platform.{Platform}
use svm_go.Text.{trim_space}
use svm_go.Version.Handle.{observe_response}
use svm_go.Version.Refresh.{
  refresh_ok, refresh_answer, refresh_request, refresh_send, refresh_cached_record,
  refresh_once_by_key,
}
use svm_go.Version.Refresh.Answers.{
  refresh_counters, skipped_once, failed_once, Answered, failed, no_answer, answered_world,
  Answered-SameRefreshes, answered_world-SameRefreshes, refresh_answer-Answered,
}
use svm_go.Version.Status.{is_negative_cacheable_status}
use svm_go.Version.Records.{
  IsGone, is_negative_cacheable_status-IsGone, is_negative_cacheable_status-not,
}
use svm_go.Version.Store.{CacheStore}
use svm_go.Version.World.{
  Config, Sent, World, UpstreamResponse, Fetched, fetched, fetch_error, Outside,
}

empty_text : (s : Str) → is_empty s ≡ true → s ≡ []
empty_text [] h = refl
empty_text (c ∷ s) h = absurd (cc h)

module _ (pl : Platform) (store : CacheStore) (cfg : Config) where
  -- A refresh of a positive record: it is sent, with the record's etag, and then answered.
  refresh_cached_record-Answered :
      (out : Outside) (key url : Str) (r : Record) (w : World store.State)
      → is_negative_cacheable_status r.source_status ≡ false
      → ((refresh_cached_record pl store cfg out key url r w).sent
          ≡ w.sent ++ refresh_request pl store cfg url out.choosing_at r w ∷ [])
        × Answered pl store cfg key url out.now r
            (out.upstream (refresh_request pl store cfg url out.choosing_at r w))
            w
            (refresh_cached_record pl store cfg out key url r w)
  refresh_cached_record-Answered out key url r w positive =
      go (out.upstream (refresh_request pl store cfg url out.choosing_at r w)) refl
    where
      sent-answer :
          (resp : UpstreamResponse)
          → (refresh_answer pl store cfg key url out.now r resp
              (answered_world pl store cfg out url r resp w)).sent
            ≡ w.sent ++ refresh_request pl store cfg url out.choosing_at r w ∷ []
      sent-answer resp =
          unfold refresh_answer in
          unfold refresh_ok in unfold observe_response in unfold refresh_send in ground arith

      go :
          (f : Fetched)
          → out.upstream (refresh_request pl store cfg url out.choosing_at r w) ≡ f
          → ((refresh_cached_record pl store cfg out key url r w).sent
              ≡ w.sent ++ refresh_request pl store cfg url out.choosing_at r w ∷ [])
            × Answered pl store cfg key url out.now r f w
                (refresh_cached_record pl store cfg out key url r w)
      go fetch_error e = (
        unfold refresh_cached_record in unfold refresh_send in ground arith,
        failed no_answer (unfold refresh_cached_record in unfold refresh_send in ground arith)
            (unfold refresh_cached_record in unfold refresh_send in ground arith),
      )
      go (fetched resp) e =
          let same : refresh_cached_record pl store cfg out key url r w
              ≡ refresh_answer pl store cfg key url out.now r resp
                  (answered_world pl store cfg out url r resp w) =
            unfold refresh_cached_record in ground arith in
          (
            ap (λ x. x.sent) same ∙ sent-answer resp,
            subst (Answered pl store cfg key url out.now r (fetched resp) w) (sym same) (
                Answered-SameRefreshes pl store cfg key url out.now r (fetched resp) w
                  (answered_world pl store cfg out url r resp w)
                  (refresh_answer pl store cfg key url out.now r resp
                    (answered_world pl store cfg out url r resp w))
                  (answered_world-SameRefreshes pl store cfg out url r resp w)
                  (refresh_answer-Answered pl store cfg key url out.now r resp
                    (answered_world pl store cfg out url r resp w))),
          )

  -- What a refresh by key does.
  pub data Refreshed (key : Str) (out : Outside) (w w' : World store.State) : Type 0 where
    skipped :
        (store.read key w.store).0.failed ≡ false
        → ((store.read key w.store).0.found ≡ none)
          ⊎ ((r : Record) × ((store.read key w.store).0.found ≡ some r)
              × (IsGone r.source_status ⊎ (trim_space pl.unicode r.url ≡ [])))
        → refresh_counters w'.metrics ≡ skipped_once w.metrics
        → w'.sent ≡ w.sent
        → w'.store ≡ (store.read key w.store).1
        → Refreshed key out w w'
    unread :
        (store.read key w.store).0.failed ≡ true
        → refresh_counters w'.metrics ≡ failed_once w.metrics
        → w'.sent ≡ w.sent
        → w'.store ≡ (store.read key w.store).1
        → Refreshed key out w w'
    tried :
        (r : Record) (request : Sent)
        → (store.read key w.store).0.failed ≡ false
        → (store.read key w.store).0.found ≡ some r
        → (IsGone r.source_status → ⊥)
        → trim_space pl.unicode r.url ≢ []
        → (request.url ≡ r.url) × (request.etag ≡ r.etag)
        → w'.sent ≡ w.sent ++ request ∷ []
        → Answered pl store cfg key r.url out.now r
            (out.upstream request)
            (record w { store = (store.read key w.store).1 })
            w'
        → Refreshed key out w w'

  -- A refresh by key is counted once, as updated, not modified, skipped or failed. A key that the
  -- cache does not give, a negative record and a record without a URL are skipped, and a failed read
  -- is a failure: nothing is sent and nothing written. Any other record is asked for again, once, at
  -- its URL with its etag: after a 200 with valid JSON within the limit, its record is written; after a
  -- 304, the old one with new times; and after any other answer or none, the refresh has failed and
  -- the cache is as the read left it.
  pub refresh_once_by_key-Refreshed :
      (out : Outside) (key : Str) (w : World store.State)
      → Refreshed key out w (refresh_once_by_key pl store cfg out key w)
  refresh_once_by_key-Refreshed out key w = elim (Bool-cases (store.read key w.store).0.failed) [
    | inl broken ↦
        unread broken (unfold refresh_once_by_key in ground arith)
          (unfold refresh_once_by_key in ground arith) (unfold refresh_once_by_key in ground arith)
    | inr sound ↦ elim (Option-cases (store.read key w.store).0.found) [
      | inl missing ↦
          skipped sound (inl missing) (unfold refresh_once_by_key in ground arith)
            (unfold refresh_once_by_key in ground arith)
            (unfold refresh_once_by_key in ground arith)
      | inr (r, found) ↦ elim (Bool-cases (is_empty (trim_space pl.unicode r.url))) [
        | inl blank ↦
            skipped sound (inr (r, found, inr (empty_text (trim_space pl.unicode r.url) blank)))
              (unfold refresh_once_by_key in ground arith)
              (unfold refresh_once_by_key in ground arith)
              (unfold refresh_once_by_key in ground arith)
        | inr named ↦ present r found sound named
      ]
    ]
  ]
    where
      present :
          (r : Record)
          → (store.read key w.store).0.found ≡ some r
          → (store.read key w.store).0.failed ≡ false
          → is_empty (trim_space pl.unicode r.url) ≡ false
          → Refreshed key out w (refresh_once_by_key pl store cfg out key w)
      present r found sound named =
          let w' : World store.State = record w { store = (store.read key w.store).1 } in
          let same : refresh_once_by_key pl store cfg out key w
              ≡ refresh_cached_record pl store cfg out key r.url r w' =
            unfold refresh_once_by_key in ground arith in
          elim (Bool-cases (is_negative_cacheable_status r.source_status)) [
            | inl negative ↦
                skipped sound
                  (inr (
                    r,
                    found,
                    inl ((is_negative_cacheable_status-IsGone r.source_status).0 negative),
                  ))
                  (ap (λ x. refresh_counters x.metrics) same
                    ∙ (unfold refresh_cached_record in ground arith))
                  (ap (λ x. x.sent) same ∙ (unfold refresh_cached_record in ground arith))
                  (ap (λ x. x.store) same ∙ (unfold refresh_cached_record in ground arith))
            | inr positive ↦
                let (sent, answered) = refresh_cached_record-Answered out key r.url r w' positive in
                tried r (refresh_request pl store cfg r.url out.choosing_at r w') sound found
                  ((is_negative_cacheable_status-not r.source_status).0 positive)
                  (λ e. absurd (cc (e, named))) (unfold refresh_request in (refl, refl))
                  (ap (λ x. x.sent) same ∙ sent)
                  (subst
                    (Answered pl store cfg key r.url out.now r
                      (out.upstream (refresh_request pl store cfg r.url out.choosing_at r w')) w')
                    (sym same) answered)
          ]
