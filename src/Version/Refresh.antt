-- ===== src/Version/Refresh.antt =====
-- The background refresh of internal/service/version/service.go: `refreshOnce`, `refreshOnceByKey` and
-- `refreshCachedRecord`, and the two entries behind the refresh group. Logging is left out.
pub mod Answers
pub mod Outcomes
use svm_go.Prelude.{
  ℕ, Bool, true, false, not, ◌||◌, Option, none, some, List, [], ◌∷◌, ◌++◌, Str, codes, is_empty,
  leb, ltb, length, ◌==◌, ℤ, pos, if◌then◌else◌, Assoc,
}
use svm_go.Cache.{Record}
use svm_go.Cache.Clock.{Time, add}
use svm_go.Metrics.{
  inc_upstream_request, inc_upstream_error, inc_refresh_updated, inc_refresh_not_mod,
  inc_refresh_skipped, inc_refresh_failed,
}
use svm_go.Platform.{Platform}
use svm_go.Text.{trim_space}
use svm_go.Upstream.Tokens.{next_token}
use svm_go.Version.Cached.{fresh_record, revalidated_record}
use svm_go.Version.Respond.{put_store, count_error}
use svm_go.Version.Handle.{observe_response}
use svm_go.Version.Status.{
  is_negative_cacheable_status, ReadResult, read, too_large, read_error, read_bounded_body,
}
use svm_go.Version.Store.{Lookup, CacheStore}
use svm_go.Version.World.{
  Config, Sent, World, UpstreamResponse, Fetched, fetched, fetch_error, Outside,
}

module _ {S : Type 0} where
  abbrev pub count_updated : World S → World S
  count_updated w = record w { metrics = inc_refresh_updated w.metrics }

  abbrev pub count_not_mod : World S → World S
  count_not_mod w = record w { metrics = inc_refresh_not_mod w.metrics }

  abbrev pub count_skipped : World S → World S
  count_skipped w = record w { metrics = inc_refresh_skipped w.metrics }

  abbrev pub count_failed : World S → World S
  count_failed w = record w { metrics = inc_refresh_failed w.metrics }

module _ (pl : Platform) (store : CacheStore) (cfg : Config) where
  -- `case http.StatusOK`
  unfoldable pub refresh_ok :
      (key url : Str) → Time → UpstreamResponse → World store.State → World store.State
  refresh_ok key url now resp w =
      elim (read_bounded_body resp.body cfg.policy.max_upstream_response_bytes) [
        | read body ↦
            if not (pl.json_valid body)
            then count_failed w
            else count_updated
                (put_store pl store cfg key (fresh_record cfg.policy url now resp body) w)
        | read_error _ ↦ count_failed w
        | too_large ↦ count_failed w
      ]

  -- The `switch` on the status.
  unfoldable pub refresh_answer :
      (key url : Str) → Time → Record → UpstreamResponse → World store.State → World store.State
  unfolding refresh_ok
  refresh_answer key url now r resp w =
      if resp.status_code == 304
      then count_not_mod (put_store pl store cfg key (revalidated_record cfg.policy url now r) w)
      else if resp.status_code == 200
      then refresh_ok key url now resp w
      else count_failed w

  -- The request of a refresh, and the world when it is on its way.
  unfoldable pub refresh_request : (url : Str) → Time → Record → World store.State → Sent
  refresh_request url at r w = record {
    url = url;
    token = (next_token at w.tokens).0;
    etag = r.etag;
  }

  unfoldable pub refresh_send : (url : Str) → Time → Record → World store.State → World store.State
  unfolding refresh_request
  refresh_send url at r w = record w {
    tokens = (next_token at w.tokens).1;
    metrics = inc_upstream_request w.metrics;
    sent = w.sent ++ refresh_request url at r w ∷ [];
  }

  unfoldable pub refresh_cached_record :
      Outside → (key url : Str) → Record → World store.State → World store.State
  unfolding refresh_answer refresh_request refresh_send
  refresh_cached_record out key url r w =
      let request = refresh_request url out.choosing_at r w in
      let w' = refresh_send url out.choosing_at r w in
      if is_negative_cacheable_status r.source_status
      then count_skipped w
      else elim (out.upstream request) [
        | fetch_error ↦ count_failed (record w' { metrics = inc_upstream_error w'.metrics })
        | fetched resp ↦ refresh_answer key url out.now r resp (
            observe_response pl store cfg out.observing_at request.token resp
              (count_error pl store cfg resp.status_code w'))
      ]

  unfoldable pub refresh_once : Outside → (url key : Str) → World store.State → World store.State
  unfolding refresh_cached_record
  refresh_once out url key w =
      let (lk, st) = store.read key w.store in
      let w' : World store.State = record w { store = st } in
      if lk.failed then count_failed w' else elim lk.found [
        | none ↦ count_skipped w'
        | some r ↦ refresh_cached_record out key url r w'
      ]

  unfoldable pub refresh_once_by_key : Outside → (key : Str) → World store.State → World store.State
  unfolding refresh_cached_record
  refresh_once_by_key out key w =
      let (lk, st) = store.read key w.store in
      let w' : World store.State = record w { store = st } in
      if lk.failed then count_failed w' else elim lk.found [
        | none ↦ count_skipped w'
        | some r ↦
            if is_empty (trim_space pl.unicode r.url)
            then count_skipped w'
            else refresh_cached_record out key r.url r w'
      ]
