-- ===== src/Version/Entries/Runs.antt =====
-- When a background refresh of internal/service/version/service.go runs.
use svm_go.Prelude.{
  ◌≡◌, ◌∙◌, ◌↔◌, refl, Bool, true, false, not, ◌&&◌, none, some, Str, if◌then◌else◌, is_empty,
  lookup, insert, str_eq_iff, lookup-insert, lookup-delete, arith, Bool-cases, inl, inr,
}
use svm_go.Platform.{Platform}
use svm_go.Version.Entries.{refresh_by_key, background_target}
use svm_go.Version.Groups.{BackgroundRefreshGroup, admit, start, done}
use svm_go.Version.Prep.{prepare_request, prepare_url, prepared}
use svm_go.Version.Refresh.{refresh_once_by_key}
use svm_go.Version.Store.{CacheStore}
use svm_go.Version.World.{Config, World, Outside}

-- A refresh of the key may start.
abbrev pub may_start : Str → BackgroundRefreshGroup → Bool
may_start key g =
    not (is_empty key) && elim (lookup key g.in_flight) [ none ↦ true | some _ ↦ false ]

admit-may_start :
    (key : Str) (g : BackgroundRefreshGroup)
    → admit key g ≡ (
        if may_start key g
        then (true, record g { in_flight = insert key tt g.in_flight })
        else (false, g))
unfolding admit start
admit-may_start key g = ground arith

module _ (pl : Platform) (store : CacheStore) (cfg : Config) where
  -- A refresh by key runs, once, exactly if the key is not empty and no refresh of it is in flight;
  -- otherwise nothing changes. After it the same keys are in flight as before.
  pub refresh_by_key-may_start :
      (out : Outside) (key : Str) (g : BackgroundRefreshGroup) (w : World store.State)
      → let (ran, g', w') = refresh_by_key pl store cfg out key g w in
        (ran ≡ may_start key g)
        × (w' ≡ (if may_start key g then refresh_once_by_key pl store cfg out key w else w))
        × ((j : Str) → lookup j g'.in_flight ≡ lookup j g.in_flight)
  unfolding refresh_by_key done
  refresh_by_key-may_start out key g w = elim (Bool-cases (may_start key g)) [
    | inl idle ↦
        let admitted : admit key g ≡ (true, record g { in_flight = insert key tt g.in_flight }) =
          admit-may_start key g ∙ rw idle refl in
        rw (admitted, idle)
          (
            refl,
            refl,
            λ j. ground (
              arith,
              idle,
              lookup-delete key j (insert key tt g.in_flight),
              lookup-insert key j (tt {0}) g.in_flight,
              str_eq_iff key j,
            ),
          )
    | inr busy ↦
        let refused : admit key g ≡ (false, g) = admit-may_start key g ∙ rw busy refl in
        rw (refused, busy) (refl, refl, λ j. refl)
  ]

  -- A background refresh has the URL and the key that a request for the same text has, and gets to
  -- the group for the same texts that a request is accepted for.
  pub background_target-prepare_request :
      (raw_url url key : Str)
      → (background_target pl store cfg raw_url ≡ some (url, key))
        ↔ (prepare_request pl cfg.allowed_host_set raw_url ≡ prepared url key)
  unfolding background_target prepare_request prepare_url
  background_target-prepare_request raw_url url key = ground arith
