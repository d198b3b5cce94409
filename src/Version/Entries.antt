-- ===== src/Version/Entries.antt =====
-- `RefreshByKey` and `RefreshInBackground` of internal/service/version/service.go: the background
-- refresh behind the refresh group.
pub mod Runs
use svm_go.Prelude.{Bool, true, false, not, Option, none, some, Str, if◌then◌else◌, is_empty}
use svm_go.Cache.Key.{ok, err, key_from_parsed_url}
use svm_go.Platform.{Platform, Url}
use svm_go.Security.{Parsed, hostname, parse_https_url}
use svm_go.Version.Groups.{BackgroundRefreshGroup, admit, done}
use svm_go.Version.Prep.{is_allowed_host}
use svm_go.Version.Refresh.{refresh_once_by_key}
use svm_go.Version.Store.{CacheStore}
use svm_go.Version.World.{Config, World, Outside}

module _ (pl : Platform) (store : CacheStore) (cfg : Config) where
  -- `RefreshByKey`, with `DoSync` of the group, while no other call changes the group.
  unfoldable pub refresh_by_key :
      Outside
      → (key : Str) → BackgroundRefreshGroup
      → World store.State
      → Bool × BackgroundRefreshGroup × World store.State
  unfolding admit done refresh_once_by_key
  refresh_by_key out key g w =
      let (admitted, g') = admit key g in
      if admitted
      then (true, done key g', refresh_once_by_key pl store cfg out key w)
      else (false, g', w)

  -- The URL and the key of `RefreshInBackground`, where it gets to the group.
  unfoldable pub background_target : (raw_url : Str) → Option (Str × Str)
  unfolding is_allowed_host
  background_target raw_url = elim (parse_https_url pl raw_url) [
    | Parsed.err _ ↦ none
    | Parsed.ok u ↦
        if not (is_allowed_host pl cfg.allowed_host_set (hostname u))
        then none
        else elim (key_from_parsed_url pl u) [
          | ok key ↦ some (pl.url_string u, key)
          | err _ ↦ some (pl.url_string u, pl.url_string u)
        ]
  ]

  -- `RefreshInBackground`: whether a refresh is started, and of which URL and key. The goroutine runs
  -- `refresh_once` and then `done`.
  unfoldable pub refresh_in_background :
      (raw_url : Str)
      → BackgroundRefreshGroup
      → (Bool × Option (Str × Str)) × BackgroundRefreshGroup
  unfolding background_target admit
  refresh_in_background raw_url g = elim (background_target raw_url) [
    | none ↦ ((false, none), g)
    | some (url, key) ↦
        let (admitted, g') = admit key g in
        if admitted then ((true, some (url, key)), g') else ((false, none), g')
  ]
