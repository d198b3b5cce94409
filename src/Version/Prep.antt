-- ===== src/Version/Prep.antt =====
-- The preparation of a request: `prepareRequest` of internal/service/version/service.go behind the
-- memo of request_prep_cache.go, and the allowlist of the service.
pub mod Allowlist
pub mod Memo
use svm_go.Prelude.{
  ℕ, zero, suc, Bool, true, false, not, Option, none, some, List, [], ◌∷◌, Str, Assoc, ℤ, pos,
  negsuc, is_empty, lookup, insert, length, ltb, leb, if◌then◌else◌,
}
use svm_go.Platform.{Platform, Url}
use svm_go.Cache.Key.{Keyed, ok, err, key_from_parsed_url}
use svm_go.Security.{
  Parsed, UrlError, upstream_host_not_allowed, hostname, normal_host, parse_https_url,
}

pub data Prepared : Type 0 where
  failed : UrlError → Prepared
  prepared : (url_to_fetch cache_key : Str) → Prepared

-- `buildAllowedHostSet`: a nil set is the empty one.
unfoldable pub add_hosts : Platform → List Str → Assoc (Unit {0}) → Assoc (Unit {0})
add_hosts pl [] set = set
add_hosts pl (host ∷ rest) set =
    add_hosts pl rest
      (if is_empty (normal_host pl host) then set else insert (normal_host pl host) tt set)

unfoldable pub build_allowed_host_set : Platform → List Str → Assoc (Unit {0})
unfolding add_hosts
build_allowed_host_set pl hosts = add_hosts pl hosts []

unfoldable pub is_allowed_host : Platform → Assoc (Unit {0}) → Str → Bool
is_allowed_host pl set host =
    if leb (length set) 0
    then true
    else if is_empty (normal_host pl host)
    then false
    else elim (lookup (normal_host pl host) set) [ none ↦ false | some _ ↦ true ]

-- The part behind the checks.
unfoldable pub prepare_url : Platform → Url → Prepared
prepare_url pl u =
    let url_to_fetch = pl.url_string u in
    elim (key_from_parsed_url pl u) [
      | ok key ↦ prepared url_to_fetch key
      | err _ ↦ prepared url_to_fetch url_to_fetch
    ]

unfoldable pub prepare_request : Platform → Assoc (Unit {0}) → Str → Prepared
unfolding prepare_url is_allowed_host
prepare_request pl allowed raw_url = elim (parse_https_url pl raw_url) [
  | Parsed.err e ↦ failed e
  | Parsed.ok u ↦
      if not (is_allowed_host pl allowed (hostname u))
      then failed upstream_host_not_allowed
      else prepare_url pl u
]

-- request_prep_cache.go
pub record RequestPrepCache : Type 0 where
  pub max_entries : ℕ
  pub entries : Assoc Prepared

abbrev pub default_request_prep_cache_max_entries : ℕ
default_request_prep_cache_max_entries = 4096

unfoldable pub new_request_prep_cache : ℤ → RequestPrepCache
new_request_prep_cache max_entries = record {
  max_entries = elim max_entries [
    | pos zero ↦ default_request_prep_cache_max_entries
    | pos (suc n) ↦ suc n
    | negsuc n ↦ default_request_prep_cache_max_entries
  ];
  entries = [];
}

-- `GetOrPrepare`. Between the two locks other calls may run: `between` is the cache as the second
-- lock finds it, and is `c` itself where no other call came between.
unfoldable pub get_or_prepare :
    RequestPrepCache → RequestPrepCache → Str → (Str → Prepared) → Prepared × RequestPrepCache
get_or_prepare c between raw_url prepare = elim (lookup raw_url c.entries) [
  | some cached ↦ (cached, c)
  | none ↦ elim (lookup raw_url between.entries) [
    | some existing ↦ (existing, between)
    | none ↦
        if ltb (length between.entries) between.max_entries
        then (
          prepare raw_url,
          record between { entries = insert raw_url (prepare raw_url) between.entries },
        )
        else (prepare raw_url, between)
  ]
]
