-- ===== src/Security.antt =====
-- internal/security/url_validator.go: which URLs may be fetched.
pub mod Hosts
pub mod Urls
use svm_go.Prelude.{
  ℕ, Bool, true, false, not, ◌&&◌, ◌||◌, Option, none, some, List, [], ◌∷◌, ◌++◌, Str, codes,
  is_empty, str_eq, ltb, leb, length, ◌==◌, if◌then◌else◌,
}
use svm_go.Text.{trim_space, to_lower, equal_fold}
use svm_go.Text.Numbers.{is_digit}
use svm_go.Platform.{Platform, Url, has_user}

pub data UrlError : Type 0 where
  url_required invalid_url https_only upstream_host_not_allowed : UrlError
  url_userinfo_not_allowed https_port_only : UrlError

pub data Parsed : Type 0 where
  ok : Url → Parsed
  err : UrlError → Parsed

-- The host and the port of `Url.Host`, split at the last colon where digits follow it alone.
abbrev pub all_digits : Str → Bool
all_digits [] = true
all_digits (c ∷ s) = is_digit c && all_digits s

-- `none` where there is no port: no colon, or something else than digits behind the last one.
unfoldable pub split_port : Str → Option (Str × Str)
split_port [] = none
split_port (c ∷ s) = elim (split_port s) [
  | some (host, port) ↦ some (c ∷ host, port)
  | none ↦ if (c == b':') && all_digits s then some ([], s) else none
]

abbrev drop_last : Str → Str
drop_last [] = []
drop_last (c ∷ []) = []
drop_last (c ∷ d ∷ s) = c ∷ drop_last (d ∷ s)

abbrev ends_with : ℕ → Str → Bool
ends_with b [] = false
ends_with b (c ∷ []) = c == b
ends_with b (c ∷ d ∷ s) = ends_with b (d ∷ s)

-- The brackets of an IPv6 address.
unfoldable pub strip_brackets : Str → Str
strip_brackets [] = []
strip_brackets (c ∷ s) = if (c == b'[') && ends_with b']' (c ∷ s) then drop_last s else c ∷ s

-- `u.Hostname()`
unfoldable pub hostname : Url → Str
unfolding split_port strip_brackets
hostname u = elim (split_port u.host) [
  | none ↦ strip_brackets u.host
  | some (h, p) ↦ strip_brackets h
]

-- `u.Port()`
unfoldable pub port : Url → Str
unfolding split_port
port u = elim (split_port u.host) [ none ↦ [] | some (h, p) ↦ p ]

module _ (pl : Platform) where
  -- The checks on a parsed URL, in the order of the code.
  unfoldable pub check_https : Url → Parsed
  check_https u =
      if is_empty u.scheme || is_empty u.host
      then err invalid_url
      else if not (equal_fold pl.unicode u.scheme (codes "https"))
      then err https_only
      else if has_user u
      then err url_userinfo_not_allowed
      else if not (is_empty (port u)) && not (str_eq (port u) (codes "443"))
      then err https_port_only
      else ok u

  unfoldable pub parse_https_url : Str → Parsed
  unfolding check_https
  parse_https_url raw_url =
      let trimmed = trim_space pl.unicode raw_url in
      if is_empty trimmed
      then err url_required
      else elim (pl.parse_url trimmed) [ none ↦ err invalid_url | some u ↦ check_https u ]

  -- The form of a host in which hosts are compared.
  abbrev pub normal_host : Str → Str
  normal_host host = to_lower pl.unicode (trim_space pl.unicode host)

  unfoldable pub any_host : Str → List Str → Bool
  any_host host [] = false
  any_host host (allowed ∷ rest) = str_eq host (normal_host allowed) || any_host host rest

  unfoldable pub host_allowed : Str → List Str → Bool
  host_allowed host allowed_hosts =
      if is_empty (normal_host host) then false else any_host (normal_host host) allowed_hosts

  unfoldable pub parse_https_url_with_allowlist : Str → List Str → Parsed
  parse_https_url_with_allowlist raw_url allowed_hosts = elim (parse_https_url raw_url) [
    | err e ↦ err e
    | ok u ↦
        if ltb 0 (length allowed_hosts) && not (host_allowed (hostname u) allowed_hosts)
        then err upstream_host_not_allowed
        else ok u
  ]
