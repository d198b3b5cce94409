-- ===== src/Tests/Urls.antt =====
-- The checks of URLs at concrete URLs.
use svm_go.Prelude.{
  ◌≡◌, ◌↔◌, refl, true, false, some, List, [], ◌∷◌, Str, codes, is_empty, if◌then◌else◌,
}
use mathlib.Core.List.{Permᴰ}
use svm_go.Cache.Key.{key_from_parsed_url}
use svm_go.Cache.Key.Queries.{SameResource, key_from_parsed_url-SameResource}
use svm_go.Platform.{Url}
use svm_go.Security.{ok, host_allowed, parse_https_url, parse_https_url_with_allowlist}
use svm_go.Security.Urls.{IsSecure, parse_https_url_iff}
use svm_go.Tests.Samples.{program, platform, url, url_text}
use svm_go.Text.{trim_space}
use svm_go.Version.Prep.{is_allowed_host, build_allowed_host_set}
use svm_go.Version.Prep.Allowlist.{all_blank, is_allowed_host-host_allowed}

abbrev allowed : List Str
allowed = codes " API.github.com" ∷ codes "github.com" ∷ []

accepts : parse_https_url_with_allowlist platform url_text allowed ≡ ok url
unfolding program
accepts = refl

parse_https_url_iff_example : (parse_https_url platform url_text ≡ ok url) ↔ (
    (is_empty (trim_space platform.unicode url_text) ≡ false)
    × (platform.parse_url (trim_space platform.unicode url_text) ≡ some url)
    × IsSecure platform url)
parse_https_url_iff_example = parse_https_url_iff platform url_text url

is_allowed_host_example :
    is_allowed_host platform (build_allowed_host_set platform allowed) (codes "github.com") ≡ (
      if all_blank platform allowed
      then true
      else host_allowed platform (codes "github.com") allowed)
is_allowed_host_example = is_allowed_host-host_allowed platform allowed (codes "github.com")

abbrev one : Url
one = record url { raw_query = codes "a=1&b=2"; path = [] }

abbrev other : Url
other = record url {
  scheme = codes "HTTPS";
  host = codes "API.github.com:443";
  path = codes "/";
  raw_query = codes "b=2&a=1";
  fragment = codes "top";
}

same : SameResource platform one other
unfolding program
same = record {
  complete_u = (refl, refl);
  complete_v = (refl, refl);
  same_scheme = refl;
  same_host = refl;
  same_port = refl;
  same_path = refl;
  same_query = Permᴰ.swap refl refl;
  same_rest = refl;
}

key_from_parsed_url_example : key_from_parsed_url platform one ≡ key_from_parsed_url platform other
key_from_parsed_url_example = key_from_parsed_url-SameResource platform one other same
