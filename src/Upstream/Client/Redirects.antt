-- ===== src/Upstream/Client/Redirects.antt =====
-- Which redirects the client of internal/upstream/github/client.go follows, and where its tokens go.
use svm_go.Prelude.{
  ◌≡◌, ◌⊎◌, ◌↔◌, true, false, some, List, [], Str, codes, is_empty, str_eq_iff, arith, Member, ◌++◌,
}
use svm_go.Platform.{Platform, Url, has_user}
use svm_go.Security.{hostname, port, host_allowed}
use svm_go.Text.{to_lower}
use svm_go.Upstream.Client.{
  redirect_url_allowed, redirect_validator, request_headers, should_authenticate,
}

module _ (pl : Platform) where
  -- A redirect is followed exactly if its URL has no user, is https on its own port, and its host
  -- stands in the allowlist, where the client has one.
  pub redirect_validator_iff :
      (allowed_hosts : List Str) (url : Url)
      → (redirect_validator pl allowed_hosts (some url) ≡ true) ↔ (
          (has_user url ≡ false)
          × (url.scheme ≡ codes "https")
          × ((port url ≡ []) ⊎ (port url ≡ codes "443"))
          × ((allowed_hosts ≡ []) ⊎ (host_allowed pl (hostname url) allowed_hosts ≡ true)))
  unfolding redirect_validator redirect_url_allowed
  redirect_validator_iff allowed_hosts url =
      ground (arith, str_eq_iff url.scheme (codes "https"), str_eq_iff (port url) (codes "443"))

  -- A token is sent only to `api.github.com`, in the form that it asks for, and only one that is not
  -- empty.
  pub request_headers-Member :
      (url : Url) (token etag value : Str)
      → Member (codes "Authorization", value) (request_headers pl url token etag)
      → (to_lower pl.unicode (hostname url) ≡ codes "api.github.com")
        × (value ≡ codes "token " ++ token)
        × (is_empty token ≡ false)
  unfolding request_headers should_authenticate
  request_headers-Member url token etag value m =
      ground (arith, m, str_eq_iff (to_lower pl.unicode (hostname url)) (codes "api.github.com"))
