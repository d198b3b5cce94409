-- ===== src/Security/Urls.antt =====
-- Which URLs internal/security/url_validator.go accepts.
use svm_go.Prelude.{
  none, true, false, ◌≡◌, ◌⊎◌, ◌↔◌, refl, some, List, [], ◌∷◌, arith, Str, codes, is_empty,
  str_eq_iff, inl, inr,
}
use svm_go.Text.{trim_space, equal_fold}
use svm_go.Platform.{Platform, Url}
use svm_go.Security.{
  Parsed, ok, err, UrlError, port, hostname, check_https, parse_https_url, host_allowed,
  parse_https_url_with_allowlist,
}

module _ (pl : Platform) where
  -- An absolute https URL without credentials, for the port 443.
  pub record IsSecure (u : Url) : Type 0 where
    pub has_scheme : is_empty u.scheme ≡ false
    pub has_host : is_empty u.host ≡ false
    pub https : equal_fold pl.unicode u.scheme (codes "https") ≡ true
    pub no_user : u.user ≡ none
    pub https_port : (port u ≡ []) ⊎ (port u ≡ codes "443")

  is_empty-nil : (s : Str) → is_empty s ≡ true → s ≡ []
  is_empty-nil [] h = refl
  is_empty-nil (c ∷ s) h = cc

  check_https-IsSecure : (u v : Url) → check_https pl u ≡ ok v → (u ≡ v) × IsSecure v
  unfolding check_https
  check_https-IsSecure u v h =
      ground (arith, is_empty-nil (port u), str_eq_iff (port u) (codes "443"))

  IsSecure-check_https : (u : Url) → IsSecure u → check_https pl u ≡ ok u
  unfolding check_https
  IsSecure-check_https u h = ground (arith, h.https_port, str_eq_iff (port u) (codes "443"))

  parse_https_url_inv :
      (raw_url : Str) (u : Url)
      → parse_https_url pl raw_url ≡ ok u
      → (is_empty (trim_space pl.unicode raw_url) ≡ false)
        × (v : Url) × (pl.parse_url (trim_space pl.unicode raw_url) ≡ some v)
        × (check_https pl v ≡ ok u)
  unfolding parse_https_url
  parse_https_url_inv raw_url u h = ground arith

  Parsed-cases : (p : Parsed) → ((u : Url) × (p ≡ ok u)) ⊎ ((e : UrlError) × (p ≡ err e))
  Parsed-cases (ok u) = inl (u, refl)
  Parsed-cases (err e) = inr (e, refl)

  -- A URL is accepted exactly if the text without the space around it is not empty, parses to the
  -- URL, and the URL is absolute, has the scheme https, no user and no port but 443.
  pub parse_https_url_iff :
      (raw_url : Str) (u : Url)
      → (parse_https_url pl raw_url ≡ ok u) ↔ (
          (is_empty (trim_space pl.unicode raw_url) ≡ false)
          × (pl.parse_url (trim_space pl.unicode raw_url) ≡ some u)
          × IsSecure u)
  parse_https_url_iff raw_url u = (accepted, λ (ne, parsed, secure). complete ne parsed secure)
    where
      accepted :
          parse_https_url pl raw_url ≡ ok u
          → (is_empty (trim_space pl.unicode raw_url) ≡ false)
            × (pl.parse_url (trim_space pl.unicode raw_url) ≡ some u)
            × IsSecure u
      accepted h =
          let (ne, v, parsed, checked) = parse_https_url_inv raw_url u h in
          let (same, secure) = check_https-IsSecure v u checked in (ne, rw (← same) parsed, secure)

      complete :
          is_empty (trim_space pl.unicode raw_url) ≡ false
          → pl.parse_url (trim_space pl.unicode raw_url) ≡ some u
          → IsSecure u
          → parse_https_url pl raw_url ≡ ok u
      complete ne parsed secure =
          unfold parse_https_url in rw (ne, parsed) (IsSecure-check_https u secure)

  -- With an allowlist that is not empty, a URL is accepted exactly if it is accepted without one
  -- and its host is in the list.
  pub parse_https_url_with_allowlist_iff :
      (raw_url : Str) (u : Url) (h : Str) (hs : List Str)
      → (parse_https_url_with_allowlist pl raw_url (h ∷ hs) ≡ ok u)
        ↔ ((parse_https_url pl raw_url ≡ ok u) × (host_allowed pl (hostname u) (h ∷ hs) ≡ true))
  unfolding parse_https_url_with_allowlist
  parse_https_url_with_allowlist_iff raw_url u h hs =
      elim (Parsed-cases (parse_https_url pl raw_url)) [
        | inl (v, e) ↦ rw e (ground arith)
        | inr (e', e) ↦ rw e (ground arith)
      ]
