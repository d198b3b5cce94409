-- ===== src/Security/Hosts.antt =====
-- The allowlist test of internal/security/url_validator.go.
use svm_go.Prelude.{true, false, ◌≡◌, ◌⊎◌, ◌↔◌, List, [], ◌∷◌, arith, Str, is_empty, str_eq_iff}
use svm_go.Platform.{Platform}
use svm_go.Security.{normal_host, any_host, host_allowed}

module _ (pl : Platform) where
  -- `h` stands in the list, up to case and the space around it.
  abbrev pub Listed : Str → List Str → Type 0
  Listed h [] = ⊥
  Listed h (a ∷ hs) = (h ≡ normal_host pl a) ⊎ Listed h hs

  any_host_iff : (h : Str) (hs : List Str) → (any_host pl h hs ≡ true) ↔ Listed h hs
  unfolding any_host
  any_host_iff h [] = ground arith
  any_host_iff h (a ∷ hs) = ground (arith, str_eq_iff h (normal_host pl a), any_host_iff h hs)

  -- A host is allowed exactly if it is not blank and stands in the list, up to case and the space
  -- around it.
  pub host_allowed_iff :
      (host : Str) (hs : List Str)
      → (host_allowed pl host hs ≡ true)
        ↔ ((is_empty (normal_host pl host) ≡ false) × Listed (normal_host pl host) hs)
  unfolding host_allowed
  host_allowed_iff host hs = ground (arith, any_host_iff (normal_host pl host) hs)
