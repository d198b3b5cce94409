-- ===== src/Version/Prep/Allowlist.antt =====
-- The allowlist of the service (internal/service/version/service.go) against that of
-- internal/security/url_validator.go.
use svm_go.Prelude.{
  ◌<◌, ◌≡◌, refl, Bool, true, false, ◌&&◌, ◌||◌, none, some, List, [], ◌∷◌, Str, Assoc, arith,
  lookup, insert, lookup-insert, str_eq_iff, is_empty, length, leb, if◌then◌else◌, Bool-cases, inl,
  inr,
}
use svm_go.Platform.{Platform}
use svm_go.Security.{normal_host, any_host, host_allowed}
use svm_go.Version.Prep.{add_hosts, build_allowed_host_set, is_allowed_host}

module _ (pl : Platform) where
  abbrev in_set : Str → Assoc (Unit {0}) → Bool
  in_set h set = elim (lookup h set) [ none ↦ false | some _ ↦ true ]

  in_set-nil : (h : Str) → in_set h [] ≡ false
  unfolding lookup
  in_set-nil h = refl

  in_set-add_hosts :
      (h : Str) (hosts : List Str) (set : Assoc (Unit {0}))
      → is_empty h ≡ false
      → in_set h (add_hosts pl hosts set) ≡ (in_set h set || any_host pl h hosts)
  unfolding add_hosts any_host
  in_set-add_hosts h [] set ne = ground arith
  in_set-add_hosts h (a ∷ hosts) set ne = elim (Bool-cases (is_empty (normal_host pl a))) [
    | inl blank ↦
        rw (blank, in_set-add_hosts h hosts set ne)
          (ground (arith, str_eq_iff h (normal_host pl a)))
    | inr kept ↦
        rw (kept, in_set-add_hosts h hosts (insert (normal_host pl a) tt set) ne)
          (ground (
            arith,
            lookup-insert (normal_host pl a) h (tt {0}) set,
            str_eq_iff h (normal_host pl a),
            str_eq_iff (normal_host pl a) h,
          ))
  ]

  -- Every host of the list is blank.
  unfoldable pub all_blank : List Str → Bool
  all_blank [] = true
  all_blank (a ∷ hosts) = is_empty (normal_host pl a) && all_blank hosts

  keeps_some :
      (hosts : List Str) (set : Assoc (Unit {0}))
      → 0 < length set
      → 0 < length (add_hosts pl hosts set)
  unfolding add_hosts insert
  keeps_some [] set h = h
  keeps_some (a ∷ hosts) set h = elim (Bool-cases (is_empty (normal_host pl a))) [
    | inl blank ↦ rw blank (keeps_some hosts set h)
    | inr kept ↦ rw kept (keeps_some hosts (insert (normal_host pl a) tt set) (omega arith))
  ]

  is_nil-add_hosts : (hosts : List Str) → leb (length (add_hosts pl hosts [])) 0 ≡ all_blank hosts
  unfolding add_hosts all_blank insert
  is_nil-add_hosts [] = ground arith
  is_nil-add_hosts (a ∷ hosts) = elim (Bool-cases (is_empty (normal_host pl a))) [
    | inl blank ↦ rw blank (is_nil-add_hosts hosts)
    | inr kept ↦ rw kept (
        ground (
          arith,
          keeps_some hosts (insert (normal_host pl a) tt []) (unfold insert in omega arith),
        ))
  ]

  -- With a list of hosts that are not all blank the service allows exactly the hosts that the
  -- validator allows; with blank hosts alone, or none, it allows every host.
  pub is_allowed_host-host_allowed :
      (hosts : List Str) (host : Str)
      → is_allowed_host pl (build_allowed_host_set pl hosts) host
        ≡ (if all_blank hosts then true else host_allowed pl host hosts)
  unfolding is_allowed_host build_allowed_host_set host_allowed
  is_allowed_host-host_allowed hosts host = elim (Bool-cases (is_empty (normal_host pl host))) [
    | inl blank ↦ ground (arith, is_nil-add_hosts hosts)
    | inr ne ↦ ground (
      arith,
      is_nil-add_hosts hosts,
      in_set-add_hosts (normal_host pl host) hosts [] ne,
      in_set-nil (normal_host pl host),
    )
  ]
