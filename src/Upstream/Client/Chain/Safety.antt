-- ===== src/Upstream/Client/Chain/Safety.antt =====
-- Where the requests of a client of internal/upstream/github/client.go can go.
use svm_go.Prelude.{
  All-Member, ℕ, zero, suc, ◌≡◌, ◌⊎◌, inl, inr, refl, Bool, true, false, Option, none, some, List,
  [], ◌∷◌, Str, All, Bool-cases, ◌+◌, codes, arith,
}
use mathlib.Core.Path.{sym, subst}
use svm_go.Security.{hostname, port, normal_host}
use svm_go.Security.Hosts.{Listed, host_allowed_iff}
use svm_go.Upstream.Client.Redirects.{redirect_validator_iff}
use svm_go.Platform.{Platform, Url, has_user}
use svm_go.Upstream.Client.{
  Ip, Dialled, connected, resolve_error, no_addresses, private_address_not_allowed, dial_error,
  safe_dial, redirect_validator,
}
use svm_go.Upstream.Client.Dial.{IsPublic, safe_dial-IsPublic}
use svm_go.Upstream.Client.Chain.{
  Transport, HttpClient, new_default_transport, new_client_with_http_client,
  new_client_with_allowed_hosts, Internet, Visit, uses_safe_dial, connect, onward, visit_then,
  visits,
}

-- A redirect may name the URL: it has no user, is https on its own port, and its host stands in the
-- allowlist, where there is one, up to case and the space around it.
pub record IsTarget (pl : Platform) (allowed_hosts : List Str) (url : Url) : Type 0 where
  pub anonymous : url.user ≡ none
  pub https : url.scheme ≡ codes "https"
  pub own_port : (port url ≡ []) ⊎ (port url ≡ codes "443")
  pub listed : (allowed_hosts ≡ []) ⊎ Listed pl (normal_host pl (hostname url)) allowed_hosts

-- A visit goes to a public address, and to the first URL or to one that a redirect may name.
pub record IsSafe (pl : Platform) (allowed_hosts : List Str) (first : Url) (v : Visit)
    : Type 0 where
  pub address : IsPublic v.ip
  pub destination : (v.url ≡ first) ⊎ IsTarget pl allowed_hosts v.url

no_user : (url : Url) → has_user url ≡ false → url.user ≡ none
no_user url h = ground arith

redirect_validator-IsTarget :
    (pl : Platform) (allowed_hosts : List Str) (url : Url)
    → redirect_validator pl allowed_hosts (some url) ≡ true
    → IsTarget pl allowed_hosts url
redirect_validator-IsTarget pl allowed_hosts url h =
    let (user, scheme, own_port, listed) = (redirect_validator_iff pl allowed_hosts url).0 h in
    record {
      anonymous = no_user url user;
      https = scheme;
      own_port = own_port;
      listed = elim listed [
        | inl free ↦ inl free
        | inr allowed ↦ inr ((host_allowed_iff pl (hostname url) allowed_hosts).0 allowed).1
      ];
    }

dialled-IsPublic :
    (dials : Ip → Bool) (answer : Option (List Ip)) (ip : Ip)
    → safe_dial dials answer ≡ connected ip
    → IsPublic ip
dialled-IsPublic dials none ip e = absurd (unfold safe_dial in cc e)
dialled-IsPublic dials (some ips) ip e =
    let (listed, _, public) = safe_dial-IsPublic dials ips ip e in
    All-Member IsPublic ip ips public listed

-- The client checks its redirects against the hosts, and its transport connects safely.
pub record IsGuarded (allowed_hosts : List Str) (client : HttpClient) : Type 0 where
  pub checks : client.check_redirect ≡ some allowed_hosts
  pub transport : Transport
  pub uses : client.transport ≡ some transport
  pub safe : (url : Url) → uses_safe_dial transport url ≡ true

module _ (pl : Platform) (allowed_hosts : List Str) (client : HttpClient) (net : Internet)
    (guarded : IsGuarded allowed_hosts client) where
  IsSafe-later :
      (first next : Url) (vs : List Visit)
      → IsTarget pl allowed_hosts next
      → All (IsSafe pl allowed_hosts next) vs
      → All (IsSafe pl allowed_hosts first) vs
  IsSafe-later first next [] h s = tt
  IsSafe-later first next (v ∷ vs) h (here, rest) = (
    record {
      address = here.address;
      destination = inr (elim here.destination [
        | inl same ↦ subst (IsTarget pl allowed_hosts) (sym same) h
        | inr allowed ↦ allowed
      ]);
    },
    IsSafe-later first next vs h rest,
  )

  onward-IsSafe :
      (n : ℕ) (first : Url) (o : Option Url) (later : Url → List Visit)
      → ((next : Url) → All (IsSafe pl allowed_hosts next) (later next))
      → All (IsSafe pl allowed_hosts first) (onward pl client net n o later)
  onward-IsSafe n first none later each = tt
  onward-IsSafe n first (some next) later each =
      elim (Bool-cases (redirect_validator pl allowed_hosts (some next))) [
        | inl allowed ↦ rw guarded.checks (
            rw allowed (
              IsSafe-later first next (later next)
                (redirect_validator-IsTarget pl allowed_hosts next allowed) (each next)))
        | inr refused ↦ rw guarded.checks (rw refused tt)
      ]

  connect-IsPublic :
      (n : ℕ) (url : Url) (ip : Ip) → connect pl client net n url ≡ connected ip → IsPublic ip
  connect-IsPublic n url ip e =
      let dialled : safe_dial (net.dials n) (net.resolve n url) ≡ connected ip =
        rw (guarded.uses, guarded.safe url) at e in
      dialled-IsPublic (net.dials n) (net.resolve n url) ip dialled

  visit_then-IsSafe :
      (first : Url) (d : Dialled) (rest : List Visit)
      → ((ip : Ip) → d ≡ connected ip → IsPublic ip)
      → All (IsSafe pl allowed_hosts first) rest
      → All (IsSafe pl allowed_hosts first) (visit_then pl client net first d rest)
  visit_then-IsSafe first (connected ip) rest public s =
      (record { address = public ip refl; destination = inl refl }, s)
  visit_then-IsSafe first resolve_error rest public s = tt
  visit_then-IsSafe first no_addresses rest public s = tt
  visit_then-IsSafe first private_address_not_allowed rest public s = tt
  visit_then-IsSafe first dial_error rest public s = tt

  visits-IsSafe :
      (rounds n : ℕ) (first : Url)
      → All (IsSafe pl allowed_hosts first) (visits pl client net rounds n first)
  unfolding visits
  visits-IsSafe zero n first = tt
  visits-IsSafe (suc rounds) n first =
      visit_then-IsSafe first (connect pl client net n first)
        (onward pl client net (n + 1) (net.location n first)
          (λ next. visits pl client net rounds (n + 1) next))
        (connect-IsPublic n first)
        (onward-IsSafe (n + 1) first (net.location n first)
          (λ next. visits pl client net rounds (n + 1) next)
          (λ next. visits-IsSafe rounds (n + 1) next))

new_default_transport-safe :
    (base : Option Transport)
    → ((t : Transport) → base ≡ some t → t.dials_tls ≡ false)
    → (url : Url) → uses_safe_dial (new_default_transport base) url ≡ true
unfolding new_default_transport
new_default_transport-safe none plain url = refl
new_default_transport-safe (some base) plain url = rw (plain base refl) refl

new_client_with_allowed_hosts-IsGuarded :
    (base : Option Transport) (allowed_hosts : List Str)
    → ((t : Transport) → base ≡ some t → t.dials_tls ≡ false)
    → IsGuarded allowed_hosts (new_client_with_allowed_hosts base allowed_hosts)
unfolding new_client_with_allowed_hosts new_client_with_http_client
new_client_with_allowed_hosts-IsGuarded base allowed_hosts plain = record {
  checks = refl;
  transport = new_default_transport base;
  uses = refl;
  safe = new_default_transport-safe base plain;
}

-- Where the default transport has no function of its own for https, and however names resolve and
-- servers redirect, request by request, each request of a client made with allowed hosts goes to a
-- public address, and each one behind the first to a URL without a user, https on its own port, whose
-- host is allowed, where there is an allowlist.
pub visits-new_client_with_allowed_hosts :
    (pl : Platform) (base : Option Transport) (allowed_hosts : List Str) (net : Internet)
    (rounds : ℕ) (first : Url)
    → ((t : Transport) → base ≡ some t → t.dials_tls ≡ false)
    → All
        (IsSafe pl allowed_hosts first)
        (visits pl (new_client_with_allowed_hosts base allowed_hosts) net rounds 0 first)
visits-new_client_with_allowed_hosts pl base allowed_hosts net rounds first plain =
    visits-IsSafe pl allowed_hosts (new_client_with_allowed_hosts base allowed_hosts) net
      (new_client_with_allowed_hosts-IsGuarded base allowed_hosts plain) rounds 0 first
