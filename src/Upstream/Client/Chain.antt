-- ===== src/Upstream/Client/Chain.antt =====
-- The clients that internal/upstream/github/client.go makes, and the chain of requests that one of them
-- sends where upstream redirects it.
pub mod Safety
use svm_go.Prelude.{
  ℕ, zero, suc, Bool, true, false, Option, none, some, List, [], ◌∷◌, Str, if◌then◌else◌, ◌+◌, not,
  ◌&&◌, codes, str_eq, ltb,
}
use svm_go.Platform.{Platform, Url}
use svm_go.Upstream.Client.{
  Ip, Dialled, connected, resolve_error, no_addresses, private_address_not_allowed, dial_error,
  safe_dial, redirect_validator,
}

-- What matters here of a transport of `net/http`: `proxy` says that it has a proxy function,
-- `dials_safely` that its `DialContext` is `safeDialContext`, and `dials_tls` that it has a function of
-- its own for https (`DialTLSContext` or `DialTLS`), which then takes the place of `DialContext`.
pub record Transport : Type 0 where
  pub max_idle_conns : ℕ
  pub max_idle_conns_per_host : ℕ
  pub proxy : Bool
  pub dials_safely : Bool
  pub dials_tls : Bool

-- `check_redirect` holds the hosts of a `redirectValidator`, and is none where the function is nil.
pub record HttpClient : Type 0 where
  pub timeout_seconds : ℕ
  pub transport : Option Transport
  pub check_redirect : Option (List Str)

-- `newDefaultTransport`; `base` is `http.DefaultTransport` where it is a transport of `net/http`. Its
-- clone keeps a function for https that it has.
unfoldable pub new_default_transport : Option Transport → Transport
new_default_transport none = record {
  max_idle_conns = 512;
  max_idle_conns_per_host = 256;
  proxy = false;
  dials_safely = true;
  dials_tls = false;
}
new_default_transport (some base) = record base {
  proxy = false;
  max_idle_conns = 512;
  max_idle_conns_per_host = 256;
  dials_safely = true;
}

-- `NewClientWithHTTPClient`
unfoldable pub new_client_with_http_client : Option Transport → Option HttpClient → HttpClient
unfolding new_default_transport
new_client_with_http_client base none = record {
  timeout_seconds = 30;
  transport = some (new_default_transport base);
  check_redirect = none;
}
new_client_with_http_client base (some client) = elim client.transport [
  | none ↦ record client { transport = some (new_default_transport base) }
  | some _ ↦ client
]

-- `NewClientWithAllowedHosts`, and `NewClient` where there are no hosts.
unfoldable pub new_client_with_allowed_hosts : Option Transport → List Str → HttpClient
unfolding new_client_with_http_client new_default_transport
new_client_with_allowed_hosts base allowed_hosts = new_client_with_http_client base (
    some (record {
      timeout_seconds = 30;
      transport = some (new_default_transport base);
      check_redirect = some allowed_hosts;
    }))

-- What is outside, for each request of a chain by its number: the resolver, which addresses accept a
-- connection, what another way to connect than `safeDialContext` gives, and where the server of a URL
-- redirects to.
pub record Internet : Type 0 where
  pub resolve : ℕ → Url → Option (List Ip)
  pub dials : ℕ → Ip → Bool
  pub connects : ℕ → Url → Dialled
  pub location : ℕ → Url → Option Url

-- A request that was sent: its URL and the address that it went to.
pub record Visit : Type 0 where
  pub url : Url
  pub ip : Ip

-- The transport connects with `safeDialContext` for a URL.
abbrev pub uses_safe_dial : Transport → Url → Bool
uses_safe_dial t url =
    t.dials_safely && not t.proxy && not (t.dials_tls && str_eq url.scheme (codes "https"))

module _ (pl : Platform) (client : HttpClient) (net : Internet) where
  -- How the client connects for the n-th request of a chain.
  abbrev pub connect : ℕ → Url → Dialled
  connect n url = elim client.transport [
    | none ↦ net.connects n url
    | some t ↦
        if uses_safe_dial t url
        then safe_dial (net.dials n) (net.resolve n url)
        else net.connects n url
  ]

  -- Whether the client follows a redirect after n requests: a client without a function for that
  -- stops after ten, as `net/http` has it.
  abbrev pub follows : ℕ → Url → Bool
  follows n next = elim client.check_redirect [
    | none ↦ ltb n 10
    | some hosts ↦ redirect_validator pl hosts (some next)
  ]

  -- The requests behind the n-th one: `later` is the chain from the URL of a redirect.
  abbrev pub onward : ℕ → Option Url → (Url → List Visit) → List Visit
  onward n none later = []
  onward n (some next) later = if follows n next then later next else []

  abbrev pub visit_then : Url → Dialled → List Visit → List Visit
  visit_then url (connected ip) rest = record { url = url; ip = ip } ∷ rest
  visit_then url resolve_error rest = []
  visit_then url no_addresses rest = []
  visit_then url private_address_not_allowed rest = []
  visit_then url dial_error rest = []

  -- The requests of `httpClient.Do` from the n-th on; `rounds` is how many it can send before its
  -- timeout.
  unfoldable pub visits : ℕ → ℕ → Url → List Visit
  visits zero n url = []
  visits (suc rounds) n url =
      visit_then url (connect n url)
        (onward (n + 1) (net.location n url) (λ next. visits rounds (n + 1) next))
