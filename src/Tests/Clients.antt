-- ===== src/Tests/Clients.antt =====
-- The upstream client of internal/upstream/github/client.go at concrete addresses and URLs.
use svm_go.Prelude.{
  none, length, ◌≡◌, ◌+◌, ◌*◌, ◌^◌, ◌↔◌, refl, true, false, List, Str, ap, sym, some, [], ◌∷◌,
  codes, All, arith,
}
use svm_go.Tests.Samples.{platform, url}
use svm_go.Upstream.Client
use svm_go.Upstream.Client.{
  Ip, v4, v6, ipv4, to4, connected, is_public_ip, safe_dial, private_address_not_allowed,
  redirect_validator, request_headers,
}
use svm_go.Upstream.Client.Dial.{IsOutside, reserved_v4, is_public_ip-reserved}
use svm_go.Tests.Samples
use svm_go.Upstream.Client.Chain
use svm_go.Upstream.Client.Chain.{
  Internet, Transport, visits, new_client_with_allowed_hosts, new_client_with_http_client,
}
use svm_go.Upstream.Client.Chain.Safety.{IsSafe, visits-new_client_with_allowed_hosts}

abbrev github : Ip
github = v4 (ipv4 140 82 121 6)

abbrev loopback : Ip
loopback = v4 (ipv4 127 0 0 1)

-- The loopback address by its IPv6 form.
abbrev mapped_loopback : Ip
mapped_loopback = v6 (65535 * 2 ^ 32 + ipv4 127 0 0 1)

refuses :
    (safe_dial (λ ip. true) (some (github ∷ loopback ∷ [])) ≡ private_address_not_allowed)
    × (safe_dial (λ ip. true) (some (mapped_loopback ∷ [])) ≡ private_address_not_allowed)
unfolding Client.safe_dial Client.all_public Client.dial_first Client.is_public_ip
refuses = (refl, refl)

is_public_ip-reserved_example :
    (is_public_ip mapped_loopback ≡ true) ↔ All (IsOutside (ipv4 127 0 0 1)) reserved_v4
is_public_ip-reserved_example =
    is_public_ip-reserved mapped_loopback (ipv4 127 0 0 1) refl (omega arith)

-- The server of every URL redirects to it.
abbrev internet : Internet
internet = record {
  resolve = λ n u. some (github ∷ []);
  dials = λ n ip. true;
  connects = λ n u. connected loopback;
  location = λ n u. some u;
}

-- A default transport like that of Go, and one with a function for https.
abbrev base : Transport
base = record {
  max_idle_conns = 100;
  max_idle_conns_per_host = 0;
  proxy = true;
  dials_safely = false;
  dials_tls = false;
}

abbrev tls_base : Transport
tls_base = record base { dials_tls = true }

abbrev hosts : List Str
hosts = codes "api.github.com" ∷ []

-- Nothing but the timeout ends a loop of redirects; without a check of redirects it ends after ten.
loops :
    (length (visits platform (new_client_with_allowed_hosts (some base) hosts) internet 12 0 url)
      ≡ 12)
    × (length (visits platform (new_client_with_http_client (some base) none) internet 12 0 url)
        ≡ 10)
unfolding Samples.program Chain.visits Chain.new_client_with_allowed_hosts
    Chain.new_client_with_http_client Chain.new_default_transport Client.redirect_validator
    Client.redirect_url_allowed Client.safe_dial Client.all_public Client.dial_first
    Client.is_public_ip
loops = (refl, refl)

-- The function for https of the default transport is kept, and dials any address.
tls_dials :
    visits platform (new_client_with_allowed_hosts (some tls_base) hosts) internet 1 0 url
    ≡ record { url = url; ip = loopback } ∷ []
unfolding Samples.program Chain.visits Chain.new_client_with_allowed_hosts
    Chain.new_client_with_http_client Chain.new_default_transport Client.redirect_validator
tls_dials = refl

plain_base : (t : Transport) → some base ≡ some t → t.dials_tls ≡ false
plain_base t e = let same : base ≡ t = cc e in ap (λ x. x.dials_tls) (sym same)

visits-new_client_with_allowed_hosts_example :
    All
      (IsSafe platform hosts url)
      (visits platform (new_client_with_allowed_hosts (some base) hosts) internet 3 0 url)
visits-new_client_with_allowed_hosts_example =
    visits-new_client_with_allowed_hosts platform (some base) hosts internet 3 url plain_base
