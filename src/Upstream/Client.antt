-- ===== src/Upstream/Client.antt =====
-- internal/upstream/github/client.go: which requests carry a token, which redirects are followed,
-- which addresses are dialled, and which answers put a token on cooldown.
pub mod Redirects
pub mod Dial
pub mod Chain
use svm_go.Prelude.{
  ℕ, ◌+◌, ◌-◌, ◌*◌, ◌/◌, ◌%◌, ◌^◌, Bool, true, false, not, ◌&&◌, ◌||◌, Option, none, some, List, [],
  ◌∷◌, ◌++◌, Str, codes, is_empty, str_eq, length, ltb, leb, ◌==◌, if◌then◌else◌,
}
use svm_go.Cache.Clock.{Time}
use svm_go.Platform.{Platform, Url, has_user}
use svm_go.Security.{hostname, port, host_allowed}
use svm_go.Text.{to_lower}
use svm_go.Upstream.Tokens.{RoundRobinTokenProvider, observe_rate_limited_token}

unfoldable pub is_rate_limited_status : ℕ → Bool
is_rate_limited_status code = (code == 403) || (code == 429)

-- `ObserveRateLimit` with the token provider as its observer.
unfoldable pub observe_rate_limit :
    Time → Str → ℕ → RoundRobinTokenProvider → RoundRobinTokenProvider
unfolding is_rate_limited_status
observe_rate_limit now token code p =
    if is_empty token
    then p
    else if is_rate_limited_status code
    then observe_rate_limited_token now token p
    else p

unfoldable pub should_authenticate : Platform → Url → Bool
should_authenticate pl destination =
    str_eq (to_lower pl.unicode (hostname destination)) (codes "api.github.com")

-- The headers that `Get` sets, each with its value.
unfoldable pub request_headers : Platform → Url → Str → Str → List (Str × Str)
unfolding should_authenticate
request_headers pl url token etag =
    (if not (is_empty token) && should_authenticate pl url
      then (codes "Authorization", codes "token " ++ token) ∷ []
      else [])
    ++ (if not (is_empty etag) then (codes "If-None-Match", etag) ∷ [] else [])

unfoldable pub redirect_url_allowed : Platform → Url → List Str → Bool
redirect_url_allowed pl destination allowed_hosts =
    if has_user destination || not (str_eq destination.scheme (codes "https"))
    then false
    else if not (is_empty (port destination)) && not (str_eq (port destination) (codes "443"))
    then false
    else leb (length allowed_hosts) 0 || host_allowed pl (hostname destination) allowed_hosts

-- The validator of a client: whether the redirect is followed. A nil request or URL is none.
unfoldable pub redirect_validator : Platform → List Str → Option Url → Bool
unfolding redirect_url_allowed
redirect_validator pl allowed_hosts none = false
redirect_validator pl allowed_hosts (some url) = redirect_url_allowed pl url allowed_hosts

-- An address: an IPv4 address as its number, or an IPv6 address as its number. `net.IP` takes an IPv6
-- address that stands for an IPv4 address for that one, as `to4` says.
pub data Ip : Type 0 where
  v4 v6 : ℕ → Ip

abbrev pub to4 : Ip → Ip
to4 (v4 n) = v4 n
to4 (v6 n) = if n / 2 ^ 32 == 65535 then v4 (n % 2 ^ 32) else v6 n

-- The first `bits` bits of an address of `width` bits are those of `base`.
abbrev pub in_network : (width bits base n : ℕ) → Bool
in_network width bits base n = n / 2 ^ (width - bits) == base / 2 ^ (width - bits)

abbrev pub ipv4 : ℕ → ℕ → ℕ → ℕ → ℕ
ipv4 a b c d = a * 2 ^ 24 + b * 2 ^ 16 + c * 2 ^ 8 + d

-- The predicates of `net.IP` on the form that `to4` gives.
abbrev pub is_unspecified : Ip → Bool
is_unspecified (v4 n) = n == 0
is_unspecified (v6 n) = n == 0

abbrev pub is_loopback : Ip → Bool
is_loopback (v4 n) = in_network 32 8 (ipv4 127 0 0 0) n
is_loopback (v6 n) = n == 1

abbrev pub is_private : Ip → Bool
is_private (v4 n) =
    in_network 32 8 (ipv4 10 0 0 0) n
    || in_network 32 12 (ipv4 172 16 0 0) n
    || in_network 32 16 (ipv4 192 168 0 0) n
is_private (v6 n) = in_network 128 7 (252 * 2 ^ 120) n

abbrev pub is_multicast : Ip → Bool
is_multicast (v4 n) = in_network 32 4 (ipv4 224 0 0 0) n
is_multicast (v6 n) = in_network 128 8 (255 * 2 ^ 120) n

-- For IPv6, the low half of the second byte is 2.
abbrev pub is_link_local_multicast : Ip → Bool
is_link_local_multicast (v4 n) = in_network 32 24 (ipv4 224 0 0 0) n
is_link_local_multicast (v6 n) = in_network 128 8 (255 * 2 ^ 120) n && (n / 2 ^ 112 % 16 == 2)

abbrev pub is_link_local_unicast : Ip → Bool
is_link_local_unicast (v4 n) = in_network 32 16 (ipv4 169 254 0 0) n
is_link_local_unicast (v6 n) = in_network 128 10 (254 * 2 ^ 120 + 128 * 2 ^ 112) n

abbrev pub is_broadcast : Ip → Bool
is_broadcast (v4 n) = n == 4294967295
is_broadcast (v6 n) = false

abbrev pub is_global_unicast : Ip → Bool
is_global_unicast ip =
    not (is_broadcast ip)
    && not (is_unspecified ip)
    && not (is_loopback ip)
    && not (is_multicast ip)
    && not (is_link_local_unicast ip)

-- `nonPublicNetworks`
abbrev pub in_non_public_networks : Ip → Bool
in_non_public_networks (v4 n) =
    in_network 32 8 (ipv4 0 0 0 0) n
    || in_network 32 10 (ipv4 100 64 0 0) n
    || in_network 32 24 (ipv4 192 0 0 0) n
    || in_network 32 24 (ipv4 192 0 2 0) n
    || in_network 32 15 (ipv4 198 18 0 0) n
    || in_network 32 24 (ipv4 198 51 100 0) n
    || in_network 32 24 (ipv4 203 0 113 0) n
    || in_network 32 4 (ipv4 240 0 0 0) n
in_non_public_networks (v6 n) = in_network 128 32 (8193 * 2 ^ 112 + 3512 * 2 ^ 96) n

abbrev is_public_form : Ip → Bool
is_public_form ip =
    if not (is_global_unicast ip)
      || is_private ip
      || is_loopback ip
      || is_link_local_unicast ip
      || is_link_local_multicast ip
      || is_multicast ip
      || is_unspecified ip
    then false
    else not (in_non_public_networks ip)

-- `isPublicIP`; a nil address does not come from the resolver.
unfoldable pub is_public_ip : Ip → Bool
is_public_ip ip = is_public_form (to4 ip)

pub data Dialled : Type 0 where
  connected : Ip → Dialled
  resolve_error no_addresses private_address_not_allowed dial_error : Dialled

-- The loop that dials the addresses in turn.
unfoldable pub dial_first : (Ip → Bool) → List Ip → Dialled
dial_first dials [] = dial_error
dial_first dials (ip ∷ rest) =
    let next = dial_first dials rest in if dials ip then connected ip else next

unfoldable pub all_public : List Ip → Bool
all_public [] = true
all_public (ip ∷ rest) = is_public_ip ip && all_public rest

-- `safeDialContext` once the address is split: `resolved` is the answer of the resolver, none for an
-- error, and `dials` says to which addresses a connection is made.
unfoldable pub safe_dial : (Ip → Bool) → Option (List Ip) → Dialled
unfolding dial_first all_public
safe_dial dials none = resolve_error
safe_dial dials (some []) = no_addresses
safe_dial dials (some (ip ∷ rest)) =
    if all_public (ip ∷ rest) then dial_first dials (ip ∷ rest) else private_address_not_allowed
