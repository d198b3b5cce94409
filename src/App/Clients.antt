-- ===== src/App/Clients.antt =====
-- The trusted networks and the client address of cmd/svm/main.go.
pub mod Trust
use svm_go.Prelude.{
  ℕ, ◌-◌, Bool, true, false, ◌||◌, Option, none, some, List, [], ◌∷◌, ◌++◌, Str, codes, is_empty,
  if◌then◌else◌,
}
use svm_go.Http.{HttpRequest}
use svm_go.Text.{Unicode, trim_space, split_comma, contains_byte}
use svm_go.Upstream.Client.{Ip, v4, v6, to4, in_network}

-- A `net.IPNet`: an address and the number of ones at the front of its mask, which is as long as the
-- address.
pub record Network : Type 0 where
  pub ip : Ip
  pub ones : ℕ

-- The functions of Go's `net` that read texts; `split_host_port` gives the host.
pub record Net : Type 0 where
  pub unicode : Unicode
  pub parse_ip : Str → Option Ip
  pub parse_cidr : Str → Option Network
  pub split_host_port : Str → Option Str

-- The ones of the mask for the address that `to4` gives: the last four bytes of a longer mask.
abbrev pub mask_ones : Network → ℕ
mask_ones net = elim net.ip [
  | v4 n ↦ net.ones
  | v6 n ↦ elim (to4 (v6 n)) [ v4 _ ↦ net.ones - 96 | v6 _ ↦ net.ones ]
]

abbrev same_prefix : ℕ → Ip → Ip → Bool
same_prefix ones (v4 base) (v4 n) = in_network 32 ones base n
same_prefix ones (v6 base) (v6 n) = in_network 128 ones base n
same_prefix ones _ _ = false

-- `network.Contains(ip)`
unfoldable pub contains : Network → Ip → Bool
contains net ip = same_prefix (mask_ones net) (to4 net.ip) (to4 ip)

-- `ctx.RemoteAddr().String()`, empty where there is no address.
abbrev pub remote_addr_text : HttpRequest → Str
remote_addr_text req = elim req.remote_addr [ none ↦ [] | some addr ↦ addr ]

-- The loop over the trusted networks.
unfoldable pub is_trusted : List Network → Ip → Bool
is_trusted [] ip = false
is_trusted (network ∷ rest) ip = contains network ip || is_trusted rest ip

abbrev first_part : List Str → Str
first_part [] = []
first_part (part ∷ parts) = part

module _ (net : Net) where
  -- A network with the length of its mask: without one, the network is the address alone.
  unfoldable pub network_text : Str → Str
  network_text network =
      if contains_byte b'/' network
      then network
      else if contains_byte b':' network
      then network ++ codes "/128"
      else network ++ codes "/32"

  -- The loop of `NewApp` over the parts of FORWARDED_ALLOW_IPS; none is an error.
  unfoldable pub add_trusted_networks : List Network → List Str → Option (List Network)
  unfolding network_text
  add_trusted_networks networks [] = some networks
  add_trusted_networks networks (part ∷ parts) =
      let network = trim_space net.unicode part in
      let same = add_trusted_networks networks parts in
      if is_empty network then same else elim (net.parse_cidr (network_text network)) [
        | none ↦ none
        | some ipnet ↦ add_trusted_networks (networks ++ ipnet ∷ []) parts
      ]

  unfoldable pub parse_trusted_networks : Str → Option (List Network)
  unfolding add_trusted_networks
  parse_trusted_networks forwarded_allow_ips =
      if is_empty forwarded_allow_ips
      then some []
      else add_trusted_networks [] (split_comma forwarded_allow_ips)

  -- The remote address without its port.
  unfoldable pub remote_ip : HttpRequest → Str
  remote_ip req = elim (net.split_host_port (remote_addr_text req)) [
    | none ↦ remote_addr_text req
    | some host ↦ host
  ]

  -- The first address of X-Forwarded-For.
  unfoldable pub forwarded_client : HttpRequest → Str
  forwarded_client req =
      if is_empty req.forwarded_for
      then []
      else trim_space net.unicode (first_part (split_comma req.forwarded_for))

  -- `getClientIP`
  unfoldable pub get_client_ip : List Network → HttpRequest → Str
  unfolding remote_ip is_trusted forwarded_client
  get_client_ip [] req = remote_addr_text req
  get_client_ip (network ∷ rest) req = elim (net.parse_ip (remote_ip req)) [
    | none ↦ remote_addr_text req
    | some ip ↦
        if is_trusted (network ∷ rest) ip
        then (if is_empty (forwarded_client req)
            then remote_addr_text req
            else forwarded_client req)
        else remote_addr_text req
  ]
