-- ===== src/App/Clients/Trust.antt =====
-- Whom `getClientIP` of cmd/svm/main.go believes.
use svm_go.Prelude.{
  Member-append, ◌≡◌, ◌⊎◌, inl, inr, refl, true, false, Option, none, some, List, [], ◌∷◌, ◌++◌,
  Str, Member, Bool-cases, is_empty, arith,
}
use svm_go.Http.{HttpRequest}
use svm_go.App.Clients.{
  Network, Net, contains, network_text, add_trusted_networks, parse_trusted_networks,
  remote_addr_text, remote_ip, is_trusted, forwarded_client, get_client_ip,
}
use svm_go.Text.{trim_space, split_comma}
use svm_go.Upstream.Client.{Ip}

module _ (net : Net) where
  -- A part of the list that names the network.
  pub record Names (parts : List Str) (network : Network) : Type 0 where
    pub part : Str
    pub listed : Member part parts
    pub parsed : net.parse_cidr (network_text net (trim_space net.unicode part)) ≡ some network

  Names-more :
      (part : Str) (parts : List Str) (network : Network)
      → Names parts network
      → Names (part ∷ parts) network
  Names-more part parts network n = record {
    part = n.part;
    listed = inr n.listed;
    parsed = n.parsed;
  }

  -- The networks that the loop gives from some networks are those and networks that it names.
  abbrev GivesNamed : List Network → List Str → Network → List Network → Type 0
  GivesNamed networks parts network result =
      add_trusted_networks net networks parts ≡ some result
      → Member network result
      → Member network networks ⊎ Names parts network

  GivesNamed-next :
      (networks : List Network) (part : Str) (parts : List Str) (result : List Network)
      (network : Network) (parsed : Option Network)
      → net.parse_cidr (network_text net (trim_space net.unicode part)) ≡ parsed
      → is_empty (trim_space net.unicode part) ≡ false
      → ((next : List Network) → GivesNamed next parts network result)
      → GivesNamed networks (part ∷ parts) network result
  unfolding add_trusted_networks
  GivesNamed-next networks part parts result network none p named ih e m = absurd (ground arith)
  GivesNamed-next networks part parts result network (some ipnet) p named ih e m =
      elim (ih (networks ++ ipnet ∷ []) (ground arith) m) [
        | inr later ↦ inr (Names-more part parts network later)
        | inl added ↦ elim ((Member-append network networks (ipnet ∷ [])).0 added) [
          | inl before ↦ inl before
          | inr here ↦ inr (record { part = part; listed = inl refl; parsed = ground arith })
        ]
      ]

  add_trusted_networks-Names :
      (networks : List Network) (parts : List Str) (result : List Network) (network : Network)
      → GivesNamed networks parts network result
  unfolding add_trusted_networks
  add_trusted_networks-Names networks [] result network e m = inl (ground arith)
  add_trusted_networks-Names networks (part ∷ parts) result network e m =
      elim (Bool-cases (is_empty (trim_space net.unicode part))) [
        | inl blank ↦
            elim (add_trusted_networks-Names networks parts result network (ground arith) m) [
              | inl before ↦ inl before
              | inr later ↦ inr (Names-more part parts network later)
            ]
        | inr named ↦
            GivesNamed-next networks part parts result network _ refl named
              (λ next. add_trusted_networks-Names next parts result network) e m
      ]

  is_trusted-Member :
      (networks : List Network) (ip : Ip)
      → is_trusted networks ip ≡ true
      → (network : Network) × Member network networks × (contains network ip ≡ true)
  unfolding is_trusted
  is_trusted-Member [] ip h = absurd (cc h)
  is_trusted-Member (network ∷ rest) ip h = elim (Bool-cases (contains network ip)) [
    | inl here ↦ (network, inl refl, here)
    | inr not_here ↦
        let (other, listed, there) = is_trusted-Member rest ip (ground arith) in
        (other, inr listed, there)
  ]

  -- The address that the remote end claims for its client is believed.
  pub record Believed (forwarded_allow_ips : Str) (req : HttpRequest) (client : Str) : Type 0 where
    pub ip : Ip
    pub network : Network
    pub remote : net.parse_ip (remote_ip net req) ≡ some ip
    pub within : contains network ip ≡ true
    pub named : Names (split_comma forwarded_allow_ips) network
    pub forwarded : client ≡ forwarded_client net req
    pub nonempty : is_empty client ≡ false

  pub parse_trusted_networks-Names :
      (forwarded_allow_ips : Str) (networks : List Network) (network : Network)
      → parse_trusted_networks net forwarded_allow_ips ≡ some networks
      → Member network networks
      → Names (split_comma forwarded_allow_ips) network
  unfolding parse_trusted_networks
  parse_trusted_networks-Names allow networks network e m = elim (Bool-cases (is_empty allow)) [
    | inl blank ↦ let none_given : networks ≡ [] = ground arith in absurd (rw none_given at m)
    | inr listed ↦
        elim (add_trusted_networks-Names [] (split_comma allow) networks network (ground arith) m) [
          | inl before ↦ absurd before
          | inr named ↦ named
        ]
  ]

  get_client_ip-trusted :
      (networks : List Network) (req : HttpRequest)
      → (get_client_ip net networks req ≡ remote_addr_text req)
        ⊎ ((ip : Ip) × (net.parse_ip (remote_ip net req) ≡ some ip)
            × (is_trusted networks ip ≡ true)
            × (get_client_ip net networks req ≡ forwarded_client net req)
            × (is_empty (forwarded_client net req) ≡ false))
  unfolding get_client_ip
  get_client_ip-trusted [] req = inl refl
  get_client_ip-trusted (network ∷ rest) req = go _ refl
    where
      go :
          (parsed : Option Ip)
          → net.parse_ip (remote_ip net req) ≡ parsed
          → (get_client_ip net (network ∷ rest) req ≡ remote_addr_text req)
            ⊎ ((ip : Ip) × (net.parse_ip (remote_ip net req) ≡ some ip)
                × (is_trusted (network ∷ rest) ip ≡ true)
                × (get_client_ip net (network ∷ rest) req ≡ forwarded_client net req)
                × (is_empty (forwarded_client net req) ≡ false))
      go none e = inl (ground arith)
      go (some ip) e = elim (Bool-cases (is_trusted (network ∷ rest) ip)) [
        | inr distrusted ↦ inl (ground arith)
        | inl trusted ↦ elim (Bool-cases (is_empty (forwarded_client net req))) [
          | inl missing ↦ inl (ground arith)
          | inr given ↦ inr (ip, e, trusted, ground arith, given)
        ]
      ]

  -- The client address is the remote address, or the first address of X-Forwarded-For; the latter
  -- only where the remote address lies in a network that FORWARDED_ALLOW_IPS names.
  pub get_client_ip-Believed :
      (forwarded_allow_ips : Str) (networks : List Network) (req : HttpRequest)
      → parse_trusted_networks net forwarded_allow_ips ≡ some networks
      → (get_client_ip net networks req ≡ remote_addr_text req)
        ⊎ Believed forwarded_allow_ips req (get_client_ip net networks req)
  get_client_ip-Believed allow networks req e = elim (get_client_ip-trusted networks req) [
    | inl remote ↦ inl remote
    | inr (ip, parsed, trusted, client, given) ↦
        let (network, listed, within) = is_trusted-Member networks ip trusted in
        inr (record {
          ip = ip;
          network = network;
          remote = parsed;
          within = within;
          named = parse_trusted_networks-Names allow networks network e listed;
          forwarded = client;
          nonempty = rw client given;
        })
  ]
