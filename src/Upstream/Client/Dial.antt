-- ===== src/Upstream/Client/Dial.antt =====
-- Which addresses the client of internal/upstream/github/client.go dials.
use svm_go.Prelude.{
  ℕ, ◌^◌, ◌<◌, ◌≡◌, ◌⊎◌, ◌↔◌, sym, Bool, true, some, List, [], ◌∷◌, arith, Bool-cases, inl, inr,
  Member, All,
}
use svm_go.Upstream.Client.{
  Ip, v4, to4, ipv4, is_public_ip, connected, dial_first, all_public, safe_dial,
}

-- The IPv4 addresses that are not public, as pairs of a first and a last one: this network, private
-- networks, shared address space, loopback, link-local, protocol assignments, documentation, private
-- networks, benchmarking, documentation, multicast, and the reserved ones with the broadcast address.
abbrev pub reserved_v4 : List (ℕ × ℕ)
reserved_v4 =
    (ipv4 0 0 0 0, ipv4 0 255 255 255)
    ∷ (ipv4 10 0 0 0, ipv4 10 255 255 255)
    ∷ (ipv4 100 64 0 0, ipv4 100 127 255 255)
    ∷ (ipv4 127 0 0 0, ipv4 127 255 255 255)
    ∷ (ipv4 169 254 0 0, ipv4 169 254 255 255)
    ∷ (ipv4 172 16 0 0, ipv4 172 31 255 255)
    ∷ (ipv4 192 0 0 0, ipv4 192 0 0 255)
    ∷ (ipv4 192 0 2 0, ipv4 192 0 2 255)
    ∷ (ipv4 192 168 0 0, ipv4 192 168 255 255)
    ∷ (ipv4 198 18 0 0, ipv4 198 19 255 255)
    ∷ (ipv4 198 51 100 0, ipv4 198 51 100 255)
    ∷ (ipv4 203 0 113 0, ipv4 203 0 113 255)
    ∷ (ipv4 224 0 0 0, ipv4 239 255 255 255)
    ∷ (ipv4 240 0 0 0, ipv4 255 255 255 255)
    ∷ []

abbrev pub IsOutside : ℕ → ℕ × ℕ → Type 0
IsOutside n (first, last) = (n < first) ⊎ (last < n)

is_public_ip-v4_iff :
    (n : ℕ) → n < 2 ^ 32 → (is_public_ip (v4 n) ≡ true) ↔ All (IsOutside n) reserved_v4
unfolding is_public_ip
is_public_ip-v4_iff n h = ground arith

-- An IPv4 address, by itself or as an IPv6 address that stands for it, is public exactly if it lies
-- outside every reserved range.
pub is_public_ip-reserved :
    (ip : Ip) (n : ℕ)
    → to4 ip ≡ v4 n
    → n < 2 ^ 32
    → (is_public_ip ip ≡ true) ↔ All (IsOutside n) reserved_v4
unfolding is_public_ip
is_public_ip-reserved ip n same h = rw same (is_public_ip-v4_iff n h)

abbrev pub IsPublic : Ip → Type 0
IsPublic ip = is_public_ip ip ≡ true

all_public_iff : (ips : List Ip) → (all_public ips ≡ true) ↔ All IsPublic ips
unfolding all_public
all_public_iff [] = ground arith
all_public_iff (ip ∷ ips) = ground (arith, all_public_iff ips)

dial_first-Member :
    (dials : Ip → Bool) (ips : List Ip) (ip : Ip)
    → dial_first dials ips ≡ connected ip
    → Member ip ips × (dials ip ≡ true)
unfolding dial_first
dial_first-Member dials [] ip h = absurd (cc h)
dial_first-Member dials (x ∷ ips) ip h = elim (Bool-cases (dials x)) [
  | inl answers ↦
      let same : x ≡ ip = ground (arith, h, answers) in (inl (sym same), rw (← same) answers)
  | inr silent ↦
      let (m, d) = dial_first-Member dials ips ip (ground (arith, h, silent)) in (inr m, d)
]

-- A connection is made only to an address that the name resolved to, and only where all of them are
-- public: one address that is not refuses the name.
pub safe_dial-IsPublic :
    (dials : Ip → Bool) (resolved : List Ip) (ip : Ip)
    → safe_dial dials (some resolved) ≡ connected ip
    → Member ip resolved × (dials ip ≡ true) × All IsPublic resolved
unfolding safe_dial
safe_dial-IsPublic dials [] ip h = absurd (cc h)
safe_dial-IsPublic dials (x ∷ ips) ip h = elim (Bool-cases (all_public (x ∷ ips))) [
  | inl public ↦
      let (m, d) = dial_first-Member dials (x ∷ ips) ip (ground (arith, h, public)) in
      (m, d, (all_public_iff (x ∷ ips)).0 public)
  | inr private ↦ absurd (ground (arith, h, private))
]
