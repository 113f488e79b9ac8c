-- ===== src/Net.antt =====
-- What the program uses of Go's package net. An IP is a byte slice (`[]` is nil): 4 bytes, or 16
-- with an IPv4 address behind the prefix ::ffff. Texts of IPv6 addresses are read and printed by
-- the operations of `Text6`, which every definition that meets a text takes as an argument; all
-- else is written out here.
pub mod Mask
pub mod Print
pub mod Parse
pub mod RoundTrip
use hao_vpn.Prelude.{
  ℕ, zero, suc, Bool, true, false, ◌&&◌, List, [], ◌∷◌, ◌++◌, Option, none, some, length, drop,
  take, Text, nat_beq, text_beq, text_eq, if◌then◌else◌, bit_and, All,
}

abbrev pub Ip : Type 0
Ip = List ℕ

pub record IpNet : Type 0 where
  pub ip : Ip
  pub mask : List ℕ

-- netip's parser and printer for IPv6 texts: 16 bytes, or none for a text that is no address.
pub record Text6 : Type 0 where
  pub parse6 : Text → Option Ip
  pub show6 : Ip → Text

abbrev pub v4_in_v6_prefix : List ℕ
v4_in_v6_prefix = 0 ∷ 0 ∷ 0 ∷ 0 ∷ 0 ∷ 0 ∷ 0 ∷ 0 ∷ 0 ∷ 0 ∷ 255 ∷ 255 ∷ []

-- net.IPv4
abbrev pub ipv4 : ℕ → ℕ → ℕ → ℕ → Ip
ipv4 a b c d = v4_in_v6_prefix ++ (a ∷ b ∷ c ∷ d ∷ [])

-- IP.To4; `[]` stands for nil.
unfoldable pub to4 : Ip → Ip
to4 ip =
    if nat_beq (length ip) 4
    then ip
    else if nat_beq (length ip) 16 && text_beq (take 12 ip) v4_in_v6_prefix
    then drop 12 ip
    else []

-- `if x := ip.To4(); x != nil { ip = x }`
unfoldable pub short : Ip → Ip
unfolding to4
short ip = elim (to4 ip) [ [] ↦ ip | x ∷ xs ↦ x ∷ xs ]

-- networkNumberAndMask; none is `nil, nil`.
unfoldable pub network_number_and_mask : IpNet → Option (Ip × List ℕ)
unfolding short
network_number_and_mask n =
    let ip = short n.ip in
    if nat_beq (length ip) 4
    then (if nat_beq (length n.mask) 4
        then some (ip, n.mask)
        else if nat_beq (length n.mask) 16
        then some (ip, drop 12 n.mask)
        else none)
    else (if nat_beq (length ip) 16 && nat_beq (length n.mask) 16 then some (ip, n.mask) else none)

-- `nn[i]&m[i] == ip[i]&m[i]` for every i; the three have one length.
abbrev pub same_under : List ℕ → List ℕ → List ℕ → Bool
same_under (a ∷ nn) (m ∷ ms) (b ∷ ip) = nat_beq (bit_and a m) (bit_and b m) && same_under nn ms ip
same_under _ _ _ = true

-- IPNet.Contains
unfoldable pub contains : IpNet → Ip → Bool
unfolding network_number_and_mask short
contains n ip = elim (network_number_and_mask n) [
  | none ↦ nat_beq (length (short ip)) 0
  | some (nn, m) ↦ nat_beq (length (short ip)) (length nn) && same_under nn m (short ip)
]
