-- ===== src/NetUtil/Addr.antt =====
-- internal/netutil/addr.go and hostport.go: hosts of remote addresses, and addresses that are
-- noise on a TUN device.
use hao_vpn.Prelude.{
  Bool, true, false, ◌&&◌, ◌||◌, not, [], ◌∷◌, Option, none, some, Text, nat_beq, leb,
  if◌then◌else◌, text_beq, length, codes, bit_and,
}
use hao_vpn.Net.{Ip, Text6, to4}
use hao_vpn.Net.Print.{ip_string}
use hao_vpn.Net.Parse.{parse_ip}
use hao_vpn.NetUtil.Strings.{trim, to_lower, has_byte, cut_first, cut_last}

-- net.SplitHostPort; none is its error.
unfoldable pub split_host_port : Text → Option (Text × Text)
split_host_port [] = none
split_host_port (c ∷ s) =
    if nat_beq c b'['
    then elim (cut_first b']' s) [
      | none ↦ none
      | some (host, []) ↦ none
      | some (host, d ∷ port) ↦
          if nat_beq d b':'
            && (not (has_byte b':' port) && (not (has_byte b'[' s) && not (has_byte b']' port)))
          then some (host, port)
          else none
    ]
    else elim (cut_last b':' (c ∷ s)) [
      | none ↦ none
      | some (host, port) ↦
          if has_byte b':' host || (has_byte b'[' (c ∷ s) || has_byte b']' (c ∷ s))
          then none
          else some (host, port)
    ]

-- strings.Trim(host, "[]")
abbrev pub unbracket : Text → Text
unbracket = trim (λ c. nat_beq c b'[' || nat_beq c b']')

unfoldable pub host_from_addr : Text → Text
unfolding split_host_port
host_from_addr addr = elim (split_host_port addr) [
  | none ↦ addr
  | some (host, port) ↦ unbracket host
]

unfoldable pub split_remote_addr : Text → Text × Text
unfolding split_host_port host_from_addr
split_remote_addr addr = elim (split_host_port addr) [
  | none ↦ (host_from_addr addr, [])
  | some (host, port) ↦ (unbracket host, port)
]

unfoldable pub parse_host_ip : Text6 → Text → Option Ip
parse_host_ip t addr = parse_ip t (host_from_addr addr)

unfoldable pub normalize_remote_host : Text6 → Text → Text
normalize_remote_host t addr =
    let host = unbracket (split_remote_addr addr).0 in
    if text_beq host []
    then []
    else if text_beq host (codes "::1") || text_beq host (codes "0:0:0:0:0:0:0:1")
    then codes "127.0.0.1"
    else elim (parse_ip t host) [
      | none ↦ to_lower host
      | some ip ↦ elim (to4 ip) [ [] ↦ ip_string t ip | x ∷ xs ↦ ip_string t (x ∷ xs) ]
    ]

-- IP.IsMulticast, IsLinkLocalMulticast, IsLinkLocalUnicast on the four bytes of To4, else on sixteen.
is_multicast : Ip → Ip → Bool
is_multicast (a ∷ v4) ip = nat_beq (bit_and a 240) 224
is_multicast [] (a ∷ ip) = nat_beq (length ip) 15 && nat_beq a 255
is_multicast [] [] = false

is_link_local_multicast : Ip → Ip → Bool
is_link_local_multicast (a ∷ b ∷ c ∷ v4) ip = nat_beq a 224 && (nat_beq b 0 && nat_beq c 0)
is_link_local_multicast _ (a ∷ b ∷ ip) =
    nat_beq (length ip) 14 && (nat_beq a 255 && nat_beq (bit_and b 15) 2)
is_link_local_multicast _ _ = false

is_link_local_unicast : Ip → Ip → Bool
is_link_local_unicast (a ∷ b ∷ v4) ip = nat_beq a 169 && nat_beq b 254
is_link_local_unicast _ (a ∷ b ∷ ip) =
    nat_beq (length ip) 14 && (nat_beq a 254 && nat_beq (bit_and b 192) 128)
is_link_local_unicast _ _ = false

-- IP.IsUnspecified: 0.0.0.0 or ::
is_unspecified : Ip → Bool
is_unspecified ip =
    text_beq (to4 ip) (0 ∷ 0 ∷ 0 ∷ 0 ∷ [])
    || text_beq ip (0 ∷ 0 ∷ 0 ∷ 0 ∷ 0 ∷ 0 ∷ 0 ∷ 0 ∷ 0 ∷ 0 ∷ 0 ∷ 0 ∷ 0 ∷ 0 ∷ 0 ∷ 0 ∷ [])

unfoldable pub is_limited_broadcast : Ip → Bool
is_limited_broadcast ip = text_beq (to4 ip) (255 ∷ 255 ∷ 255 ∷ 255 ∷ [])

unfoldable pub is_tun_noise_dst : Ip → Bool
unfolding is_multicast is_link_local_multicast is_limited_broadcast to4
is_tun_noise_dst ip =
    if text_beq ip []
    then false
    else is_limited_broadcast ip
      || (is_multicast (to4 ip) ip || is_link_local_multicast (to4 ip) ip)

unfoldable pub is_tun_noise_for_log : Ip → Bool
unfolding is_tun_noise_dst is_link_local_unicast
is_tun_noise_for_log ip =
    if is_tun_noise_dst ip then true else not (text_beq ip []) && is_link_local_unicast (to4 ip) ip

unfoldable pub is_tun_noise_source : Ip → Bool
unfolding is_unspecified is_link_local_unicast is_link_local_multicast to4
is_tun_noise_source ip =
    if text_beq ip []
    then true
    else is_unspecified ip
      || (is_link_local_unicast (to4 ip) ip || is_link_local_multicast (to4 ip) ip)

-- IsRFC1918 on the four bytes of To4.
abbrev pub is_private_v4 : Ip → Bool
is_private_v4 (a ∷ b ∷ rest) =
    nat_beq a 10 || ((nat_beq a 172 && (leb 16 b && leb b 31)) || (nat_beq a 192 && nat_beq b 168))
is_private_v4 _ = false

unfoldable pub is_rfc1918 : Ip → Bool
unfolding to4
is_rfc1918 ip = is_private_v4 (to4 ip)
