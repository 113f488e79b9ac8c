-- ===== src/NetUtil/Rules.antt =====
-- internal/netutil/ipmatch.go: CIDR and single-IP rules. A list of networks holds no nil.
use hao_vpn.Prelude.{
  ◌≡◌, refl, Bool, true, false, ◌&&◌, ◌||◌, not, List, [], ◌∷◌, ◌++◌, Option, none, some, Text,
  nat_beq, if◌then◌else◌, text_beq, length, any, codes, arith,
}
use hao_vpn.Net.{Ip, IpNet, Text6, contains, to4}
use hao_vpn.Net.Mask.{cidr_mask, mask_length}
use hao_vpn.Net.Print.{ip_string, net_string}
use hao_vpn.Net.Parse.{parse_cidr, parse_ip}
use hao_vpn.NetUtil.Strings.{trim_space, mem_text}

unfoldable pub ip_in_any_net : List IpNet → Ip → Bool
ip_in_any_net [] ip = false
ip_in_any_net (n ∷ nets) ip =
    if nat_beq (length ip) 0 then false else if contains n ip then true else ip_in_any_net nets ip

ip_in_any_net_nil :
    (nets : List IpNet) (ip : Ip) → nat_beq (length ip) 0 ≡ true → ip_in_any_net nets ip ≡ false
unfolding ip_in_any_net
ip_in_any_net_nil [] ip h = refl
ip_in_any_net_nil (n ∷ nets) ip h = rw h

module _ (t : Text6) where
  -- none is the error result.
  unfoldable pub parse_cidr_or_host : Text → Option IpNet
  parse_cidr_or_host rule =
      let s = trim_space rule in
      if text_beq s [] then none else elim (parse_cidr t s) [
        | some (_, n) ↦ some n
        | none ↦ elim (parse_ip t s) [
          | none ↦ none
          | some ip ↦ elim (to4 ip) [
            | [] ↦ some (record { ip = ip; mask = cidr_mask 16 128 })
            | x ∷ xs ↦ some (record { ip = x ∷ xs; mask = cidr_mask 4 32 })
          ]
        ]
      ]

  unfoldable pub normalize_cidr_or_host : Text → Option Text
  unfolding parse_cidr_or_host
  normalize_cidr_or_host rule = elim (parse_cidr_or_host rule) [
    | none ↦ none
    | some n ↦ some (net_string t n)
  ]

  -- `ones == 0 && (bits == 32 || bits == 128)` of Mask.Size, which is 0, 0 for a mask of no run.
  abbrev pub is_default : IpNet → Bool
  is_default n = elim (mask_length n.mask) [
    | none ↦ false
    | some ones ↦ nat_beq ones 0 && (nat_beq (length n.mask) 4 || nat_beq (length n.mask) 16)
  ]

  -- true is the error result.
  unfoldable pub forbid_default_route : Text → Bool
  forbid_default_route cidr =
      let s = trim_space cidr in
      if text_beq s (codes "0.0.0.0/0") || text_beq s (codes "::/0")
      then true
      else elim (parse_cidr_or_host s) [ none ↦ false | some n ↦ is_default n ]

  unfoldable pub ip_matches_rules : Ip → List Text → Bool
  ip_matches_rules ip [] = false
  ip_matches_rules ip (rule ∷ rules) =
      if nat_beq (length ip) 0 then false else elim (parse_cidr_or_host rule) [
        | none ↦ ip_matches_rules ip rules
        | some n ↦ if contains n ip then true else ip_matches_rules ip rules
      ]

  -- The loop of ParseCIDRListToNets.
  unfoldable pub parsed_nets : List Text → List IpNet
  parsed_nets [] = []
  parsed_nets (cidr ∷ cidrs) = elim (parse_cidr_or_host cidr) [
    | none ↦ parsed_nets cidrs
    | some n ↦ n ∷ parsed_nets cidrs
  ]

  -- none is the error "AllowedIPs empty or all invalid".
  unfoldable pub parse_cidr_list_to_nets : List Text → Option (List IpNet)
  unfolding parsed_nets
  parse_cidr_list_to_nets cidrs = elim (parsed_nets cidrs) [ [] ↦ none | n ∷ ns ↦ some (n ∷ ns) ]

  unfoldable pub vpn_ip_or_in_nets : Text → List IpNet → Ip → Bool
  unfolding ip_in_any_net
  vpn_ip_or_in_nets vpn_ip nets ip =
      if nat_beq (length ip) 0
      then false
      else if not (text_beq vpn_ip []) && text_beq (ip_string t ip) vpn_ip
      then true
      else ip_in_any_net nets ip

  -- AppendCIDRUnique: the two lists and whether `c` was added.
  unfoldable pub append_cidr_unique :
      List Text → List IpNet → Text → Bool → List Text × List IpNet × Bool
  append_cidr_unique cidrs nets c skip_if_covered = elim (parse_cidr_or_host c) [
    | none ↦ (cidrs, nets, false)
    | some n ↦
        let s = net_string t n in
        if mem_text s cidrs
        then (cidrs, nets, false)
        else if skip_if_covered && any (λ exist. contains exist n.ip) nets
        then (cidrs, nets, false)
        else (cidrs ++ (s ∷ []), nets ++ (n ∷ []), true)
  ]

  -- Matching an address against rules as texts decides the same as against the networks parsed
  -- from them.
  pub ip_in_any_net-parsed_nets :
      (rules : List Text) (ip : Ip)
      → ip_in_any_net (parsed_nets rules) ip ≡ ip_matches_rules ip rules
  unfolding ip_in_any_net parsed_nets ip_matches_rules
  ip_in_any_net-parsed_nets [] ip = refl
  ip_in_any_net-parsed_nets (rule ∷ rules) ip =
      ground (arith, ip_in_any_net-parsed_nets rules ip, ip_in_any_net_nil (parsed_nets rules) ip)
