-- ===== src/NetUtil/Cidr.antt =====
-- internal/netutil/cidr.go and the lists of rules at the end of ipmatch.go. The Boolean validations
-- are true where the code returns no error.
use hao_vpn.Prelude.{
  ℕ, Bool, true, false, ◌&&◌, ◌||◌, not, List, [], ◌∷◌, ◌++◌, none, some, is_some, Text, text_beq,
  nat_beq, length, any, if◌then◌else◌, codes, Result, ok, err,
}
use hao_vpn.Prelude.Sort.{sort_by, text_ltb}
use hao_vpn.Net.{IpNet, Text6, to4, contains}
use hao_vpn.Net.Mask.{mask_length}
use hao_vpn.Net.Print.{ip_string, decimal}
use hao_vpn.Net.Parse.{parse_ip, parse_cidr}
use hao_vpn.NetUtil.Strings.{trim_space, mem_text}
use hao_vpn.NetUtil.Rules.{
  parse_cidr_or_host, normalize_cidr_or_host, forbid_default_route, append_cidr_unique, parsed_nets,
}

-- Why an address cannot be given to a client.
pub data SubnetError : Type 0 where
  invalid_vpn_ip reserved_ip invalid_subnet outside_subnet : SubnetError

-- Mask.Size().ones, which is 0 for a mask of no run.
abbrev pub ones_of : List ℕ → ℕ
ones_of m = elim (mask_length m) [ none ↦ 0 | some n ↦ n ]

module _ (t : Text6) where
  unfoldable pub mask_prefix_from_subnet : Text → Text
  unfolding parse_cidr
  mask_prefix_from_subnet subnet = elim (parse_cidr t subnet) [
    | none ↦ codes "24"
    | some (ip, n) ↦ decimal (ones_of n.mask)
  ]

  unfoldable pub gateway_cidr : Text → Text → Text
  unfolding mask_prefix_from_subnet
  gateway_cidr gateway_ip subnet = gateway_ip ++ (b'/' ∷ mask_prefix_from_subnet subnet)

  -- ValidateIPOrCIDR on an entry that is trimmed and not empty, with CIDRs allowed.
  abbrev pub is_ip_or_cidr : Text → Bool
  is_ip_or_cidr s = is_some (parse_ip t s) || is_some (parse_cidr t s)

  unfoldable pub validate_cidr_list : List Text → Bool
  validate_cidr_list [] = true
  validate_cidr_list (c ∷ cidrs) =
      let rest = validate_cidr_list cidrs in
      let c' = trim_space c in if text_beq c' [] then rest else is_ip_or_cidr c' && rest

  unfoldable pub validate_subnet_gateway : Text → Text → Bool
  unfolding parse_cidr parse_ip
  validate_subnet_gateway subnet gateway = elim (parse_cidr t (trim_space subnet)) [
    | none ↦ false
    | some (host, n) ↦ elim (parse_ip t (trim_space gateway)) [
      | none ↦ false
      | some ip ↦ contains n ip
    ]
  ]

  unfoldable pub validate_no_full_tunnel : List Text → Bool
  unfolding forbid_default_route
  validate_no_full_tunnel [] = true
  validate_no_full_tunnel (c ∷ cidrs) =
      let rest = validate_no_full_tunnel cidrs in
      let c' = trim_space c in
      if text_beq c' []
      then rest
      else not (forbid_default_route t c') && (is_some (parse_cidr_or_host t c') && rest)

  -- `ipNorm == r` for an entry that is not blank.
  abbrev pub is_reserved_text : Text → List Text → Bool
  is_reserved_text ip_norm reserved =
      any (λ r. not (text_beq (trim_space r) []) && text_beq ip_norm (trim_space r)) reserved

  unfoldable pub validate_ip_in_subnet : Text → Text → List Text → Result SubnetError (Unit {0})
  unfolding parse_cidr parse_ip to4
  validate_ip_in_subnet ip_str subnet reserved = elim (parse_ip t (trim_space ip_str)) [
    | none ↦ err invalid_vpn_ip
    | some parsed ↦
        if nat_beq (length (to4 parsed)) 0
        then err invalid_vpn_ip
        else if is_reserved_text (ip_string t (to4 parsed)) reserved
        then err reserved_ip
        else elim (parse_cidr t (trim_space subnet)) [
          | none ↦ err invalid_subnet
          | some (host, sn) ↦ if contains sn parsed then ok tt else err outside_subnet
        ]
  ]

  -- MergeDNSIntoAllowedIPs: the loop, then the function.
  unfoldable pub merge_dns_from : List Text → List IpNet → List Text → List Text
  unfolding append_cidr_unique
  merge_dns_from out nets [] = out
  merge_dns_from out nets (d ∷ dns) =
      let d' = trim_space d in
      let (out', nets', added) = append_cidr_unique t out nets (d' ++ codes "/32") true in
      let skip = merge_dns_from out nets dns in
      let merged = merge_dns_from out' nets' dns in if text_beq d' [] then skip else merged

  unfoldable pub merge_dns_into_allowed_ips : List Text → List Text → List Text
  unfolding merge_dns_from
  merge_dns_into_allowed_ips allowed dns_servers =
      merge_dns_from allowed (parsed_nets t allowed) dns_servers

  -- The loop of NormalizeCIDRList; `seen` holds what is in the list already.
  unfoldable pub normal_cidrs_from : List Text → List Text → List Text
  unfolding normalize_cidr_or_host
  normal_cidrs_from seen [] = []
  normal_cidrs_from seen (c ∷ cidrs) =
      let skip = normal_cidrs_from seen cidrs in
      elim (normalize_cidr_or_host t (trim_space c)) [
        | none ↦ skip
        | some n ↦
            let keep = normal_cidrs_from (n ∷ seen) cidrs in
            if text_beq n [] || mem_text n seen then skip else n ∷ keep
      ]

  -- NormalizeCIDRList, with opts.Sort as the first argument; nil is the empty list.
  unfoldable pub normalize_cidr_list : Bool → List Text → List Text
  unfolding normal_cidrs_from
  normalize_cidr_list sorted cidrs =
      let out = normal_cidrs_from [] cidrs in if sorted then sort_by text_ltb out else out
