-- ===== src/NetUtil/Lan.antt =====
-- The networks that a client may advertise (addr.go from NormalizeLANCIDR on). `none` stands for an
-- error.
mod Bytes
pub mod Private
use hao_vpn.Prelude.{
  ℕ, Bool, true, false, ◌&&◌, ◌||◌, not, List, [], ◌∷◌, Option, none, some, Text, text_beq, nat_beq,
  ltb, if◌then◌else◌, length,
}
use hao_vpn.Net.{IpNet, Text6, to4, contains}
use hao_vpn.Net.Mask.{masked, mask_length}
use hao_vpn.Net.Print.{net_string}
use hao_vpn.NetUtil.Strings.{trim_space, mem_text, dedup_trim_non_empty}
use hao_vpn.NetUtil.Rules.{parse_cidr_or_host, forbid_default_route}
use hao_vpn.NetUtil.Addr.{is_rfc1918}

abbrev pub min_advertised_lan_prefix : ℕ
min_advertised_lan_prefix = 16

module _ (t : Text6) where
  -- The rules for a parsed network: IPv4, a prefix of 16 or more, a private network address.
  unfoldable pub is_advertisable : IpNet → Bool
  is_advertisable n =
      let ip = to4 n.ip in
      not (forbid_default_route t (net_string t n))
      && (not (nat_beq (length ip) 0)
          && (nat_beq (length n.mask) 4
              && ((elim (mask_length n.mask) [
                | none ↦ false
                | some ones ↦ not (ltb ones min_advertised_lan_prefix)
              ])
                  && is_rfc1918 (masked ip n.mask))))

  -- ValidateAdvertisedLAN and NormalizeLANCIDR.
  unfoldable pub validate_advertised_lan : Text → Option Text
  unfolding is_advertisable
  validate_advertised_lan cidr = elim (parse_cidr_or_host t cidr) [
    | none ↦ none
    | some n ↦ if is_advertisable n then some (net_string t n) else none
  ]

  -- ValidLANCIDRs and ValidLANCIDRsNotForbidden, before duplicates go: the entries that pass.
  unfoldable pub passing : (Text → Option Text) → List Text → List Text
  passing check [] = []
  passing check (c ∷ cidrs) =
      let rest = passing check cidrs in elim (check c) [ none ↦ rest | some s ↦ s ∷ rest ]

  unfoldable pub valid_lan_cidrs : List Text → List Text
  unfolding passing validate_advertised_lan
  valid_lan_cidrs cidrs = dedup_trim_non_empty (passing validate_advertised_lan cidrs)

  -- The loop of ValidateLocalLANsList; `seen` holds what is in the list already.
  unfoldable pub local_lans_from : List Text → List Text → Option (List Text)
  unfolding validate_advertised_lan
  local_lans_from seen [] = some []
  local_lans_from seen (raw ∷ cidrs) =
      let raw' = trim_space raw in
      let skip = local_lans_from seen cidrs in
      if text_beq raw' [] then skip else elim (validate_advertised_lan raw') [
        | none ↦ none
        | some n ↦
            let keep = local_lans_from (n ∷ seen) cidrs in
            if mem_text n seen then skip else elim keep [ none ↦ none | some out ↦ some (n ∷ out) ]
      ]

  unfoldable pub validate_local_lans_list : List Text → Option (List Text)
  unfolding local_lans_from
  validate_local_lans_list = local_lans_from []

  unfoldable pub cidrs_overlap : Text → Text → Option Bool
  cidrs_overlap a b = elim (parse_cidr_or_host t a) [
    | none ↦ none
    | some na ↦ elim (parse_cidr_or_host t b) [
      | none ↦ none
      | some nb ↦ some (contains na nb.ip || contains nb na.ip)
    ]
  ]

  -- Whether a network meets one of the forbidden ones; texts that do not parse are passed over.
  unfoldable pub meets_forbidden : Text → List Text → Bool
  unfolding cidrs_overlap
  meets_forbidden n [] = false
  meets_forbidden n (f ∷ forbidden) =
      let rest = meets_forbidden n forbidden in
      if text_beq (trim_space f) [] then rest else elim (cidrs_overlap n (trim_space f)) [
        | none ↦ rest
        | some overlap ↦ if overlap then true else rest
      ]

  unfoldable pub validate_advertised_lan_not_forbidden : List Text → Text → Option Text
  unfolding validate_advertised_lan meets_forbidden
  validate_advertised_lan_not_forbidden forbidden cidr = elim (validate_advertised_lan cidr) [
    | none ↦ none
    | some n ↦ if meets_forbidden n forbidden then none else some n
  ]

  unfoldable pub valid_lan_cidrs_not_forbidden : List Text → List Text → List Text
  unfolding passing validate_advertised_lan_not_forbidden
  valid_lan_cidrs_not_forbidden forbidden cidrs =
      dedup_trim_non_empty (passing (validate_advertised_lan_not_forbidden forbidden) cidrs)
