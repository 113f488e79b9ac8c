-- ===== src/NetUtil/Lan/Private.antt =====
-- The addresses of the networks that a client may advertise.
use hao_vpn.Prelude.{
  ℕ, ◌<◌, ◌≤◌, ◌≡◌, ◌∙◌, sym, subst, Bool, true, ◌&&◌, List, [], Option, none, some, arith, length,
  All, Text, nat_beq, drop, length-drop, inl, inr, Option-cases, ◌⊎◌,
}
use hao_vpn.Net.{Ip, IpNet, Text6, to4, short, contains, network_number_and_mask, same_under}
use hao_vpn.Net.Mask.{masked, mask_length}
use hao_vpn.NetUtil.Addr.{is_rfc1918}
use hao_vpn.NetUtil.Lan.{is_advertisable}
use hao_vpn.NetUtil.Rules.{parse_cidr_or_host}
use hao_vpn.Net.Print.{net_string}
use hao_vpn.NetUtil.Lan.{validate_advertised_lan}
use hao_vpn.NetUtil.Lan.Bytes.{private_bytes, All-drop}

to4-cases : (ip : Ip) → (to4 ip ≡ ip) ⊎ ((to4 ip ≡ drop 12 ip) ⊎ (to4 ip ≡ []))
unfolding to4
to4-cases ip = ground arith

to4-All : (P : ℕ → Type 0) (ip : Ip) → All P ip → All P (to4 ip)
to4-All P ip h = elim (to4-cases ip) [
  | inl e ↦ subst (All P) (sym e) h
  | inr (inl e) ↦ subst (All P) (sym e) (All-drop P 12 ip h)
  | inr (inr e) ↦ subst (All P) (sym e) tt
]

short-cases : (ip : Ip) → ((to4 ip ≡ []) × (short ip ≡ ip)) ⊎ (short ip ≡ to4 ip)
unfolding short
short-cases ip = ground arith

shortened : (ip : Ip) → length (to4 ip) ≡ 4 → short ip ≡ to4 ip
shortened ip h = ground (arith, h, short-cases ip)

short-four : (ip : Ip) → length (short ip) ≡ 4 → length (to4 ip) ≡ 4
unfolding to4
short-four ip h = ground (arith, h, short-cases ip)

-- The comparison of Contains, on what networkNumberAndMask gives.
abbrev compare_under : Option (Ip × List ℕ) → Ip → Bool
compare_under none s = nat_beq (length s) 0
compare_under (some (nn, m)) s = nat_beq (length s) (length nn) && same_under nn m s

contains-compare_under :
    (n : IpNet) (ip : Ip) → contains n ip ≡ compare_under (network_number_and_mask n) (short ip)
unfolding contains
contains-compare_under n ip = ground (arith, Option-cases (network_number_and_mask n))

number_of_four :
    (n : IpNet)
    → length (to4 n.ip) ≡ 4
    → length n.mask ≡ 4
    → network_number_and_mask n ≡ some (to4 n.ip, n.mask)
unfolding network_number_and_mask
number_of_four n h k = ground (arith, h, k, shortened n.ip h)

-- What Contains compares, for a network of four bytes.
contains-same_under :
    (n : IpNet) (ip : Ip)
    → length (to4 n.ip) ≡ 4
    → length n.mask ≡ 4
    → contains n ip ≡ true
    → (length (to4 ip) ≡ 4) × (same_under (to4 n.ip) n.mask (to4 ip) ≡ true)
contains-same_under n ip h k c =
    let under : compare_under (some (to4 n.ip, n.mask)) (short ip) ≡ true =
      subst (λ o. compare_under o (short ip) ≡ true) (number_of_four n h k)
        (sym (contains-compare_under n ip) ∙ c) in
    let four : length (short ip) ≡ 4 = ground (arith, under, h) in
    let four' : length (to4 ip) ≡ 4 = short-four ip four in
    (four', ground (arith, under, shortened ip four'))

-- What the rules check.
is_advertisable-mask :
    (t : Text6) (n : IpNet)
    → is_advertisable t n ≡ true
    → (length n.mask ≡ 4)
      × ((ones : ℕ) × (mask_length n.mask ≡ some ones)
          × (16 ≤ ones)
          × (is_rfc1918 (masked (to4 n.ip) n.mask) ≡ true))
unfolding is_advertisable
is_advertisable-mask t n h = elim (Option-cases (mask_length n.mask)) [
  | inl e ↦ ground (arith, h, e)
  | inr (ones, e) ↦ (ground (arith, h, e), (ones, e, ground (arith, h, e), ground (arith, h, e)))
]

length-to4 : (ip : Ip) → (length (to4 ip) ≡ 4) ⊎ (to4 ip ≡ [])
unfolding to4
length-to4 ip = ground (arith, length-drop 12 ip)

is_advertisable-four : (t : Text6) (n : IpNet) → is_advertisable t n ≡ true → length (to4 n.ip) ≡ 4
unfolding is_advertisable
is_advertisable-four t n h = ground (arith, h, length-to4 n.ip)

private_inside :
    (t : Text6) (n : IpNet) (ip : Ip)
    → is_advertisable t n ≡ true
    → All (λ b. b < 256) n.ip
    → All (λ b. b < 256) ip
    → contains n ip ≡ true
    → is_rfc1918 ip ≡ true
unfolding is_rfc1918
private_inside t n ip h bn bi c =
    let (width, (ones, len, wide, p)) = is_advertisable-mask t n h in
    let four : length (to4 n.ip) ≡ 4 = is_advertisable-four t n h in
    let (four', same) = contains-same_under n ip four width c in
    private_bytes (to4 n.ip) (to4 ip) n.mask ones four four' len wide width
      (to4-All (λ b. b < 256) n.ip bn) (to4-All (λ b. b < 256) ip bi) p same

validated :
    (t : Text6) (cidr s : Text) (n : IpNet)
    → parse_cidr_or_host t cidr ≡ some n
    → validate_advertised_lan t cidr ≡ some s
    → (is_advertisable t n ≡ true) × (s ≡ net_string t n)
unfolding validate_advertised_lan
validated t cidr s n parsed h = ground (arith, parsed, h)

-- A network that a client may advertise holds only private IPv4 addresses, and what is kept of it
-- is its normal text, for addresses made of bytes.
pub validate_advertised_lan-is_rfc1918 :
    (t : Text6) (cidr s : Text) (n : IpNet) (ip : Ip)
    → parse_cidr_or_host t cidr ≡ some n
    → validate_advertised_lan t cidr ≡ some s
    → All (λ b. b < 256) n.ip
    → All (λ b. b < 256) ip
    → contains n ip ≡ true
    → (s ≡ net_string t n) × (is_rfc1918 ip ≡ true)
validate_advertised_lan-is_rfc1918 t cidr s n ip parsed h bn bi c =
    let (passed, same) = validated t cidr s n parsed h in
    (same, private_inside t n ip passed bn bi c)
