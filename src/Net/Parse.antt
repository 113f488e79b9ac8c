-- ===== src/Net/Parse.antt =====
-- Parsing: net.ParseIP and net.ParseCIDR, over netip's parser of IPv4 fields.
use hao_vpn.Prelude.{
  ℕ, ◌+◌, ◌-◌, ◌*◌, Bool, ◌&&◌, ◌||◌, List, [], ◌∷◌, ◌++◌, Option, none, some, length, Text,
  nat_beq, ltb, leb, if◌then◌else◌,
}
use hao_vpn.Net.{Ip, IpNet, Text6, v4_in_v6_prefix}
use hao_vpn.Net.Mask.{cidr_mask, masked}

abbrev pub is_digit : ℕ → Bool
is_digit c = leb 48 c && leb c 57

-- parseIPv4Fields: `digits` is digLen, `fields` the octets read so far.
unfoldable pub parse_fields : Text → ℕ → ℕ → List ℕ → Option Ip
parse_fields [] val digits fields =
    if nat_beq digits 0 || ltb (length fields) 3 then none else some (fields ++ (val ∷ []))
parse_fields (c ∷ s) val digits fields =
    let next = parse_fields s (val * 10 + (c - 48)) (digits + 1) fields in
    let dot = parse_fields s 0 0 (fields ++ (val ∷ [])) in
    if is_digit c
    then (if nat_beq digits 1 && nat_beq val 0
        then none
        else if ltb 255 (val * 10 + (c - 48))
        then none
        else next)
    else if nat_beq c b'.'
    then (if nat_beq digits 0 || nat_beq (length fields) 3 then none else dot)
    else none

-- The first '.', ':' or '%' decides how ParseAddr reads the text.
abbrev pub first_mark : Text → ℕ
first_mark [] = 0
first_mark (c ∷ s) =
    if nat_beq c b'.' || (nat_beq c b':' || nat_beq c b'%') then c else first_mark s

-- The address in 4 or 16 bytes; a text with a zone is `none` of `parse6`.
unfoldable pub parse_addr : Text6 → Text → Option Ip
unfolding parse_fields
parse_addr t s =
    if nat_beq (first_mark s) b'.'
    then parse_fields s 0 0 []
    else if nat_beq (first_mark s) b':'
    then t.parse6 s
    else none

-- As16
abbrev pub as16 : Ip → Ip
as16 ip = if nat_beq (length ip) 4 then v4_in_v6_prefix ++ ip else ip

-- net.ParseIP
unfoldable pub parse_ip : Text6 → Text → Option Ip
unfolding parse_addr
parse_ip t s = elim (parse_addr t s) [ none ↦ none | some ip ↦ some (as16 ip) ]

-- The text before and behind the first '/'.
unfoldable pub cut_slash : Text → Option (Text × Text)
cut_slash [] = none
cut_slash (c ∷ s) =
    if nat_beq c b'/'
    then some ([], s)
    else elim (cut_slash s) [ none ↦ none | some (a, m) ↦ some (c ∷ a, m) ]

-- dtoi on a text that it must read to its end, below its bound 0xFFFFFF.
unfoldable pub dtoi : Text → ℕ → Option ℕ
dtoi [] n = some n
dtoi (c ∷ s) n =
    let rest = dtoi s (n * 10 + (c - 48)) in
    if is_digit c && ltb (n * 10 + (c - 48)) 16777215 then rest else none

-- net.ParseCIDR: the host address and the network.
unfoldable pub parse_cidr : Text6 → Text → Option (Ip × IpNet)
unfolding parse_addr cut_slash dtoi cidr_mask masked
parse_cidr t s = elim (cut_slash s) [
  | none ↦ none
  | some (addr, mask) ↦ elim (parse_addr t addr) [
    | none ↦ none
    | some ip ↦ if nat_beq (length mask) 0 then none else elim (dtoi mask 0) [
      | none ↦ none
      | some n ↦
          if ltb (8 * length ip) n
          then none
          else let m = cidr_mask (length ip) n in
            some (as16 ip, record { ip = masked ip m; mask = m })
    ]
  ]
]
