-- ===== src/Paginate.antt =====
-- internal/paginate: limits and offsets of queries. An integer text beyond 64 bits is an error.
use hao_vpn.Prelude.{
  ℕ, ◌+◌, ◌-◌, ◌*◌, ◌^◌, Bool, true, false, ◌&&◌, ◌||◌, not, [], ◌∷◌, Option, none, some, Text,
  text_beq, codes, nat_beq, leb, ltb, if◌then◌else◌,
}
use hao_vpn.Prelude.Int.{ℤ, pos, negsuc, leb_ℤ, ltb_ℤ, sub_ℕ}
use hao_vpn.NetUtil.Strings.{trim_space}

unfoldable pub clamp_limit : ℤ → ℤ → ℤ → ℤ
clamp_limit limit default max =
    if leb_ℤ limit (pos 0) then default else if ltb_ℤ max limit then max else limit

unfoldable pub clamp_offset : ℤ → ℤ
clamp_offset (pos n) = pos n
clamp_offset (negsuc n) = pos 0

-- ParseOnlyEnabled on the values of `enabled` and `all`.
unfoldable pub parse_only_enabled : Text → Text → Bool
parse_only_enabled enabled all =
    not (text_beq enabled (codes "0")) && not (text_beq all (codes "1"))

unfoldable pub parse_bool_query : Text → Option Bool
parse_bool_query s =
    let s' = trim_space s in
    if text_beq s' (codes "1") || text_beq s' (codes "true")
    then some true
    else if text_beq s' (codes "0") || text_beq s' (codes "false")
    then some false
    else none

-- The value of decimal digits behind `n`.
digits_from : ℕ → Text → Option ℕ
digits_from n [] = some n
digits_from n (c ∷ s) =
    let rest = digits_from (n * 10 + (c - 48)) s in if leb 48 c && leb c 57 then rest else none

-- strconv.Atoi
unfoldable pub atoi : Text → Option ℤ
unfolding digits_from
atoi [] = none
atoi (c ∷ s) =
    let signed = nat_beq c b'-' || nat_beq c b'+' in
    let digits = if signed then s else c ∷ s in
    let limit = if nat_beq c b'-' then 2 ^ 63 else 2 ^ 63 - 1 in
    if text_beq digits [] then none else elim (digits_from 0 digits) [
      | none ↦ none
      | some n ↦
          if ltb limit n then none else if nat_beq c b'-' then some (sub_ℕ 0 n) else some (pos n)
    ]

unfoldable pub parse_int_default : Text → ℤ → ℤ
unfolding atoi
parse_int_default s default = elim (atoi s) [ none ↦ default | some n ↦ n ]

-- ParseLimitOffset on the values of `limit` and `offset`.
unfoldable pub parse_limit_offset : Text → Text → ℤ → ℤ → ℤ × ℤ
unfolding clamp_limit parse_int_default
parse_limit_offset limit offset default max =
    (clamp_limit (parse_int_default limit default) default max, parse_int_default offset (pos 0))
