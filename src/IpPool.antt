-- ===== src/IpPool.antt =====
-- internal/ippool/pool.go: the pool of virtual addresses. The mutex makes each method one step, so
-- a method is a function of the pool. `next` is the cursor, as its bytes.
pub mod Cursor
pub mod Probe
pub mod Owners
pub mod Placed
use hao_vpn.Prelude.{
  ℕ, zero, suc, ◌+◌, ◌%◌, Bool, true, false, ◌&&◌, not, List, [], ◌∷◌, Option, none, some, Text,
  text_eq, if◌then◌else◌, Result, ok, err, nat_beq, is_some,
}
use hao_vpn.Prelude.Map.{Map, get, put, remove}
use hao_vpn.Net.{Ip, IpNet, Text6, contains}
use hao_vpn.Net.Print.{ip_string}
use hao_vpn.Net.Parse.{parse_cidr, parse_ip}

pub record Pool : Type 0 where
  pub network : IpNet
  pub reserved : Map Text Bool
  pub allocated : Map Text ℕ
  pub next : Ip

pub data PoolError : Type 0 where
  parse_subnet no_free_ips : PoolError
  not_in_pool already_allocated : Text → PoolError

-- incIP, from the last byte: `carry` says whether the byte behind overflowed.
inc_bytes : Ip → Ip × Bool
inc_bytes [] = ([], true)
inc_bytes (b ∷ ip) =
    let (rest, carry) = inc_bytes ip in
    if carry then (((b + 1) % 256) ∷ rest, nat_beq ((b + 1) % 256) 0) else (b ∷ rest, false)

unfoldable pub inc_ip : Ip → Ip
unfolding inc_bytes
inc_ip ip = (inc_bytes ip).0

-- `p.allocated[ip]` and `p.reserved[ip]`, with the zero value for a missing key.
abbrev pub owner : Text → Pool → ℕ
owner ip p = elim (get ip p.allocated) [ none ↦ 0 | some peer ↦ peer ]

abbrev pub is_reserved : Text → Pool → Bool
is_reserved ip p = elim (get ip p.reserved) [ none ↦ false | some b ↦ b ]

module _ (t : Text6) where
  unfoldable pub new : Text → Result PoolError Pool
  unfolding inc_ip
  new cidr = elim (parse_cidr t cidr) [
    | none ↦ err parse_subnet
    | some (host, n) ↦
        ok (record { network = n; reserved = []; allocated = []; next = inc_ip n.ip })
  ]

  unfoldable pub reserve : Text → Pool → Pool
  reserve ip p = record p { reserved = put ip true p.reserved }

  -- The test of one round of Allocate.
  abbrev pub is_free : Pool → Bool
  is_free p =
      let ip = ip_string t p.next in
      not (is_reserved ip p) && (nat_beq (owner ip p) 0 && contains p.network p.next)

  -- The rounds of Allocate that are left.
  unfoldable pub allocate_loop : ℕ → ℕ → Pool → Pool × Result PoolError Text
  allocate_loop zero peer p = (p, err no_free_ips)
  allocate_loop (suc rounds) peer p =
      let ip = ip_string t p.next in
      let taken = record p { allocated = put ip peer p.allocated; next = inc_ip p.next } in
      let rest = allocate_loop rounds peer (record p { next = inc_ip p.next }) in
      if is_free p then (taken, ok ip) else rest

  unfoldable pub allocate : ℕ → Pool → Pool × Result PoolError Text
  unfolding allocate_loop
  allocate peer p = allocate_loop 256 peer p

  unfoldable pub allocate_specific : Text → ℕ → Pool → Pool × Result PoolError (Unit {0})
  allocate_specific ip peer p = elim (parse_ip t ip) [
    | none ↦ (p, err (not_in_pool ip))
    | some parsed ↦
        if not (contains p.network parsed)
        then (p, err (not_in_pool ip))
        else if is_reserved ip p
        then (p, err (already_allocated ip))
        else if is_some (get ip p.allocated)
            && (not (nat_beq (owner ip p) 0) && not (nat_beq (owner ip p) peer))
        then (p, err (already_allocated ip))
        else (record p { allocated = put ip peer p.allocated }, ok tt)
  ]

unfoldable pub release : Text → Pool → Pool
release ip p = record p { allocated = remove ip p.allocated }

unfoldable pub is_allocated : Text → Pool → Bool
is_allocated ip p = is_some (get ip p.allocated)
