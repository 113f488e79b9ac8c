-- ===== src/VpnAccount.antt =====
-- internal/vpnaccount: accounts and the addresses that they hold. A method works on the store's
-- tables and the pool, and returns them with the callbacks it made, in order; these are set, as
-- internal/serverapp/boot_session.go sets them. One call is made at a time. Keys and the sealing of
-- private keys are left out.
pub mod Tables
pub mod Provision
pub mod Admins
pub mod Holding
pub mod Rebind
pub mod Patch
pub mod Lease
pub mod Policy
pub mod Apply
pub mod Writes
pub mod Dns
use hao_vpn.Prelude.{
  ℕ, suc, ◌+◌, Bool, true, false, ◌&&◌, ◌||◌, not, List, [], ◌∷◌, ◌++◌, Option, none, some, is_some,
  Text, text_beq, text_eq, nat_beq, ltb, leb, if◌then◌else◌, codes, length, Result, ok, err,
}
use hao_vpn.Prelude.Map.{get}
use hao_vpn.Net.{Text6, to4}
use hao_vpn.Net.Print.{ip_string}
use hao_vpn.Net.Parse.{parse_ip}
use hao_vpn.NetUtil.Strings.{trim_space}
use hao_vpn.NetUtil.Cidr.{SubnetError, validate_ip_in_subnet, validate_no_full_tunnel}
use hao_vpn.IpPool.{Pool, PoolError, allocate, allocate_specific, release, is_allocated}
use hao_vpn.VpnAccount.Tables.{
  Account, IpAllocation, Database, fixed, dynamic_session, dynamic_lease, default_ip_lease_sec,
  has_vpn, is_enabled_admin, get_user_by_id, count_enabled_admins, create_vpn_account,
  update_vpn_fields, update_user_vpn_ip, set_user_enabled, increment_policy_ver, delete_user,
  get_user_vpn_ip_index, record_ip_allocation, release_ip_allocation, set_ip_lease_until,
  get_leased_ip_for_user, list_expired_leased_ips, expire_leased_ips,
}

-- The fields of config.ServerConfig that are read.
pub record Config : Type 0 where
  pub subnet : Text
  pub gateway_ip : Text
  pub allowed_lan_cidrs : List Text
  pub enforce_split_tunnel : Bool

pub record Service : Type 0 where
  pub tables : Database
  pub pool : Pool

pub data AccountError : Type 0 where
  fixed_without_ip last_admin account_not_found user_not_found invalid_username full_tunnel
        ip_for_dynamic :
      AccountError
  fixed_needs_ip invalid_ipv4 not_created : AccountError
  unknown_ip_mode ip_taken : Text → AccountError
  pool_error : PoolError → AccountError
  subnet_error : SubnetError → AccountError

-- The callbacks of Service.
pub data Call : Type 0 where
  on_register_ip : Text → ℕ → Call
  on_unregister_ip : Text → Call
  on_kick_user : ℕ → Call

abbrev pub Outcome : Type 0 → Type 0
Outcome A = Service × List Call × Result AccountError A

abbrev pub is_fixed : Text → Bool
is_fixed mode = text_beq mode fixed || text_beq mode []

abbrev pub is_dynamic : Text → Bool
is_dynamic mode = text_beq mode dynamic_session || text_beq mode dynamic_lease

abbrev pub set_pool : Pool → Service → Service
set_pool p s = record s { pool = p }

unfoldable pub default_allowed_ips : Config → List Text
default_allowed_ips cfg =
    if cfg.enforce_split_tunnel
    then cfg.allowed_lan_cidrs ++ (cfg.subnet ∷ [])
    else cfg.allowed_lan_cidrs

-- Of the service and of internal/persist.
unfoldable pub resolve_allowed_ips : Config → List Text → List Text
unfolding default_allowed_ips
resolve_allowed_ips cfg stored =
    if nat_beq (length stored) 0 then default_allowed_ips cfg else stored

-- releaseDynamicIP and ReleaseFixedVPNIP.
unfoldable pub release_ip : Text → Service → Service × List Call
unfolding release release_ip_allocation
release_ip ip s = if text_beq ip [] then (s, []) else (
  record s { tables = release_ip_allocation ip s.tables; pool = release ip s.pool },
  on_unregister_ip ip ∷ [],
)

-- The address is the account's: the row of ip_allocations and the callback.
unfoldable pub take_ip : ℕ → Text → ℕ → Service → Service × List Call
unfolding record_ip_allocation
take_ip now ip user s =
    (record s { tables = record_ip_allocation now ip user s.tables }, on_register_ip ip user ∷ [])

unfoldable pub release_on_disconnect : ℕ → ℕ → Text → Text → Service → Service × List Call
unfolding release_ip set_ip_lease_until get_user_by_id
release_on_disconnect now user ip mode s =
    let lease : ℕ = elim (get_user_by_id user s.tables) [
      | none ↦ default_ip_lease_sec
      | some u ↦ if nat_beq u.ip_lease_sec 0 then default_ip_lease_sec else u.ip_lease_sec
    ] in
    if text_beq ip []
    then (s, [])
    else if text_beq mode dynamic_session
    then release_ip ip s
    else if text_beq mode dynamic_lease
    then (record s { tables = set_ip_lease_until ip (now + lease) s.tables }, [])
    else (s, [])

unfoldable pub release_all : List Text → Service → Service × List Call
unfolding release_ip
release_all [] s = (s, [])
release_all (ip ∷ ips) s =
    let (s', calls) = release_ip ip s in
    let (s'', more) = release_all ips s' in (s'', calls ++ more)

-- One tick of the lease cleaner.
unfoldable pub clean_leases : ℕ → Service → Service × List Call
unfolding release_all list_expired_leased_ips expire_leased_ips
clean_leases now s =
    release_all (list_expired_leased_ips now s.tables)
      (record s { tables = expire_leased_ips now s.tables })

-- guardLastAdmin; true refuses.
unfoldable pub guard_last_admin : Account → Service → Bool
unfolding count_enabled_admins
guard_last_admin u s = is_enabled_admin u && leb (count_enabled_admins s.tables) 1

unfoldable pub delete_account : ℕ → Service → Outcome (Unit {0})
unfolding get_user_by_id guard_last_admin release_ip delete_user
delete_account user s = elim (get_user_by_id user s.tables) [
  | none ↦ (s, [], err user_not_found)
  | some u ↦
      let (s', calls) = release_ip (if has_vpn u then u.vpn_ip else []) s in
      if guard_last_admin u s
      then (s, [], err last_admin)
      else (record s' { tables = delete_user user s'.tables }, on_kick_user user ∷ calls, ok tt)
]

unfoldable pub set_account_enabled : ℕ → Bool → Service → Outcome (Unit {0})
unfolding get_user_by_id guard_last_admin set_user_enabled
set_account_enabled user enabled s =
    let s' = record s { tables = set_user_enabled user enabled s.tables } in
    if enabled then (s', [], ok tt) else elim (get_user_by_id user s.tables) [
      | none ↦ (s, [], err user_not_found)
      | some u ↦
          if guard_last_admin u s
          then (s, [], err last_admin)
          else (s', on_kick_user user ∷ [], ok tt)
    ]

module _ (t : Text6) where
  unfoldable pub normalize_ipv4 : Text → Option Text
  unfolding to4
  normalize_ipv4 ip = elim (parse_ip t (trim_space ip)) [
    | none ↦ none
    | some parsed ↦
        if nat_beq (length (to4 parsed)) 0 then none else some (ip_string t (to4 parsed))
  ]

  -- The branch of EnsureVPNIP that allocates.
  unfoldable pub ensure_new_ip : ℕ → Account → Service → Outcome Text
  unfolding take_ip update_user_vpn_ip
  ensure_new_ip now u s =
      let (p, got) = allocate t u.id s.pool in
      elim got [
        | err e ↦ (set_pool p s, [], err (pool_error e))
        | ok ip ↦
            let (s', calls) =
              take_ip now ip u.id
                (record s { tables = update_user_vpn_ip u.id ip s.tables; pool = p }) in
            (s', calls, ok ip)
      ]

  unfoldable pub ensure_vpn_ip : ℕ → Account → Service → Outcome Text
  unfolding ensure_new_ip get_leased_ip_for_user
  ensure_vpn_ip now u s =
      if is_fixed u.ip_mode
      then (if text_beq u.vpn_ip [] then (s, [], err fixed_without_ip) else (s, [], ok u.vpn_ip))
      else if text_beq u.ip_mode dynamic_lease
      then elim (get_leased_ip_for_user now u.id s.tables) [
        | none ↦ ensure_new_ip now u s
        | some ip ↦
            if text_beq ip []
            then ensure_new_ip now u s
            else let (p, kept) = allocate_specific t ip u.id s.pool in
              elim kept [
                | err e ↦ ensure_new_ip now u (set_pool p s)
                | ok done ↦
                    let (s', calls) = take_ip now ip u.id (set_pool p s) in (s', calls, ok ip)
              ]
      ]
      else if text_beq u.ip_mode dynamic_session
      then ensure_new_ip now u s
      else (s, [], err (unknown_ip_mode u.ip_mode))
