-- ===== src/Examples/Leases.antt =====
-- Accounts of one office and the addresses that they hold.
use hao_vpn.Prelude.{
  ℕ, inl, ◌<◌, ◌≡◌, ◌==◌, refl, true, false, [], ◌∷◌, some, none, ok, arith, codes, Text, text_eq,
  if◌then◌else◌,
}
use hao_vpn.Prelude.Map.{get, put}
use hao_vpn.Net.{contains}
use hao_vpn.Net.Parse.{parse_ip, parse_cidr}
use hao_vpn.Net.Mask.{mask_length}
use hao_vpn.Prelude.Sort.{sort_by}
use hao_vpn.Net.Print.{ip_string, net_string}
use hao_vpn.NetUtil.Strings.{trim_space}
use hao_vpn.IpPool.{owner, allocate_specific}
use hao_vpn.VpnAccount.Tables.{
  Account, IpAllocation, PeerRoute, fixed, dynamic_session, dynamic_lease, count_enabled_admins,
  get_user_by_id, increment_policy_ver, update_vpn_fields, list_peer_routes_for_accessor,
  has_lan_registry_match, list_peer_access_peer_ids,
}
use hao_vpn.VpnAccount.{
  Config, Service, ensure_vpn_ip, delete_account, guard_last_admin, release_on_disconnect,
  on_register_ip, on_kick_user, release_ip, take_ip, resolve_allowed_ips,
}
use hao_vpn.VpnAccount.Provision.{
  VpnPatchInput, apply_vpn_patch, plan_vpn_patch, planned_ip, rebind, rebind_fixed_vpn_ip,
  validate_manual_ip,
}
use hao_vpn.VpnAccount.Admins.{deletes, enables, after_all, after_all-admins}
use hao_vpn.VpnAccount.Holding.{Ensured, ensure_vpn_ip-Ensured}
use hao_vpn.VpnAccount.Rebind.{delete_account-owner}
use hao_vpn.VpnAccount.Patch.{Patched, apply_vpn_patch-Patched}
use hao_vpn.VpnAccount.Lease.{release_on_disconnect-ensure, apply_vpn_patch-released}
use hao_vpn.VpnAccount.Policy.{
  ClientPolicy, resolve_client_policy, add_routes, route_info, add_route, add_peers, add_base,
}
use hao_vpn.VpnAccount.Policy.Sound.{IsComplete, resolve_client_policy-IsComplete}
use hao_vpn.Examples.Data.{no_text6, vpn_net}

abbrev pub account : ℕ → Text → Text → Text → Account
account id name ip mode = record {
  id = id;
  username = name;
  enabled = true;
  is_admin = false;
  public_key = name;
  vpn_ip = ip;
  allowed_ips = [];
  ip_mode = mode;
  ip_lease_sec = 600;
  policy_ver = 1;
}

abbrev pub root_user : Account
root_user = record (account 1 (codes "root") [] []) { is_admin = true; public_key = [] }

abbrev pub second_root : Account
second_root = record (account 4 (codes "root2") [] []) { is_admin = true; public_key = [] }

-- Its address is its own for as long as a lease lasts.
abbrev pub bob : Account
bob = account 2 (codes "bob") (codes "10.88.0.2") dynamic_lease

-- It had the address before, and its row still says so.
abbrev pub cara : Account
cara = account 3 (codes "cara") (codes "10.88.0.2") dynamic_session

abbrev pub bobs_row : IpAllocation
bobs_row = record { user_id = 2; allocated_at = 100; is_released = false; lease_until = none }

abbrev pub caras_route : PeerRoute
caras_route = record {
  id = 1;
  dest_cidr = codes "192.168.9.0/24";
  via_user_id = 2;
  member_user_ids = 0 ∷ [];
}

abbrev pub office : Service
office = record {
  tables = record {
    users = root_user ∷ bob ∷ cara ∷ second_root ∷ [];
    next_user_id = 5;
    ip_allocations = (codes "10.88.0.2", bobs_row) ∷ [];
    peer_access = [];
    peer_routes = caras_route ∷ [];
    client_lan_registry = (2, codes "192.168.9.0/24") ∷ [];
  };
  pool = record {
    network = vpn_net;
    reserved = (codes "10.88.0.1", true) ∷ [];
    allocated = (codes "10.88.0.2", 2) ∷ [];
    next = 10 ∷ 88 ∷ 0 ∷ 3 ∷ [];
  };
}

abbrev office_config : Config
office_config = record {
  subnet = codes "10.88.0.0/24";
  gateway_ip = codes "10.88.0.1";
  allowed_lan_cidrs = codes "192.168.1.0/24" ∷ [];
  enforce_split_tunnel = true;
}

two_admins : 0 < count_enabled_admins office.tables
unfolding count_enabled_admins
two_admins = ground arith

after_all-admins_example :
    0
    < count_enabled_admins (after_all (deletes 1 ∷ enables 4 false ∷ deletes 4 ∷ []) office).tables
after_all-admins_example =
    after_all-admins (deletes 1 ∷ enables 4 false ∷ deletes 4 ∷ []) office (ground arith) two_admins

ensure_vpn_ip-Ensured_example : Ensured 200 bob office (ensure_vpn_ip no_text6 200 bob office)
ensure_vpn_ip-Ensured_example = ensure_vpn_ip-Ensured no_text6 200 bob office

cara_found : get_user_by_id 3 office.tables ≡ some cara
unfolding get_user_by_id
cara_found = refl

bob_found : get_user_by_id 2 office.tables ≡ some bob
unfolding get_user_by_id
bob_found = refl

cara_free : guard_last_admin cara office ≡ false
unfolding guard_last_admin
cara_free = refl

-- The address that the pool holds for bob.
delete_account-owner_example :
    owner (codes "10.88.0.2") (delete_account 3 office).0.pool
    ≡ (if cara.vpn_ip == codes "10.88.0.2" then 0 else owner (codes "10.88.0.2") office.pool)
delete_account-owner_example =
    delete_account-owner 3 (codes "10.88.0.2") cara office cara_found cara_free refl (ground arith)

abbrev to_fixed : VpnPatchInput
to_fixed = record { allowed_ips = none; ip_mode = fixed; ip_lease_sec = 0; vpn_ip = none }

apply_vpn_patch-Patched_example :
    Patched no_text6 office_config 200 2 bob office
      (apply_vpn_patch no_text6 office_config 200 2 to_fixed office)
apply_vpn_patch-Patched_example =
    apply_vpn_patch-Patched no_text6 office_config 200 2 to_fixed bob office bob_found

bobs_lease : get (codes "10.88.0.2") office.tables.ip_allocations ≡ some bobs_row
unfolding get
bobs_lease = refl

bobs_place : (allocate_specific no_text6 (codes "10.88.0.2") 2 office.pool).1 ≡ ok tt
unfolding allocate_specific parse_ip contains get
bobs_place = refl

-- Five minutes later, of the ten that the lease lasts.
release_on_disconnect-ensure_example :
    (ensure_vpn_ip no_text6 500 bob
      (release_on_disconnect 200 2 (codes "10.88.0.2") dynamic_lease office).0).2
    ≡ ok (codes "10.88.0.2")
release_on_disconnect-ensure_example =
    release_on_disconnect-ensure no_text6 200 500 2 (codes "10.88.0.2") bob bobs_row office
      bob_found refl refl (ground arith) bobs_lease refl refl (inl refl, tt) bobs_place
      (omega arith)

-- Bob's account with an address of a running session.
abbrev session_office : Service
session_office = record office {
  tables = record office.tables {
    users = root_user ∷ record bob { ip_mode = dynamic_session } ∷ [];
  };
}

abbrev pinned : Service
pinned = record office {
  tables = record office.tables {
    users = root_user ∷ record bob { ip_mode = fixed; policy_ver = 2 } ∷ [];
    ip_allocations =
        (
          codes "10.88.0.2",
          record { user_id = 2; allocated_at = 200; is_released = false; lease_until = none },
        )
        ∷ [];
  };
}

session_found :
    get_user_by_id 2 session_office.tables ≡ some (record bob { ip_mode = dynamic_session })
unfolding get_user_by_id
session_found = refl

pinned_patch : apply_vpn_patch no_text6 office_config 200 2 to_fixed session_office ≡ (
  pinned,
  on_register_ip (codes "10.88.0.2") 2 ∷ on_kick_user 2 ∷ [],
  ok (2, codes "10.88.0.2", fixed),
)
unfolding apply_vpn_patch get_user_by_id plan_vpn_patch planned_ip rebind rebind_fixed_vpn_ip
    trim_space validate_manual_ip ip_string contains get put allocate_specific increment_policy_ver
    release_ip take_ip update_vpn_fields
pinned_patch = refl

-- The session ends at 300.
apply_vpn_patch-released_example :
    let s'' = (release_on_disconnect 300 2 (codes "10.88.0.2") dynamic_session pinned).0 in
    (owner (codes "10.88.0.2") s''.pool ≡ 0)
    × ((v : Account) × (get_user_by_id 2 s''.tables ≡ some v)
        × (v.vpn_ip ≡ codes "10.88.0.2")
        × (v.ip_mode ≡ fixed)
        × (ensure_vpn_ip no_text6 300 v s'' ≡ (s'', [], ok (codes "10.88.0.2"))))
apply_vpn_patch-released_example =
    apply_vpn_patch-released no_text6 office_config 200 300 2 2 to_fixed (codes "10.88.0.2")
      (record bob { ip_mode = dynamic_session }) session_office pinned
      (on_register_ip (codes "10.88.0.2") 2 ∷ on_kick_user 2 ∷ []) session_found pinned_patch
      (ground arith)

-- Bob announces his network, which everyone may reach.
abbrev caras_policy : ClientPolicy
caras_policy = record {
  allowed_ips = codes "10.88.0.0/24" ∷ codes "192.168.1.0/24" ∷ codes "192.168.9.0/24" ∷ [];
  managed_routes =
      record {
        dest_cidr = codes "192.168.9.0/24";
        via_ip = codes "10.88.0.2";
        via_user_id = 2;
        via_username = codes "bob";
        stale = false;
      }
      ∷ [];
  peer_access_ids = [];
  via_user_ids = 2 ∷ [];
}

caras_policy_resolved :
    resolve_client_policy no_text6 office_config cara office.tables ≡ some caras_policy
unfolding resolve_client_policy add_routes list_peer_routes_for_accessor has_lan_registry_match
    trim_space parse_cidr mask_length route_info net_string sort_by list_peer_access_peer_ids
    add_route add_peers add_base resolve_allowed_ips contains
caras_policy_resolved = refl

resolve_client_policy-IsComplete_example :
    IsComplete no_text6 office_config cara office.tables caras_policy
resolve_client_policy-IsComplete_example =
    resolve_client_policy-IsComplete no_text6 office_config cara office.tables caras_policy
      caras_policy_resolved
