-- ===== src/VpnAccount/Tables.antt =====
-- The tables of internal/persist that accounts stand in: users.go, accountkeys.go, peer_access.go,
-- peer_routes.go, peer_route_normalize.go and lan_registry.go. Statements succeed but for the unique
-- keys. Times are seconds; a lease time that is not positive is 0, an empty text is NULL, ids are
-- positive and 0 stands for all accounts among the members of a route.
use hao_vpn.Prelude.{
  ℕ, suc, ◌+◌, Bool, true, false, ◌&&◌, ◌||◌, not, List, [], ◌∷◌, ◌++◌, Option, none, some, Text,
  text_beq, text_eq, nat_beq, ltb, leb, any, map, length, if◌then◌else◌, codes,
}
use hao_vpn.Prelude.Map.{Map, get, put}
use hao_vpn.Net.{Text6}
use hao_vpn.NetUtil.Strings.{trim_space}
use hao_vpn.NetUtil.Rules.{parse_cidr_or_host, forbid_default_route, normalize_cidr_or_host}

-- persist.User, but for the password and the private key.
pub record Account : Type 0 where
  pub id : ℕ
  pub username : Text
  pub enabled : Bool
  pub is_admin : Bool
  pub public_key : Text
  pub vpn_ip : Text
  pub allowed_ips : List Text
  pub ip_mode : Text
  pub ip_lease_sec : ℕ
  pub policy_ver : ℕ

-- A row of ip_allocations; `is_released` is `released_at IS NOT NULL`.
pub record IpAllocation : Type 0 where
  pub user_id : ℕ
  pub allocated_at : ℕ
  pub is_released : Bool
  pub lease_until : Option ℕ

pub record PeerRoute : Type 0 where
  pub id : ℕ
  pub dest_cidr : Text
  pub via_user_id : ℕ
  pub member_user_ids : List ℕ

-- Users and routes stand in the order of their ids, which are the next ones.
pub record Database : Type 0 where
  pub users : List Account
  pub next_user_id : ℕ
  pub ip_allocations : Map Text IpAllocation
  pub peer_access : List (ℕ × ℕ)
  pub peer_routes : List PeerRoute
  pub client_lan_registry : List (ℕ × Text)

abbrev pub fixed : Text
fixed = codes "fixed"

abbrev pub dynamic_session : Text
dynamic_session = codes "dynamic_session"

abbrev pub dynamic_lease : Text
dynamic_lease = codes "dynamic_lease"

abbrev pub default_ip_lease_sec : ℕ
default_ip_lease_sec = 86400

abbrev pub has_vpn : Account → Bool
has_vpn u = not (text_beq u.public_key [])

unfoldable pub filter {ℓ} : {A : Type ℓ} → (A → Bool) → List A → List A
filter keep [] = []
filter keep (x ∷ xs) = if keep x then x ∷ filter keep xs else filter keep xs

-- `WHERE id=?`
unfoldable pub find_user : ℕ → List Account → Option Account
find_user id [] = none
find_user id (u ∷ us) = if nat_beq u.id id then some u else find_user id us

unfoldable pub update_user : ℕ → (Account → Account) → List Account → List Account
update_user id f [] = []
update_user id f (u ∷ us) = (if nat_beq u.id id then f u else u) ∷ update_user id f us

unfoldable pub get_user_by_id : ℕ → Database → Option Account
unfolding find_user
get_user_by_id id tb = find_user id tb.users

abbrev pub is_enabled_admin : Account → Bool
is_enabled_admin u = u.is_admin && u.enabled

unfoldable pub count_enabled_admins : Database → ℕ
unfolding filter
count_enabled_admins tb = length (filter is_enabled_admin tb.users)

-- CreateVPNAccount; none where the name or the public key is taken.
unfoldable pub create_vpn_account : Account → Database → Option (Database × ℕ)
create_vpn_account u tb =
    let id = tb.next_user_id in
    let is_taken =
      any (λ v. text_beq v.username u.username || (has_vpn u && text_beq v.public_key u.public_key))
        tb.users in
    let row = record u {
      id = id;
      enabled = true;
      is_admin = false;
      ip_mode = if text_beq u.ip_mode [] then fixed else u.ip_mode;
      ip_lease_sec = if nat_beq u.ip_lease_sec 0 then default_ip_lease_sec else u.ip_lease_sec;
      policy_ver = if nat_beq u.policy_ver 0 then 1 else u.policy_ver;
    } in
    if is_taken
    then none
    else some (record tb { users = tb.users ++ (row ∷ []); next_user_id = suc id }, id)

unfoldable pub set_users : (List Account → List Account) → Database → Database
set_users f tb = record tb { users = f tb.users }

unfoldable pub update_vpn_fields : ℕ → Text → List Text → Text → ℕ → ℕ → Database → Database
unfolding update_user set_users
update_vpn_fields id ip allowed mode lease ver = set_users (
    update_user id (λ u. record u {
      vpn_ip = ip;
      allowed_ips = allowed;
      ip_mode = mode;
      ip_lease_sec = lease;
      policy_ver = ver;
    }))

unfoldable pub update_user_vpn_ip : ℕ → Text → Database → Database
unfolding update_user set_users
update_user_vpn_ip id ip = set_users (update_user id (λ u. record u { vpn_ip = ip }))

unfoldable pub set_user_enabled : ℕ → Bool → Database → Database
unfolding update_user set_users
set_user_enabled id b = set_users (update_user id (λ u. record u { enabled = b }))

-- IncrementPolicyVer; none for an account that is not there.
unfoldable pub increment_policy_ver : ℕ → Database → Database × Option ℕ
unfolding update_user set_users get_user_by_id
increment_policy_ver id tb =
    let tb' = set_users (update_user id (λ u. record u { policy_ver = u.policy_ver + 1 })) tb in
    (tb', elim (get_user_by_id id tb') [ none ↦ none | some u ↦ some u.policy_ver ])

-- DeleteUser, on the tables that are modelled.
unfoldable pub delete_user : ℕ → Database → Database
unfolding filter
delete_user id tb = record tb {
  users = filter (λ u. not (nat_beq u.id id)) tb.users;
  ip_allocations = filter (λ row. not (nat_beq row.1.user_id id)) tb.ip_allocations;
  peer_access = filter (λ p. not (nat_beq p.0 id) && not (nat_beq p.1 id)) tb.peer_access;
  peer_routes =
      map {A = PeerRoute}
        (λ r. record r { member_user_ids = filter (λ m. not (nat_beq m id)) r.member_user_ids })
        (filter (λ r. not (nat_beq r.via_user_id id)) tb.peer_routes);
  client_lan_registry = filter (λ row. not (nat_beq row.0 id)) tb.client_lan_registry;
}

-- GetUserVPNIPIndex: the last account with an address has it.
unfoldable pub vpn_ip_index : List Account → Map Text ℕ → Map Text ℕ
vpn_ip_index [] index = index
vpn_ip_index (u ∷ us) index =
    vpn_ip_index us
      (if has_vpn u && not (text_beq u.vpn_ip []) then put u.vpn_ip u.id index else index)

unfoldable pub get_user_vpn_ip_index : Database → Map Text ℕ
unfolding vpn_ip_index
get_user_vpn_ip_index tb = vpn_ip_index tb.users []

-- accountkeys.go
unfoldable pub set_allocations :
    (Map Text IpAllocation → Map Text IpAllocation) → Database → Database
set_allocations f tb = record tb { ip_allocations = f tb.ip_allocations }

unfoldable pub record_ip_allocation : ℕ → Text → ℕ → Database → Database
unfolding set_allocations
record_ip_allocation now ip user = set_allocations (
    put ip (record { user_id = user; allocated_at = now; is_released = false; lease_until = none }))

-- `UPDATE ip_allocations ... WHERE ip=?`
unfoldable pub update_allocation :
    Text → (IpAllocation → IpAllocation) → Map Text IpAllocation → Map Text IpAllocation
update_allocation ip f rows = elim (get ip rows) [ none ↦ rows | some a ↦ put ip (f a) rows ]

unfoldable pub release_ip_allocation : Text → Database → Database
unfolding update_allocation set_allocations
release_ip_allocation ip = set_allocations (
    update_allocation ip
      (λ a. if a.is_released then a else record a { is_released = true; lease_until = none }))

unfoldable pub set_ip_lease_until : Text → ℕ → Database → Database
unfolding update_allocation set_allocations
set_ip_lease_until ip until =
    set_allocations (update_allocation ip (λ a. record a { lease_until = some until }))

abbrev pub is_leased : ℕ → IpAllocation → Bool
is_leased now a =
    not a.is_released && (elim a.lease_until [ none ↦ true | some until ↦ ltb now until ])

-- `ORDER BY allocated_at DESC LIMIT 1` among an account's rows that are in force.
unfoldable pub latest_lease : ℕ → ℕ → Map Text IpAllocation → Option (Text × ℕ)
latest_lease now user [] = none
latest_lease now user ((ip, a) ∷ rows) =
    let rest = latest_lease now user rows in
    if nat_beq a.user_id user && is_leased now a
    then (elim rest [
      | none ↦ some (ip, a.allocated_at)
      | some (ip', at) ↦ if ltb a.allocated_at at then some (ip', at) else some (ip, a.allocated_at)
    ])
    else rest

unfoldable pub get_leased_ip_for_user : ℕ → ℕ → Database → Option Text
unfolding latest_lease
get_leased_ip_for_user now user tb = elim (latest_lease now user tb.ip_allocations) [
  | none ↦ none
  | some (ip, at) ↦ some ip
]

abbrev pub is_expired : ℕ → IpAllocation → Bool
is_expired now a =
    not a.is_released && (elim a.lease_until [ none ↦ false | some until ↦ leb until now ])

unfoldable pub expired_ips : ℕ → Map Text IpAllocation → List Text
expired_ips now [] = []
expired_ips now ((ip, a) ∷ rows) =
    if is_expired now a then ip ∷ expired_ips now rows else expired_ips now rows

unfoldable pub list_expired_leased_ips : ℕ → Database → List Text
unfolding expired_ips
list_expired_leased_ips now tb = expired_ips now tb.ip_allocations

unfoldable pub expire_leased_ips : ℕ → Database → Database
unfolding set_allocations
expire_leased_ips now = set_allocations (
    map
      (λ row. (row.0, if is_expired now row.1 then record row.1 { is_released = true } else row.1)))

unfoldable pub active_ips : Map Text IpAllocation → List (Text × ℕ)
active_ips [] = []
active_ips ((ip, a) ∷ rows) =
    if a.is_released then active_ips rows else (ip, a.user_id) ∷ active_ips rows

-- peer_access.go, peer_routes.go and lan_registry.go, as a handshake reads them.
unfoldable pub list_peer_access_peer_ids : ℕ → Database → List ℕ
unfolding filter
list_peer_access_peer_ids user tb = map (λ p. p.1) (filter (λ p. nat_beq p.0 user) tb.peer_access)

abbrev pub has_member : ℕ → List ℕ → Bool
has_member user = any (λ m. nat_beq m 0 || nat_beq m user)

unfoldable pub list_peer_routes_for_accessor : ℕ → Database → List PeerRoute
unfolding filter
list_peer_routes_for_accessor user tb =
    filter (λ r. has_member user r.member_user_ids) tb.peer_routes

module _ (t : Text6) where
  -- none is an error.
  unfoldable pub normalize_peer_route_dest : Text → Option Text
  unfolding parse_cidr_or_host forbid_default_route normalize_cidr_or_host
  normalize_peer_route_dest cidr =
      let cidr' = trim_space cidr in
      if text_beq cidr' [] then none else elim (parse_cidr_or_host t cidr') [
        | none ↦ none
        | some n ↦ if forbid_default_route t cidr' then none else normalize_cidr_or_host t cidr
      ]

  unfoldable pub has_lan_registry_match : ℕ → Text → Database → Option Bool
  unfolding normalize_peer_route_dest
  has_lan_registry_match via dest tb = elim (normalize_peer_route_dest dest) [
    | none ↦ none
    | some dest' ↦
        some (any (λ row. nat_beq row.0 via && text_beq row.1 dest') tb.client_lan_registry)
  ]
