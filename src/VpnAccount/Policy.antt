-- ===== src/VpnAccount/Policy.antt =====
-- peer_policy.go and dns_resolve.go: what a client is told at its handshake. The store is there;
-- `none` stands for an error of the store, which a route with a bad destination causes.
mod Steps
mod Routes
pub mod Sound
use hao_vpn.Prelude.{
  ℕ, Bool, true, false, ◌&&◌, ◌||◌, not, List, [], ◌∷◌, ◌++◌, Option, none, some, is_some, Text,
  text_beq, nat_beq, any, if◌then◌else◌, codes,
}
use hao_vpn.Prelude.Sort.{sort_by, text_ltb}
use hao_vpn.Net.{IpNet, Text6}
use hao_vpn.NetUtil.Strings.{trim_space}
use hao_vpn.NetUtil.Rules.{append_cidr_unique}
use hao_vpn.VpnAccount.Tables.{
  Account, Database, PeerRoute, get_user_by_id, list_peer_access_peer_ids,
  list_peer_routes_for_accessor, has_lan_registry_match,
}
use hao_vpn.VpnAccount.{Config, resolve_allowed_ips}

pub record ManagedRouteInfo : Type 0 where
  pub dest_cidr : Text
  pub via_ip : Text
  pub via_user_id : ℕ
  pub via_username : Text
  pub stale : Bool

pub record ClientPolicy : Type 0 where
  pub allowed_ips : List Text
  pub managed_routes : List ManagedRouteInfo
  pub peer_access_ids : List ℕ
  pub via_user_ids : List ℕ

-- The variables `allowed` and `nets` of ResolveClientPolicy.
pub record Allowed : Type 0 where
  pub cidrs : List Text
  pub nets : List IpNet

abbrev pub host_of : Text → Text
host_of ip = ip ++ codes "/32"

module _ (t : Text6) where
  -- addCIDR
  unfoldable pub add_cidr : Text → Bool → Allowed → Allowed
  unfolding append_cidr_unique
  add_cidr c skip_if_covered a =
      let (cidrs, nets, added) = append_cidr_unique t a.cidrs a.nets c skip_if_covered in
      record { cidrs = cidrs; nets = nets }

  unfoldable pub add_base : List Text → Allowed → Allowed
  add_base [] a = a
  add_base (c ∷ base) a = add_base base (add_cidr c false a)

  -- A peer; an account without an address is passed over.
  unfoldable pub add_peer : Database → ℕ → Allowed → Allowed
  unfolding get_user_by_id
  add_peer tb pid a = elim (get_user_by_id pid tb) [
    | none ↦ a
    | some u ↦ if text_beq (trim_space u.vpn_ip) [] then a else add_cidr (host_of u.vpn_ip) true a
  ]

  unfoldable pub add_peers : Database → List ℕ → Allowed → Allowed
  unfolding add_peer
  add_peers tb [] a = a
  add_peers tb (pid ∷ ids) a = add_peers tb ids (add_peer tb pid a)

  -- What is known of a route: its via account, and whether the via announces the destination.
  unfoldable pub route_info : Database → PeerRoute → Bool → ManagedRouteInfo
  unfolding get_user_by_id
  route_info tb r registered =
      let via_ip : Text = elim (get_user_by_id r.via_user_id tb) [
        | none ↦ []
        | some u ↦ trim_space u.vpn_ip
      ] in
      record {
        dest_cidr = r.dest_cidr;
        via_ip = via_ip;
        via_user_id = r.via_user_id;
        via_username = elim (get_user_by_id r.via_user_id tb) [ none ↦ [] | some u ↦ u.username ];
        stale = text_beq via_ip [] || not registered;
      }

  abbrev pub has_id : ℕ → List ℕ → Bool
  has_id id = any (λ k. nat_beq k id)

  -- A route that is in force: its destination, and the address of its via when that is new.
  unfoldable pub add_route : ManagedRouteInfo → List ℕ → Allowed → Allowed
  unfolding add_cidr
  add_route info seen a =
      let a' = add_cidr info.dest_cidr false a in
      if has_id info.via_user_id seen || text_beq info.via_ip []
      then a'
      else add_cidr (host_of info.via_ip) true a'

  -- The loop over the routes; `seen` are the via accounts so far.
  unfoldable pub add_routes :
      Database
      → List PeerRoute
      → List ℕ
      → Allowed
      → Option (List ManagedRouteInfo × List ℕ × Allowed)
  add_routes tb [] seen a = some ([], seen, a)
  add_routes tb (r ∷ rs) seen a = elim (has_lan_registry_match t r.via_user_id r.dest_cidr tb) [
    | none ↦ none
    | some registered ↦
        let info = route_info tb r registered in
        let seen' = if has_id r.via_user_id seen then seen else seen ++ (r.via_user_id ∷ []) in
        let rest =
          if info.stale
          then add_routes tb rs seen a
          else add_routes tb rs seen' (add_route info seen a) in
        elim rest [ none ↦ none | some (infos, vias, a') ↦ some (info ∷ infos, vias, a') ]
  ]

  abbrev pub no_allowed : Allowed
  no_allowed = record { cidrs = []; nets = [] }

  unfoldable pub resolve_client_policy : Config → Account → Database → Option ClientPolicy
  resolve_client_policy cfg u tb =
      let peer_ids = list_peer_access_peer_ids u.id tb in
      let a = add_peers tb peer_ids (add_base (resolve_allowed_ips cfg u.allowed_ips) no_allowed) in
      elim (add_routes tb (list_peer_routes_for_accessor u.id tb) [] a) [
        | none ↦ none
        | some (infos, vias, a') ↦ some (record {
          allowed_ips = sort_by text_ltb a'.cidrs;
          managed_routes = infos;
          peer_access_ids = peer_ids;
          via_user_ids = vias;
        })
      ]

-- ResolveDNSForUser, on the addresses that the store lists for the account.
unfoldable pub resolve_dns_for_user : Config → List Text → Text → List Text
resolve_dns_for_user cfg ips gateway_fallback =
    let gw =
      if text_beq (trim_space gateway_fallback) []
      then trim_space cfg.gateway_ip
      else trim_space gateway_fallback in
    elim ips [ [] ↦ if text_beq gw [] then [] else gw ∷ [] | ip ∷ more ↦ ip ∷ more ]
