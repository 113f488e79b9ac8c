-- ===== src/SessionMgr/Policy.antt =====
-- route_policy.go and route_lookup.go: what a session may send, and to whom. The warnings are not
-- modelled, but for the times that limit their rate.
use hao_vpn.Prelude.{
  ℕ, Bool, false, ◌||◌, not, [], Option, none, some, nat_beq, text_eq, if◌then◌else◌, Text,
  text_beq, any, length,
}
use hao_vpn.Prelude.Map.{get}
use hao_vpn.Net.{Ip, Text6}
use hao_vpn.NetUtil.Rules.{vpn_ip_or_in_nets, ip_in_any_net}
use hao_vpn.SessionMgr.{AccountSession, Manager}

module _ {S : Type 0} where
  unfoldable pub source_ip_allowed : Text6 → AccountSession S → Ip → Bool
  source_ip_allowed t ps src =
      if nat_beq (length src) 0 then false else vpn_ip_or_in_nets t ps.vpn_ip ps.exit_lans src

  unfoldable pub source_from_exit_lan : AccountSession S → Ip → Bool
  source_from_exit_lan ps src =
      if nat_beq (length src) 0 then false else ip_in_any_net ps.exit_lans src

  unfoldable pub dst_allowed : Text6 → AccountSession S → Ip → Bool
  dst_allowed t ps dst = vpn_ip_or_in_nets t ps.vpn_ip ps.allowed_ips dst

  unfoldable pub is_other_account_vpn_ip : Manager S → ℕ → Text → Bool
  is_other_account_vpn_ip m from dst = elim (get dst m.vpn_index) [
    | none ↦ false
    | some owner ↦ not (nat_beq owner from)
  ]

  unfoldable pub lateral_peer_allowed : Manager S → AccountSession S → Text → Bool
  lateral_peer_allowed m ps dst = elim (get dst m.vpn_index) [
    | none ↦ false
    | some owner ↦
        m.allow_all_peers
        || (any (λ id. nat_beq id owner) ps.peer_access
            || any (λ id. nat_beq id owner) ps.via_peers)
  ]

  unfoldable pub lookup_online_by_vpn_ip : Manager S → Text → Option ℕ
  lookup_online_by_vpn_ip m vpn_ip = if text_beq vpn_ip [] then none else get vpn_ip m.by_ip
