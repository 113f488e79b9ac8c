-- ===== src/Examples/Packets.antt =====
-- Packets between the two accounts and from the TUN device.
use hao_vpn.Prelude.{ℕ, ◌≤◌, ◌≡◌, refl, ◌⊎◌, true, false, [], nat_eq, text_eq, any, length}
use hao_vpn.Prelude.Map.{get, put}
use hao_vpn.Net.{contains}
use hao_vpn.Net.Print.{ip_string}
use hao_vpn.NetUtil.Rules.{vpn_ip_or_in_nets}
use hao_vpn.SafeUtil.Throttle.{allow_every}
use hao_vpn.SessionMgr.Stats.{note_inbound_rx}
use hao_vpn.SessionMgr.Policy.{
  source_ip_allowed, source_from_exit_lan, dst_allowed, is_other_account_vpn_ip,
  lateral_peer_allowed, lookup_online_by_vpn_ip,
}
use hao_vpn.SessionMgr.Route.{dst_of, src_of, route_outbound, send_to_account}
use hao_vpn.SessionMgr.Route.Target.{Got, IsPicked, route_outbound-Got}
use hao_vpn.SessionMgr.Inbound.{deliver}
use hao_vpn.SessionMgr.Inbound.Isolation.{IsPermitted, is_delivery, deliver-IsPermitted}
use hao_vpn.Examples.Data.{no_text6, counter_cipher, calm, two_online, laptop, header}

-- The laptop may reach the office.
delivered :
    any is_delivery (deliver calm counter_cipher no_text6 1 11 0 (header 2 3) two_online).1 ≡ true
unfolding deliver get put ip_string source_ip_allowed vpn_ip_or_in_nets source_from_exit_lan
    is_other_account_vpn_ip lateral_peer_allowed dst_allowed contains lookup_online_by_vpn_ip
    note_inbound_rx send_to_account allow_every
delivered = refl

deliver-IsPermitted_example :
    IsPermitted no_text6 two_online 1 0 laptop (src_of (header 2 3)) (dst_of (header 2 3))
unfolding get
deliver-IsPermitted_example =
    deliver-IsPermitted no_text6 calm counter_cipher 1 11 0 (header 2 3) two_online laptop refl
      delivered

-- The office may not reach the laptop, which it does not list.
not_delivered : (deliver calm counter_cipher no_text6 2 12 1 (header 3 2) two_online).1 ≡ []
unfolding deliver get ip_string source_ip_allowed vpn_ip_or_in_nets source_from_exit_lan
    is_other_account_vpn_ip lateral_peer_allowed dst_allowed contains lookup_online_by_vpn_ip
not_delivered = refl

route_outbound-Got_example :
    let (m', es, done) = route_outbound calm counter_cipher no_text6 (header 1 2) two_online in
    ((done ≡ true)
      × (20 ≤ length (header 1 2))
      × ((r : ℕ) × IsPicked no_text6 (header 1 2) two_online r
          × Got calm counter_cipher (header 1 2) two_online m' es r))
    ⊎ ((done ≡ false) × (es ≡ []))
route_outbound-Got_example = route_outbound-Got calm counter_cipher no_text6 (header 1 2) two_online
