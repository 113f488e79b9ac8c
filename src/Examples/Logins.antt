-- ===== src/Examples/Logins.antt =====
-- Logins, replaced connections and ends of sessions.
use mathlib.Core.List.{Permᴰ}
use hao_vpn.Prelude.{
  ℕ, ◌*◌, ◌≡◌, refl, true, false, List, [], ◌∷◌, ◌++◌, none, some, Result, ok, err, arith, codes,
  Text, nat_eq, text_eq, All, if◌then◌else◌,
}
use hao_vpn.Prelude.Map.{get, put}
use hao_vpn.Net.{to4}
use hao_vpn.Net.Print.{ip_string}
use hao_vpn.Net.Parse.{parse_ip, parse_cidr}
use hao_vpn.NetUtil.Strings.{trim_space, cut_last}
use hao_vpn.NetUtil.Addr.{normalize_remote_host, host_from_addr, parse_host_ip, split_remote_addr}
use hao_vpn.NetUtil.Rules.{parse_cidr_list_to_nets, parse_cidr_or_host}
use hao_vpn.SessionMgr.{
  AccountSession, Manager, Effect, connection_event, on_kick, session_of, deref, close,
  clear_on_data, second, kick_previous,
}
use hao_vpn.SessionMgr.ViaIndex.{rebuild_via_index}
use hao_vpn.SessionMgr.ViaIndex.Order.{rebuild_via_index_order, EachSession}
use hao_vpn.SessionMgr.Grace.{same_remote_host, peer_activity_stale, reconnect_stale_after}
use hao_vpn.SessionMgr.Register.{
  register_vpn, RegisterError, account_already_online, Detached, detach, attach, drain_old_conn,
}
use hao_vpn.SessionMgr.Register.Takeover.{register_vpn_refused}
use hao_vpn.SessionMgr.Register.Handover.{Taken, register_vpn_takeover, register_vpn-handle_inbound}
use hao_vpn.SessionMgr.Register.Race.{detach-attach_race}
use hao_vpn.SessionMgr.Kick.{kick_user}
use hao_vpn.SessionMgr.Kick.Ends.{IsGone, farewell, kick_user-IsGone}
use hao_vpn.SessionMgr.Lan.{registered, prune_via_routes_after_registry, allow_lan_registry_sync}
use hao_vpn.SessionMgr.Lan.Prune.{IsLive, prune-IsLive}
use hao_vpn.SessionMgr.Inbound.{handle_inbound}
use hao_vpn.Examples.Data.{
  no_text6, counter_cipher, calm, two_online, laptop, laptop_user, no_peers,
}

abbrev allowed : List Text
allowed = codes "10.88.0.0/24" ∷ []

-- A policy under which a second login replaces the first.
abbrev lenient : Manager ℕ
lenient = record two_online { session_policy = kick_previous }

-- The laptop logs in again on connection 21, from elsewhere.
abbrev again : Manager ℕ × Result RegisterError (List Effect)
again = register_vpn calm no_text6 laptop_user allowed 21 3 (codes "9.9.9.9:40") no_peers lenient

abbrev told : List Effect
told =
    clear_on_data 11 ∷ close 11 ∷ connection_event 1 (codes "connected") (codes "9.9.9.9:40") ∷ []

again_accepted :
    register_vpn calm no_text6 laptop_user allowed 21 3 (codes "9.9.9.9:40") no_peers lenient
    ≡ (again.0, ok told)
unfolding register_vpn parse_cidr_list_to_nets parse_cidr_or_host trim_space parse_ip parse_cidr get
    rebuild_via_index
again_accepted = refl

register_vpn_takeover_example :
    (r : ℕ) × (ps : AccountSession ℕ) × (rest : List Effect) × (session_of again.0 1 ≡ some (r, ps))
    × (told ≡ clear_on_data 11 ∷ close 11 ∷ rest)
    × Taken no_text6 calm
        (codes "9.9.9.9:40")
        lenient
        laptop
        (record { old_conn = some 11; inherit_rx = ps.rx_bytes; inherit_tx = ps.tx_bytes })
unfolding get
register_vpn_takeover_example =
    register_vpn_takeover no_text6 calm laptop_user allowed 21 3 (codes "9.9.9.9:40") no_peers
      lenient again.0 told again_accepted 0 laptop refl

register_vpn-handle_inbound_example :
    handle_inbound calm counter_cipher no_text6 1 11 (7 ∷ 69 ∷ []) again.0 ≡ (again.0, [], false)
register_vpn-handle_inbound_example =
    register_vpn-handle_inbound no_text6 calm laptop_user allowed 21 3 (codes "9.9.9.9:40") no_peers
      lenient again.0 told again_accepted calm counter_cipher 11 (7 ∷ 69 ∷ []) (omega arith)

-- Under reject_second and from another host the login is refused.
refused :
    (register_vpn calm no_text6 laptop_user allowed 21 3 (codes "9.9.9.9:40") no_peers two_online).1
    ≡ err account_already_online
unfolding register_vpn parse_cidr_list_to_nets parse_cidr_or_host trim_space parse_ip parse_cidr get
    same_remote_host normalize_remote_host host_from_addr parse_host_ip peer_activity_stale
    split_remote_addr cut_last to4 ip_string reconnect_stale_after
refused = refl

register_vpn_refused_example :
    (register_vpn calm no_text6 laptop_user allowed 21 3 (codes "9.9.9.9:40") no_peers two_online).0
    ≡ two_online
register_vpn_refused_example =
    register_vpn_refused no_text6 calm laptop_user allowed 21 3 (codes "9.9.9.9:40") no_peers
      two_online account_already_online refused

-- Account 3 is offline and logs in twice at once.
abbrev third : AccountSession ℕ
third = record laptop { user_id = 3; vpn_ip = codes "10.88.0.4"; conn = 31 }

abbrev fourth : AccountSession ℕ
fourth = record third { conn = 32 }

detach-attach_race_example :
    let nobody : Detached = record { old_conn = none; inherit_rx = 0; inherit_tx = 0 } in
    let m' = attach no_text6 fourth (attach no_text6 third two_online) in
    (detach calm no_text6 3 (codes "1.1.1.1:1") two_online ≡ (two_online, ok nobody))
    × (detach calm no_text6 3 (codes "2.2.2.2:2") two_online ≡ (two_online, ok nobody))
    × (drain_old_conn nobody.old_conn ≡ [])
    × (session_of m' 3 ≡ some (3, fourth))
    × (deref m' 2 ≡ some third)
unfolding get
detach-attach_race_example =
    detach-attach_race no_text6 calm calm (codes "1.1.1.1:1") (codes "2.2.2.2:2") two_online third
      fourth refl refl

kick_user-IsGone_example :
    IsGone calm no_text6 1 two_online laptop (kick_user calm no_text6 1 two_online).0
    × ((kick_user calm no_text6 1 two_online).1
        ≡ (close 11 ∷ farewell calm no_text6 1 two_online laptop)
          ++ (if two_online.has_kick_handler then on_kick 1 ∷ [] else []))
unfolding get
kick_user-IsGone_example = kick_user-IsGone calm no_text6 1 two_online 0 laptop refl

-- The office lists no destination any more.
prune-IsLive_example :
    EachSession no_text6
      (IsLive no_text6 2 (registered 2 two_online))
      (prune_via_routes_after_registry no_text6 2 two_online).0
    × All
        (IsLive no_text6 2 (registered 2 two_online))
        (prune_via_routes_after_registry no_text6 2 two_online).0.via_index
prune-IsLive_example = prune-IsLive no_text6 2 two_online (omega arith)

-- The two sessions in the other order.
rebuild_via_index_order_example :
    (rebuild_via_index no_text6 two_online).via_index
    ≡ (rebuild_via_index no_text6 (record two_online { sessions = (2, 1) ∷ (1, 0) ∷ [] })).via_index
unfolding get
rebuild_via_index_order_example =
    rebuild_via_index_order no_text6 two_online
      (record two_online { sessions = (2, 1) ∷ (1, 0) ∷ [] })
      (record { heap = refl; entries = λ id. ground arith; keys = Permᴰ.swap refl refl })

abbrev synced : AccountSession ℕ
synced = record laptop { lan_registry_sync_count = 1; last_lan_registry_sync = 1000 * second }

laptop_online : session_of two_online 1 ≡ some (0, laptop)
unfolding get
laptop_online = refl

sync_at : (allow_lan_registry_sync (1000 * second) 1 two_online).1 ≡ true
unfolding allow_lan_registry_sync get
sync_at = refl

sync_later :
    (session_of (allow_lan_registry_sync (1000 * second) 1 two_online).0 1 ≡ some (0, synced))
    × ((allow_lan_registry_sync
          (1031 * second)
          1
          (allow_lan_registry_sync (1000 * second) 1 two_online).0).1
        ≡ true)
unfolding allow_lan_registry_sync get put
sync_later = (refl, refl)
