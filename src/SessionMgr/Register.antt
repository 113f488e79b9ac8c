-- ===== src/SessionMgr/Register.antt =====
-- register.go and parseViaRoutes of register_lan.go. RegisterVPN holds the lock
-- twice, to take the old session out (`detach`) and to put the new one in (`attach`), and drains the
-- old connection in between; the two are functions of their own, between which other calls may run.
pub mod Takeover
pub mod Race
pub mod Handover
use hao_vpn.Prelude.{
  ℕ, suc, ◌+◌, Bool, true, false, ◌&&◌, ◌||◌, not, List, [], ◌∷◌, ◌++◌, Option, none, some, nat_beq,
  nat_eq, text_eq, if◌then◌else◌, Text, text_beq, codes, ltb, Result, ok, err,
}
use hao_vpn.Prelude.Map.{get, put}
use hao_vpn.Net.{IpNet, Text6}
use hao_vpn.NetUtil.Rules.{parse_cidr_list_to_nets}
use hao_vpn.SessionMgr.{
  AccountSession, SessionStat, Store, Manager, Step, Effect, Env, ViaRoute, connection_event, close,
  clear_on_data, store_session, session_of, unlink, second, reject_second,
}
use hao_vpn.SessionMgr.Stats.{User, reconnect_count_of, put_stat}
use hao_vpn.SessionMgr.ViaIndex.{rebuild_via_index}
use hao_vpn.SessionMgr.Grace.{same_remote_host, reconnect_stale_after, peer_activity_stale}

pub record ViaRouteSpec : Type 0 where
  pub dest_cidr : Text
  pub via_user_id : ℕ

pub record PeerReg : Type 0 where
  pub via_routes : List ViaRouteSpec
  pub peer_access_ids : List ℕ
  pub via_user_ids : List ℕ

pub data RegisterError : Type 0 where
  bad_allowed_ips bad_via_route account_already_online : RegisterError

-- parseViaRoutes; none is its error.
unfoldable pub parse_via_routes : Text6 → List ViaRouteSpec → Option (List ViaRoute)
parse_via_routes t [] = some []
parse_via_routes t (s ∷ specs) = elim (parse_cidr_list_to_nets t (s.dest_cidr ∷ [])) [
  | none ↦ none
  | some [] ↦ parse_via_routes t specs
  | some (n ∷ ns) ↦ elim (parse_via_routes t specs) [
    | none ↦ none
    | some rest ↦
        if nat_beq s.via_user_id 0
        then some rest
        else some (record { net = n; via_user_id = s.via_user_id } ∷ rest)
  ]
]

-- What the first critical section hands to the second.
pub record Detached : Type 0 where
  pub old_conn : Option ℕ
  pub inherit_rx : ℕ
  pub inherit_tx : ℕ

abbrev nothing_old : Detached
nothing_old = record { old_conn = none; inherit_rx = 0; inherit_tx = 0 }

-- drainOldConn: the data callback goes before the connection.
abbrev pub drain_old_conn : Option ℕ → List Effect
drain_old_conn none = []
drain_old_conn (some c) = clear_on_data c ∷ close c ∷ []

module _ {S : Type 0} where
  -- loadExitLANs
  unfoldable pub load_exit_lans : Text6 → ℕ → Manager S → List IpNet
  load_exit_lans t user m = if nat_beq user 0 then [] else elim m.store [
    | none ↦ []
    | some st ↦ elim (st.client_lan_registry user) [
      | none ↦ []
      | some rows ↦ elim (parse_cidr_list_to_nets t rows) [ none ↦ [] | some nets ↦ nets ]
    ]
  ]

  abbrev pub effective_policy : Manager S → Text
  effective_policy m = if text_beq m.session_policy [] then reject_second else m.session_policy

  -- `old.Crypto = nil` and the two deletes.
  abbrev pub take_out : ℕ → ℕ → AccountSession S → Manager S → Manager S
  take_out user r old m = unlink user old (store_session r (record old { crypto = none }) m)

  unfoldable pub detach :
      Env → Text6 → ℕ → Text → Manager S → Manager S × Result RegisterError Detached
  detach env t user remote_addr m = elim (session_of m user) [
    | none ↦ (m, ok nothing_old)
    | some (r, old) ↦
        let same_host = same_remote_host t old.remote_addr remote_addr in
        let stale_peer =
          peer_activity_stale env old.conn (reconnect_stale_after m.reconnect_grace) in
        let inherit : Detached = record {
          old_conn = some old.conn;
          inherit_rx = old.rx_bytes;
          inherit_tx = old.tx_bytes;
        } in
        let afresh : Detached = record {
          old_conn = some old.conn;
          inherit_rx = 0;
          inherit_tx = 0;
        } in
        if text_beq (effective_policy m) reject_second
        then (if ltb 0 m.reconnect_grace && (same_host || stale_peer)
            then (take_out user r old m, ok inherit)
            else (m, err account_already_online))
        else (take_out user r old m, ok afresh)
  ]

  abbrev pub new_session :
      Env
      → User
      → List IpNet
      → List ViaRoute
      → PeerReg
      → List IpNet
      → ℕ
      → S
      → Text
      → Detached
      → AccountSession S
  new_session env user nets via_routes peer exit_lans conn crypto remote_addr d = record {
    user_id = user.id;
    public_key = user.public_key;
    vpn_ip = user.vpn_ip;
    allowed_ips = nets;
    via_routes = via_routes;
    peer_access = peer.peer_access_ids;
    via_peers = peer.via_user_ids;
    exit_lans = exit_lans;
    ip_mode = user.ip_mode;
    policy_ver = user.policy_ver;
    conn = conn;
    crypto = some crypto;
    remote_addr = remote_addr;
    rx_bytes = d.inherit_rx;
    tx_bytes = d.inherit_tx;
    connected_at = env.now;
    last_stat_flush = 0;
    last_spoof_warn = 0;
    last_dst_warn = 0;
    dst_drop_count = 0;
    lan_registry_sync_count = 0;
    last_lan_registry_sync = 0;
  }

  unfoldable pub attach : Text6 → AccountSession S → Manager S → Manager S
  attach t ps m =
      let r = m.next_ref in
      let m' = record m {
        heap = put r ps m.heap;
        next_ref = suc r;
        sessions = put ps.user_id r m.sessions;
        by_ip = if text_beq ps.vpn_ip [] then m.by_ip else put ps.vpn_ip r m.by_ip;
        vpn_index =
            if text_beq ps.vpn_ip [] then m.vpn_index else put ps.vpn_ip ps.user_id m.vpn_index;
      } in
      rebuild_via_index t m'

  -- The connection event and the session_stats row of a new session.
  unfoldable pub record_connect : Env → AccountSession S → ℕ → Manager S → Step S
  record_connect env ps reconnect_count m = elim m.store [
    | none ↦ (m, [])
    | some st ↦ (
      record m {
        store = some (
            put_stat ps.user_id
              (record {
                connected_at = some env.now;
                last_heartbeat = some env.now;
                rx_bytes = ps.rx_bytes;
                tx_bytes = ps.tx_bytes;
                reconnect_count = reconnect_count;
                remote_addr = ps.remote_addr;
              })
              st);
      },
      connection_event ps.user_id (codes "connected") ps.remote_addr ∷ [],
    )
  ]

  abbrev pub next_reconnect_count : ℕ → Manager S → ℕ
  next_reconnect_count user m = elim m.store [
    | none ↦ 0
    | some st ↦ elim (reconnect_count_of st user) [ none ↦ 0 | some n ↦ n + 1 ]
  ]

  -- The rest of RegisterVPN after the first critical section; `make` is the new session.
  unfoldable pub finish_register :
      Env
      → Text6
      → (Detached → AccountSession S)
      → ℕ
      → Manager S × Result RegisterError Detached
      → Manager S × Result RegisterError (List Effect)
  unfolding attach record_connect
  finish_register env t make count (m, err e) = (m, err e)
  finish_register env t make count (m, ok d) =
      let (m', events) = record_connect env (make d) count (attach t (make d) m) in
      (m', ok (drain_old_conn d.old_conn ++ events))

  unfoldable pub register_vpn :
      Env
      → Text6
      → User
      → List Text
      → ℕ
      → S
      → Text
      → PeerReg
      → Manager S
      → Manager S × Result RegisterError (List Effect)
  unfolding detach finish_register parse_via_routes load_exit_lans
  register_vpn env t user allowed conn crypto remote_addr peer m =
      elim (parse_cidr_list_to_nets t allowed) [
        | none ↦ (m, err bad_allowed_ips)
        | some nets ↦ elim (parse_via_routes t peer.via_routes) [
          | none ↦ (m, err bad_via_route)
          | some via_routes ↦
              let exit_lans = load_exit_lans t user.id m in
              finish_register env t
                (new_session env user nets via_routes peer exit_lans conn crypto remote_addr)
                (next_reconnect_count user.id m) (detach env t user.id remote_addr m)
        ]
      ]
