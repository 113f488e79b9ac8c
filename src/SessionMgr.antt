-- ===== src/SessionMgr.antt =====
-- internal/sessionmgr: the online sessions of the VPN accounts. manager.go's types.
--
-- Sessions are objects behind pointers: `heap` holds them by reference, and `sessions` and `by_ip`
-- hold references, so an update through one table is seen through the other. Account ids are
-- positive (row ids), so `id <= 0` is `id == 0`; times are nanoseconds; byte counts are unbounded.
-- A connection is a number that stands for the identity of the PacketConn, which is never nil.
pub mod ViaIndex
pub mod Stats
pub mod Settings
pub mod Grace
pub mod Register
pub mod Kick
pub mod Lan
pub mod Policy
pub mod Route
pub mod Inbound
use hao_vpn.Prelude.{
  ℕ, Bool, List, [], ◌++◌, Option, none, some, Text, codes, nat_eq, text_eq, text_beq,
  if◌then◌else◌,
}
use hao_vpn.Prelude.Map.{Map, get, put, remove}
use hao_vpn.Net.{IpNet}

-- What the manager needs of crypto.Session: its state, and the two operations on it. none is err.
pub record Cipher (S : Type 0) : Type 0 where
  pub encrypt : S → List ℕ → Option (List ℕ) × S
  pub decrypt : S → List ℕ → Option (List ℕ) × S

pub record ViaRoute : Type 0 where
  pub net : IpNet
  pub via_user_id : ℕ

pub record AccountSession (S : Type 0) : Type 0 where
  pub user_id : ℕ
  pub public_key : Text
  pub vpn_ip : Text
  pub allowed_ips : List IpNet
  pub via_routes : List ViaRoute
  pub peer_access : List ℕ
  pub via_peers : List ℕ
  pub exit_lans : List IpNet
  pub ip_mode : Text
  pub policy_ver : ℕ
  pub conn : ℕ
  pub crypto : Option S
  pub remote_addr : Text
  pub rx_bytes : ℕ
  pub tx_bytes : ℕ
  pub connected_at : ℕ
  pub last_stat_flush : ℕ
  pub last_spoof_warn : ℕ
  pub last_dst_warn : ℕ
  pub dst_drop_count : ℕ  -- uint64
  pub lan_registry_sync_count : ℕ
  pub last_lan_registry_sync : ℕ

pub record SessionStat : Type 0 where
  pub connected_at : Option ℕ
  pub last_heartbeat : Option ℕ
  pub rx_bytes : ℕ
  pub tx_bytes : ℕ
  pub reconnect_count : ℕ
  pub remote_addr : Text

-- The tables of the store that the manager reads and writes. A failed write is only logged by the
-- manager, and is not modelled; a failed read is `none`.
pub record Store : Type 0 where
  pub session_stats : Map ℕ SessionStat
  pub client_lan_registry : ℕ → Option (List Text)
  pub user_vpn_ips : Option (Map Text ℕ)

pub record Manager (S : Type 0) : Type 0 where
  pub store : Option Store
  pub heap : Map ℕ (AccountSession S)
  pub next_ref : ℕ
  pub sessions : Map ℕ ℕ
  pub by_ip : Map Text ℕ
  pub vpn_index : Map Text ℕ
  pub via_index : List ViaRoute
  pub allow_all_peers : Bool
  pub session_policy : Text
  pub reconnect_grace : ℕ
  pub has_kick_handler : Bool
  pub has_disconnect_handler : Bool
  pub has_flows : Bool

pub data Direction : Type 0 where
  dir_in dir_out : Direction

-- What a method does to the world, in order.
pub data Effect : Type 0 where
  clear_on_data close : ℕ → Effect
  sent : ℕ → List ℕ → Effect
  write_tun : List ℕ → Effect
  observe : ℕ → List ℕ → Direction → Effect
  connection_event : ℕ → Text → Text → Effect
  on_disconnect : ℕ → Text → Text → Effect
  on_kick : ℕ → Effect

-- The world during one call: the clock, whether a connection takes a frame, and when a peer was
-- last active (none if the connection cannot tell, or if the time is zero).
pub record Env : Type 0 where
  pub now : ℕ
  pub send_ok : ℕ → Bool
  pub last_peer_activity : ℕ → Option ℕ

abbrev pub second : ℕ
second = 1000000000

abbrev pub reject_second : Text
reject_second = codes "reject_second"

abbrev pub kick_previous : Text
kick_previous = codes "kick_previous"

-- A method returns the manager after it and its effects.
abbrev pub Step : Type 0 → Type 0
Step S = Manager S × List Effect

module _ {S : Type 0} where
  abbrev pub and_then : Step S → (Manager S → Step S) → Step S
  and_then (m, es) f = let (m', es') = f m in (m', es ++ es')

  -- The session behind a pointer, and the one of an account.
  abbrev pub deref : Manager S → ℕ → Option (AccountSession S)
  deref m r = get r m.heap

  abbrev pub session_of : Manager S → ℕ → Option (ℕ × AccountSession S)
  session_of m user = elim (get user m.sessions) [
    | none ↦ none
    | some r ↦ elim (deref m r) [ none ↦ none | some ps ↦ some (r, ps) ]
  ]

  abbrev pub store_session : ℕ → AccountSession S → Manager S → Manager S
  store_session r ps m = record m { heap = put r ps m.heap }

  -- `delete(m.sessions, userID)`, and `delete(m.byIP, ps.VPNIP)` if it has an address.
  abbrev pub unlink : ℕ → AccountSession S → Manager S → Manager S
  unlink user ps m = record m {
    sessions = remove user m.sessions;
    by_ip = if text_beq ps.vpn_ip [] then m.by_ip else remove ps.vpn_ip m.by_ip;
  }
