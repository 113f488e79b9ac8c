-- ===== src/SessionMgr/Stats.antt =====
-- stats.go, and recordDisconnect of kick.go.
use hao_vpn.Prelude.{
  ℕ, ◌+◌, ◌*◌, Bool, not, [], ◌∷◌, Option, none, some, nat_beq, nat_eq, if◌then◌else◌, Text,
  text_beq, codes, length, Result, ok, err, is_some,
}
use hao_vpn.Prelude.Map.{get, put}
use hao_vpn.SafeUtil.Throttle.{allow_every}
use hao_vpn.SessionMgr.{
  AccountSession, SessionStat, Store, Manager, Step, connection_event, store_session, second,
}

-- The fields of persist.User that the manager reads.
pub record User : Type 0 where
  pub id : ℕ
  pub public_key : Text
  pub vpn_ip : Text
  pub ip_mode : Text
  pub policy_ver : ℕ
  pub enabled : Bool

pub data AccessError : Type 0 where
  no_vpn_identity user_disabled : AccessError

unfoldable pub validate_vpn_access : Option User → Result AccessError (Unit {0})
validate_vpn_access none = err no_vpn_identity
validate_vpn_access (some u) =
    if text_beq u.public_key []
    then err no_vpn_identity
    else if not u.enabled
    then err user_disabled
    else ok tt

abbrev pub reconnect_count_of : Store → ℕ → Option ℕ
reconnect_count_of st user = elim (get user st.session_stats) [
  | none ↦ none
  | some stat ↦ some stat.reconnect_count
]

abbrev pub put_stat : ℕ → SessionStat → Store → Store
put_stat user stat st = record st { session_stats = put user stat st.session_stats }

module _ {S : Type 0} where
  unfoldable pub online_count : Manager S → ℕ
  online_count m = length m.sessions

  unfoldable pub flush_session_stat : ℕ → Option ℕ → Option ℕ → ℕ → ℕ → Text → Manager S → Manager S
  flush_session_stat user connected_at last_hb rx tx remote_addr m = elim m.store [
    | none ↦ m
    | some st ↦
        let rc : ℕ = elim (reconnect_count_of st user) [ none ↦ 0 | some n ↦ n ] in
        record m {
          store = some (
              put_stat user
                (record {
                  connected_at = connected_at;
                  last_heartbeat = last_hb;
                  rx_bytes = rx;
                  tx_bytes = tx;
                  reconnect_count = rc;
                  remote_addr = remote_addr;
                })
                st);
        }
  ]

  -- The session keeps its place in the heap; its counters and the stored row move on.
  unfoldable pub note_inbound_rx : ℕ → ℕ → AccountSession S → ℕ → ℕ → Manager S → Manager S
  unfolding flush_session_stat
  note_inbound_rx now r ps user n m =
      if nat_beq n 0
      then m
      else let (flush, last) = allow_every now (5 * second) ps.last_stat_flush in
        let ps' = record ps { rx_bytes = ps.rx_bytes + n; last_stat_flush = last } in
        let m' = store_session r ps' m in
        if flush
        then flush_session_stat user (some ps'.connected_at) (some now) ps'.rx_bytes ps'.tx_bytes
            ps'.remote_addr m'
        else m'

  unfoldable pub record_disconnect : ℕ → ℕ → Text → Manager S → Step S
  unfolding flush_session_stat
  record_disconnect now user remote_addr m =
      if is_some m.store
      then (
        flush_session_stat user none (some now) 0 0 remote_addr m,
        connection_event user (codes "disconnected") remote_addr ∷ [],
      )
      else (m, [])
