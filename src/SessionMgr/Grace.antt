-- ===== src/SessionMgr/Grace.antt =====
-- register_grace.go: when a new login may take over from the old connection under reject_second.
use hao_vpn.Prelude.{
  ℕ, ◌+◌, ◌*◌, Bool, false, not, ◌&&◌, [], Text, none, some, nat_beq, ltb, leb, if◌then◌else◌,
  text_beq,
}
use hao_vpn.Net.{Text6}
use hao_vpn.NetUtil.Addr.{normalize_remote_host}
use hao_vpn.SessionMgr.{Env, second}

-- sameRemoteHost
unfoldable pub same_remote_host : Text6 → Text → Text → Bool
same_remote_host t a b =
    let ha = normalize_remote_host t a in
    let hb = normalize_remote_host t b in not (text_beq ha []) && text_beq ha hb

-- reconnectStaleAfter
unfoldable pub reconnect_stale_after : ℕ → ℕ
reconnect_stale_after grace =
    let min_stale = 8 * second in
    let max_stale = 20 * second in
    if nat_beq grace 0
    then max_stale
    else let d = if ltb max_stale grace then max_stale else grace in
      if ltb d min_stale then min_stale else d

-- peerActivityStale
unfoldable pub peer_activity_stale : Env → ℕ → ℕ → Bool
peer_activity_stale env conn after =
    if nat_beq after 0
    then false
    else elim (env.last_peer_activity conn) [ none ↦ false | some t ↦ leb (t + after) env.now ]
