-- ===== src/SessionMgr/Kick/Ends.antt =====
-- How a session ends: what is left of it, and what the world is told.
use hao_vpn.Prelude.{
  ℕ, ◌≡◌, ◌≢◌, List, [], ◌∷◌, ◌++◌, none, some, nat_eq, text_eq, arith, Text, nat_beq,
  if◌then◌else◌, codes, text_beq, is_some, text_beq_iff, ◌⊎◌, inl, inr, Bool-cases,
}
use hao_vpn.Prelude.Map.{get, remove, get-remove}
use hao_vpn.Net.{Text6}
use hao_vpn.SessionMgr.{
  AccountSession, Manager, Env, Effect, session_of, close, on_disconnect, on_kick, connection_event,
  unlink,
}
use hao_vpn.SessionMgr.Stats.{record_disconnect}
use hao_vpn.SessionMgr.ViaIndex.{rebuild_via_index}
use hao_vpn.SessionMgr.Kick.{kick_user, remove_if_conn}

module _ {S : Type 0} (env : Env) (t : Text6) (user : ℕ) (m : Manager S) where
  record_disconnect_tables :
      (now : ℕ) (remote : Text) (n : Manager S)
      → ((record_disconnect now user remote n).0.sessions ≡ n.sessions)
        × ((record_disconnect now user remote n).0.by_ip ≡ n.by_ip)
        × ((record_disconnect now user remote n).0.has_disconnect_handler
            ≡ n.has_disconnect_handler)
        × ((record_disconnect now user remote n).1 ≡ (
            if is_some n.store
            then connection_event user (codes "disconnected") remote ∷ []
            else []))
  unfolding record_disconnect
  record_disconnect_tables now remote n = ground arith

  -- What the world is told of the end of a session.
  abbrev pub farewell : AccountSession S → List Effect
  farewell ps =
      (if is_some m.store
        then connection_event user (codes "disconnected") ps.remote_addr ∷ []
        else [])
      ++ (if m.has_disconnect_handler then on_disconnect user ps.vpn_ip ps.ip_mode ∷ [] else [])

  -- The account is offline and its address leads nowhere; the other accounts stay.
  pub record IsGone (ps : AccountSession S) (m' : Manager S) : Type 0 where
    pub offline : get user m'.sessions ≡ none
    pub unreachable : ps.vpn_ip ≢ [] → get ps.vpn_ip m'.by_ip ≡ none
    pub others : (other : ℕ) → other ≢ user → get other m'.sessions ≡ get other m.sessions

  unlinked-IsGone :
      (ps : AccountSession S) (m' : Manager S)
      → m'.sessions ≡ remove user m.sessions
      → m'.by_ip ≡ (if text_beq ps.vpn_ip [] then m.by_ip else remove ps.vpn_ip m.by_ip)
      → IsGone ps m'
  unlinked-IsGone ps m' e f = record {
    offline = ground (arith, get-remove user user m.sessions);
    unreachable = λ h. ground (
      arith,
      f,
      h,
      text_beq_iff ps.vpn_ip [],
      get-remove ps.vpn_ip ps.vpn_ip m.by_ip,
      text_beq_iff ps.vpn_ip ps.vpn_ip,
    );
    others = λ other h. ground (arith, get-remove user other m.sessions);
  }

  -- KickUser of an online account closes its connection, takes it out of both tables and leaves
  -- the other accounts' sessions, then records the disconnect and calls the disconnect and kick
  -- handlers that are set.
  pub kick_user-IsGone :
      (r : ℕ) (ps : AccountSession S)
      → session_of m user ≡ some (r, ps)
      → IsGone ps (kick_user env t user m).0
        × ((kick_user env t user m).1
            ≡ (close ps.conn ∷ farewell ps)
              ++ (if m.has_kick_handler then on_kick user ∷ [] else []))
  unfolding kick_user rebuild_via_index
  kick_user-IsGone r ps online = (
    unlinked-IsGone ps (kick_user env t user m).0
        (rw (online, kick_user) (record_disconnect_tables env.now ps.remote_addr gone).0)
        (rw (online, kick_user) (record_disconnect_tables env.now ps.remote_addr gone).1),
    rw (online, kick_user) (ground (arith, record_disconnect_tables env.now ps.remote_addr gone)),
  )
    where
      gone : Manager S
      gone = rebuild_via_index t (unlink user ps m)

  -- RemoveIfConn of an online account takes its session out and reports the end if the connection
  -- is the session's own; for any other connection it changes nothing.
  pub remove_if_conn-IsGone :
      (conn r : ℕ) (ps : AccountSession S)
      → session_of m user ≡ some (r, ps)
      → ((ps.conn ≡ conn)
          × IsGone ps (remove_if_conn env t user conn m).0
          × ((remove_if_conn env t user conn m).1 ≡ farewell ps))
        ⊎ ((ps.conn ≢ conn) × (remove_if_conn env t user conn m ≡ (m, [])))
  unfolding remove_if_conn rebuild_via_index
  remove_if_conn-IsGone conn r ps online = elim (Bool-cases (nat_beq ps.conn conn)) [
    | inl own ↦ inl (
      ground (arith, own),
      unlinked-IsGone ps (remove_if_conn env t user conn m).0 (ground (arith, online, own, told))
          (ground (arith, online, own, told)),
      ground (arith, online, own, told),
    )
    | inr other ↦ inr (ground (arith, other), ground (arith, online, other))
  ]
    where
      gone : Manager S
      gone = rebuild_via_index t (unlink user ps m)

      told :
          ((record_disconnect env.now user ps.remote_addr gone).0.sessions ≡ gone.sessions)
          × ((record_disconnect env.now user ps.remote_addr gone).0.by_ip ≡ gone.by_ip)
          × ((record_disconnect env.now user ps.remote_addr gone).0.has_disconnect_handler
              ≡ gone.has_disconnect_handler)
          × ((record_disconnect env.now user ps.remote_addr gone).1 ≡ (
              if is_some gone.store
              then connection_event user (codes "disconnected") ps.remote_addr ∷ []
              else []))
      told = record_disconnect_tables env.now ps.remote_addr gone
