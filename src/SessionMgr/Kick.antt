-- ===== src/SessionMgr/Kick.antt =====
-- kick.go and RemoveIfConn of register.go: how a session ends.
pub mod Ends
use hao_vpn.Prelude.{
  ℕ, Bool, true, false, not, List, [], ◌∷◌, Option, none, some, nat_beq, if◌then◌else◌,
}
use hao_vpn.Net.{Text6}
use hao_vpn.SessionMgr.{
  AccountSession, Manager, Step, Effect, Env, close, on_disconnect, on_kick, session_of, unlink,
  and_then,
}
use hao_vpn.SessionMgr.Stats.{record_disconnect}
use hao_vpn.SessionMgr.ViaIndex.{rebuild_via_index}

module _ {S : Type 0} where
  -- recordDisconnect and the callback, after the session is out of the tables.
  abbrev after_end : Env → ℕ → AccountSession S → Manager S → Step S
  after_end env user ps m = and_then (record_disconnect env.now user ps.remote_addr m) (λ m'.
      (m', if m'.has_disconnect_handler then on_disconnect user ps.vpn_ip ps.ip_mode ∷ [] else []))

  unfoldable pub kick_user : Env → Text6 → ℕ → Manager S → Step S
  unfolding record_disconnect
  kick_user env t user m =
      and_then
        (elim (session_of m user) [
          | none ↦ (m, [])
          | some (r, ps) ↦
              and_then (rebuild_via_index t (unlink user ps m), close ps.conn ∷ [])
                (after_end env user ps)
        ])
        (λ m'. (m', if m.has_kick_handler then on_kick user ∷ [] else []))

  unfoldable pub remove_if_conn : Env → Text6 → ℕ → ℕ → Manager S → Step S
  unfolding record_disconnect
  remove_if_conn env t user conn m = elim (session_of m user) [
    | none ↦ (m, [])
    | some (r, ps) ↦
        if not (nat_beq ps.conn conn)
        then (m, [])
        else after_end env user ps (rebuild_via_index t (unlink user ps m))
  ]
