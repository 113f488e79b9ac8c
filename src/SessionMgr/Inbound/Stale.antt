-- ===== src/SessionMgr/Inbound/Stale.antt =====
-- Packets of a connection that is not, or no longer, the account's session.
use hao_vpn.Prelude.{ℕ, ◌≡◌, ◌≢◌, false, List, [], some, nat_eq, arith}
use hao_vpn.Prelude.Map.{get}
use hao_vpn.Net.{Text6}
use hao_vpn.SessionMgr.{AccountSession, Manager, Env, Cipher, session_of}
use hao_vpn.SessionMgr.Inbound.{deliver, handle_inbound}

module _ {S : Type 0} (env : Env) (c : Cipher S) (t : Text6) where
  -- A frame that arrives on a connection other than the one of the account's session changes
  -- nothing, the state of the key included, and has no effect and no error.
  pub handle_inbound_other_conn :
      (user conn : ℕ) (bytes : List ℕ) (m : Manager S) (r : ℕ) (ps : AccountSession S)
      → session_of m user ≡ some (r, ps)
      → ps.conn ≢ conn
      → handle_inbound env c t user conn bytes m ≡ (m, [], false)
  unfolding handle_inbound
  handle_inbound_other_conn user conn bytes m r ps online other = ground arith

  -- A packet that was decrypted for a session that has been replaced or removed meanwhile is
  -- dropped with no effect.
  pub deliver_replaced :
      (user conn r : ℕ) (packet : List ℕ) (m : Manager S)
      → get user m.sessions ≢ some r
      → deliver env c t user conn r packet m ≡ (m, [])
  unfolding deliver
  deliver_replaced user conn r packet m gone = ground arith
