-- ===== src/SessionMgr/Register/Handover.antt =====
-- An accepted registration hands the account over from the old connection to the new one.
use hao_vpn.Prelude.{
  ℕ, ◌≡◌, ◌≢◌, sym, ◌∙◌, ◌⊎◌, true, false, List, [], ◌∷◌, none, some, nat_eq, text_eq, arith, Text,
  ok, subst, ◌<◌, text_beq_iff,
}
use hao_vpn.Net.{Text6}
use hao_vpn.SessionMgr.{
  AccountSession, Manager, Env, Effect, Cipher, session_of, close, clear_on_data, reject_second,
}
use hao_vpn.SessionMgr.Stats.{User}
use hao_vpn.SessionMgr.Grace.{same_remote_host, peer_activity_stale, reconnect_stale_after}
use hao_vpn.SessionMgr.Register.{
  PeerReg, Detached, detach, attach, record_connect, register_vpn, effective_policy,
}
use hao_vpn.SessionMgr.Register.Takeover.{
  Parts, register_vpn-Parts, session_of-attach, session_of-record_connect,
}
use hao_vpn.SessionMgr.Kick.{remove_if_conn}
use hao_vpn.SessionMgr.Inbound.{handle_inbound}
use hao_vpn.SessionMgr.Inbound.Stale.{handle_inbound_other_conn}

module _ {S : Type 0} (t : Text6) where
  -- Why the old session of an online account was taken out, and what the new one inherits: under
  -- reject_second in the grace window its counters, under any other policy nothing.
  abbrev pub Taken : Env → Text → Manager S → AccountSession S → Detached → Type 0
  Taken env remote m old d =
      ((effective_policy m ≡ reject_second)
        × (0 < m.reconnect_grace)
        × ((same_remote_host t old.remote_addr remote ≡ true)
            ⊎ (peer_activity_stale env old.conn (reconnect_stale_after m.reconnect_grace) ≡ true))
        × (d ≡ record {
          old_conn = some old.conn;
          inherit_rx = old.rx_bytes;
          inherit_tx = old.tx_bytes;
        }))
      ⊎ ((effective_policy m ≢ reject_second)
          × (d ≡ record { old_conn = some old.conn; inherit_rx = 0; inherit_tx = 0 }))

  detach-Taken :
      (env : Env) (user : ℕ) (remote : Text) (m between : Manager S) (r : ℕ)
      (old : AccountSession S) (d : Detached)
      → session_of m user ≡ some (r, old)
      → detach env t user remote m ≡ (between, ok d)
      → Taken env remote m old d
  unfolding detach
  detach-Taken env user remote m between r old d online h =
      ground (arith, text_beq_iff (effective_policy m) reject_second)

  detach_offline :
      (env : Env) (user : ℕ) (remote : Text) (m between : Manager S) (d : Detached)
      → session_of m user ≡ none
      → detach env t user remote m ≡ (between, ok d)
      → d ≡ record { old_conn = none; inherit_rx = 0; inherit_tx = 0 }
  unfolding detach
  detach_offline env user remote m between d offline h = ground arith

  module _ (env : Env) (user : User) (allowed : List Text) (conn : ℕ) (crypto : S) (remote : Text)
      (peer : PeerReg) (m m' : Manager S) (es : List Effect)
      (accepted : register_vpn env t user allowed conn crypto remote peer m ≡ (m', ok es)) where
    parts : Parts t env user allowed conn crypto remote peer m m' es
    parts = register_vpn-Parts t env user allowed conn crypto remote peer m m' es accepted

    online : session_of m' user.id ≡ some (parts.between.next_ref, parts.session)
    online =
        subst (λ (u : ℕ). session_of m' u ≡ some (parts.between.next_ref, parts.session))
          parts.owner at_owner
      where
        at_owner :
            session_of m' parts.session.user_id ≡ some (parts.between.next_ref, parts.session)
        at_owner = rw parts.result (
            session_of-record_connect t env parts.session parts.count
              (attach t parts.session parts.between) parts.session.user_id
            ∙ session_of-attach t parts.session parts.between)

    -- After an accepted registration the account is online on the new connection with the new key.
    pub register_vpn-session_of :
        (r : ℕ) × (ps : AccountSession S) × (session_of m' user.id ≡ some (r, ps))
        × (ps.conn ≡ conn)
        × (ps.crypto ≡ some crypto)
    register_vpn-session_of =
        (parts.between.next_ref, parts.session, online, parts.bound, parts.keyed)

    -- An accepted registration of an account that was online first clears the data callback of the
    -- old connection and closes it, before any other effect; the new session takes over the byte
    -- counts exactly when the policy is reject_second and the grace window let it in, and
    -- otherwise starts at zero.
    pub register_vpn_takeover :
        (r : ℕ) (old : AccountSession S)
        → session_of m user.id ≡ some (r, old)
        → (r' : ℕ) × (ps : AccountSession S) × (rest : List Effect) × (session_of m' user.id
            ≡ some (r', ps))
          × (es ≡ clear_on_data old.conn ∷ close old.conn ∷ rest)
          × Taken env remote m old (record {
            old_conn = some old.conn;
            inherit_rx = ps.rx_bytes;
            inherit_tx = ps.tx_bytes;
          })
    register_vpn_takeover r old was =
        let taken =
          detach-Taken env user.id remote m parts.between r old parts.found was parts.took_out in
        let from_old : parts.found.old_conn ≡ some old.conn = ground (arith, taken) in
        let same : parts.found ≡ record {
          old_conn = some old.conn;
          inherit_rx = parts.session.rx_bytes;
          inherit_tx = parts.session.tx_bytes;
        } =
          ground (arith, from_old, parts.rx, parts.tx) in
        (
          parts.between.next_ref,
          parts.session,
          (record_connect env parts.session parts.count (attach t parts.session parts.between)).1,
          online,
          ground (arith, parts.effects, from_old),
          subst (Taken env remote m old) same taken,
        )

    -- After an accepted registration, a frame for the account from any other connection changes
    -- nothing, the state of the key included, and has no effect and no error.
    pub register_vpn-handle_inbound :
        (env' : Env) (c : Cipher S) (late : ℕ) (bytes : List ℕ)
        → conn ≢ late
        → handle_inbound env' c t user.id late bytes m' ≡ (m', [], false)
    register_vpn-handle_inbound env' c late bytes other =
        handle_inbound_other_conn env' c t user.id late bytes m' parts.between.next_ref
          parts.session online (λ e. other (sym parts.bound ∙ e))

    -- After an accepted registration, the end of any other connection leaves the account's new
    -- session in place.
    pub register_vpn-remove_if_conn :
        (env' : Env) (late : ℕ) → conn ≢ late → remove_if_conn env' t user.id late m' ≡ (m', [])
    unfolding remove_if_conn
    register_vpn-remove_if_conn env' late other = ground (arith, online, parts.bound)
