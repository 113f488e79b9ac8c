-- ===== src/SessionMgr/Register/Takeover.antt =====
-- What a registration leaves: refused, nothing; accepted, one session, bound to the new connection.
use hao_vpn.Prelude.{
  ℕ, ◌≡◌, ◌≢◌, refl, sym, ◌∙◌, inl, inr, List, ◌++◌, some, nat_eq, text_eq, arith, Text, Result, ok,
  err, Option-cases,
}
use hao_vpn.Prelude.Map.{get, get-put, get-put_self}
use hao_vpn.Net.{IpNet, Text6}
use hao_vpn.SessionMgr.{AccountSession, Manager, Env, Effect, session_of, ViaRoute}
use hao_vpn.SessionMgr.Stats.{User}
use hao_vpn.SessionMgr.Register.{
  PeerReg, RegisterError, Detached, detach, attach, record_connect, register_vpn, new_session,
  drain_old_conn, finish_register, load_exit_lans, parse_via_routes, next_reconnect_count,
}
use hao_vpn.NetUtil.Rules.{parse_cidr_list_to_nets}
use hao_vpn.SessionMgr.ViaIndex.{rebuild_via_index}

module _ {S : Type 0} (t : Text6) where
  -- The new session is the account's, and it is found under its address.
  pub session_of-attach :
      (ps : AccountSession S) (m : Manager S)
      → session_of (attach t ps m) ps.user_id ≡ some (m.next_ref, ps)
  unfolding attach rebuild_via_index
  session_of-attach ps m =
      ground
        (arith, get-put_self ps.user_id m.next_ref m.sessions, get-put_self m.next_ref ps m.heap)

  pub get-attach :
      (ps : AccountSession S) (m : Manager S) (other : ℕ)
      → other ≢ ps.user_id
      → get other (attach t ps m).sessions ≡ get other m.sessions
  unfolding attach rebuild_via_index
  get-attach ps m other h = ground (arith, get-put ps.user_id other m.next_ref m.sessions)

  pub session_of-record_connect :
      (env : Env) (ps : AccountSession S) (count : ℕ) (m : Manager S) (user : ℕ)
      → session_of (record_connect env ps count m).0 user ≡ session_of m user
  unfolding record_connect
  session_of-record_connect env ps count m user = ground arith

  detach_error :
      (env : Env) (user : ℕ) (remote : Text) (m : Manager S) {e : RegisterError}
      → (detach env t user remote m).1 ≡ err e
      → (detach env t user remote m).0 ≡ m
  unfolding detach
  detach_error env user remote m h = ground arith

  module _ (env : Env) (user : User) (allowed : List Text) (conn : ℕ) (crypto : S) (remote : Text)
      (peer : PeerReg) (m : Manager S) where
    -- A registration that is refused, for whatever reason, leaves the manager as it was.
    pub register_vpn_refused :
        (e : RegisterError)
        → (register_vpn env t user allowed conn crypto remote peer m).1 ≡ err e
        → (register_vpn env t user allowed conn crypto remote peer m).0 ≡ m
    unfolding register_vpn
    register_vpn_refused e h = ground (arith, detach_error env user.id remote m)

    -- The parts of an accepted registration.
    pub record Parts (m' : Manager S) (es : List Effect) : Type 0 where
      pub found : Detached
      pub session : AccountSession S
      pub between : Manager S
      pub count : ℕ
      pub took_out : detach env t user.id remote m ≡ (between, ok found)
      pub owner : session.user_id ≡ user.id
      pub bound : session.conn ≡ conn
      pub keyed : session.crypto ≡ some crypto
      pub rx : session.rx_bytes ≡ found.inherit_rx
      pub tx : session.tx_bytes ≡ found.inherit_tx
      pub result : m' ≡ (record_connect env session count (attach t session between)).0
      pub effects :
          es
          ≡ drain_old_conn found.old_conn
            ++ (record_connect env session count (attach t session between)).1

    finish-Parts :
        (make : Detached → AccountSession S)
        → ((d : Detached) → (make d).user_id ≡ user.id)
        → ((d : Detached) → (make d).conn ≡ conn)
        → ((d : Detached) → (make d).crypto ≡ some crypto)
        → ((d : Detached) → (make d).rx_bytes ≡ d.inherit_rx)
        → ((d : Detached) → (make d).tx_bytes ≡ d.inherit_tx)
        → (count : ℕ) (r : Manager S × Result RegisterError Detached)
        → r ≡ detach env t user.id remote m
        → (m' : Manager S) (es : List Effect) → finish_register env t make count r ≡ (m', ok es)
        → Parts m' es
    unfolding finish_register
    finish-Parts make u b k x y count (m₁, err e) same m' es h = absurd (ground arith)
    finish-Parts make u b k x y count (m₁, ok d) same m' es h = record {
      found = d;
      session = make d;
      between = m₁;
      count = count;
      took_out = sym same;
      owner = u d;
      bound = b d;
      keyed = k d;
      rx = x d;
      tx = y d;
      result = ground arith;
      effects = ground arith;
    }

    pub register_vpn-Parts :
        (m' : Manager S) (es : List Effect)
        → register_vpn env t user allowed conn crypto remote peer m ≡ (m', ok es)
        → Parts m' es
    register_vpn-Parts m' es h = elim (Option-cases (parse_cidr_list_to_nets t allowed)) [
      | inl e ↦ absurd (unfold register_vpn in ground (arith, e))
      | inr (nets, e) ↦ elim (Option-cases (parse_via_routes t peer.via_routes)) [
        | inl e' ↦ absurd (unfold register_vpn in ground (arith, e, e'))
        | inr (routes, e') ↦
            finish-Parts
              (new_session env user nets routes peer (load_exit_lans t user.id m) conn crypto
                remote)
              (λ d. refl) (λ d. refl) (λ d. refl) (λ d. refl) (λ d. refl)
              (next_reconnect_count user.id m) (detach env t user.id remote m) refl m' es
              (sym (started nets routes e e') ∙ h)
      ]
    ]
      where
        started :
            (nets : List IpNet) (routes : List ViaRoute)
            → parse_cidr_list_to_nets t allowed ≡ some nets
            → parse_via_routes t peer.via_routes ≡ some routes
            → register_vpn env t user allowed conn crypto remote peer m
              ≡ finish_register env t
                  (new_session env user nets routes peer
                    (load_exit_lans t user.id m)
                    conn
                    crypto
                    remote)
                  (next_reconnect_count user.id m)
                  (detach env t user.id remote m)
        started nets routes e e' =
            unfold register_vpn in rw (e, register_vpn) (rw (e', register_vpn))
