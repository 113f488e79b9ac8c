-- ===== src/SessionMgr/Route/Target.antt =====
-- Where RouteOutbound sends a packet, and what it leaves of one that it cannot send.
use hao_vpn.Prelude.{
  ℕ, ◌+◌, ◌≤◌, ◌≡◌, refl, ◌⊎◌, inl, inr, Bool, true, false, List, [], ◌∷◌, none, some, nat_eq,
  text_eq, arith, if◌then◌else◌, length, Exists, Bool-cases, Option-cases, any, ltb,
}
use hao_vpn.Prelude.Map.{get, get-put_self}
use hao_vpn.Net.{Ip, Text6, contains}
use hao_vpn.Net.Print.{ip_string}
use hao_vpn.SessionMgr.{
  AccountSession, Manager, Env, Effect, Cipher, ViaRoute, deref, sent, observe, dir_out,
  store_session,
}
use hao_vpn.SessionMgr.ViaIndex.{first_via}
use hao_vpn.SessionMgr.Inbound.Isolation.{is_delivery}
use hao_vpn.SessionMgr.Route.{is_current, send_to_account, outbound_target, route_outbound, dst_of}

module _ {S : Type 0} where
  -- A session that got the packet: it is its account's current one, its connection took one sealed
  -- frame, and its byte count grew by the packet's length.
  pub record Got (env : Env) (c : Cipher S) (packet : List ℕ) (m m' : Manager S) (es : List Effect)
      (r : ℕ) : Type 0 where
    pub session : AccountSession S
    pub key : S
    pub frame : List ℕ
    pub was : deref m r ≡ some session
    pub current : get session.user_id m.sessions ≡ some r
    pub keyed : session.crypto ≡ some key
    pub sealed : (c.encrypt key packet).0 ≡ some frame
    pub now :
        deref m' r
        ≡ some (record session {
          crypto = some (c.encrypt key packet).1;
          tx_bytes = session.tx_bytes + length packet;
        })
    pub rest : List Effect
    pub effects : es ≡ sent session.conn frame ∷ rest
    pub quiet : any is_delivery rest ≡ false

  module _ (env : Env) (c : Cipher S) (r : ℕ) (packet : List ℕ) (m : Manager S) where
    send_to_account_lem :
        (ps : AccountSession S) (key : S) (enc : List ℕ)
        → deref m r ≡ some ps
        → ps.crypto ≡ some key
        → is_current m ps.user_id r ≡ true
        → (c.encrypt key packet).0 ≡ some enc
        → env.send_ok ps.conn ≡ true
        → send_to_account env c r packet m ≡ (
          store_session r
              (record ps {
                crypto = some (c.encrypt key packet).1;
                tx_bytes = ps.tx_bytes + length packet;
              })
              m,
          sent ps.conn enc ∷ (if m.has_flows then observe ps.user_id packet dir_out ∷ [] else []),
          true,
        )
    unfolding send_to_account
    send_to_account_lem ps key enc e k cur s ok_ = ground (arith, e, k, cur, s, ok_)

    abbrev Outcome : Manager S × List Effect × Bool → Type 0
    Outcome (m', es, done) =
        ((done ≡ true) × Got env c packet m m' es r) ⊎ ((done ≡ false) × (es ≡ []))

    -- send_to_account reports true exactly when the session got the packet; otherwise nothing
    -- goes out.
    pub send_to_account-Got : Outcome (send_to_account env c r packet m)
    send_to_account-Got = elim (Option-cases (deref m r)) [
      | inl e ↦ inr (unfold send_to_account in ground (arith, e))
      | inr (ps, e) ↦ elim (Option-cases ps.crypto) [
        | inl k ↦ inr (unfold send_to_account in ground (arith, e, k))
        | inr (key, k) ↦ elim (Bool-cases (is_current m ps.user_id r)) [
          | inr cur ↦ inr (unfold send_to_account in ground (arith, e, k, cur))
          | inl cur ↦ elim (Option-cases (c.encrypt key packet).0) [
            | inl s ↦ inr (unfold send_to_account in ground (arith, e, k, cur, s))
            | inr (enc, s) ↦ elim (Bool-cases (env.send_ok ps.conn)) [
              | inr full ↦ inr (unfold send_to_account in ground (arith, e, k, cur, s, full))
              | inl took ↦ rw (send_to_account_lem ps key enc e k cur s took) (
                  inl (
                    refl,
                    record {
                      session = ps;
                      key = key;
                      frame = enc;
                      was = e;
                      current = ground (arith, cur);
                      keyed = k;
                      sealed = s;
                      now = get-put_self r _ m.heap;
                      rest = if m.has_flows then observe ps.user_id packet dir_out ∷ [] else [];
                      effects = refl;
                      quiet = ground arith;
                    },
                  ))
            ]
          ]
        ]
      ]
    ]

  -- A route of the list that covers the destination and whose via account is online there.
  abbrev pub ViaOf : Manager S → List ViaRoute → Ip → ℕ → Type 0
  ViaOf m es dst r =
      Exists (λ e. (contains e.net dst ≡ true) × (get e.via_user_id m.sessions ≡ some r)) es

  first_via_sound :
      (m : Manager S) (es : List ViaRoute) (dst : Ip) (r : ℕ)
      → first_via m es dst ≡ some r
      → ViaOf m es dst r
  unfolding first_via
  first_via_sound m [] dst r h = cc
  first_via_sound m (e ∷ es) dst r h = elim (Bool-cases (contains e.net dst)) [
    | inr out ↦ inr (first_via_sound m es dst r (ground (arith, out)))
    | inl covers ↦ elim (Option-cases (get e.via_user_id m.sessions)) [
      | inl off ↦ inr (first_via_sound m es dst r (ground (arith, covers, off)))
      | inr (r', on) ↦ inl (covers, ground (arith, covers, on))
    ]
  ]

  -- Why RouteOutbound picks a session: it holds the destination as its VPN address, or nobody does
  -- and a managed route to the destination leads to it.
  abbrev pub IsPicked : Text6 → List ℕ → Manager S → ℕ → Type 0
  IsPicked t packet m r =
      (get (ip_string t (dst_of packet)) m.by_ip ≡ some r)
      ⊎ ((get (ip_string t (dst_of packet)) m.by_ip ≡ none) × ViaOf m m.via_index (dst_of packet) r)

  outbound_target-IsPicked :
      (t : Text6) (packet : List ℕ) (m : Manager S) (r : ℕ)
      → outbound_target t packet m ≡ some r
      → IsPicked t packet m r
  unfolding outbound_target
  outbound_target-IsPicked t packet m r h =
      elim (Option-cases (get (ip_string t (dst_of packet)) m.by_ip)) [
        | inr (r', e) ↦ inl (ground (arith, e))
        | inl e ↦ inr (e, first_via_sound m m.via_index (dst_of packet) r (ground (arith, e)))
      ]

  -- A packet from the TUN device either goes out as one sealed frame on the connection of the
  -- current session that holds its destination as VPN address, or, if no session does, of an
  -- online via whose managed route covers it, and that session's byte count grows by its length;
  -- or it has no effect outside and false is returned.
  pub route_outbound-Got :
      (env : Env) (c : Cipher S) (t : Text6) (packet : List ℕ) (m : Manager S)
      → let (m', es, done) = route_outbound env c t packet m in
        ((done ≡ true)
          × (20 ≤ length packet)
          × ((r : ℕ) × IsPicked t packet m r × Got env c packet m m' es r))
        ⊎ ((done ≡ false) × (es ≡ []))
  route_outbound-Got env c t packet m = elim (Bool-cases (ltb (length packet) 20)) [
    | inl short ↦ inr (unfold route_outbound in ground (arith, short))
    | inr long ↦ elim (Option-cases (outbound_target t packet m)) [
      | inl e ↦ inr (routed_none long e)
      | inr (r, e) ↦ rw (routed r long e) (
          with_pick r long (outbound_target-IsPicked t packet m r e)
            (send_to_account-Got env c r packet m))
    ]
  ]
    where
      routed :
          (r : ℕ)
          → ltb (length packet) 20 ≡ false
          → outbound_target t packet m ≡ some r
          → route_outbound env c t packet m ≡ send_to_account env c r packet m
      routed r long e = unfold route_outbound in ground (arith, long, e)

      routed_none :
          ltb (length packet) 20 ≡ false
          → outbound_target t packet m ≡ none
          → ((route_outbound env c t packet m).2 ≡ false)
            × ((route_outbound env c t packet m).1 ≡ [])
      routed_none long e = unfold route_outbound in ground (arith, long, e)

      with_pick :
          (r : ℕ)
          → ltb (length packet) 20 ≡ false
          → IsPicked t packet m r
          → Outcome env c r packet m (send_to_account env c r packet m)
          → let (m', es, done) = send_to_account env c r packet m in
            ((done ≡ true)
              × (20 ≤ length packet)
              × ((r : ℕ) × IsPicked t packet m r × Got env c packet m m' es r))
            ⊎ ((done ≡ false) × (es ≡ []))
      with_pick r long p (inl (done, got)) = inl (done, ground arith, (r, p, got))
      with_pick r long p (inr none_) = inr none_
