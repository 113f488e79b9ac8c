-- ===== src/Transport/Conn/Steps.antt =====
-- The steps of a connection, in any order, and what they keep.
use hao_vpn.Prelude.{
  ℕ, ◌≡◌, refl, sym, subst, Bool, true, false, List, [], ◌∷◌, Option, none, some, Option-cases,
  Bool-cases, Result-cases, arith, inl, inr, ◌⊎◌, nat_beq,
}
use hao_vpn.Transport.Frame.{Frame, encode_frame, feed}
use hao_vpn.Transport.Conn.{
  took, wrote, Conn, logged, touch_hb, set_heartbeat_timeout_paused, set_on_data, set_on_handshake,
  set_on_close, close, enqueue, note_send_queue_full, send_raw, send, probe_mtu, send_raw_sync,
  dispatch, dispatch_all, read_round, write_round, is_silent, heartbeat_round, is_connected, call,
  beat,
}

pub data Step (c : Conn) : Conn → Type 0 where
  sent : (now : ℕ) (payload : List ℕ) → Step c (send now payload c).0
  sent_raw : (now typ : ℕ) (payload : List ℕ) → Step c (send_raw now typ payload c).0
  sent_sync :
      (is_written : Bool) (typ : ℕ) (payload : List ℕ)
      → Step c (send_raw_sync is_written typ payload c).0
  read : (now : ℕ) (bytes : Option (List ℕ)) → Step c (read_round now bytes c)
  written : (is_written : Bool) → Step c (write_round is_written c)
  beaten : (now : ℕ) → Step c (heartbeat_round now c)
  paused : (now : ℕ) (p : Bool) → Step c (set_heartbeat_timeout_paused now p c)
  ended : Step c (close c)
  data_set : (fn : Option ℕ) → Step c (set_on_data fn c)
  handshake_set : (fn : Option ℕ) → Step c (set_on_handshake fn c)
  close_set : (fn : Option ℕ) → Step c (set_on_close fn c)

pub data Reach (start : Conn) : Conn → Type 0 where
  here : Reach start start
  later : {c d : Conn} → Reach start c → Step c d → Reach start d

-- A property of connections that the parts of the steps keep.
pub record IsKept (P : Conn → Type 0) : Type 0 where
  pub enqueued : (f : List ℕ) (c d : Conn) → P c → enqueue f c ≡ some d → P d
  pub taken :
      (f : List ℕ) (q : List (List ℕ)) (c : Conn)
      → c.send_q ≡ f ∷ q
      → P c
      → P (logged (took f) (record c { send_q = q }))
  pub wrote_out : (f : List ℕ) (c : Conn) → P c → P (logged (wrote f) c)
  pub called_back : (fn : Option ℕ) (payload : List ℕ) (c : Conn) → P c → P (call fn payload c)
  pub noted : (now : ℕ) (c : Conn) → P c → P (note_send_queue_full now c)
  pub touched : (now : ℕ) (c : Conn) → P c → P (touch_hb now c)
  pub decoded : (bytes : List ℕ) (c : Conn) → P c → P (record c { decoder = bytes })
  pub hb_paused : (p : Bool) (c : Conn) → P c → P (record c { hb_pause = p })
  pub data_set : (fn : Option ℕ) (c : Conn) → P c → P (set_on_data fn c)
  pub handshake_set : (fn : Option ℕ) (c : Conn) → P c → P (set_on_handshake fn c)
  pub close_set : (fn : Option ℕ) (c : Conn) → P c → P (set_on_close fn c)
  pub ended : (c : Conn) → P c → P (close c)

List-cases : {A : Type 0} (xs : List A) → (xs ≡ []) ⊎ ((x : A) × (ys : List A) × (xs ≡ x ∷ ys))
List-cases [] = inl refl
List-cases (x ∷ xs) = inr (x, xs, refl)

-- Closing twice is closing once.
pub close-closed : (c : Conn) → c.is_closed ≡ true → close c ≡ c
unfolding close
close-closed c e = simp (e, close) refl

read_round-closed :
    (now : ℕ) (bytes : List ℕ) (c : Conn) → c.is_closed ≡ true → read_round now (some bytes) c ≡ c
unfolding read_round
read_round-closed now bytes c e = simp (e, read_round) refl

-- A frame is passed over, or it is a sign of life that at most one callback gets.
dispatch-cases :
    (now : ℕ) (f : Frame) (c : Conn)
    → (dispatch now f c ≡ c)
      ⊎ ((fn : Option ℕ) × (dispatch now f c ≡ call fn f.payload (touch_hb now c)))
unfolding dispatch
dispatch-cases now f c = elim (Bool-cases (nat_beq f.typ 2)) [
  | inl e ↦ inr (none, rw (e, dispatch) refl)
  | inr e2 ↦ elim (Bool-cases (nat_beq f.typ 3)) [
    | inl e ↦ inr (none, rw (e2, e, dispatch) refl)
    | inr e3 ↦ elim (Bool-cases (nat_beq f.typ 1)) [
      | inl e ↦ inr (c.on_data, rw (e2, e3, e, dispatch) refl)
      | inr e1 ↦ elim (Bool-cases (nat_beq f.typ 4)) [
        | inr e ↦ inl (rw (e2, e3, e1, e, dispatch) refl)
        | inl e ↦ elim (Option-cases c.on_handshake) [
          | inl h ↦ inr (c.on_data, ground (arith, e2, e3, e1, e, h))
          | inr (fn, h) ↦ inr (some fn, ground (arith, e2, e3, e1, e, h))
        ]
      ]
    ]
  ]
]

-- The connection ends at a tick only if it is not paused and the peer was silent too long.
pub heartbeat_round-cases :
    (now : ℕ) (c : Conn)
    → (heartbeat_round now c ≡ beat c)
      ⊎ (((c.hb_pause ≡ false) × (is_silent now c ≡ true))
          × (heartbeat_round now c ≡ close (beat c)))
unfolding heartbeat_round
heartbeat_round-cases now c = elim (Bool-cases c.hb_pause) [
  | inl e ↦ inl (ground (arith, e))
  | inr e ↦ elim (Bool-cases (is_silent now c)) [
    | inl s ↦ inr ((e, s), ground (arith, e, s))
    | inr s ↦ inl (ground (arith, e, s))
  ]
]

-- The steps keep it.
module _ {P : Conn → Type 0} (k : IsKept P) where
  send_raw-Kept :
      (now typ : ℕ) (payload : List ℕ) (c : Conn) → P c → P (send_raw now typ payload c).0
  unfolding send_raw
  send_raw-Kept now typ payload c h = elim (Result-cases (encode_frame typ payload)) [
    | inr (e, r) ↦ rw (r, send_raw) h
    | inl (frame, r) ↦ elim (Option-cases (enqueue frame c)) [
      | inl q ↦ rw (r, q, send_raw) (k.noted now c h)
      | inr (d, q) ↦ rw (r, q, send_raw) (k.enqueued frame c d h q)
    ]
  ]

  send-Kept : (now : ℕ) (payload : List ℕ) (c : Conn) → P c → P (send now payload c).0
  unfolding send
  send-Kept now payload c h = elim (Bool-cases (is_connected c.state)) [
    | inl e ↦ rw (e, send) (send_raw-Kept now 1 payload c h)
    | inr e ↦ rw (e, send) h
  ]

  send_raw_sync-Kept :
      (is_written : Bool) (typ : ℕ) (payload : List ℕ) (c : Conn)
      → P c
      → P (send_raw_sync is_written typ payload c).0
  unfolding send_raw_sync
  send_raw_sync-Kept is_written typ payload c h = elim (Result-cases (encode_frame typ payload)) [
    | inr (e, r) ↦ rw (r, send_raw_sync) h
    | inl (frame, r) ↦ elim (Bool-cases is_written) [
      | inl w ↦ rw (r, w, send_raw_sync) (k.wrote_out frame c h)
      | inr w ↦ rw (r, w, send_raw_sync) h
    ]
  ]

  dispatch-Kept : (now : ℕ) (f : Frame) (c : Conn) → P c → P (dispatch now f c)
  dispatch-Kept now f c h = elim (dispatch-cases now f c) [
    | inl e ↦ rw e h
    | inr (fn, e) ↦ rw e (k.called_back fn f.payload (touch_hb now c) (k.touched now c h))
  ]

  dispatch_all-Kept : (now : ℕ) (fs : List Frame) (c : Conn) → P c → P (dispatch_all now fs c)
  unfolding dispatch_all
  dispatch_all-Kept now [] c h = h
  dispatch_all-Kept now (f ∷ fs) c h =
      dispatch_all-Kept now fs (dispatch now f c) (dispatch-Kept now f c h)

  read_round-Kept :
      (now : ℕ) (bytes : Option (List ℕ)) (c : Conn) → P c → P (read_round now bytes c)
  unfolding read_round
  read_round-Kept now none c h = k.ended c h
  read_round-Kept now (some bytes) c h =
      let fed = feed c.decoder bytes in
      let c' = record c { decoder = fed.rest } in
      elim (Bool-cases c.is_closed) [
        | inl e ↦ subst P (sym (read_round-closed now bytes c e)) h
        | inr e ↦ elim (Result-cases fed.frames) [
          | inr (x, r) ↦ rw (e, r, read_round) (k.ended c' (k.decoded fed.rest c h))
          | inl (fs, r) ↦
              rw (e, r, read_round) (dispatch_all-Kept now fs c' (k.decoded fed.rest c h))
        ]
      ]

  write_round-Kept : (is_written : Bool) (c : Conn) → P c → P (write_round is_written c)
  unfolding write_round
  write_round-Kept is_written c h = elim (List-cases c.send_q) [
    | inl e ↦ rw (e, write_round) h
    | inr (f, q, e) ↦
        let c' = logged (took f) (record c { send_q = q }) in
        let sound = k.taken f q c e h in
        elim (Bool-cases is_written) [
          | inl w ↦ rw (e, w, write_round) (k.wrote_out f c' sound)
          | inr w ↦ rw (e, w, write_round) (k.ended c' sound)
        ]
  ]

  beat-Kept : (c : Conn) → P c → P (beat c)
  unfolding beat
  beat-Kept c h = elim (Result-cases (encode_frame 2 [])) [
    | inr (e, r) ↦ rw (r, beat) h
    | inl (frame, r) ↦ elim (Option-cases (enqueue frame c)) [
      | inl q ↦ rw (r, q, beat) h
      | inr (d, q) ↦ rw (r, q, beat) (k.enqueued frame c d h q)
    ]
  ]

  heartbeat_round-Kept : (now : ℕ) (c : Conn) → P c → P (heartbeat_round now c)
  heartbeat_round-Kept now c h =
      let sound : P (beat c) = beat-Kept c h in
      elim (heartbeat_round-cases now c) [
        | inl e ↦ subst P (sym e) sound
        | inr (late, e) ↦ subst P (sym e) (k.ended (beat c) sound)
      ]

  step-Kept : (c d : Conn) → Step c d → P c → P d
  unfolding probe_mtu set_heartbeat_timeout_paused
  step-Kept c _ (Step.sent now payload) h = send-Kept now payload c h
  step-Kept c _ (Step.sent_raw now typ payload) h = send_raw-Kept now typ payload c h
  step-Kept c _ (Step.sent_sync w typ payload) h = send_raw_sync-Kept w typ payload c h
  step-Kept c _ (Step.read now bytes) h = read_round-Kept now bytes c h
  step-Kept c _ (Step.written w) h = write_round-Kept w c h
  step-Kept c _ (Step.beaten now) h = heartbeat_round-Kept now c h
  step-Kept c _ (Step.paused now true) h = k.hb_paused true c h
  step-Kept c _ (Step.paused now false) h =
      k.touched now (record c { hb_pause = false }) (k.hb_paused false c h)
  step-Kept c _ Step.ended h = k.ended c h
  step-Kept c _ (Step.data_set fn) h = k.data_set fn c h
  step-Kept c _ (Step.handshake_set fn) h = k.handshake_set fn c h
  step-Kept c _ (Step.close_set fn) h = k.close_set fn c h

  pub Reach-Kept : (c d : Conn) → Reach c d → P c → P d
  Reach-Kept c _ Reach.here h = h
  Reach-Kept c d (Reach.later {c = m} r s) h = step-Kept m d s (Reach-Kept c m r h)
