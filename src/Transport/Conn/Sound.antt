-- ===== src/Transport/Conn/Sound.antt =====
-- What holds of an accepted connection at all times: the queue is first in, first out and bounded,
-- and the connection ends once.
use hao_vpn.Prelude.{
  ℕ, suc, ◌≤◌, ◌≡◌, sym, subst, true, false, List, [], ◌∷◌, ◌++◌, append_assoc, Option, none, some,
  Option-cases, Bool-cases, length, length-append, arith, inl, inr, if◌then◌else◌,
}
use hao_vpn.Transport.Conn.Steps.{Reach, IsKept, Reach-Kept, close-closed}
use hao_vpn.Transport.Config.{Config}
use hao_vpn.Transport.Conn.{
  connected, closed, Event, queued, took, wrote, called_on_close, closed_tls, Conn, queue_size,
  accept_conn, logged, close, enqueue, note_send_queue_full, call,
}

-- The frames put into the queue and those taken out of it, in order, and how often the connection
-- was closed and its end reported.
unfoldable pub queued_of : List Event → List (List ℕ)
queued_of [] = []
queued_of (queued f ∷ log) = queued_of log ++ (f ∷ [])
queued_of (_ ∷ log) = queued_of log

unfoldable pub took_of : List Event → List (List ℕ)
took_of [] = []
took_of (took f ∷ log) = took_of log ++ (f ∷ [])
took_of (_ ∷ log) = took_of log

unfoldable pub closes : List Event → ℕ
closes [] = 0
closes (closed_tls ∷ log) = suc (closes log)
closes (_ ∷ log) = closes log

unfoldable pub reports : List Event → ℕ
reports [] = 0
reports (called_on_close fn ∷ log) = suc (reports log)
reports (_ ∷ log) = reports log

-- A frame is in the queue or was taken out of it, in order.
abbrev pub IsFifo : Conn → Type 0
IsFifo c = queued_of c.log ≡ took_of c.log ++ c.send_q

-- An open connection is connected and nothing was reported; a closed one was closed once.
abbrev pub EndsOnce : Conn → Type 0
EndsOnce c =
    (c.is_closed ≡ false → (c.state ≡ connected) × (closes c.log ≡ 0) × (reports c.log ≡ 0))
    × (c.is_closed ≡ true → (c.state ≡ closed) × (closes c.log ≡ 1) × (reports c.log ≤ 1))

abbrev pub IsSound : Conn → Type 0
IsSound c = IsFifo c × (length c.send_q ≤ queue_size c.cfg) × EndsOnce c

enqueue-IsSound : (f : List ℕ) (c d : Conn) → IsSound c → enqueue f c ≡ some d → IsSound d
unfolding enqueue queued_of took_of closes reports
enqueue-IsSound f c d h e =
    ground (arith, length-append c.send_q (f ∷ []), append_assoc (took_of c.log) c.send_q (f ∷ []))

pub close-IsSound : (c : Conn) → IsSound c → IsSound (close c)
unfolding close queued_of took_of closes reports
close-IsSound c h = elim (Bool-cases c.is_closed) [
  | inl e ↦ subst IsSound (sym (close-closed c e)) h
  | inr e ↦ elim (Option-cases c.on_close) [
    | inl f ↦ rw (e, f, close) (ground (arith, h, e))
    | inr (fn, f) ↦ rw (e, f, close) (ground (arith, h, e))
  ]
]

note-IsSound : (now : ℕ) (c : Conn) → IsSound c → IsSound (note_send_queue_full now c)
unfolding note_send_queue_full
note-IsSound now c h = h

logged-IsSound : (f : List ℕ) (c : Conn) → IsSound c → IsSound (logged (wrote f) c)
unfolding queued_of took_of closes reports
logged-IsSound f c h = h

call-IsSound :
    (fn : Option ℕ) (payload : List ℕ) (c : Conn) → IsSound c → IsSound (call fn payload c)
unfolding queued_of took_of closes reports
call-IsSound none payload c h = h
call-IsSound (some fn) payload c h = h

took-IsSound :
    (f : List ℕ) (q : List (List ℕ)) (c : Conn)
    → c.send_q ≡ f ∷ q
    → IsSound c
    → IsSound (logged (took f) (record c { send_q = q }))
unfolding queued_of took_of closes reports
took-IsSound f q c e h = ground (arith, h, e, append_assoc (took_of c.log) (f ∷ []) q)

IsSound-IsKept : IsKept IsSound
IsSound-IsKept = record {
  enqueued = enqueue-IsSound;
  taken = took-IsSound;
  wrote_out = logged-IsSound;
  called_back = call-IsSound;
  noted = note-IsSound;
  touched = λ now c h. h;
  decoded = λ bytes c h. h;
  hb_paused = λ p c h. h;
  data_set = λ fn c h. h;
  handshake_set = λ fn c h. h;
  close_set = λ fn c h. h;
  ended = close-IsSound;
}

pub Reach-IsSound :
    (now : ℕ) (cfg : Config) (on_data on_close : Option ℕ) (c : Conn)
    → Reach (accept_conn now cfg on_data on_close) c
    → IsSound c
unfolding accept_conn queued_of took_of closes reports
Reach-IsSound now cfg on_data on_close c r =
    Reach-Kept IsSound-IsKept (accept_conn now cfg on_data on_close) c r (ground arith)

-- At all times the frames put into the send queue of an accepted connection are those taken out of
-- it, in order, followed by the queue, which stays within its size; an open connection is
-- connected and has reported no end, and a closed one was closed once and has reported its end at
-- most once.
pub accept_conn-Reach :
    (now : ℕ) (cfg : Config) (on_data on_close : Option ℕ) (c : Conn)
    → Reach (accept_conn now cfg on_data on_close) c
    → (queued_of c.log ≡ took_of c.log ++ c.send_q)
      × (length c.send_q ≤ queue_size c.cfg)
      × (c.state ≡ (if c.is_closed then closed else connected))
      × (closes c.log ≡ (if c.is_closed then 1 else 0))
      × (reports c.log ≤ (if c.is_closed then 1 else 0))
accept_conn-Reach now cfg on_data on_close c r =
    let sound = Reach-IsSound now cfg on_data on_close c r in
    let fifo : (queued_of c.log ≡ took_of c.log ++ c.send_q)
        × (length c.send_q ≤ queue_size c.cfg) =
      (sound.0, sound.1) in
    ground (arith, fifo, sound.2)
