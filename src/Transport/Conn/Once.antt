-- ===== src/Transport/Conn/Once.antt =====
-- After Close: nothing is sent any more and the end is not reported again.
use hao_vpn.Prelude.{ℕ, ◌≡◌, sym, subst, refl, true, List, Option, none, some, err, arith}
use hao_vpn.Transport.Config.{Config}
use hao_vpn.Transport.Conn.{
  closed, Conn, accept_conn, close, enqueue, note_send_queue_full, send, not_connected, call,
}
use hao_vpn.Transport.Conn.Steps.{Reach, IsKept, Reach-Kept, close-closed}
use hao_vpn.Transport.Conn.Sound.{close-IsSound, Reach-IsSound, reports}

-- Closed, and reported so often.
abbrev IsOver : ℕ → Conn → Type 0
IsOver n c = (c.is_closed ≡ true) × (c.state ≡ closed) × (reports c.log ≡ n)

called-IsOver :
    (n : ℕ) (fn : Option ℕ) (payload : List ℕ) (c : Conn)
    → IsOver n c
    → IsOver n (call fn payload c)
unfolding reports
called-IsOver n none payload c h = h
called-IsOver n (some x) payload c h = h

IsOver-IsKept : (n : ℕ) → IsKept (IsOver n)
unfolding enqueue reports note_send_queue_full
IsOver-IsKept n = record {
  enqueued = λ f c d h e. ground (arith, h, e);
  taken = λ f q c e h. h;
  wrote_out = λ f c h. h;
  called_back = λ fn payload c h. called-IsOver n fn payload c h;
  noted = λ now c h. h;
  touched = λ now c h. h;
  decoded = λ bytes c h. h;
  hb_paused = λ p c h. h;
  data_set = λ fn c h. h;
  handshake_set = λ fn c h. h;
  close_set = λ fn c h. h;
  ended = λ c h. subst (IsOver n) (sym (close-closed c h.0)) h;
}

is_closed-close : (c : Conn) → (close c).is_closed ≡ true
unfolding close
is_closed-close c = ground arith

-- After Close of an accepted connection, every Send is refused and changes nothing, and the end is
-- not reported again, whatever steps lie between.
pub send-after_close :
    (now t : ℕ) (payload : List ℕ) (cfg : Config) (on_data on_close : Option ℕ) (c d : Conn)
    → Reach (accept_conn now cfg on_data on_close) c
    → Reach (close c) d
    → (send t payload d ≡ (d, err not_connected)) × (reports d.log ≡ reports (close c).log)
unfolding send
send-after_close now t payload cfg on_data on_close c d r r' =
    let sound = close-IsSound c (Reach-IsSound now cfg on_data on_close c r) in
    let shut = is_closed-close c in
    let over =
      Reach-Kept (IsOver-IsKept (reports (close c).log)) (close c) d r'
        (shut, (sound.2.1 shut).0, refl) in
    (ground (arith, over.1), over.2)
