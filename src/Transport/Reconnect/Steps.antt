-- ===== src/Transport/Reconnect/Steps.antt =====
-- The steps of the reconnecting client, in any order.
use hao_vpn.Prelude.{ℕ, Bool}
use hao_vpn.Transport.Reconnect.{
  Client, DialResult, start, close_conn, stop_signal, stop_close, loop_step,
}

pub data Step (r : Client) : Client → Type 0 where
  started : Step r (start r)
  looped : (dial : DialResult) (takes_stop : Bool) → Step r (loop_step dial takes_stop r)
  conn_closed : (i : ℕ) → Step r (close_conn i r)
  stop_signalled : Step r (stop_signal r)
  stop_closed : Step r (stop_close r)

pub data Reach (r : Client) : Client → Type 0 where
  here : Reach r r
  later : {c d : Client} → Reach r c → Step c d → Reach r d
