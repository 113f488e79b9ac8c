-- ===== src/Transport/Reconnect/Backoff.antt =====
-- How long the client sleeps between two dials.
use hao_vpn.Prelude.{ℕ, ◌≤◌, ◌<◌, ◌≡◌, refl, Bool, arith, All}
use hao_vpn.Prelude.Int.{pos, pos_part}
use hao_vpn.SafeUtil.Retry.{exp_backoff}
use hao_vpn.Transport.Config.{
  Config, effective_reconnect_initial, effective_reconnect_max, after_disconnect_pause,
}
use hao_vpn.Transport.Reconnect.{
  Pc, Event, slept, Client, DialResult, start, close_conn, stop_signal, stop_close, loop_step,
  new_reconnect_client,
}
use hao_vpn.Transport.Reconnect.Steps.{Step, Reach}

-- A sleep of at most `b`.
abbrev pub Within : ℕ → Event → Type 0
Within b (slept d) = d ≤ b
Within b _ = Unit {0}

exp_backoff-le : (current b : ℕ) → 0 < b → pos_part (exp_backoff (pos current) (pos b)) ≤ b
unfolding exp_backoff
exp_backoff-le current b h = ground (arith, h)

effective_reconnect_max-pos : (cfg : Config) → 0 < effective_reconnect_max cfg
unfolding effective_reconnect_max
effective_reconnect_max-pos cfg = ground arith

Bounded : Config → ℕ → Client → Type 0
Bounded cfg b r = (r.cfg ≡ cfg) × (r.backoff ≤ b) × All (Within b) r.log

loop_step-Bounded :
    (cfg : Config) (b : ℕ) (dial : DialResult) (ts : Bool) (r : Client) (p : Pc)
    → effective_reconnect_initial cfg ≤ b
    → effective_reconnect_max cfg ≤ b
    → after_disconnect_pause ≤ b
    → r.pc ≡ p
    → Bounded cfg b r
    → Bounded cfg b (loop_step dial ts r)
unfolding loop_step Bounded close_conn
loop_step-Bounded cfg b dial ts r p hi hm hp e h = ground (
  arith,
  h,
  exp_backoff-le r.backoff (effective_reconnect_max r.cfg) (effective_reconnect_max-pos r.cfg),
)

step-Bounded :
    (cfg : Config) (b : ℕ) (r r' : Client)
    → effective_reconnect_initial cfg ≤ b
    → effective_reconnect_max cfg ≤ b
    → after_disconnect_pause ≤ b
    → Step r r'
    → Bounded cfg b r
    → Bounded cfg b r'
unfolding start stop_signal stop_close close_conn Bounded
step-Bounded cfg b r _ hi hm hp Step.started h = ground (arith, h)
step-Bounded cfg b r _ hi hm hp (Step.looped dial ts) h =
    loop_step-Bounded cfg b dial ts r r.pc hi hm hp refl h
step-Bounded cfg b r _ hi hm hp (Step.conn_closed i) h = h
step-Bounded cfg b r _ hi hm hp Step.stop_signalled h = h
step-Bounded cfg b r _ hi hm hp Step.stop_closed h = ground (arith, h)

Reach-Bounded :
    (cfg : Config) (has_on_connect : Bool) (b : ℕ) (r : Client)
    → effective_reconnect_initial cfg ≤ b
    → effective_reconnect_max cfg ≤ b
    → after_disconnect_pause ≤ b
    → Reach (new_reconnect_client cfg has_on_connect) r
    → Bounded cfg b r
unfolding new_reconnect_client Bounded
Reach-Bounded cfg has_on_connect b _ hi hm hp Reach.here = (refl, hi, tt)
Reach-Bounded cfg has_on_connect b r hi hm hp (Reach.later {c = m} before s) =
    step-Bounded cfg b m r hi hm hp s (Reach-Bounded cfg has_on_connect b m hi hm hp before)

-- The reconnecting client never sleeps longer than the greatest of its initial backoff, its
-- maximal backoff and the pause after a disconnect.
pub Reach-slept :
    (cfg : Config) (has_on_connect : Bool) (b : ℕ) (r : Client)
    → effective_reconnect_initial cfg ≤ b
    → effective_reconnect_max cfg ≤ b
    → after_disconnect_pause ≤ b
    → Reach (new_reconnect_client cfg has_on_connect) r
    → All (Within b) r.log
unfolding Bounded
Reach-slept cfg has_on_connect b r hi hm hp reach =
    (Reach-Bounded cfg has_on_connect b r hi hm hp reach).2
