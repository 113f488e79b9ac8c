-- ===== src/Examples/Redials.antt =====
-- A client that is stopped while it dials.
use hao_vpn.Prelude.{
  ◌≡◌, ◌≢◌, ◌≤◌, refl, List, [], ◌∷◌, arith, length, if◌then◌else◌, true, false, Bool, ◌+◌,
}
use hao_vpn.Transport.Config.{default_config}
use hao_vpn.Transport.Reconnect.{
  Client, exited, not_started, DialResult, succeeded, failed, start, stop_signal, loop_step,
  new_reconnect_client,
}
use hao_vpn.Transport.Reconnect.Steps.{Step, Reach}
use hao_vpn.Transport.Reconnect.Stopping.{
  connects, pending, is_exited, rounds, Reach-stop, rounds-stop,
}

abbrev client : Client
client = new_reconnect_client default_config true

-- Started, at the dial, stopped.
abbrev stopped : Client
stopped = stop_signal (loop_step succeeded true (start client))

stopped-Reach : Reach client stopped
stopped-Reach =
    Reach.later (Reach.later (Reach.later Reach.here Step.started) (Step.looped succeeded true))
      Step.stop_signalled

-- The dial comes back, and the loop ends.
abbrev ended : Client
ended = loop_step succeeded true (loop_step succeeded true stopped)

ended-Reach : Reach stopped ended
ended-Reach =
    Reach.later (Reach.later Reach.here (Step.looped succeeded true)) (Step.looped succeeded true)

is_stopped : stopped.is_stopped ≡ true
unfolding stop_signal
is_stopped = refl

Reach-stop_example :
    (connects ended.log ≤ connects stopped.log + pending stopped.pc)
    × (length ended.opened ≤ (if is_exited ended.pc then 0 else 1))
Reach-stop_example =
    Reach-stop default_config true stopped ended stopped-Reach is_stopped ended-Reach

abbrev choices : List (DialResult × Bool)
choices = (succeeded, false) ∷ (failed, true) ∷ (failed, false) ∷ (failed, false) ∷ []

rounds-stop_example :
    ((rounds choices stopped).pc ≡ exited) × ((rounds choices stopped).opened ≡ [])
rounds-stop_example =
    rounds-stop default_config true stopped choices stopped-Reach is_stopped at_dial (omega arith)
  where
    at_dial : stopped.pc ≢ not_started
    at_dial = unfold stop_signal loop_step start new_reconnect_client in ground arith
