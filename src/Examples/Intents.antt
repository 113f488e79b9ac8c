-- ===== src/Examples/Intents.antt =====
-- A busy engine: the user reconnects once more, then quits and logs out.
use hao_vpn.Prelude.{ℕ, ◌≡◌, refl, List, [], ◌∷◌, Option, none, some, arith, true}
use hao_vpn.ClientGui.OpQueue.{
  Intent, no_intent, logout, quit, reconnect, OpQueue, set_pending, should_abort,
}
use hao_vpn.ClientGui.OpQueue.Preempts.{set_all, set_pending-should_abort}

abbrev restarting : OpQueue ℕ
restarting = record { busy = true; op_gen = 7; pending_intent = no_intent; pending_creds = none }

abbrev clicks : List (Intent × Option ℕ)
clicks = (quit, none) ∷ (reconnect, some 4) ∷ (logout, none) ∷ []

set_pending-should_abort_example :
    should_abort 7 (set_all clicks (set_pending reconnect (some 3) restarting).0) ≡ true
set_pending-should_abort_example =
    set_pending-should_abort reconnect (some 3) clicks restarting accepted (omega arith)
      (omega arith)
  where
    accepted : (set_pending reconnect (some 3) restarting).1 ≡ true
    accepted = unfold set_pending in refl
