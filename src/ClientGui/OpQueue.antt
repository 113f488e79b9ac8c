-- ===== src/ClientGui/OpQueue.antt =====
-- internal/clientgui/engine_op_queue.go and the intents of engine_intent.go. The generation is a
-- uint64; credentials are of any type, `none` being the empty ones.
pub mod Preempts
use hao_vpn.Prelude.{
  ℕ, ◌+◌, ◌%◌, ◌^◌, Bool, true, false, ◌||◌, ◌&&◌, not, Option, none, some, nat_beq, if◌then◌else◌,
  Text, codes,
}

pub data Intent : Type 0 where
  no_intent logout quit reconnect : Intent

-- Logout and quit.
abbrev pub is_ending : Intent → Bool
is_ending logout = true
is_ending quit = true
is_ending _ = false

abbrev pub is_reconnect : Intent → Bool
is_reconnect reconnect = true
is_reconnect _ = false

abbrev pub is_none : Intent → Bool
is_none no_intent = true
is_none _ = false

pub record OpQueue {ℓ} (C : Type ℓ) : Type ℓ where
  pub busy : Bool
  pub op_gen : ℕ
  pub pending_intent : Intent
  pub pending_creds : Option C

module _ {ℓ} {C : Type ℓ} where
  abbrev pub bump_op_gen : OpQueue C → OpQueue C
  bump_op_gen q = record q { op_gen = (q.op_gen + 1) % 2 ^ 64 }

  unfoldable pub set_pending : Intent → Option C → OpQueue C → OpQueue C × Bool
  set_pending intent creds q =
      let kept = if is_reconnect intent then creds else none in
      if is_none intent || not q.busy
      then (q, false)
      else if is_ending q.pending_intent && is_reconnect intent
      then (q, true)
      else (record (bump_op_gen q) { pending_intent = intent; pending_creds = kept }, true)

  unfoldable pub take_pending : OpQueue C → OpQueue C × Intent × Option C
  take_pending q = (
    record q { pending_intent = no_intent; pending_creds = none },
    q.pending_intent,
    q.pending_creds,
  )

  unfoldable pub should_abort : ℕ → OpQueue C → Bool
  should_abort gen q = if nat_beq q.op_gen gen then is_ending q.pending_intent else true

unfoldable pub decide_hard_restart_finish : Bool → Bool → Bool → Text
decide_hard_restart_finish gen_current aborted start_fail =
    if not gen_current
    then codes "superseded"
    else if aborted
    then codes "aborted"
    else if start_fail
    then codes "start_fail"
    else codes "mount"
