-- ===== src/Transport/Reconnect.antt =====
-- internal/transport/reconnect.go: the loop that dials again, as a state machine. `pc` is the place
-- of the loop between two points where another goroutine can run. Connections are numbered in the
-- order they are opened; `opened` lists those that are open. What Dial comes to and which ready
-- case a select takes are arguments. `log` is what the client did, the newest first.
pub mod Steps
pub mod Stopping
pub mod Backoff
use hao_vpn.Prelude.{
  ℕ, zero, suc, ◌+◌, ◌<◌, Bool, true, false, ◌&&◌, ◌||◌, not, List, [], ◌∷◌, Option, none, some,
  any, nat_beq, if◌then◌else◌,
}
use hao_vpn.Prelude.Int.{pos, pos_part}
use hao_vpn.SafeUtil.Retry.{exp_backoff}
use hao_vpn.Transport.Config.{
  Config, effective_reconnect_initial, effective_reconnect_max, after_disconnect_pause,
}

pub data Pc : Type 0 where
  not_started at_top dialling parted pausing backing_off exited : Pc
  dialled storing stored connecting waiting : ℕ → Pc

pub data Event : Type 0 where
  on_connect : ℕ → Event
  on_dial_error : Event
  slept : ℕ → Event

pub record Client : Type 0 where
  pub cfg : Config
  pub has_on_connect : Bool
  pub pc : Pc
  pub backoff : ℕ
  pub conn : Option ℕ
  pub is_stopped : Bool
  pub started : Bool
  pub opened : List ℕ
  pub next : ℕ
  pub log : List Event

pub data DialResult : Type 0 where
  succeeded failed fatal : DialResult

unfoldable pub new_reconnect_client : Config → Bool → Client
new_reconnect_client cfg has_on_connect = record {
  cfg = cfg;
  has_on_connect = has_on_connect;
  pc = not_started;
  backoff = effective_reconnect_initial cfg;
  conn = none;
  is_stopped = false;
  started = false;
  opened = [];
  next = 0;
  log = [];
}

-- Start; a second call is ignored.
unfoldable pub start : Client → Client
start r = if r.started then r else record r { started = true; pc = at_top }

abbrev at : Pc → Client → Client
at pc r = record r { pc = pc }

abbrev pub without : ℕ → List ℕ → List ℕ
without i [] = []
without i (j ∷ js) = if nat_beq j i then without i js else j ∷ without i js

-- conn.Close, by this side or the other one.
unfoldable pub close_conn : ℕ → Client → Client
close_conn i r = record r { opened = without i r.opened }

-- Stop up to its wait: `close(stop)`, then the current connection.
unfoldable pub stop_signal : Client → Client
stop_signal r = record r { is_stopped = true }

unfoldable pub stop_close : Client → Client
unfolding close_conn
stop_close r = elim r.conn [ none ↦ r | some i ↦ close_conn i r ]

-- `if stop is closed { conn.Close(); return }`
abbrev exit_closing : ℕ → Client → Client
exit_closing i r = at exited (close_conn i r)

abbrev dial_step : DialResult → Client → Client
dial_step succeeded r = record r {
  pc = dialled r.next;
  opened = r.next ∷ r.opened;
  next = suc r.next;
}
dial_step failed r = record r { pc = backing_off; log = slept r.backoff ∷ on_dial_error ∷ r.log }
dial_step fatal r = record r { pc = exited; log = on_dial_error ∷ r.log }

-- A sleep ends with the timer, or with the loop if stop is closed and the select takes that case.
abbrev sleep_step : Bool → Client → Client → Client
sleep_step takes_stop r woken = if r.is_stopped && takes_stop then at exited r else woken

-- `r.conn` is forgotten if it is still this connection.
abbrev forget : ℕ → Client → Client
forget i r = elim r.conn [ none ↦ r | some j ↦ if nat_beq j i then record r { conn = none } else r ]

-- The loop from one place to the next. In `waiting` it stays while nothing has happened.
unfoldable pub loop_step : DialResult → Bool → Client → Client
unfolding close_conn
loop_step dial takes_stop r =
    let initial = effective_reconnect_initial r.cfg in
    let max = effective_reconnect_max r.cfg in
    elim r.pc [
      | not_started ↦ r
      | at_top ↦ if r.is_stopped then at exited r else at dialling r
      | dialling ↦ dial_step dial r
      | backing_off ↦
          sleep_step takes_stop r
            (record r { pc = at_top; backoff = pos_part (exp_backoff (pos r.backoff) (pos max)) })
      | dialled i ↦ if r.is_stopped then exit_closing i r else at (storing i) r
      | storing i ↦ record r { pc = stored i; backoff = initial; conn = some i }
      | stored i ↦
          if not r.has_on_connect
          then at (waiting i) r
          else if r.is_stopped
          then exit_closing i r
          else at (connecting i) r
      | connecting i ↦ record r { pc = waiting i; log = on_connect i ∷ r.log }
      | waiting i ↦
          let is_open = any (λ j. nat_beq j i) r.opened in
          if r.is_stopped && (takes_stop || is_open)
          then exit_closing i r
          else if is_open
          then r
          else at parted (forget i r)
      | parted ↦
          if r.is_stopped
          then at exited r
          else record r { pc = pausing; log = slept after_disconnect_pause ∷ r.log }
      | pausing ↦ sleep_step takes_stop r (record r { pc = at_top; backoff = initial })
      | exited ↦ r
    ]
