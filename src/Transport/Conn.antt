-- ===== src/Transport/Conn.antt =====
-- internal/transport/transport.go, conn_loops.go and mtu.go: a connection with its send queue,
-- callbacks and loops. A socket's results (what a read brought, whether a write went through) are
-- arguments. A call, one round of a loop and Close are one step each; a callback's own calls are
-- further steps. Callbacks are numbers. `log` is what the connection did, the newest first.
pub mod Steps
pub mod Sound
pub mod Once
use hao_vpn.Prelude.{
  ℕ, zero, suc, ◌+◌, ◌*◌, ◌%◌, ◌^◌, Bool, true, false, not, List, [], ◌∷◌, ◌++◌, Option, none, some,
  Result, ok, err, length, ltb, nat_beq, if◌then◌else◌,
}
use hao_vpn.Prelude.Int.{ℤ, pos, pos_part, leb_ℤ}
use hao_vpn.SafeUtil.Throttle.{allow_every}
use hao_vpn.Transport.Config.{Config, second}
use hao_vpn.Transport.Frame.{Frame, FrameError, encode_frame, feed}

pub data State : Type 0 where
  disconnected connecting connected disconnecting closed : State

abbrev pub is_connected : State → Bool
is_connected connected = true
is_connected _ = false

-- A frame put into the queue and taken out of it, bytes written to TLS, a callback called, and the
-- TLS connection closed.
pub data Event : Type 0 where
  queued took wrote : List ℕ → Event
  called : ℕ → List ℕ → Event
  called_on_close : ℕ → Event
  closed_tls : Event

pub record Conn : Type 0 where
  pub cfg : Config
  pub state : State
  pub decoder : List ℕ
  pub send_q : List (List ℕ)
  pub queue_full_drops : ℕ
  pub last_queue_full_warn : ℕ
  pub on_data : Option ℕ
  pub on_handshake : Option ℕ
  pub on_close : Option ℕ
  pub last_hb : ℕ
  pub hb_pause : Bool
  pub is_closed : Bool
  pub log : List Event

-- The capacity of sendQ, with its default.
unfoldable pub queue_size : Config → ℕ
queue_size cfg = if leb_ℤ cfg.max_queue_size (pos 0) then 256 else pos_part cfg.max_queue_size

-- What AcceptConn returns, and Dial when both handshakes went through.
unfoldable pub accept_conn : ℕ → Config → Option ℕ → Option ℕ → Conn
accept_conn now cfg on_data on_close = record {
  cfg = cfg;
  state = connected;
  decoder = [];
  send_q = [];
  queue_full_drops = 0;
  last_queue_full_warn = 0;
  on_data = on_data;
  on_handshake = none;
  on_close = on_close;
  last_hb = now;
  hb_pause = false;
  is_closed = false;
  log = [];
}

abbrev pub logged : Event → Conn → Conn
logged e c = record c { log = e ∷ c.log }

abbrev pub touch_hb : ℕ → Conn → Conn
touch_hb now c = record c { last_hb = now }

unfoldable pub set_heartbeat_timeout_paused : ℕ → Bool → Conn → Conn
set_heartbeat_timeout_paused now paused c =
    let c' = record c { hb_pause = paused } in if paused then c' else touch_hb now c'

-- SetOnData, SetOnHandshake and SetOnClose.
abbrev pub set_on_data : Option ℕ → Conn → Conn
set_on_data fn c = record c { on_data = fn }

abbrev pub set_on_handshake : Option ℕ → Conn → Conn
set_on_handshake fn c = record c { on_handshake = fn }

abbrev pub set_on_close : Option ℕ → Conn → Conn
set_on_close fn c = record c { on_close = fn }

-- Close, with sync.Once.
unfoldable pub close : Conn → Conn
close c =
    let c1 = record c { state = disconnecting; is_closed = true } in
    let c2 = record (logged closed_tls c1) { state = closed } in
    let c3 : Conn = elim c.on_close [ none ↦ c2 | some fn ↦ logged (called_on_close fn) c2 ] in
    if c.is_closed then c else c3

pub data SendError : Type 0 where
  bad_frame : FrameError → SendError
  send_queue_full not_connected write_failed : SendError

-- `case c.sendQ <- frame`, if there is room.
unfoldable pub enqueue : List ℕ → Conn → Option Conn
enqueue frame c =
    if ltb (length c.send_q) (queue_size c.cfg)
    then some (logged (queued frame) (record c { send_q = c.send_q ++ (frame ∷ []) }))
    else none

unfoldable pub note_send_queue_full : ℕ → Conn → Conn
unfolding allow_every
note_send_queue_full now c = record c {
  queue_full_drops = (c.queue_full_drops + 1) % 2 ^ 64;
  last_queue_full_warn = (allow_every now (5 * second) c.last_queue_full_warn).1;
}

unfoldable pub send_raw : ℕ → ℕ → List ℕ → Conn → Conn × Result SendError (Unit {0})
unfolding enqueue note_send_queue_full
send_raw now typ payload c = elim (encode_frame typ payload) [
  | err e ↦ (c, err (bad_frame e))
  | ok frame ↦ elim (enqueue frame c) [
    | some c' ↦ (c', ok tt)
    | none ↦ (note_send_queue_full now c, err send_queue_full)
  ]
]

unfoldable pub send : ℕ → List ℕ → Conn → Conn × Result SendError (Unit {0})
unfolding send_raw
send now payload c =
    if is_connected c.state then send_raw now 1 payload c else (c, err not_connected)

abbrev zeros : ℕ → List ℕ
zeros zero = []
zeros (suc n) = 0 ∷ zeros n

unfoldable pub probe_mtu : ℕ → ℕ → Conn → Conn × Result SendError (Unit {0})
unfolding send_raw
probe_mtu now size c = send_raw now 3 (zeros size) c

-- `is_written` is what the write of the socket comes to.
unfoldable pub send_raw_sync : Bool → ℕ → List ℕ → Conn → Conn × Result SendError (Unit {0})
send_raw_sync is_written typ payload c = elim (encode_frame typ payload) [
  | err e ↦ (c, err (bad_frame e))
  | ok frame ↦ if is_written then (logged (wrote frame) c, ok tt) else (c, err write_failed)
]

abbrev pub call : Option ℕ → List ℕ → Conn → Conn
call none payload c = c
call (some fn) payload c = logged (called fn payload) c

-- One frame in readLoop.
unfoldable pub dispatch : ℕ → Frame → Conn → Conn
dispatch now f c =
    let c' = touch_hb now c in
    let to_data = call c.on_data f.payload c' in
    let to_handshake : Conn = elim c.on_handshake [
      | none ↦ to_data
      | some fn ↦ call (some fn) f.payload c'
    ] in
    if nat_beq f.typ 2
    then c'
    else if nat_beq f.typ 3
    then c'
    else if nat_beq f.typ 1
    then to_data
    else if nat_beq f.typ 4
    then to_handshake
    else c

unfoldable pub dispatch_all : ℕ → List Frame → Conn → Conn
unfolding dispatch
dispatch_all now [] c = c
dispatch_all now (f ∷ fs) c = dispatch_all now fs (dispatch now f c)

-- A round of readLoop: `none` is a read that failed. The deferred Close ends the loop.
unfoldable pub read_round : ℕ → Option (List ℕ) → Conn → Conn
unfolding dispatch_all close
read_round now none c = close c
read_round now (some bytes) c =
    let fed = feed c.decoder bytes in
    let c' = record c { decoder = fed.rest } in
    if c.is_closed then c else elim fed.frames [ err e ↦ close c' | ok fs ↦ dispatch_all now fs c' ]

-- A round of writeLoop that finds a frame in the queue.
unfoldable pub write_round : Bool → Conn → Conn
unfolding close
write_round is_written c = elim c.send_q [
  | [] ↦ c
  | frame ∷ q ↦
      let c' = logged (took frame) (record c { send_q = q }) in
      if is_written then logged (wrote frame) c' else close c'
]

abbrev pub is_silent : ℕ → Conn → Bool
is_silent now c = ltb (c.last_hb + c.cfg.heartbeat_timeout) now

-- The heartbeat goes into the queue if there is room; its frame encodes.
unfoldable pub beat : Conn → Conn
unfolding enqueue
beat c = elim (encode_frame 2 []) [
  | err e ↦ c
  | ok frame ↦ elim (enqueue frame c) [ some c' ↦ c' | none ↦ c ]
]

-- A round of heartbeatLoop at a tick.
unfoldable pub heartbeat_round : ℕ → Conn → Conn
unfolding beat close
heartbeat_round now c =
    if c.hb_pause then beat c else if is_silent now c then close (beat c) else beat c
