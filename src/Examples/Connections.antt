-- ===== src/Examples/Connections.antt =====
-- A connection that sends, reads and ends.
use hao_vpn.Prelude.{◌≡◌, ◌≤◌, [], ◌∷◌, ◌++◌, some, length, if◌then◌else◌, true}
use hao_vpn.Transport.Config.{default_config}
use hao_vpn.Transport.Conn.{
  Conn, accept_conn, close, send, write_round, heartbeat_round, read_round, connected, closed,
  queue_size,
}
use hao_vpn.Transport.Conn.Steps.{Step, Reach}
use hao_vpn.Transport.Conn.Sound.{queued_of, took_of, closes, reports, accept_conn-Reach}

abbrev start : Conn
start = accept_conn 5 default_config (some 1) (some 2)

-- Two packets go into the queue, one is written, a frame is read.
abbrev busy : Conn
busy =
    read_round 9 (some (0 ∷ 0 ∷ 0 ∷ 2 ∷ 1 ∷ 42 ∷ []))
      (write_round true (send 7 (9 ∷ []) (send 6 (8 ∷ []) start).0).0)

busy-Reach : Reach start busy
busy-Reach =
    Reach.later
      (Reach.later
        (Reach.later (Reach.later Reach.here (Step.sent 6 (8 ∷ []))) (Step.sent 7 (9 ∷ [])))
        (Step.written true))
      (Step.read 9 (some (0 ∷ 0 ∷ 0 ∷ 2 ∷ 1 ∷ 42 ∷ [])))

accept_conn-Reach_example :
    (queued_of busy.log ≡ took_of busy.log ++ busy.send_q)
    × (length busy.send_q ≤ queue_size busy.cfg)
    × (busy.state ≡ (if busy.is_closed then closed else connected))
    × (closes busy.log ≡ (if busy.is_closed then 1 else 0))
    × (reports busy.log ≤ (if busy.is_closed then 1 else 0))
accept_conn-Reach_example = accept_conn-Reach 5 default_config (some 1) (some 2) busy busy-Reach

-- A tick and a second Close after the first one.
abbrev over : Conn
over = close (heartbeat_round 10 (close busy))

over-Reach : Reach (close busy) over
over-Reach = Reach.later (Reach.later Reach.here (Step.beaten 10)) Step.ended
