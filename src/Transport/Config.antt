-- ===== src/Transport/Config.antt =====
-- internal/transport/config.go, and the defaults of internal/netutil/constants.go that it uses.
-- Durations are nanoseconds.
use hao_vpn.Prelude.{ℕ, ◌*◌, if◌then◌else◌}
use hao_vpn.Prelude.Int.{ℤ, pos, pos_part, leb_ℤ}

-- Those that are tested for their sign are integers.
pub record Config : Type 0 where
  pub heartbeat_interval : ℕ
  pub heartbeat_timeout : ℕ
  pub write_timeout : ℕ
  pub max_queue_size : ℤ
  pub reconnect_initial : ℤ
  pub reconnect_max : ℤ
  pub dial_timeout : ℤ
  pub mtu : ℕ

abbrev pub second : ℕ
second = 1000000000

unfoldable pub default_config : Config
default_config = record {
  heartbeat_interval = 15 * second;
  heartbeat_timeout = 90 * second;
  write_timeout = 15 * second;
  max_queue_size = pos 256;
  reconnect_initial = pos (1 * second);
  reconnect_max = pos (3 * second);
  dial_timeout = pos (3 * second);
  mtu = 1420;
}

abbrev or_seconds : ℤ → ℕ → ℕ
or_seconds d n = if leb_ℤ d (pos 0) then n * second else pos_part d

unfoldable pub effective_dial_timeout : Config → ℕ
effective_dial_timeout c = or_seconds c.dial_timeout 3

unfoldable pub effective_reconnect_max : Config → ℕ
effective_reconnect_max c = or_seconds c.reconnect_max 3

unfoldable pub effective_reconnect_initial : Config → ℕ
effective_reconnect_initial c = or_seconds c.reconnect_initial 1

abbrev pub after_disconnect_pause : ℕ
after_disconnect_pause = 200000000
