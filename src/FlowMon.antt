-- ===== src/FlowMon.antt =====
-- internal/flowmon/tracker.go: the flow table, one entry for the packets of an account between two
-- endpoints, both ways. Times are nanoseconds; byte and packet counts are unbounded. Texts are read
-- as ASCII.
pub mod Key
pub mod Shards
pub mod Observe
pub mod SortQuery
pub mod Listing
use hao_vpn.Prelude.{ℕ, ◌*◌, ◌+◌, List, [], if◌then◌else◌}
use hao_vpn.Prelude.Int.{ℤ, pos, pos_part, leb_ℤ}
use hao_vpn.FlowMon.Key.{FlowKey}
use hao_vpn.FlowMon.Shards.{Flow, Shard, empty_shards}

pub record Tracker : Type 0 where
  pub shards : List Shard
  pub ttl : ℕ
  pub max_per_user : ℕ
  pub observe_ttl_every : ℕ

-- The option, or its default where it is not positive.
abbrev positive_or : ℤ → ℕ → ℕ
positive_or n d = if leb_ℤ n (pos 0) then d else pos_part n

unfoldable pub new : ℤ → ℤ → ℤ → Tracker
new ttl max_per_user every = record {
  shards = empty_shards;
  ttl = positive_or ttl (600 * 1000000000);
  max_per_user = positive_or max_per_user 512;
  observe_ttl_every = positive_or every 256;
}
