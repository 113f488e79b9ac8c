-- ===== src/FlowMon/Observe.antt =====
-- ObservePacket after the packet was read. It holds the lock of the key's shard to bump a flow that
-- is there (`look_up`), and, if there was none, all locks to make room and insert (`insert`); other
-- calls can run in between.
pub mod Cap
pub mod Counted
use hao_vpn.Prelude.{
  ℕ, zero, suc, ◌+◌, ◌%◌, ◌^◌, Bool, true, false, List, [], ◌∷◌, Option, none, some, nat_beq, leb,
  ltb, if◌then◌else◌, length,
}
use hao_vpn.Prelude.Map.{Map, get, put, remove}
use hao_vpn.Net.{Text6}
use hao_vpn.FlowMon.{Tracker}
use hao_vpn.FlowMon.Key.{FlowKey, key_eq, Direction, dir_in, dir_out, key_of, shard_index}
use hao_vpn.FlowMon.Shards.{Flow, Shard, get_elem?, modify, with_keys, count_user}

-- `LastSeen.Before(now.Add(-ttl))`
abbrev pub is_expired : ℕ → ℕ → Flow → Bool
is_expired now ttl f = ltb (f.last_seen + ttl) now

-- purgeShardTTLLocked
unfoldable pub purge : ℕ → ℕ → Map FlowKey Flow → Map FlowKey Flow
purge now ttl [] = []
purge now ttl ((k, f) ∷ m) =
    let rest = purge now ttl m in if is_expired now ttl f then rest else (k, f) ∷ rest

-- bumpFlowLocked
abbrev pub bump : ℕ → ℕ → Direction → Flow → Flow
bump now n dir_in f = record f {
  last_seen = now;
  bytes_in = f.bytes_in + n;
  packets_in = f.packets_in + 1;
}
bump now n dir_out f = record f {
  last_seen = now;
  bytes_out = f.bytes_out + n;
  packets_out = f.packets_out + 1;
}

-- The flow of the key in its shard.
abbrev pub flow_at : FlowKey → List Shard → Option Flow
flow_at k shards = elim (get_elem? shards (shard_index k)) [
  | none ↦ none
  | some sh ↦ get k sh.by_key
]

abbrev pub bump_at : ℕ → ℕ → Direction → FlowKey → Map FlowKey Flow → Map FlowKey Flow
bump_at now n dir k m = elim (get k m) [ none ↦ m | some f ↦ put k (bump now n dir f) m ]

-- One more call for the shard, and every so often a purge.
abbrev pub tick : ℕ → Tracker → Shard → Shard
tick now t sh =
    let n = (sh.observe_n + 1) % 2 ^ 64 in
    record {
      by_key = if nat_beq (n % t.observe_ttl_every) 0 then purge now t.ttl sh.by_key else sh.by_key;
      observe_n = n;
    }

abbrev pub on_shard : FlowKey → (Shard → Shard) → Tracker → Tracker
on_shard k g t = record t { shards = modify (shard_index k) g t.shards }

-- The part under the lock of one shard: whether the flow was there.
unfoldable pub look_up : ℕ → ℕ → Direction → FlowKey → Tracker → Tracker × Bool
unfolding purge
look_up now n dir k t =
    let ticked = on_shard k (tick now t) t in
    elim (flow_at k ticked.shards) [
      | none ↦ (ticked, false)
      | some f ↦ (on_shard k (with_keys (bump_at now n dir k)) ticked, true)
    ]

-- evictOldestUserLocked: the oldest entry so far, as its shard, key and time.
abbrev Oldest : Type 0
Oldest = Option (ℕ × FlowKey × ℕ)

abbrev older : ℕ → FlowKey → Flow → Oldest → Oldest
older i k f none = some (i, k, f.last_seen)
older i k f (some (j, k', time)) =
    if ltb f.last_seen time then some (i, k, f.last_seen) else some (j, k', time)

unfoldable pub oldest_in : ℕ → ℕ → Map FlowKey Flow → Oldest → Oldest
oldest_in user i [] best = best
oldest_in user i ((k, f) ∷ m) best =
    oldest_in user i m (if nat_beq k.user_id user then older i k f best else best)

unfoldable pub oldest_of : ℕ → ℕ → List Shard → Oldest → Oldest
unfolding oldest_in
oldest_of user i [] best = best
oldest_of user i (sh ∷ shards) best =
    oldest_of user (suc i) shards (oldest_in user i sh.by_key best)

unfoldable pub evict_oldest : ℕ → List Shard → List Shard × Bool
unfolding oldest_of
evict_oldest user shards = elim (oldest_of user 0 shards none) [
  | none ↦ (shards, false)
  | some (i, k, time) ↦ (modify i (with_keys (remove k)) shards, true)
]

-- The loop that makes room, on fuel; a round deletes one entry of the account or ends it.
unfoldable pub make_room : ℕ → ℕ → ℕ → List Shard → List Shard
unfolding evict_oldest
make_room zero max user shards = shards
make_room (suc fuel) max user shards = elim (leb max (count_user user shards)) [
  | false ↦ shards
  | true ↦
      let (shards', evicted) = evict_oldest user shards in
      elim evicted [ false ↦ shards' | true ↦ make_room fuel max user shards' ]
]

abbrev pub new_flow : ℕ → Flow
new_flow now = record {
  bytes_in = 0;
  bytes_out = 0;
  packets_in = 0;
  packets_out = 0;
  first_seen = now;
  last_seen = 0;
}

-- The part under all locks.
unfoldable pub insert : ℕ → ℕ → Direction → FlowKey → Tracker → Tracker
unfolding make_room
insert now n dir k t = elim (flow_at k t.shards) [
  | some f ↦ on_shard k (with_keys (bump_at now n dir k)) t
  | none ↦
      let user = k.user_id in
      let room = make_room (count_user user t.shards) t.max_per_user user t.shards in
      on_shard k (with_keys (put k (bump now n dir (new_flow now)))) (record t { shards = room })
]

unfoldable pub observe_packet : ℕ → Text6 → ℕ → List ℕ → Direction → Tracker → Tracker
unfolding key_of look_up insert
observe_packet now t6 user packet dir t = elim (key_of t6 user packet dir) [
  | none ↦ t
  | some k ↦
      let (t', was_there) = look_up now (length packet) dir k t in
      if was_there then t' else insert now (length packet) dir k t'
]
