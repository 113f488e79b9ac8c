-- ===== src/FlowMon/Observe/Counted.antt =====
-- What an observed packet does to the flow that it belongs to.
use hao_vpn.Prelude.{
  ℕ, zero, suc, ◌<◌, ◌≡◌, ◌∙◌, refl, sym, ap, false, List, [], ◌∷◌, Option, none, some, arith, inl,
  inr, Option-cases, Bool-cases, ◌==◌, length,
}
use hao_vpn.Prelude.Map.{Map, get, put, remove, get-put_self}
use hao_vpn.Net.{Text6}
use hao_vpn.FlowMon.{Tracker}
use hao_vpn.FlowMon.Key.{FlowKey, key_eq, Direction, key_of, shard_index}
use hao_vpn.FlowMon.Shards.{Flow, Shard, get_elem?, modify, with_keys, get_elem?-modify, count_user}
use hao_vpn.FlowMon.Observe.{
  is_expired, purge, bump, bump_at, flow_at, tick, on_shard, look_up, make_room, oldest_of,
  evict_oldest, new_flow, insert, observe_packet,
}

module _ {ℓ} {A : Type ℓ} where
  pub length-modify : (i : ℕ) (g : A → A) (xs : List A) → length (modify i g xs) ≡ length xs
  length-modify i g [] = refl
  length-modify zero g (x ∷ xs) = refl
  length-modify (suc i) g (x ∷ xs) = ap suc (length-modify i g xs)

  -- A place of the list.
  pub get_elem?-some : (i : ℕ) (xs : List A) → i < length xs → (x : A) × (get_elem? xs i ≡ some x)
  get_elem?-some i [] h = elim h [ ]
  get_elem?-some zero (x ∷ xs) h = (x, refl)
  get_elem?-some (suc i) (x ∷ xs) h = get_elem?-some i xs (omega (arith, h))

-- A purge keeps what is not expired.
pub get-purge :
    (now ttl : ℕ) (k : FlowKey) (m : Map FlowKey Flow)
    → ((f : Flow) → get k m ≡ some f → is_expired now ttl f ≡ false)
    → get k (purge now ttl m) ≡ get k m
unfolding purge get
get-purge now ttl k [] h = refl
get-purge now ttl k ((j, f) ∷ m) h = elim (Bool-cases (j == k)) [
  | inl e ↦ let fresh = h f (rw e refl) in ground (arith, e, fresh)
  | inr e ↦ ground (arith, e, get-purge now ttl k m (λ f' g. h f' (rw e g)))
]

shard_index-lt : (k : FlowKey) → shard_index k < 16
unfolding shard_index
shard_index-lt k = omega arith

place :
    (k : FlowKey) (shards : List Shard)
    → length shards ≡ 16
    → (sh : Shard) × (get_elem? shards (shard_index k) ≡ some sh)
place k shards h = get_elem?-some (shard_index k) shards (omega (arith, shard_index-lt k, h))

-- The flow of a key after its shard changed.
flow_at-modify :
    (k : FlowKey) (g : Shard → Shard) (sh : Shard) (shards : List Shard)
    → get_elem? shards (shard_index k) ≡ some sh
    → flow_at k (modify (shard_index k) g shards) ≡ get k (g sh).by_key
flow_at-modify k g sh shards h =
    ground (arith, get_elem?-modify (shard_index k) (shard_index k) g shards)

get-tick :
    (now : ℕ) (k : FlowKey) (t : Tracker) (sh : Shard)
    → ((f : Flow) → get k sh.by_key ≡ some f → is_expired now t.ttl f ≡ false)
    → get k (tick now t sh).by_key ≡ get k sh.by_key
get-tick now k t sh h = ground (arith, get-purge now t.ttl k sh.by_key h)

evict_oldest-length :
    (user : ℕ) (shards : List Shard) → length (evict_oldest user shards).0 ≡ length shards
unfolding evict_oldest
evict_oldest-length user shards = elim (Option-cases (oldest_of user 0 shards none)) [
  | inl e ↦ rw (e, evict_oldest) refl
  | inr ((j, k, time), e) ↦ rw (e, evict_oldest) (length-modify j (with_keys (remove k)) shards)
]

make_room-length :
    (fuel max user : ℕ) (shards : List Shard)
    → length (make_room fuel max user shards) ≡ length shards
unfolding make_room
make_room-length zero max user shards = refl
make_room-length (suc fuel) max user shards = ground (
  arith,
  evict_oldest-length user shards,
  make_room-length fuel max user (evict_oldest user shards).0,
)

-- The flow that a packet is added to: the one that is there, or a new one.
abbrev pub or_new : ℕ → Option Flow → Flow
or_new now none = new_flow now
or_new now (some f) = f

bump_at-flow :
    (now n : ℕ) (dir : Direction) (k : FlowKey) (f : Flow) (m : Map FlowKey Flow)
    → get k m ≡ some f
    → get k (bump_at now n dir k m) ≡ some (bump now n dir f)
bump_at-flow now n dir k f m e = rw (e, bump_at) (get-put_self k (bump now n dir f) m)

-- Not expired, if it is there.
Fresh : ℕ → ℕ → FlowKey → List Shard → Type 0
Fresh now ttl k shards = (f : Flow) → flow_at k shards ≡ some f → is_expired now ttl f ≡ false

flow_at-ticked :
    (now : ℕ) (k : FlowKey) (t : Tracker)
    → length t.shards ≡ 16
    → Fresh now t.ttl k t.shards
    → flow_at k (on_shard k (tick now t) t).shards ≡ flow_at k t.shards
unfolding Fresh
flow_at-ticked now k t size fresh =
    let (sh, found) = place k t.shards size in
    let at : flow_at k t.shards ≡ get k sh.by_key = ground (arith, found) in
    ground (
      arith,
      at,
      flow_at-modify k (tick now t) sh t.shards found,
      get-tick now k t sh (λ f e. fresh f (at ∙ e)),
    )

flow_at-bumped :
    (now n : ℕ) (dir : Direction) (k : FlowKey) (f : Flow) (t : Tracker)
    → length t.shards ≡ 16
    → flow_at k t.shards ≡ some f
    → flow_at k (on_shard k (with_keys (bump_at now n dir k)) t).shards ≡ some (bump now n dir f)
flow_at-bumped now n dir k f t size e =
    let (sh, found) = place k t.shards size in
    let at : get k sh.by_key ≡ some f = ground (arith, found, e) in
    flow_at-modify k (with_keys (bump_at now n dir k)) sh t.shards found
    ∙ bump_at-flow now n dir k f sh.by_key at

insert-flow :
    (now n : ℕ) (dir : Direction) (k : FlowKey) (t : Tracker)
    → length t.shards ≡ 16
    → flow_at k (insert now n dir k t).shards
      ≡ some (bump now n dir (or_new now (flow_at k t.shards)))
unfolding insert
insert-flow now n dir k t size =
    let user = k.user_id in
    let room = make_room (count_user user t.shards) t.max_per_user user t.shards in
    let flow = bump now n dir (new_flow now) in
    elim (Option-cases (flow_at k t.shards)) [
      | inr (f, e) ↦ rw (e, insert) (flow_at-bumped now n dir k f t size e)
      | inl e ↦
          let kept = make_room-length (count_user user t.shards) t.max_per_user user t.shards in
          let (sh, found) = place k room (kept ∙ size) in
          rw (e, insert)
            (flow_at-modify k (with_keys (put k flow)) sh room found
              ∙ get-put_self k flow sh.by_key)
    ]

-- After a packet with a readable key was observed, its flow is the unexpired one that was in the
-- table, or a new one if there was none, with the packet added to the counters of its direction,
-- for a table of sixteen shards.
pub observe_packet-flow :
    (now user : ℕ) (t6 : Text6) (packet : List ℕ) (dir : Direction) (k : FlowKey) (t : Tracker)
    → key_of t6 user packet dir ≡ some k
    → length t.shards ≡ 16
    → ((f : Flow) → flow_at k t.shards ≡ some f → is_expired now t.ttl f ≡ false)
    → flow_at k (observe_packet now t6 user packet dir t).shards
      ≡ some (bump now (length packet) dir (or_new now (flow_at k t.shards)))
unfolding observe_packet look_up Fresh
observe_packet-flow now user t6 packet dir k t key size fresh =
    let n = length packet in
    let ticked = on_shard k (tick now t) t in
    let same = flow_at-ticked now k t size fresh in
    let size' = length-modify (shard_index k) (tick now t) t.shards ∙ size in
    elim (Option-cases (flow_at k ticked.shards)) [
      | inl e ↦
          rw (key, observe_packet, e, look_up)
            (insert-flow now n dir k ticked size'
              ∙ ap (λ o. some (bump now n dir (or_new now o))) same)
      | inr (f, e) ↦
          rw (key, observe_packet, e, look_up)
            (flow_at-bumped now n dir k f ticked size' e
              ∙ ap (λ o. some (bump now n dir (or_new now o))) (sym e ∙ same))
    ]
