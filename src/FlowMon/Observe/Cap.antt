-- ===== src/FlowMon/Observe/Cap.antt =====
-- The bound on the flows of an account, over calls that run in any order.
use hao_vpn.Prelude.{
  ℕ, zero, suc, ◌+◌, ◌≤◌, ◌<◌, ◌≡◌, refl, subst, true, false, List, [], ◌∷◌, none, some, arith,
  nat_beq, if◌then◌else◌, ◌⊎◌, inl, inr, is_some, Option-cases, ==_iff,
}
use hao_vpn.Prelude.Map.{Map, get, put, remove}
use hao_vpn.Prelude.Int.{ℤ}
use hao_vpn.FlowMon.{Tracker, new}
use hao_vpn.FlowMon.Key.{FlowKey, key_eq, Direction, shard_index}
use hao_vpn.FlowMon.Shards.{
  Flow, Shard, get_elem?, modify, with_keys, count_map, count_user, count_map-remove-le,
  count_map-remove-lt, count_user-modify, count_user-modify_lt, count_user-empty_shards,
}
use hao_vpn.FlowMon.Observe.{
  purge, bump, bump_at, flow_at, tick, on_shard, look_up, Oldest, older, oldest_in, oldest_of,
  evict_oldest, make_room, new_flow, insert,
}

-- What the search for the oldest entry finds.
is_some-older : (i : ℕ) (k : FlowKey) (f : Flow) (best : Oldest) → is_some (older i k f best) ≡ true
is_some-older i k f none = refl
is_some-older i k f (some (j, k', time)) = ground arith

oldest_in-none :
    (user i : ℕ) (m : Map FlowKey Flow) (best : Oldest)
    → oldest_in user i m best ≡ none
    → (count_map user m ≡ 0) × (best ≡ none)
unfolding oldest_in
oldest_in-none user i [] best h = (refl, h)
oldest_in-none user i ((k, f) ∷ m) best h =
    let seen = if nat_beq k.user_id user then older i k f best else best in
    ground (arith, oldest_in-none user i m seen h, is_some-older i k f best)

oldest_of-none :
    (user i : ℕ) (shards : List Shard) (best : Oldest)
    → oldest_of user i shards best ≡ none
    → (count_user user shards ≡ 0) × (best ≡ none)
unfolding oldest_of count_user
oldest_of-none user i [] best h = (refl, h)
oldest_of-none user i (sh ∷ shards) best h =
    let later = oldest_of-none user (suc i) shards (oldest_in user i sh.by_key best) h in
    let here = oldest_in-none user i sh.by_key best later.1 in
    (omega (arith, later.0, here.0), here.1)

-- An entry of the account that the map holds under the key.
Holds : ℕ → Map FlowKey Flow → FlowKey → Type 0
Holds user m k = (k.user_id ≡ user) × (is_some (get k m) ≡ true)

is_some-get_cons :
    (k k' : FlowKey) (f : Flow) (m : Map FlowKey Flow)
    → is_some (get k m) ≡ true
    → is_some (get k ((k', f) ∷ m)) ≡ true
unfolding get
is_some-get_cons k k' f m h = ground (arith, h)

is_some-get_here :
    (k k' : FlowKey) (f : Flow) (m : Map FlowKey Flow)
    → k' ≡ k
    → is_some (get k ((k', f) ∷ m)) ≡ true
unfolding get
is_some-get_here k k' f m h = ground (arith, ==_iff k' k)

older-cases :
    (i : ℕ) (k : FlowKey) (f : Flow) (best : Oldest)
    → (older i k f best ≡ best) ⊎ (older i k f best ≡ some (i, k, f.last_seen))
older-cases i k f none = inr refl
older-cases i k f (some (j, k', time)) = ground arith

seen-cases :
    (user i j time : ℕ) (k k' : FlowKey) (f : Flow) (best : Oldest)
    → (if nat_beq k'.user_id user then older i k' f best else best) ≡ some (j, k, time)
    → (best ≡ some (j, k, time)) ⊎ ((j ≡ i) × (k' ≡ k) × (k.user_id ≡ user))
seen-cases user i j time k k' f best h = ground (arith, older-cases i k' f best)

oldest_in-found :
    (user i j time : ℕ) (k : FlowKey) (m : Map FlowKey Flow) (best : Oldest)
    → oldest_in user i m best ≡ some (j, k, time)
    → (best ≡ some (j, k, time)) ⊎ ((j ≡ i) × Holds user m k)
unfolding oldest_in Holds
oldest_in-found user i j time k [] best h = inl h
oldest_in-found user i j time k ((k', f) ∷ m) best h =
    let seen = if nat_beq k'.user_id user then older i k' f best else best in
    elim (oldest_in-found user i j time k m seen h) [
      | inl e ↦ elim (seen-cases user i j time k k' f best e) [
        | inl b ↦ inl b
        | inr (ij, kk, u) ↦ inr (ij, (u, is_some-get_here k k' f m kk))
      ]
      | inr (e, (u, g)) ↦ inr (e, (u, is_some-get_cons k k' f m g))
    ]

-- The shard at a place holds an entry of the account under the key.
At : ℕ → List Shard → ℕ → FlowKey → Type 0
At user shards j k = (sh : Shard) × (get_elem? shards j ≡ some sh) × Holds user sh.by_key k

oldest_of-found :
    (user i j time : ℕ) (k : FlowKey) (shards : List Shard) (best : Oldest)
    → oldest_of user i shards best ≡ some (j, k, time)
    → (best ≡ some (j, k, time)) ⊎ ((n : ℕ) × (j ≡ i + n) × At user shards n k)
unfolding oldest_of At
oldest_of-found user i j time k [] best h = inl h
oldest_of-found user i j time k (sh ∷ shards) best h =
    elim (oldest_of-found user (suc i) j time k shards (oldest_in user i sh.by_key best) h) [
      | inl e ↦ elim (oldest_in-found user i j time k sh.by_key best e) [
        | inl b ↦ inl b
        | inr (ij, held) ↦ inr (0, omega (arith, ij), (sh, refl, held))
      ]
      | inr (n, e, at) ↦ inr (suc n, omega (arith, e), at)
    ]

-- Evicting an entry of the account lowers its count, and there is one unless the count is 0.
removed-lt :
    (user j : ℕ) (k : FlowKey) (shards : List Shard)
    → At user shards j k
    → count_user user (modify j (with_keys (remove k)) shards) < count_user user shards
unfolding At Holds
removed-lt user j k shards (sh, found, (owner, held)) = elim (Option-cases (get k sh.by_key)) [
  | inl e ↦ cc
  | inr (f, e) ↦
      count_user-modify_lt user j (remove k) sh shards found
        (count_map-remove-lt user k f sh.by_key e owner)
]

evict_oldest-lt :
    (user : ℕ) (shards : List Shard)
    → ((count_user user shards ≡ 0) × (evict_oldest user shards ≡ (shards, false)))
      ⊎ ((shards' : List Shard) × (evict_oldest user shards ≡ (shards', true))
          × (count_user user shards' < count_user user shards))
unfolding evict_oldest
evict_oldest-lt user shards = elim (Option-cases (oldest_of user 0 shards none)) [
  | inl e ↦ inl ((oldest_of-none user 0 shards none e).0, rw (e, evict_oldest) refl)
  | inr ((j, k, time), e) ↦ elim (oldest_of-found user 0 j time k shards none e) [
    | inl b ↦ cc
    | inr (n, jn, at) ↦ inr (
      modify j (with_keys (remove k)) shards,
      rw (e, evict_oldest) refl,
      removed-lt user j k shards (subst (λ i. At user shards i k) (omega (arith, jn)) at),
    )
  ]
]

evict_oldest-le :
    (u user : ℕ) (shards : List Shard)
    → count_user u (evict_oldest user shards).0 ≤ count_user u shards
unfolding evict_oldest
evict_oldest-le u user shards = elim (Option-cases (oldest_of user 0 shards none)) [
  | inl e ↦ rw (e, evict_oldest) (omega arith)
  | inr ((j, k, time), e) ↦
      rw (e, evict_oldest)
        (omega (
          arith,
          count_user-modify u j (with_keys (remove k)) 0 shards
              (λ sh. omega (arith, count_map-remove-le u k sh.by_key)),
        ))
]

make_room-le :
    (fuel max u user : ℕ) (shards : List Shard)
    → count_user u (make_room fuel max user shards) ≤ count_user u shards
unfolding make_room
make_room-le zero max u user shards = omega arith
make_room-le (suc fuel) max u user shards = ground (
  arith,
  evict_oldest-le u user shards,
  make_room-le fuel max u user (evict_oldest user shards).0,
)

-- Fuel for every entry of the account is enough.
make_room-lt :
    (fuel max user : ℕ) (shards : List Shard)
    → 0 < max
    → count_user user shards ≤ fuel
    → count_user user (make_room fuel max user shards) < max
unfolding make_room
make_room-lt zero max user shards h le = omega arith
make_room-lt (suc fuel) max user shards h le = elim (evict_oldest-lt user shards) [
  | inl (z, e) ↦ ground (arith, z)
  | inr (shards', e, lt) ↦
      ground (arith, make_room-lt fuel max user shards' h (omega (arith, lt, le)))
]

-- The maps of the steps do not grow, but for the entry that is inserted.
purge-le : (u now ttl : ℕ) (m : Map FlowKey Flow) → count_map u (purge now ttl m) ≤ count_map u m
unfolding purge
purge-le u now ttl [] = omega arith
purge-le u now ttl ((k, f) ∷ m) = ground (arith, purge-le u now ttl m)

put-le :
    (u : ℕ) (k : FlowKey) (f : Flow) (m : Map FlowKey Flow)
    → count_map u (put k f m) ≤ count_map u m + (if nat_beq k.user_id u then 1 else 0)
unfolding put
put-le u k f m = ground (arith, count_map-remove-le u k m)

bump_at-le :
    (u now n : ℕ) (dir : Direction) (k : FlowKey) (m : Map FlowKey Flow)
    → count_map u (bump_at now n dir k m) ≤ count_map u m
unfolding put
bump_at-le u now n dir k m = elim (Option-cases (get k m)) [
  | inl e ↦ rw (e, count_map) (omega arith)
  | inr (f, e) ↦ ground (arith, count_map-remove-lt u k f m e, count_map-remove-le u k m)
]

-- A call under a lock: what ObservePacket does under the lock of one shard, what it does under all
-- locks, and List's turn at one shard.
pub data Call : Type 0 where
  looked_up inserted : ℕ → ℕ → Direction → FlowKey → Call
  listed : ℕ → ℕ → Call

abbrev pub run : Call → Tracker → Tracker
run (looked_up now n dir k) t = (look_up now n dir k t).0
run (inserted now n dir k) t = insert now n dir k t
run (listed now i) t = record t { shards = modify i (with_keys (purge now t.ttl)) t.shards }

abbrev pub after : List Call → Tracker → Tracker
after [] t = t
after (c ∷ calls) t = after calls (run c t)

look_up-le :
    (u now n : ℕ) (dir : Direction) (k : FlowKey) (t : Tracker)
    → count_user u (look_up now n dir k t).0.shards ≤ count_user u t.shards
unfolding look_up
look_up-le u now n dir k t =
    let ticked = on_shard k (tick now t) t in
    let one : count_user u ticked.shards ≤ count_user u t.shards + 0 =
      count_user-modify u (shard_index k) (tick now t) 0 t.shards
        (λ sh. ground (arith, purge-le u now t.ttl sh.by_key)) in
    let two : count_user u (on_shard k (with_keys (bump_at now n dir k)) ticked).shards
        ≤ count_user u ticked.shards + 0 =
      count_user-modify u (shard_index k) (with_keys (bump_at now n dir k)) 0 ticked.shards
        (λ sh. omega (arith, bump_at-le u now n dir k sh.by_key)) in
    elim (Option-cases (flow_at k ticked.shards)) [
      | inl e ↦ rw (e, look_up) (omega (arith, one))
      | inr (f, e) ↦ rw (e, look_up) (omega (arith, one, two))
    ]

insert-le :
    (u now n : ℕ) (dir : Direction) (k : FlowKey) (t : Tracker)
    → 0 < t.max_per_user
    → count_user u t.shards ≤ t.max_per_user
    → count_user u (insert now n dir k t).shards ≤ t.max_per_user
unfolding insert
insert-le u now n dir k t h le =
    let user = k.user_id in
    let room = make_room (count_user user t.shards) t.max_per_user user t.shards in
    let put_new = put k (bump now n dir (new_flow now)) in
    let added : ℕ = if nat_beq k.user_id u then 1 else 0 in
    let bumped =
      count_user-modify u (shard_index k) (with_keys (bump_at now n dir k)) 0 t.shards
        (λ sh. omega (arith, bump_at-le u now n dir k sh.by_key)) in
    let inserted =
      count_user-modify u (shard_index k) (with_keys put_new) added room
        (λ sh. put-le u k (bump now n dir (new_flow now)) sh.by_key) in
    elim (Option-cases (flow_at k t.shards)) [
      | inl e ↦
          rw (e, insert)
            (ground (
              arith,
              inserted,
              le,
              make_room-lt (count_user user t.shards) t.max_per_user user t.shards h (omega arith),
              make_room-le (count_user user t.shards) t.max_per_user u user t.shards,
            ))
      | inr (f, e) ↦ rw (e, insert) (omega (arith, bumped, le))
    ]

listed-le :
    (u now i : ℕ) (t : Tracker) → count_user u (run (listed now i) t).shards ≤ count_user u t.shards
listed-le u now i t = omega (
  arith,
  count_user-modify u i (with_keys (purge now t.ttl)) 0 t.shards
      (λ sh. omega (arith, purge-le u now t.ttl sh.by_key)),
)

run-max : (c : Call) (t : Tracker) → (run c t).max_per_user ≡ t.max_per_user
unfolding look_up insert
run-max (looked_up now n dir k) t = ground arith
run-max (inserted now n dir k) t = ground arith
run-max (listed now i) t = refl

-- At most the limit, for every account.
Capped : Tracker → Type 0
Capped t = (u : ℕ) → count_user u t.shards ≤ t.max_per_user

run-Capped : (c : Call) (t : Tracker) → 0 < t.max_per_user → Capped t → Capped (run c t)
unfolding Capped
run-Capped (looked_up now n dir k) t h capped u =
    omega (arith, look_up-le u now n dir k t, capped u, run-max (looked_up now n dir k) t)
run-Capped (inserted now n dir k) t h capped u =
    omega (arith, insert-le u now n dir k t h (capped u), run-max (inserted now n dir k) t)
run-Capped (listed now i) t h capped u = omega (arith, listed-le u now i t, capped u)

after-Capped :
    (calls : List Call) (t : Tracker)
    → 0 < t.max_per_user
    → Capped t
    → (u : ℕ) → count_user u (after calls t).shards ≤ t.max_per_user
unfolding Capped
after-Capped [] t h capped u = capped u
after-Capped (c ∷ calls) t h capped u = omega (
  arith,
  run-max c t,
  after-Capped calls (run c t) (omega (arith, run-max c t)) (run-Capped c t h capped) u,
)

-- No account ever has more flows in a table than the limit the table was made with, whatever calls
-- run in whatever order, with other calls between the two locked parts of ObservePacket.
pub after-new_capped :
    (ttl max every : ℤ) (calls : List Call) (u : ℕ)
    → count_user u (after calls (new ttl max every)).shards ≤ (new ttl max every).max_per_user
unfolding new Capped
after-new_capped ttl max every calls u =
    after-Capped calls (new ttl max every) (ground arith)
      (λ v. omega (arith, count_user-empty_shards v)) u
