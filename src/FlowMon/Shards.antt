-- ===== src/FlowMon/Shards.antt =====
-- The sixteen parts of the table, and what reads or changes one place of the list.
use hao_vpn.Prelude.{
  ℕ, zero, suc, ◌+◌, ◌≤◌, ◌<◌, ◌≡◌, refl, List, [], ◌∷◌, Option, none, some, arith, nat_beq,
  if◌then◌else◌, ==_iff,
}
use hao_vpn.Prelude.Map.{Map, get, remove}
use hao_vpn.FlowMon.Key.{FlowKey, key_eq}

pub record Flow : Type 0 where
  pub bytes_in : ℕ
  pub bytes_out : ℕ
  pub packets_in : ℕ
  pub packets_out : ℕ
  pub first_seen : ℕ
  pub last_seen : ℕ

-- `observe_n` is a uint64.
pub record Shard : Type 0 where
  pub by_key : Map FlowKey Flow
  pub observe_n : ℕ

abbrev pub empty_shard : Shard
empty_shard = record { by_key = []; observe_n = 0 }

-- Lists of sixteen, by position; past the end nothing is read or changed.
module _ {ℓ} {A : Type ℓ} where
  abbrev pub get_elem? : List A → ℕ → Option A
  get_elem? [] i = none
  get_elem? (x ∷ xs) zero = some x
  get_elem? (x ∷ xs) (suc i) = get_elem? xs i

  abbrev pub modify : ℕ → (A → A) → List A → List A
  modify i f [] = []
  modify zero f (x ∷ xs) = f x ∷ xs
  modify (suc i) f (x ∷ xs) = x ∷ modify i f xs

  abbrev pub replicate : ℕ → A → List A
  replicate zero x = []
  replicate (suc n) x = x ∷ replicate n x

  pub get_elem?-modify :
      (i j : ℕ) (f : A → A) (xs : List A)
      → get_elem? (modify i f xs) j ≡ (
          if nat_beq i j
          then (elim (get_elem? xs j) [ none ↦ none | some x ↦ some (f x) ])
          else get_elem? xs j)
  get_elem?-modify i j f [] = ground arith
  get_elem?-modify zero zero f (x ∷ xs) = refl
  get_elem?-modify zero (suc j) f (x ∷ xs) = ground arith
  get_elem?-modify (suc i) zero f (x ∷ xs) = ground arith
  get_elem?-modify (suc i) (suc j) f (x ∷ xs) = ground (arith, get_elem?-modify i j f xs)

abbrev pub empty_shards : List Shard
empty_shards = replicate 16 empty_shard

abbrev pub with_keys : (Map FlowKey Flow → Map FlowKey Flow) → Shard → Shard
with_keys f sh = record sh { by_key = f sh.by_key }

-- How many entries of a map are the account's.
abbrev pub count_map : ℕ → Map FlowKey Flow → ℕ
count_map user [] = 0
count_map user ((k, f) ∷ m) =
    if nat_beq k.user_id user then suc (count_map user m) else count_map user m

-- countUserLocked
unfoldable pub count_user : ℕ → List Shard → ℕ
count_user user [] = 0
count_user user (sh ∷ shards) = count_map user sh.by_key + count_user user shards

pub count_user-empty_shards : (user : ℕ) → count_user user empty_shards ≡ 0
unfolding count_user
count_user-empty_shards user = omega arith

pub count_map-remove-le :
    (user : ℕ) (k : FlowKey) (m : Map FlowKey Flow) → count_map user (remove k m) ≤ count_map user m
unfolding remove
count_map-remove-le user k [] = omega arith
count_map-remove-le user k ((j, f) ∷ m) = ground (arith, count_map-remove-le user k m)

-- An entry that is there makes its removal count.
pub count_map-remove-lt :
    (user : ℕ) (k : FlowKey) (f : Flow) (m : Map FlowKey Flow)
    → get k m ≡ some f
    → k.user_id ≡ user
    → count_map user (remove k m) < count_map user m
unfolding remove get
count_map-remove-lt user k f [] h e = cc
count_map-remove-lt user k f ((j, g) ∷ m) h e =
    ground (arith, count_map-remove-lt user k f m, count_map-remove-le user k m, ==_iff j k)

-- What a change of one shard does to the count of the whole.
pub count_user-modify :
    (user i : ℕ) (g : Shard → Shard) (n : ℕ) (shards : List Shard)
    → ((sh : Shard) → count_map user (g sh).by_key ≤ count_map user sh.by_key + n)
    → count_user user (modify i g shards) ≤ count_user user shards + n
unfolding count_user
count_user-modify user i g n [] h = omega arith
count_user-modify user zero g n (sh ∷ shards) h = omega (arith, h sh)
count_user-modify user (suc i) g n (sh ∷ shards) h =
    omega (arith, count_user-modify user i g n shards h)

pub count_user-modify_lt :
    (user i : ℕ) (g : Map FlowKey Flow → Map FlowKey Flow) (sh : Shard) (shards : List Shard)
    → get_elem? shards i ≡ some sh
    → count_map user (g sh.by_key) < count_map user sh.by_key
    → count_user user (modify i (with_keys g) shards) < count_user user shards
unfolding count_user
count_user-modify_lt user i g sh [] found h = cc
count_user-modify_lt user zero g sh (s ∷ shards) found h = ground (arith, found)
count_user-modify_lt user (suc i) g sh (s ∷ shards) found h =
    omega (arith, count_user-modify_lt user i g sh shards found h)
