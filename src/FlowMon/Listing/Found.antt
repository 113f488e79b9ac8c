-- ===== src/FlowMon/Listing/Found.antt =====
-- What a listing finds, and its order.
use hao_vpn.Prelude.{
  ℕ, zero, suc, ◌≡◌, refl, Bool, true, false, List, [], ◌∷◌, ◌++◌, arith, All, All-append, ◌⊎◌, inl,
  inr, Exists, some, ==_iff,
}
use hao_vpn.Prelude.Map.{Map, get}
use hao_vpn.Prelude.Sort.{insert_by, sort_by}
use hao_vpn.FlowMon.Key.{FlowKey, key_eq}
use hao_vpn.FlowMon.Shards.{Flow, Shard, get_elem?}
use hao_vpn.FlowMon.SortQuery.{SortKey}
use hao_vpn.FlowMon.Observe.{is_expired}
use hao_vpn.FlowMon.Listing.{
  Snapshot, ListFilter, passes_filter, Iteration, collect, collect_all, before,
}

-- A snapshot that belongs on the list.
abbrev pub Belongs : ℕ → ℕ → ListFilter → Snapshot → Type 0
Belongs now ttl f s = (is_expired now ttl s.flow ≡ false) × (passes_filter f s.key ≡ true)

collect-Belongs :
    (now ttl : ℕ) (f : ListFilter) (m : Map FlowKey Flow)
    → All (Belongs now ttl f) (collect now ttl f m)
unfolding collect
collect-Belongs now ttl f [] = tt
collect-Belongs now ttl f ((k, fl) ∷ m) = ground (arith, collect-Belongs now ttl f m)

-- The order in which the map itself stands.
abbrev pub as_stored : Iteration
as_stored m = m

pub collect_all-Belongs :
    (now ttl : ℕ) (f : ListFilter) (shards : List Shard)
    → All (Belongs now ttl f) (collect_all now ttl f as_stored shards)
unfolding collect_all
collect_all-Belongs now ttl f [] = tt
collect_all-Belongs now ttl f (sh ∷ shards) =
    All-append (Belongs now ttl f) (collect now ttl f sh.by_key)
      (collect_all now ttl f as_stored shards) (collect-Belongs now ttl f sh.by_key)
      (collect_all-Belongs now ttl f shards)

module _ {ℓ} {A : Type ℓ} where
  insert_by-All :
      (P : A → Type 0) (less : A → A → Bool) (x : A) (xs : List A)
      → P x
      → All P xs
      → All P (insert_by less x xs)
  unfolding insert_by
  insert_by-All P less x [] px pxs = (px, tt)
  insert_by-All P less x (y ∷ ys) px pxs =
      ground (arith, px, pxs, insert_by-All P less x ys px pxs.1)

  pub sort_by-All :
      (P : A → Type 0) (less : A → A → Bool) (xs : List A) → All P xs → All P (sort_by less xs)
  unfolding sort_by
  sort_by-All P less [] h = tt
  sort_by-All P less (x ∷ xs) h =
      insert_by-All P less x (sort_by less xs) h.0 (sort_by-All P less xs h.1)

  -- Each element may stand before the next.
  abbrev pub Sorted : (A → A → Bool) → List A → Type 0
  Sorted less [] = Unit
  Sorted less (x ∷ []) = Unit
  Sorted less (x ∷ y ∷ ys) = (less y x ≡ false) × Sorted less (y ∷ ys)

  insert_by-Sorted :
      (less : A → A → Bool) (x : A) (xs : List A)
      → ((a b : A) → less a b ≡ true → less b a ≡ false)
      → Sorted less xs
      → Sorted less (insert_by less x xs)
  unfolding insert_by
  insert_by-Sorted less x [] asym h = tt
  insert_by-Sorted less x (y ∷ []) asym h = ground (arith, asym y x)
  insert_by-Sorted less x (y ∷ z ∷ zs) asym h =
      ground (arith, asym y x, asym z x, h.0, h.1, insert_by-Sorted less x (z ∷ zs) asym h.1)

  pub sort_by-Sorted :
      (less : A → A → Bool) (xs : List A)
      → ((a b : A) → less a b ≡ true → less b a ≡ false)
      → Sorted less (sort_by less xs)
  unfolding sort_by
  sort_by-Sorted less [] asym = tt
  sort_by-Sorted less (x ∷ xs) asym =
      insert_by-Sorted less x (sort_by less xs) asym (sort_by-Sorted less xs asym)

  insert_by-Exists :
      (P : A → Type 0) (less : A → A → Bool) (x : A) (xs : List A)
      → P x ⊎ Exists P xs
      → Exists P (insert_by less x xs)
  unfolding insert_by
  insert_by-Exists P less x [] h = h
  insert_by-Exists P less x (y ∷ ys) h = ground (arith, h, insert_by-Exists P less x ys)

  pub sort_by-Exists :
      (P : A → Type 0) (less : A → A → Bool) (xs : List A)
      → Exists P xs
      → Exists P (sort_by less xs)
  unfolding sort_by
  sort_by-Exists P less [] h = elim h [ ]
  sort_by-Exists P less (x ∷ xs) (inl p) = insert_by-Exists P less x (sort_by less xs) (inl p)
  sort_by-Exists P less (x ∷ xs) (inr p) =
      insert_by-Exists P less x (sort_by less xs) (inr (sort_by-Exists P less xs p))

  Exists-append_left : (P : A → Type 0) (xs ys : List A) → Exists P xs → Exists P (xs ++ ys)
  Exists-append_left P [] ys h = elim h [ ]
  Exists-append_left P (x ∷ xs) ys (inl p) = inl p
  Exists-append_left P (x ∷ xs) ys (inr p) = inr (Exists-append_left P xs ys p)

  Exists-append_right : (P : A → Type 0) (xs ys : List A) → Exists P ys → Exists P (xs ++ ys)
  Exists-append_right P [] ys p = p
  Exists-append_right P (x ∷ xs) ys p = inr (Exists-append_right P xs ys p)

pub before-asym :
    (keys : List SortKey) (a b : Snapshot) → before keys a b ≡ true → before keys b a ≡ false
unfolding before
before-asym [] a b h = refl
before-asym (k ∷ keys) a b h = ground (arith, before-asym keys a b)

collect_complete :
    (now ttl : ℕ) (f : ListFilter) (k : FlowKey) (fl : Flow) (m : Map FlowKey Flow)
    → get k m ≡ some fl
    → Belongs now ttl f (record { key = k; flow = fl })
    → Exists (λ s. s ≡ record { key = k; flow = fl }) (collect now ttl f m)
unfolding collect get
collect_complete now ttl f k fl [] h b = cc
collect_complete now ttl f k fl ((j, g) ∷ m) h b =
    ground (arith, ==_iff j k, collect_complete now ttl f k fl m)

pub collect_all_complete :
    (now ttl i : ℕ) (f : ListFilter) (k : FlowKey) (fl : Flow) (sh : Shard) (shards : List Shard)
    → get_elem? shards i ≡ some sh
    → get k sh.by_key ≡ some fl
    → Belongs now ttl f (record { key = k; flow = fl })
    → Exists (λ s. s ≡ record { key = k; flow = fl }) (collect_all now ttl f as_stored shards)
unfolding collect_all
collect_all_complete now ttl zero f k fl sh (s ∷ shards) at h b =
    let here = collect_complete now ttl f k fl s.by_key (ground (arith, at, h)) b in
    Exists-append_left (λ s. s ≡ record { key = k; flow = fl }) (collect now ttl f s.by_key)
      (collect_all now ttl f as_stored shards) here
collect_all_complete now ttl (suc i) f k fl sh (s ∷ shards) at h b =
    Exists-append_right (λ s. s ≡ record { key = k; flow = fl }) (collect now ttl f s.by_key)
      (collect_all now ttl f as_stored shards)
      (collect_all_complete now ttl i f k fl sh shards at h b)
collect_all_complete now ttl i f k fl sh [] at h b = cc
