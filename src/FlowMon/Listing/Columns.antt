-- ===== src/FlowMon/Listing/Columns.antt =====
-- What the listings of one table have in common, whatever orders its maps are iterated in.
use mathlib.Core.List.{Permᴰ}
use mathlib.Core.List.Permᴰ
use hao_vpn.Prelude.{
  ℕ, ◌≡◌, ◌≢◌, refl, ap, sym, subst, ◌∙◌, Bool, true, false, List, [], ◌∷◌, arith, All, ◌⊎◌, inl,
  inr, Exists, map, Bool-cases, not, ◌&&◌,
}
use hao_vpn.Prelude.Map.{Map}
use hao_vpn.Prelude.Sort.{insert_by, sort_by}
use hao_vpn.FlowMon.Key.{FlowKey}
use hao_vpn.FlowMon.Shards.{Flow, Shard}
use hao_vpn.FlowMon.SortQuery.{SortKey}
use hao_vpn.FlowMon.Observe.{is_expired}
use hao_vpn.FlowMon.Listing.{
  Snapshot, ListFilter, Iteration, passes_filter, collect, collect_all, before, column_value,
}
use hao_vpn.FlowMon.Listing.Found.{as_stored, Sorted, before-asym}

-- An iteration goes over every entry once.
abbrev pub IsRange : Iteration → Type 0
IsRange range = (m : Map FlowKey Flow) → Permᴰ (range m) m

-- The numbers by which a flow is sorted.
abbrev pub columns : List SortKey → Snapshot → List ℕ
columns keys s = map {A = SortKey} (λ k. column_value k.column s) keys

before_same :
    (keys : List SortKey) (a b c : Snapshot)
    → columns keys a ≡ columns keys b
    → before keys a c ≡ before keys b c
unfolding before
before_same [] a b c h = refl
before_same (k ∷ keys) a b c h = ground (arith, h, before_same keys a b c)

before_same_right :
    (keys : List SortKey) (a b c : Snapshot)
    → columns keys a ≡ columns keys b
    → before keys c a ≡ before keys c b
unfolding before
before_same_right [] a b c h = refl
before_same_right (k ∷ keys) a b c h = ground (arith, h, before_same_right keys a b c)

tied :
    (keys : List SortKey) (a b : Snapshot)
    → before keys a b ≡ false
    → before keys b a ≡ false
    → columns keys a ≡ columns keys b
unfolding before
tied [] a b h h' = refl
tied (k ∷ keys) a b h h' = ground (arith, h, h', tied keys a b)

before_between :
    (keys : List SortKey) (x y z : Snapshot)
    → before keys z x ≡ true
    → before keys z y ≡ false
    → before keys y x ≡ true
unfolding before
before_between [] x y z h h' = h
before_between (k ∷ keys) x y z h h' = ground (arith, h, h', before_between keys x y z)

module _ (keys : List SortKey) where
  abbrev cols : List Snapshot → List (List ℕ)
  cols = map (columns keys)

  insert_by-cols :
      (x y : Snapshot) (xs ys : List Snapshot)
      → columns keys x ≡ columns keys y
      → cols xs ≡ cols ys
      → cols (insert_by (before keys) x xs) ≡ cols (insert_by (before keys) y ys)
  unfolding insert_by
  insert_by-cols x y [] [] e h = ground (arith, e)
  insert_by-cols x y [] (b ∷ ys) e h = absurd (ground (arith, h))
  insert_by-cols x y (a ∷ xs) [] e h = absurd (ground (arith, h))
  insert_by-cols x y (a ∷ xs) (b ∷ ys) e h =
      let same : columns keys a ≡ columns keys b = ground (arith, h) in
      let rest : cols xs ≡ cols ys = ground (arith, h) in
      ground (
        arith,
        e,
        same,
        rest,
        before_same keys a b x same,
        before_same_right keys x y b e,
        insert_by-cols x y xs ys e rest,
      )

  insert_by-swap :
      (x y : Snapshot) (xs : List Snapshot)
      → cols (insert_by (before keys) x (insert_by (before keys) y xs))
        ≡ cols (insert_by (before keys) y (insert_by (before keys) x xs))
  unfolding insert_by
  insert_by-swap x y [] = ground (arith, tied keys x y, before-asym keys x y, before-asym keys y x)
  insert_by-swap x y (z ∷ xs) = ground (
    arith,
    insert_by-swap x y xs,
    tied keys x y,
    before-asym keys x y,
    before-asym keys y x,
    before_between keys x y z,
    before_between keys y x z,
  )

  -- Sorting lists that agree up to order gives the same columns at every place.
  pub sort_by-cols :
      {xs ys : List Snapshot}
      → Permᴰ xs ys
      → cols (sort_by (before keys) xs) ≡ cols (sort_by (before keys) ys)
  unfolding sort_by
  sort_by-cols Permᴰ.nil = refl
  sort_by-cols (Permᴰ.cons {a = a} {b = b} {l₁ = l} {l₂ = l'} e p) =
      insert_by-cols a b (sort_by (before keys) l) (sort_by (before keys) l') (ap (columns keys) e)
        (sort_by-cols p)
  sort_by-cols (Permᴰ.swap {a = a} {b = b} {l = l} e f) =
      cc (e, f, insert_by-swap a b (sort_by (before keys) l))
  sort_by-cols (Permᴰ.trans p q) = sort_by-cols p ∙ sort_by-cols q

module _ (now ttl : ℕ) (f : ListFilter) where
  abbrev Entry : Type 0
  Entry = FlowKey × Flow

  abbrev is_listed : Entry → Bool
  is_listed (k, fl) = not (is_expired now ttl fl) && passes_filter f k

  abbrev snapshot : Entry → Snapshot
  snapshot (k, fl) = record { key = k; flow = fl }

  collect_listed :
      (e : Entry) (m : Map FlowKey Flow)
      → is_listed e ≡ true
      → collect now ttl f (e ∷ m) ≡ snapshot e ∷ collect now ttl f m
  unfolding collect
  collect_listed (k, fl) m h = ground (arith, h)

  collect_skipped :
      (e : Entry) (m : Map FlowKey Flow)
      → is_listed e ≡ false
      → collect now ttl f (e ∷ m) ≡ collect now ttl f m
  unfolding collect
  collect_skipped (k, fl) m h = ground (arith, h)

  collect-cons :
      (e : Entry) (l l' : Map FlowKey Flow)
      → Permᴰ (collect now ttl f l) (collect now ttl f l')
      → Permᴰ (collect now ttl f (e ∷ l)) (collect now ttl f (e ∷ l'))
  collect-cons e l l' p = elim (Bool-cases (is_listed e)) [
    | inl h ↦ rw (collect_listed e l h, collect_listed e l' h) (Permᴰ.cons refl p)
    | inr h ↦ rw (collect_skipped e l h, collect_skipped e l' h) p
  ]

  collect-swap :
      (d e : Entry) (l : Map FlowKey Flow)
      → Permᴰ (collect now ttl f (d ∷ e ∷ l)) (collect now ttl f (e ∷ d ∷ l))
  collect-swap d e l = elim (Bool-cases (is_listed d)) [
    | inl h ↦ elim (Bool-cases (is_listed e)) [
      | inl j ↦
          rw
            (
              collect_listed d (e ∷ l) h,
              collect_listed e (d ∷ l) j,
              collect_listed d l h,
              collect_listed e l j,
            )
            (Permᴰ.swap refl refl)
      | inr j ↦
          rw
            (
              collect_listed d (e ∷ l) h,
              collect_skipped e (d ∷ l) j,
              collect_listed d l h,
              collect_skipped e l j,
            )
            (Permᴰ.refl (snapshot d ∷ collect now ttl f l))
    ]
    | inr h ↦ rw (collect_skipped d (e ∷ l) h) (
        collect-cons e l (d ∷ l) (
          subst (λ xs. Permᴰ (collect now ttl f l) xs) (sym (collect_skipped d l h))
            (Permᴰ.refl (collect now ttl f l))))
  ]

  collect-perm :
      {l l' : Map FlowKey Flow} → Permᴰ l l' → Permᴰ (collect now ttl f l) (collect now ttl f l')
  collect-perm Permᴰ.nil = Permᴰ.refl (collect now ttl f [])
  collect-perm (Permᴰ.cons {a = a} {b = b} {l₁ = l} {l₂ = l'} e p) =
      subst (λ x. Permᴰ (collect now ttl f (a ∷ l)) (collect now ttl f (x ∷ l'))) e
        (collect-cons a l l' (collect-perm p))
  collect-perm (Permᴰ.swap {a = a} {b = b} {b' = b'} {l = l} e g) =
      subst (λ x. Permᴰ (collect now ttl f (a ∷ b ∷ l)) (collect now ttl f (x ∷ b' ∷ l))) g
        (subst (λ y. Permᴰ (collect now ttl f (a ∷ b ∷ l)) (collect now ttl f (b ∷ y ∷ l))) e
          (collect-swap a b l))
  collect-perm (Permᴰ.trans p q) = Permᴰ.trans (collect-perm p) (collect-perm q)

  -- A listing in any order holds the flows of the table.
  pub collect_all-perm :
      (range : Iteration) (shards : List Shard)
      → IsRange range
      → Permᴰ (collect_all now ttl f range shards) (collect_all now ttl f as_stored shards)
  unfolding collect_all
  collect_all-perm range [] ok_ = Permᴰ.nil
  collect_all-perm range (sh ∷ shards) ok_ =
      let later = collect_all now ttl f range shards in
      let here = collect now ttl f sh.by_key in
      Permᴰ.trans (Permᴰ.append_right later (collect-perm (ok_ sh.by_key)))
        (Permᴰ.append_left here (collect_all-perm range shards ok_))

pub perm-All : (P : Snapshot → Type 0) {xs ys : List Snapshot} → Permᴰ xs ys → All P xs → All P ys
perm-All P Permᴰ.nil h = tt
perm-All P (Permᴰ.cons e p) h = (subst P e h.0, perm-All P p h.1)
perm-All P (Permᴰ.swap e g) h = (subst P g h.1.0, (subst P e h.0, h.1.1))
perm-All P (Permᴰ.trans p q) h = perm-All P q (perm-All P p h)

-- Whether a list is sorted is read off its columns.
pub Sorted-cols :
    (keys : List SortKey) (xs ys : List Snapshot)
    → map (columns keys) xs ≡ map (columns keys) ys
    → Sorted (before keys) xs
    → Sorted (before keys) ys
Sorted-cols keys xs [] h s = tt
Sorted-cols keys xs (y ∷ []) h s = tt
Sorted-cols keys [] (y ∷ z ∷ ys) h s = absurd (ground (arith, h))
Sorted-cols keys (a ∷ []) (y ∷ z ∷ ys) h s = absurd (ground (arith, h))
Sorted-cols keys (a ∷ b ∷ xs) (y ∷ z ∷ ys) h s =
    let first : columns keys a ≡ columns keys y = ground (arith, h) in
    let second : columns keys b ≡ columns keys z = ground (arith, h) in
    (
      sym (before_same keys b z a second ∙ before_same_right keys a y z first) ∙ s.0,
      Sorted-cols keys (b ∷ xs) (z ∷ ys) (ground (arith, h)) s.1,
    )

-- A flow that alone has its columns is found wherever they stand.
pub Exists-cols :
    (keys : List SortKey) (s : Snapshot) (xs ys : List Snapshot)
    → map (columns keys) xs ≡ map (columns keys) ys
    → Exists (λ x. x ≡ s) xs
    → All (λ y. (y ≡ s) ⊎ (columns keys y ≢ columns keys s)) ys
    → Exists (λ y. y ≡ s) ys
Exists-cols keys s [] ys h e only = elim e [ ]
Exists-cols keys s (x ∷ xs) [] h e only = absurd (ground (arith, h))
Exists-cols keys s (x ∷ xs) (y ∷ ys) h (inl e) (inl same, only) = inl same
Exists-cols keys s (x ∷ xs) (y ∷ ys) h (inl e) (inr other, only) =
    let c : columns keys x ≡ columns keys y = ground (arith, h) in
    absurd (other (sym c ∙ ap (columns keys) e))
Exists-cols keys s (x ∷ xs) (y ∷ ys) h (inr m) only =
    inr (Exists-cols keys s xs ys (ground (arith, h)) m only.1)
