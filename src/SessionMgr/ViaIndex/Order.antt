-- ===== src/SessionMgr/ViaIndex/Order.antt =====
-- The index does not depend on the order in which Go iterates over the sessions.
use mathlib.Core.List.{Permᴰ}
use hao_vpn.Prelude.{
  ℕ, ◌≡◌, refl, ap, ◌∙◌, inl, inr, Bool, List, [], ◌∷◌, some, nat_eq, arith, ltb, All, All-append,
  Bool-cases, Option-cases,
}
use hao_vpn.Prelude.Map.{get}
use hao_vpn.Prelude.Sort.{insert_by, sort_by}
use hao_vpn.Net.{Text6}
use hao_vpn.SessionMgr.{AccountSession, Manager, ViaRoute, session_of}
use hao_vpn.SessionMgr.ViaIndex.{via_less, user_ids, routes_of, rebuild_via_index}

insert_by_comm :
    (x y : ℕ) (xs : List ℕ)
    → insert_by ltb x (insert_by ltb y xs) ≡ insert_by ltb y (insert_by ltb x xs)
unfolding insert_by
insert_by_comm x y [] = ground arith
insert_by_comm x y (z ∷ xs) = ground (arith, insert_by_comm x y xs)

sort_by-perm : {xs ys : List ℕ} → Permᴰ xs ys → sort_by ltb xs ≡ sort_by ltb ys
unfolding sort_by
sort_by-perm Permᴰ.nil = refl
sort_by-perm (Permᴰ.cons {l₁ = l} {l₂ = l'} e p) = cc (e, sort_by-perm p)
sort_by-perm (Permᴰ.swap {a = a} {b = b} {l = l} e f) =
    cc (e, f, insert_by_comm a b (sort_by ltb l))
sort_by-perm (Permᴰ.trans p q) = sort_by-perm p ∙ sort_by-perm q

module _ {S : Type 0} (t : Text6) where
  -- One map of sessions seen in two orders: the same sessions, and the same keys.
  pub record SameSessions (m m' : Manager S) : Type 0 where
    pub heap : m.heap ≡ m'.heap
    pub entries : (id : ℕ) → get id m.sessions ≡ get id m'.sessions
    pub keys : Permᴰ (user_ids m) (user_ids m')

  routes_of_same :
      (m m' : Manager S) (ids : List ℕ) → SameSessions m m' → routes_of m ids ≡ routes_of m' ids
  unfolding routes_of
  routes_of_same m m' [] same = refl
  routes_of_same m m' (id ∷ ids) same =
      ground (arith, same.heap, same.entries id, routes_of_same m m' ids same)

  -- The rebuilt index of managed routes is the same for every order in which the map of sessions
  -- is iterated.
  pub rebuild_via_index_order :
      (m m' : Manager S)
      → SameSessions m m'
      → (rebuild_via_index t m).via_index ≡ (rebuild_via_index t m').via_index
  unfolding rebuild_via_index
  rebuild_via_index_order m m' same =
      rw (sort_by-perm same.keys)
        (ap (sort_by (via_less t)) (routes_of_same m m' (sort_by ltb (user_ids m')) same))

-- A predicate of all routes holds of all routes of the index if it holds of each session's.
pub All-insert_by {ℓ} :
    {A : Type ℓ} (P : A → Type 0) (less : A → A → Bool) (x : A) (xs : List A)
    → P x
    → All P xs
    → All P (insert_by less x xs)
unfolding insert_by
All-insert_by P less x [] p ps = (p, tt)
All-insert_by P less x (y ∷ ys) p ps = elim (Bool-cases (less y x)) [
  | inl e ↦ rw e (ps.0, All-insert_by P less x ys p ps.1)
  | inr e ↦ rw e (p, ps)
]

All-sort_by {ℓ} :
    {A : Type ℓ} (P : A → Type 0) (less : A → A → Bool) (xs : List A)
    → All P xs
    → All P (sort_by less xs)
unfolding sort_by
All-sort_by P less [] ps = tt
All-sort_by P less (x ∷ xs) ps =
    All-insert_by P less x (sort_by less xs) ps.0 (All-sort_by P less xs ps.1)

module _ {S : Type 0} (t : Text6) (P : ViaRoute → Type 0) where
  abbrev pub EachSession : Manager S → Type 0
  EachSession m =
      (id r : ℕ) (ps : AccountSession S) → session_of m id ≡ some (r, ps) → All P ps.via_routes

  All-routes_of : (m : Manager S) (ids : List ℕ) → EachSession m → All P (routes_of m ids)
  unfolding routes_of
  All-routes_of m [] each = tt
  All-routes_of m (id ∷ ids) each = elim (Option-cases (session_of m id)) [
    | inl e ↦ rw (e, routes_of) (All-routes_of m ids each)
    | inr ((r, ps), e) ↦
        rw (e, routes_of)
          (All-append P ps.via_routes (routes_of m ids) (each id r ps e) (All-routes_of m ids each))
  ]

  pub All-rebuild_via_index :
      (m : Manager S) → EachSession m → All P (rebuild_via_index t m).via_index
  unfolding rebuild_via_index
  All-rebuild_via_index m each =
      All-sort_by P (via_less t) _ (All-routes_of m (sort_by ltb (user_ids m)) each)
