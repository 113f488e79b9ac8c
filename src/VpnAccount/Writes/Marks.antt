-- ===== src/VpnAccount/Writes/Marks.antt =====
-- Whom the marks reach, and lists of routes that a write leaves alone.
use hao_vpn.Prelude.{
  ℕ, ◌≡◌, ◌≢◌, refl, ap, ◌∙◌, inl, inr, Bool, true, false, ◌&&◌, ◌||◌, not, List, [], ◌∷◌, ◌++◌,
  some, arith, nat_beq, ltb, any, any_append, Bool-cases,
}
use hao_vpn.Prelude.Sort.{sort_by, insert_by}
use hao_vpn.VpnAccount.Tables.{PeerRoute, filter, has_member}
use hao_vpn.VpnAccount.Apply.{
  Applier, has_user, mark_user, mark_users, mark_all, mark_members, mark_members_union,
  members_from, normalize_member_user_ids, union_member_user_ids,
}
use hao_vpn.VpnAccount.Writes.{get_peer_route, update_route, remove_route}

-- Apply would make the account reconnect.
abbrev pub is_marked : ℕ → Applier → Bool
is_marked id p = p.is_all || has_user id p.ids

pub mark_users-is_marked :
    (id : ℕ) (ids : List ℕ) (p : Applier)
    → id ≢ 0
    → is_marked id (mark_users ids p) ≡ (is_marked id p || has_user id ids)
unfolding mark_users mark_user
mark_users-is_marked id [] p real = ground arith
mark_users-is_marked id (k ∷ ids) p real = ground (
  arith,
  real,
  mark_users-is_marked id ids (mark_user k p) real,
  any_append (λ j. nat_beq j id) p.ids (k ∷ []),
)

pub has_member_lem : (id : ℕ) (ms : List ℕ) → has_member id ms ≡ (has_user 0 ms || has_user id ms)
has_member_lem id [] = refl
has_member_lem id (m ∷ ms) = ground (arith, has_member_lem id ms)

pub mark_members-is_marked :
    (id : ℕ) (ms : List ℕ) (p : Applier)
    → id ≢ 0
    → is_marked id (mark_members ms p) ≡ (is_marked id p || has_member id ms)
unfolding mark_members mark_all
mark_members-is_marked id ms p real =
    ground (arith, mark_users-is_marked id ms p real, has_member_lem id ms)

pub members_from-has_user :
    (id : ℕ) (out ms : List ℕ)
    → has_user id (members_from out ms)
      ≡ (has_user id out || (not (nat_beq id 0) && has_user id ms))
unfolding members_from
members_from-has_user id out [] = ground arith
members_from-has_user id out (m ∷ ms) = ground (
  arith,
  members_from-has_user id out ms,
  members_from-has_user id (out ++ (m ∷ [])) ms,
  any_append (λ j. nat_beq j id) out (m ∷ []),
)

pub normalize-has_member :
    (id : ℕ) (ms : List ℕ)
    → id ≢ 0
    → has_member id (normalize_member_user_ids ms) ≡ has_member id ms
unfolding normalize_member_user_ids
normalize-has_member id ms real = ground (
  arith,
  real,
  has_member_lem id ms,
  has_member_lem id (members_from [] ms),
  members_from-has_user id [] ms,
  members_from-has_user 0 [] ms,
)

pub any-insert_by :
    (f : ℕ → Bool) (x : ℕ) (xs : List ℕ) → any f (insert_by ltb x xs) ≡ (f x || any f xs)
unfolding insert_by
any-insert_by f x [] = refl
any-insert_by f x (y ∷ ys) = ground (arith, any-insert_by f x ys)

pub any-sort_by : (f : ℕ → Bool) (xs : List ℕ) → any f (sort_by ltb xs) ≡ any f xs
unfolding sort_by
any-sort_by f [] = refl
any-sort_by f (x ∷ xs) = ground (arith, any-insert_by f x (sort_by ltb xs), any-sort_by f xs)

pub stored-has_member :
    (id : ℕ) (ms : List ℕ)
    → id ≢ 0
    → has_member id (sort_by ltb (normalize_member_user_ids ms)) ≡ has_member id ms
stored-has_member id ms real =
    any-sort_by (λ m. nat_beq m 0 || nat_beq m id) (normalize_member_user_ids ms)
    ∙ normalize-has_member id ms real

pub mark_members_union-is_marked :
    (id : ℕ) (a b : List ℕ) (p : Applier)
    → id ≢ 0
    → is_marked id (mark_members_union a b p)
      ≡ (is_marked id p || (has_member id a || has_member id b))
unfolding mark_members_union union_member_user_ids
mark_members_union-is_marked id a b p real = ground (
  arith,
  mark_members-is_marked id (normalize_member_user_ids (a ++ b)) p real,
  normalize-has_member id (a ++ b) real,
  any_append (λ m. nat_beq m 0 || nat_beq m id) a b,
)

-- What a route of others is to an account.
abbrev pub sees : ℕ → PeerRoute → Bool
sees id r = has_member id r.member_user_ids

pub filter-update_route :
    (id k : ℕ) (f : PeerRoute → PeerRoute) (old : PeerRoute) (rs : List PeerRoute)
    → get_peer_route k rs ≡ some old
    → sees id old ≡ false
    → sees id (f old) ≡ false
    → filter (sees id) (update_route k f rs) ≡ filter (sees id) rs
unfolding get_peer_route update_route filter
filter-update_route id k f old [] e a b = refl
filter-update_route id k f old (r ∷ rs) e a b = elim (Bool-cases (nat_beq r.id k)) [
  | inl h ↦
      let same : r ≡ old = ground (arith, h, e) in
      ground (arith, h, a, b, ap (sees id) same, ap (λ x. sees id (f x)) same)
  | inr h ↦ ground (arith, h, e, filter-update_route id k f old rs (ground (arith, h, e)) a b)
]

pub filter-remove_route :
    (id k : ℕ) (old : PeerRoute) (rs : List PeerRoute)
    → get_peer_route k rs ≡ some old
    → sees id old ≡ false
    → filter (sees id) (remove_route k rs) ≡ filter (sees id) rs
unfolding get_peer_route remove_route filter
filter-remove_route id k old [] e a = refl
filter-remove_route id k old (r ∷ rs) e a = elim (Bool-cases (nat_beq r.id k)) [
  | inl h ↦ let same : r ≡ old = ground (arith, h, e) in ground (arith, h, a, ap (sees id) same)
  | inr h ↦ ground (arith, h, e, filter-remove_route id k old rs (ground (arith, h, e)) a)
]

pub filter-snoc {ℓ} :
    {A : Type ℓ} (keep : A → Bool) (x : A) (xs : List A)
    → keep x ≡ false
    → filter keep (xs ++ (x ∷ [])) ≡ filter keep xs
unfolding filter
filter-snoc keep x [] h = ground (arith, h)
filter-snoc keep x (y ∷ ys) h = ground (arith, filter-snoc keep x ys h)

pub filter-filter {ℓ} :
    {A : Type ℓ} (keep other : A → Bool) (xs : List A)
    → ((x : A) → keep x ≡ true → other x ≡ true)
    → filter keep (filter other xs) ≡ filter keep xs
unfolding filter
filter-filter keep other [] h = refl
filter-filter keep other (x ∷ xs) h = ground (arith, h x, filter-filter keep other xs h)
