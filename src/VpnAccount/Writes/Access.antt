-- ===== src/VpnAccount/Writes/Access.antt =====
-- Access among peers: both sides of a pair are marked, and nobody else sees a difference.
use hao_vpn.Prelude.{
  ℕ, ◌≡◌, ◌≢◌, refl, ap, subst, ◌∙◌, ◌⊎◌, inl, inr, Bool, ◌||◌, not, List, [], ◌∷◌, ◌++◌, arith,
  nat_beq, any, Bool-cases, ok, err, Result-cases,
}
use hao_vpn.VpnAccount.Tables.{Database, filter, get_user_by_id}
use hao_vpn.VpnAccount.Apply.{has_user, mark_users}
use hao_vpn.VpnAccount.Writes.{
  Peers, WriteError, set_access, is_pair, add_access, add_peer_access_pair, add_peer_access,
  remove_peer_access,
}
use hao_vpn.VpnAccount.Writes.Marks.{is_marked, mark_users-is_marked, filter-snoc, filter-filter}
use hao_vpn.VpnAccount.Writes.Routes.{Same, Followed, same-Followed, set_access-Same}

abbrev pub is_own : ℕ → ℕ × ℕ → Bool
is_own id row = nat_beq row.0 id

pub add-Same :
    (id a b : ℕ) (tb tb' : Database) → add_access a b tb ≡ ok tb' → id ≢ a → Same id tb tb'
unfolding add_access
add-Same id a b tb tb' h other = elim (Bool-cases (any (is_pair a b) tb.peer_access)) [
  | inl k ↦ subst (Same id tb) (ground (arith, h, k)) (refl, refl)
  | inr k ↦ subst (Same id tb) (ground (arith, h, k)) (
      set_access-Same id (tb.peer_access ++ ((a, b) ∷ [])) tb
        (filter-snoc (is_own id) (a, b) tb.peer_access (ground (arith, other))))
]

-- What is checked for one direction holds for the other.
pub add_back :
    (a b : ℕ) (rows : List (ℕ × ℕ)) (tb tb' : Database)
    → add_access a b tb ≡ ok tb'
    → (tb'' : Database) × (add_access b a (set_access rows tb) ≡ ok tb'') × (a ≢ 0) × (b ≢ 0)
unfolding add_access get_user_by_id
add_back a b rows tb tb' h = elim (Bool-cases (any (is_pair b a) rows)) [
  | inl j ↦ (set_access rows tb, ground (arith, h, j), ground (arith, h), ground (arith, h))
  | inr j ↦ (
    set_access (rows ++ ((b, a) ∷ [])) tb,
    ground (arith, h, j),
    ground (arith, h),
    ground (arith, h),
  )
]

pub added_rows :
    (a b : ℕ) (tb tb' : Database)
    → add_access a b tb ≡ ok tb'
    → (rows : List (ℕ × ℕ)) × (set_access rows tb ≡ tb')
unfolding add_access
added_rows a b tb tb' h = elim (Bool-cases (any (is_pair a b) tb.peer_access)) [
  | inl k ↦ (tb.peer_access, ground (arith, h, k))
  | inr k ↦ (tb.peer_access ++ ((a, b) ∷ []), ground (arith, h, k))
]

pub add-users : (a b : ℕ) (tb tb' : Database) → add_access a b tb ≡ ok tb' → tb'.users ≡ tb.users
unfolding add_access
add-users a b tb tb' h = ground (arith, h)

pub pair_branch :
    (a b : ℕ) (tb : Database)
    → ((e : WriteError) × (add_peer_access_pair a b tb ≡ (tb, err e)))
      ⊎ ((tb' : Database) × (add_peer_access_pair a b tb ≡ (tb', ok tt))
          × (a ≢ 0)
          × (b ≢ 0)
          × (tb'.users ≡ tb.users)
          × ((id : ℕ) → (id ≡ a) ⊎ ((id ≡ b) ⊎ Same id tb tb')))
unfolding add_peer_access_pair
pair_branch a b tb = elim (Result-cases (add_access a b tb)) [
  | inr (e, h) ↦ inl (e, ground (arith, h))
  | inl (tb', h) ↦
      let (rows, same) = added_rows a b tb tb' h in
      let (tb'', back, left, right) = add_back a b rows tb tb' h in
      let back' : add_access b a tb' ≡ ok tb'' =
        subst (λ x. add_access b a x ≡ ok tb'') same back in
      inr (
        tb'',
        ground (arith, h, back'),
        left,
        right,
        add-users b a tb' tb'' back' ∙ add-users a b tb tb' h,
        λ id. elim (Bool-cases (nat_beq id a)) [
          | inl i ↦ inl (ground (arith, i))
          | inr i ↦ elim (Bool-cases (nat_beq id b)) [
            | inl j ↦ inr (inl (ground (arith, j)))
            | inr j ↦
                let one = add-Same id a b tb tb' h (ground (arith, i)) in
                let two = add-Same id b a tb' tb'' back' (ground (arith, j)) in
                inr (inr (two.0 ∙ one.0, two.1 ∙ one.1))
          ]
        ],
      )
]

-- Either the account is one of the two, who are marked, or it sees the same.
pub pair-Followed :
    (id a b : ℕ) (s s' : Peers)
    → id ≢ 0
    → s'.applier ≡ mark_users (a ∷ b ∷ []) s.applier
    → (id ≡ a) ⊎ ((id ≡ b) ⊎ Same id s.tables s'.tables)
    → Followed id s s'
pair-Followed id a b s s' real e h =
    let marks : is_marked id s'.applier ≡ (is_marked id s.applier || has_user id (a ∷ b ∷ [])) =
      ap (is_marked id) e ∙ mark_users-is_marked id (a ∷ b ∷ []) s.applier real in
    elim (Bool-cases (has_user id (a ∷ b ∷ []))) [
      | inl k ↦ inl (ground (arith, marks, k))
      | inr k ↦ elim h [
        | inl one ↦ absurd (ground (arith, k, one))
        | inr (inl two) ↦ absurd (ground (arith, k, two))
        | inr (inr same) ↦ inr (ground (arith, marks, k), same)
      ]
    ]

pub add-Followed : (id a b : ℕ) (s : Peers) → id ≢ 0 → Followed id s (add_peer_access a b s).0
unfolding add_peer_access
add-Followed id a b s real = elim (pair_branch a b s.tables) [
  | inl (e, h) ↦ same-Followed id s (add_peer_access a b s).0 (ground (arith, h))
  | inr (tb', h, left, right, users, other) ↦
      pair-Followed id a b s (add_peer_access a b s).0 real (ground (arith, h))
        (subst (λ x. (id ≡ a) ⊎ ((id ≡ b) ⊎ Same id s.tables x)) (ground (arith, h)) (other id))
]

pub remove-Followed : (id a b : ℕ) (s : Peers) → id ≢ 0 → Followed id s (remove_peer_access a b s).0
unfolding remove_peer_access
remove-Followed id a b s real = elim (Bool-cases (nat_beq a 0 || nat_beq b 0)) [
  | inl z ↦ same-Followed id s (remove_peer_access a b s).0 (ground (arith, z))
  | inr z ↦
      let other : ℕ × ℕ → Bool = λ row. not (is_pair a b row || is_pair b a row) in
      let rows = filter other s.tables.peer_access in
      pair-Followed id a b s (remove_peer_access a b s).0 real (ground (arith, z))
        (elim (Bool-cases (nat_beq id a || nat_beq id b)) [
          | inl j ↦ ground (arith, j)
          | inr j ↦ inr (
              inr (
                subst (Same id s.tables) (ground (arith, z)) (
                  set_access-Same id rows s.tables (
                    filter-filter (is_own id) other s.tables.peer_access
                      (λ row own. ground (arith, own, j))))))
        ])
]
