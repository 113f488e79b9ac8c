-- ===== src/VpnAccount/Writes/Routes.antt =====
-- Managed routes: whoever sees another route after a write is marked.
use hao_vpn.Prelude.{
  ℕ, ◌≡◌, ◌≢◌, refl, ap, sym, subst, ◌∙◌, ◌⊎◌, inl, inr, Bool, true, ◌||◌, List, [], ◌∷◌, ◌++◌,
  some, arith, nat_beq, map, Bool-cases, Option-cases, ok, err, Result-cases,
}
use hao_vpn.Net.{Text6}
use hao_vpn.VpnAccount.Tables.{
  Database, PeerRoute, normalize_peer_route_dest, filter, has_member, get_user_by_id,
  list_peer_routes_for_accessor, list_peer_access_peer_ids, has_vpn,
}
use hao_vpn.VpnAccount.Apply.{mark_members, mark_members_union, normalize_member_user_ids}
use hao_vpn.VpnAccount.Writes.{
  Peers, WriteError, CreatePeerRouteInput, get_peer_route, update_route, remove_route, with_members,
  set_routes, set_access, replace_members, replace_peer_route_members, delete_peer_route,
  insert_peer_route, create_peer_route,
}
use hao_vpn.VpnAccount.Writes.Marks.{
  is_marked, mark_members-is_marked, any-sort_by, stored-has_member, mark_members_union-is_marked,
  sees, filter-update_route, filter-remove_route, filter-snoc,
}

-- The account sees the same routes and the same peers.
abbrev pub Same : ℕ → Database → Database → Type 0
Same id tb tb' =
    (list_peer_routes_for_accessor id tb' ≡ list_peer_routes_for_accessor id tb)
    × (list_peer_access_peer_ids id tb' ≡ list_peer_access_peer_ids id tb)

abbrev pub Followed : ℕ → Peers → Peers → Type 0
Followed id s s' =
    (is_marked id s'.applier ≡ true)
    ⊎ ((is_marked id s'.applier ≡ is_marked id s.applier) × Same id s.tables s'.tables)

pub same-Followed : (id : ℕ) (s s' : Peers) → s' ≡ s → Followed id s s'
same-Followed id s s' e = subst (Followed id s) (sym e) (inr (refl, (refl, refl)))

pub set_routes-Same :
    (id : ℕ) (rs : List PeerRoute) (tb : Database)
    → filter (sees id) rs ≡ filter (sees id) tb.peer_routes
    → Same id tb (set_routes rs tb)
unfolding list_peer_routes_for_accessor list_peer_access_peer_ids
set_routes-Same id rs tb h = (h, refl)

pub set_access-Same :
    (id : ℕ) (rows : List (ℕ × ℕ)) (tb : Database)
    → filter (λ row. nat_beq row.0 id) rows ≡ filter (λ row. nat_beq row.0 id) tb.peer_access
    → Same id tb (set_access rows tb)
unfolding list_peer_routes_for_accessor list_peer_access_peer_ids
set_access-Same id rows tb h = (refl, ap (map {A = ℕ × ℕ} (λ p. p.1)) h)

-- Either nobody is touched, or the routes changed for those marked.
pub routes-Followed :
    (id : ℕ) (s s' : Peers) (rs : List PeerRoute) (seen : Bool)
    → s'.tables ≡ set_routes rs s.tables
    → is_marked id s'.applier ≡ (is_marked id s.applier || seen)
    → (seen ≡ true) ⊎ (filter (sees id) rs ≡ filter (sees id) s.tables.peer_routes)
    → Followed id s s'
routes-Followed id s s' rs seen e marks (inl h) = inl (ground (arith, marks, h))
routes-Followed id s s' rs seen e marks (inr h) = elim (Bool-cases seen) [
  | inl k ↦ inl (ground (arith, marks, k))
  | inr k ↦ inr (
    ground (arith, marks, k),
    subst (Same id s.tables) (sym e) (set_routes-Same id rs s.tables h),
  )
]

pub delete-Followed : (id k : ℕ) (s : Peers) → id ≢ 0 → Followed id s (delete_peer_route k s).0
unfolding delete_peer_route
delete-Followed id k s real = elim (Option-cases (get_peer_route k s.tables.peer_routes)) [
  | inl e ↦ same-Followed id s (delete_peer_route k s).0 (ground (arith, e))
  | inr (old, e) ↦
      routes-Followed id s (delete_peer_route k s).0 (remove_route k s.tables.peer_routes)
        (sees id old) (ground (arith, e))
        (ground (arith, e, mark_members-is_marked id old.member_user_ids s.applier real))
        (elim (Bool-cases (sees id old)) [
          | inl h ↦ inl h
          | inr h ↦ inr (filter-remove_route id k old s.tables.peer_routes e h)
        ])
]

pub replace_branch :
    (k : ℕ) (ms : List ℕ) (s : Peers)
    → ((replace_peer_route_members k ms s).0 ≡ s)
      ⊎ ((old : PeerRoute) × (get_peer_route k s.tables.peer_routes ≡ some old)
          × ((replace_peer_route_members k ms s).0 ≡ record {
            applier = mark_members_union old.member_user_ids ms s.applier;
            tables =
                set_routes
                  (update_route k
                    (with_members (normalize_member_user_ids ms))
                    s.tables.peer_routes)
                  s.tables;
          }))
unfolding replace_peer_route_members replace_members
replace_branch k ms s =
    let rs' = update_route k (with_members (normalize_member_user_ids ms)) s.tables.peer_routes in
    ground (
      arith,
      Option-cases (get_peer_route k s.tables.peer_routes),
      Option-cases (get_peer_route k rs'),
    )

pub replace-Followed :
    (id k : ℕ) (ms : List ℕ) (s : Peers)
    → id ≢ 0
    → Followed id s (replace_peer_route_members k ms s).0
replace-Followed id k ms s real = elim (replace_branch k ms s) [
  | inl e ↦ same-Followed id s (replace_peer_route_members k ms s).0 e
  | inr (old, found, e) ↦
      let ms' = normalize_member_user_ids ms in
      routes-Followed id s (replace_peer_route_members k ms s).0
        (update_route k (with_members ms') s.tables.peer_routes) (sees id old || has_member id ms)
        (ap (λ (x : Peers). x.tables) e)
        (ap (λ (x : Peers). is_marked id x.applier) e
          ∙ mark_members_union-is_marked id old.member_user_ids ms s.applier real)
        (elim (Bool-cases (sees id old || has_member id ms)) [
          | inl h ↦ inl h
          | inr h ↦ inr (
              filter-update_route id k (with_members ms') old s.tables.peer_routes found
                (ground (arith, h)) (stored-has_member id ms real ∙ ground (arith, h)))
        ])
]

-- What InsertPeerRoute makes of the routes.
abbrev pub with_row : List ℕ → PeerRoute → Database → Database
with_row ms r tb =
    set_routes (tb.peer_routes ++ (with_members (normalize_member_user_ids ms) r ∷ [])) tb

pub insert_branch :
    (t : Text6) (k : ℕ) (i : CreatePeerRouteInput) (tb : Database)
    → ((e : WriteError) × (insert_peer_route t k i tb ≡ err e))
      ⊎ ((r : PeerRoute) × (insert_peer_route t k i tb ≡ ok (with_row i.member_user_ids r tb)))
unfolding insert_peer_route
insert_branch t k i tb = elim (Result-cases (insert_peer_route t k i tb)) [
  | inr e ↦ inl e
  | inl (tb', e) ↦ elim (Option-cases (normalize_peer_route_dest t i.dest_cidr)) [
    | inl n ↦ absurd (ground (arith, e, n))
    | inr (dest, n) ↦ inr (
      record { id = k; dest_cidr = dest; via_user_id = i.via_user_id; member_user_ids = [] },
      ground (arith, e, n),
    )
  ]
]

pub create_branch :
    (t : Text6) (k : ℕ) (i : CreatePeerRouteInput) (s : Peers)
    → ((create_peer_route t k i s).0 ≡ s)
      ⊎ ((r : PeerRoute) × ((create_peer_route t k i s).0 ≡ record {
        applier = mark_members (normalize_member_user_ids i.member_user_ids) s.applier;
        tables = with_row i.member_user_ids r s.tables;
      }))
unfolding create_peer_route
create_branch t k i s = elim (insert_branch t k i s.tables) [
  | inl (e, h) ↦ inl (ground (arith, h, Option-cases (get_user_by_id i.via_user_id s.tables)))
  | inr (r, h) ↦ elim (Bool-cases (nat_beq i.via_user_id 0)) [
    | inl z ↦ inl (ground (arith, z))
    | inr z ↦ elim (Option-cases (get_user_by_id i.via_user_id s.tables)) [
      | inl e ↦ inl (ground (arith, z, e))
      | inr (via, e) ↦ elim (Bool-cases (has_vpn via)) [
        | inl v ↦ inr (r, ground (arith, z, e, v, h))
        | inr v ↦ inl (ground (arith, z, e, v))
      ]
    ]
  ]
]

pub create-Followed :
    (id : ℕ) (t : Text6) (k : ℕ) (i : CreatePeerRouteInput) (s : Peers)
    → id ≢ 0
    → Followed id s (create_peer_route t k i s).0
create-Followed id t k i s real = elim (create_branch t k i s) [
  | inl e ↦ same-Followed id s (create_peer_route t k i s).0 e
  | inr (r, e) ↦
      let ms = normalize_member_user_ids i.member_user_ids in
      routes-Followed id s (create_peer_route t k i s).0
        (s.tables.peer_routes ++ (with_members ms r ∷ [])) (has_member id ms)
        (ap (λ (x : Peers). x.tables) e)
        (ap (λ (x : Peers). is_marked id x.applier) e ∙ mark_members-is_marked id ms s.applier real)
        (elim (Bool-cases (has_member id ms)) [
          | inl h ↦ inl h
          | inr h ↦ inr (
              filter-snoc (sees id) (with_members ms r) s.tables.peer_routes
                (any-sort_by (λ m. nat_beq m 0 || nat_beq m id) ms ∙ h))
        ])
]
