-- ===== src/VpnAccount/Writes/Followed.antt =====
-- Any sequence of writes, and the Apply after it.
use hao_vpn.Prelude.{
  ℕ, ◌≡◌, ◌≢◌, refl, ap, sym, subst, ◌∙◌, ◌⊎◌, inl, inr, true, false, List, [], ◌∷◌, Option, arith,
  Option-cases,
}
use hao_vpn.Net.{Text6}
use hao_vpn.VpnAccount.Tables.{get_user_by_id}
use hao_vpn.VpnAccount.Apply.{has_user}
use hao_vpn.VpnAccount.Writes.{
  Peers, CreatePeerRouteInput, get_peer_route, add_peer_access, remove_peer_access,
  replace_peer_route_members, delete_peer_route, create_peer_route,
}
use hao_vpn.VpnAccount.Writes.Marks.{is_marked}
use hao_vpn.VpnAccount.Writes.Routes.{
  Same, Followed, delete-Followed, replace_branch, replace-Followed, create_branch, create-Followed,
}
use hao_vpn.VpnAccount.Writes.Access.{pair_branch, add-Followed, remove-Followed}
use hao_vpn.VpnAccount.Admins.{HasKeys}
use hao_vpn.VpnAccount.Apply.{apply, is_online}
use hao_vpn.VpnAccount.Apply.Served.{apply-kicks}
use hao_vpn.VpnAccount.Writes.{is_vpn_user}

pub data Write : Type 0 where
  creates : ℕ → CreatePeerRouteInput → Write
  replaces : ℕ → List ℕ → Write
  deletes : ℕ → Write
  adds removes : ℕ → ℕ → Write

module _ (t : Text6) where
  unfoldable pub write : Write → Peers → Peers
  write (creates id i) s = (create_peer_route t id i s).0
  write (replaces id ms) s = (replace_peer_route_members id ms s).0
  write (deletes id) s = (delete_peer_route id s).0
  write (adds a b) s = (add_peer_access a b s).0
  write (removes a b) s = (remove_peer_access a b s).0

  unfoldable pub after_writes : List Write → Peers → Peers
  after_writes [] s = s
  after_writes (w ∷ ws) s = after_writes ws (write w s)

  write-Followed : (id : ℕ) (w : Write) (s : Peers) → id ≢ 0 → Followed id s (write w s)
  unfolding write
  write-Followed id (creates k i) s real = create-Followed id t k i s real
  write-Followed id (replaces k ms) s real = replace-Followed id k ms s real
  write-Followed id (deletes k) s real = delete-Followed id k s real
  write-Followed id (adds a b) s real = add-Followed id a b s real
  write-Followed id (removes a b) s real = remove-Followed id a b s real

  write-users : (w : Write) (s : Peers) → (write w s).tables.users ≡ s.tables.users
  unfolding write
  write-users (creates k i) s = elim (create_branch t k i s) [
    | inl e ↦ ap (λ (x : Peers). x.tables.users) e
    | inr (r, e) ↦ ap (λ (x : Peers). x.tables.users) e
  ]
  write-users (replaces k ms) s = elim (replace_branch k ms s) [
    | inl e ↦ ap (λ (x : Peers). x.tables.users) e
    | inr (old, found, e) ↦ ap (λ (x : Peers). x.tables.users) e
  ]
  write-users (deletes k) s =
      unfold delete_peer_route in
      ground (arith, Option-cases (get_peer_route k s.tables.peer_routes))
  write-users (adds a b) s = elim (pair_branch a b s.tables) [
    | inl (e, h) ↦ unfold add_peer_access in ground (arith, h)
    | inr (tb', h, left, right, users, other) ↦ unfold add_peer_access in ground (arith, h, users)
  ]
  write-users (removes a b) s = unfold remove_peer_access in ground arith

  after_writes-users :
      (ws : List Write) (s : Peers) → (after_writes ws s).tables.users ≡ s.tables.users
  unfolding after_writes
  after_writes-users [] s = refl
  after_writes-users (w ∷ ws) s = after_writes-users ws (write w s) ∙ write-users w s

  -- A mark stays.
  after_writes-marked :
      (id : ℕ) (ws : List Write) (s : Peers)
      → id ≢ 0
      → is_marked id s.applier ≡ true
      → is_marked id (after_writes ws s).applier ≡ true
  unfolding after_writes
  after_writes-marked id [] s real h = h
  after_writes-marked id (w ∷ ws) s real h =
      after_writes-marked id ws (write w s) real
        (elim (write-Followed id w s real) [ inl m ↦ m | inr (m, same) ↦ m ∙ h ])

  after_writes-Same :
      (id : ℕ) (ws : List Write) (s : Peers)
      → id ≢ 0
      → (is_marked id (after_writes ws s).applier ≡ true)
        ⊎ Same id s.tables (after_writes ws s).tables
  unfolding after_writes
  after_writes-Same id [] s real = inr (refl, refl)
  after_writes-Same id (w ∷ ws) s real = elim (write-Followed id w s real) [
    | inl m ↦ inl (after_writes-marked id ws (write w s) real m)
    | inr (m, one) ↦ elim (after_writes-Same id ws (write w s) real) [
      | inl k ↦ inl k
      | inr two ↦ inr (two.0 ∙ one.0, two.1 ∙ one.1)
    ]
  ]

  -- After any sequence of writes of managed routes and of access among peers, refused ones
  -- included, an Apply without calls meanwhile kicks every online account with keys whose managed
  -- routes or peers are not what they were before, if ids of accounts are distinct and positive.
  pub after_writes-kicked :
      (id : ℕ) (online : Option (List ℕ)) (ws : List Write) (s : Peers)
      → id ≢ 0
      → HasKeys s.tables.users
      → is_vpn_user id s.tables ≡ true
      → is_online online id ≡ true
      → let s' = after_writes ws s in
        (has_user id (apply false online [] s'.tables s'.applier).2 ≡ true)
        ⊎ Same id s.tables s'.tables
  unfolding get_user_by_id
  after_writes-kicked id online ws s real keys vpn on = elim (after_writes-Same id ws s real) [
    | inr same ↦ inr same
    | inl m ↦
        let s' = after_writes ws s in
        let users = after_writes-users ws s in
        inl (
          ground (
            arith,
            m,
            vpn,
            on,
            users,
            apply-kicks false online [] s'.tables s'.applier id (subst HasKeys (sym users) keys),
          ))
  ]
