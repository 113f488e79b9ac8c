-- ===== src/VpnAccount/Policy/Routes.antt =====
-- The loop of ResolveClientPolicy over the managed routes.
use hao_vpn.Prelude.{
  ℕ, ◌≡◌, refl, sym, subst, ◌⊎◌, inl, inr, Bool, true, false, List, [], ◌∷◌, ◌++◌, some, arith,
  Text, Bool-cases, Option-cases, All, Exists, if◌then◌else◌,
}
use hao_vpn.Net.{Text6}
use hao_vpn.NetUtil.Strings.{mem_text}
use hao_vpn.VpnAccount.Tables.{Database, PeerRoute, has_lan_registry_match}
use hao_vpn.VpnAccount.Policy.{
  ManagedRouteInfo, Allowed, host_of, route_info, add_route, add_routes, has_id,
}
use hao_vpn.VpnAccount.Policy.Steps.{
  Normal, InForce, add_route-All, add_route_mono, add_route-mem, route_info-InForce,
}

module _ (t : Text6) where
  -- The loop over the routes after one of them.
  abbrev after_route : ManagedRouteInfo → List ℕ → Allowed → Allowed
  after_route info seen a = if info.stale then a else add_route t info seen a

  abbrev seen_with : PeerRoute → List ℕ → List ℕ
  seen_with r seen = if has_id t r.via_user_id seen then seen else seen ++ (r.via_user_id ∷ [])

  -- What a successful round has found.
  record Round (tb : Database) (r : PeerRoute) (rs : List PeerRoute) (seen : List ℕ)
      (a a' : Allowed) (infos : List ManagedRouteInfo) (vias : List ℕ) : Type 0 where
    registered : Bool
    seen' : List ℕ
    later : List ManagedRouteInfo
    matched : has_lan_registry_match t r.via_user_id r.dest_cidr tb ≡ some registered
    listed : infos ≡ route_info t tb r registered ∷ later
    rest :
        add_routes t tb rs seen' (after_route (route_info t tb r registered) seen a)
        ≡ some (later, vias, a')

  round :
      (tb : Database) (r : PeerRoute) (rs : List PeerRoute) (seen : List ℕ) (a a' : Allowed)
      (infos : List ManagedRouteInfo) (vias : List ℕ)
      → add_routes t tb (r ∷ rs) seen a ≡ some (infos, vias, a')
      → Round tb r rs seen a a' infos vias
  unfolding add_routes
  round tb r rs seen a a' infos vias h =
      elim (Option-cases (has_lan_registry_match t r.via_user_id r.dest_cidr tb)) [
        | inl e ↦ absurd (ground (arith, h, e))
        | inr (registered, e) ↦
            let info = route_info t tb r registered in
            elim (Bool-cases info.stale) [
              | inl st ↦ elim (Option-cases (add_routes t tb rs seen a)) [
                | inl o ↦ absurd (ground (arith, h, e, st, o))
                | inr ((later, vs, b), o) ↦ record {
                  registered = registered;
                  seen' = seen;
                  later = later;
                  matched = e;
                  listed = ground (arith, h, e, st, o);
                  rest = ground (arith, h, e, st, o);
                }
              ]
              | inr st ↦
                  elim (Option-cases
                    (add_routes t tb rs (seen_with r seen) (add_route t info seen a))) [
                      | inl o ↦ absurd (ground (arith, h, e, st, o))
                      | inr ((later, vs, b), o) ↦ record {
                        registered = registered;
                        seen' = seen_with r seen;
                        later = later;
                        matched = e;
                        listed = ground (arith, h, e, st, o);
                        rest = ground (arith, h, e, st, o);
                      }
                    ]
            ]
      ]

  -- The infos are those of the routes, in order.
  abbrev pub Listed : Database → List PeerRoute → List ManagedRouteInfo → Type 0
  Listed tb [] [] = Unit
  Listed tb (r ∷ rs) (i ∷ infos) =
      ((registered : Bool) × (has_lan_registry_match t r.via_user_id r.dest_cidr tb
          ≡ some registered)
        × (i ≡ route_info t tb r registered))
      × Listed tb rs infos
  Listed tb _ _ = ⊥

  -- Only what a source justifies is added, nothing is dropped, and the destination of every route in
  -- force is there.
  pub record Routed (P : Text → Type 0) (tb : Database) (rs : List PeerRoute) (a a' : Allowed)
      (infos : List ManagedRouteInfo) : Type 0 where
    pub justified : All P a.cidrs → All P a'.cidrs
    pub kept : (s : Text) → mem_text s a.cidrs ≡ true → mem_text s a'.cidrs ≡ true
    pub listed : Listed tb rs infos
    pub installed :
        All
          (λ (i : ManagedRouteInfo).
            (i.stale ≡ true) ⊎ ((s : Text) → Normal t i.dest_cidr s → mem_text s a'.cidrs ≡ true))
          infos

  after-All :
      (P : Text → Type 0) (info : ManagedRouteInfo) (seen : List ℕ) (a : Allowed)
      → (info.stale ≡ false
          → (s : Text) → Normal t info.dest_cidr s ⊎ Normal t (host_of info.via_ip) s
          → P s)
      → All P a.cidrs
      → All P (after_route info seen a).cidrs
  after-All P info seen a sound h = elim (Bool-cases info.stale) [
    | inl st ↦ ground (arith, st, h)
    | inr fresh ↦ ground (arith, fresh, add_route-All t P info seen a (sound fresh) h)
  ]

  after_mono :
      (s : Text) (info : ManagedRouteInfo) (seen : List ℕ) (a : Allowed)
      → mem_text s a.cidrs ≡ true
      → mem_text s (after_route info seen a).cidrs ≡ true
  after_mono s info seen a h = ground (arith, h, add_route_mono t s info seen a h)

  after-mem :
      (s : Text) (info : ManagedRouteInfo) (seen : List ℕ) (a : Allowed)
      → info.stale ≡ false
      → Normal t info.dest_cidr s
      → mem_text s (after_route info seen a).cidrs ≡ true
  after-mem s info seen a fresh n = ground (arith, fresh, add_route-mem t s info seen a n)

  pub add_routes-Routed :
      (P : Text → Type 0) (tb : Database) (rs : List PeerRoute) (seen : List ℕ) (a a' : Allowed)
      (infos : List ManagedRouteInfo) (vias : List ℕ)
      → ((r : PeerRoute) (s : Text) → Exists (λ k. r ≡ k) rs → InForce t tb r s → P s)
      → add_routes t tb rs seen a ≡ some (infos, vias, a')
      → Routed P tb rs a a' infos
  unfolding add_routes
  add_routes-Routed P tb [] seen a a' infos vias sound h =
      let same : a ≡ a' = ground (arith, h) in
      let none_left : [] ≡ infos = ground (arith, h) in
      subst (Routed P tb [] a a') none_left (
        subst (λ b. Routed P tb [] a b []) same
          (record { justified = λ k. k; kept = λ s k. k; listed = tt; installed = tt }))
  add_routes-Routed P tb (r ∷ rs) seen a a' infos vias sound h =
      let f = round tb r rs seen a a' infos vias h in
      let info = route_info t tb r f.registered in
      let ih =
        add_routes-Routed P tb rs f.seen' (after_route info seen a) a' f.later vias
          (λ k s m. sound k s (inr m)) f.rest in
      subst (Routed P tb (r ∷ rs) a a') (sym f.listed) (record {
        justified = λ k. ih.justified (
            after-All P info seen a
              (λ fresh s n.
                sound r s (inl refl) (route_info-InForce t tb r f.registered s f.matched fresh n))
              k);
        kept = λ s k. ih.kept s (after_mono s info seen a k);
        listed = ((f.registered, f.matched, refl), ih.listed);
        installed = (
          elim (Bool-cases info.stale) [
            | inl st ↦ inl st
            | inr fresh ↦ inr (λ s n. ih.kept s (after-mem s info seen a fresh n))
          ],
          ih.installed,
        );
      })
