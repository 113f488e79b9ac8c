-- ===== src/VpnAccount/Policy/Steps.antt =====
-- What each step of ResolveClientPolicy adds to the networks of a policy, and that it drops none.
use hao_vpn.Prelude.{
  ℕ, ◌≡◌, ◌≢◌, refl, ap, sym, subst, ◌∙◌, ◌⊎◌, inl, inr, Bool, true, false, ◌&&◌, List, [], ◌∷◌,
  ◌++◌, some, arith, Text, text_beq, text_beq_iff, any, any_append, Bool-cases, Option-cases, All,
  All-append, Exists,
}
use hao_vpn.Prelude.Sort.{sort_by, insert_by, text_ltb}
use hao_vpn.Net.{IpNet, Text6, contains}
use hao_vpn.Net.Print.{net_string}
use hao_vpn.NetUtil.Strings.{trim_space, mem_text}
use hao_vpn.NetUtil.Rules.{parse_cidr_or_host}
use hao_vpn.VpnAccount.Tables.{Account, Database, PeerRoute, get_user_by_id, has_lan_registry_match}
use hao_vpn.VpnAccount.Policy.{
  ManagedRouteInfo, Allowed, host_of, add_cidr, add_base, add_peer, add_peers, route_info,
  add_route,
}

All-insert_by :
    (P : Text → Type 0) (x : Text) (xs : List Text)
    → P x
    → All P xs
    → All P (insert_by text_ltb x xs)
unfolding insert_by
All-insert_by P x [] p h = (p, h)
All-insert_by P x (y ∷ ys) p h = ground (arith, All-insert_by P x ys p h.1)

pub All-sort_by : (P : Text → Type 0) (xs : List Text) → All P xs → All P (sort_by text_ltb xs)
unfolding sort_by
All-sort_by P [] h = tt
All-sort_by P (x ∷ xs) h = All-insert_by P x (sort_by text_ltb xs) h.0 (All-sort_by P xs h.1)

mem-insert_by :
    (s x : Text) (xs : List Text) → mem_text s (insert_by text_ltb x xs) ≡ mem_text s (x ∷ xs)
unfolding insert_by
mem-insert_by s x [] = refl
mem-insert_by s x (y ∷ ys) = ground (arith, mem-insert_by s x ys)

pub mem-sort_by : (s : Text) (xs : List Text) → mem_text s (sort_by text_ltb xs) ≡ mem_text s xs
unfolding sort_by
mem-sort_by s [] = refl
mem-sort_by s (x ∷ xs) = ground (arith, mem-insert_by s x (sort_by text_ltb xs), mem-sort_by s xs)

module _ (t : Text6) where
  -- The normal text of a rule.
  unfoldable pub Normal : Text → Text → Type 0
  Normal c s = (n : IpNet) × (parse_cidr_or_host t c ≡ some n) × (s ≡ net_string t n)

  add_cidr-cases :
      (c : Text) (skip : Bool) (a : Allowed)
      → ((add_cidr t c skip a).cidrs ≡ a.cidrs)
        ⊎ ((n : IpNet) × (parse_cidr_or_host t c ≡ some n)
            × ((add_cidr t c skip a).cidrs ≡ a.cidrs ++ (net_string t n ∷ [])))
  unfolding add_cidr
  add_cidr-cases c skip a = elim (Option-cases (parse_cidr_or_host t c)) [
    | inl e ↦ inl (ground (arith, e))
    | inr (n, e) ↦ elim (Bool-cases (mem_text (net_string t n) a.cidrs)) [
      | inl m ↦ inl (ground (arith, e, m))
      | inr m ↦ elim (Bool-cases (skip && any (λ exist. contains exist n.ip) a.nets)) [
        | inl k ↦ inl (ground (arith, e, m, k))
        | inr k ↦ inr (n, e, ground (arith, e, m, k))
      ]
    ]
  ]

  pub add_cidr-All :
      (P : Text → Type 0) (c : Text) (skip : Bool) (a : Allowed)
      → ((s : Text) → Normal c s → P s)
      → All P a.cidrs
      → All P (add_cidr t c skip a).cidrs
  unfolding Normal
  add_cidr-All P c skip a sound h = elim (add_cidr-cases c skip a) [
    | inl e ↦ subst (All P) (sym e) h
    | inr (n, p, e) ↦
        subst (All P) (sym e)
          (All-append P a.cidrs (net_string t n ∷ []) h (sound (net_string t n) (n, p, refl), tt))
  ]

  pub add_cidr_mono :
      (s c : Text) (skip : Bool) (a : Allowed)
      → mem_text s a.cidrs ≡ true
      → mem_text s (add_cidr t c skip a).cidrs ≡ true
  add_cidr_mono s c skip a h = elim (add_cidr-cases c skip a) [
    | inl e ↦ ap (mem_text s) e ∙ h
    | inr (n, p, e) ↦
        ap (mem_text s) e ∙ ground (arith, h, any_append (text_beq s) a.cidrs (net_string t n ∷ []))
  ]

  pub add_cidr-mem :
      (s c : Text) (a : Allowed) → Normal c s → mem_text s (add_cidr t c false a).cidrs ≡ true
  unfolding add_cidr Normal
  add_cidr-mem s c a (n, e, same) =
      ground
        (arith, e, same, any_append (text_beq s) a.cidrs (net_string t n ∷ []), text_beq_iff s s)

  pub add_base-All :
      (P : Text → Type 0) (base : List Text) (a : Allowed)
      → ((c s : Text) → Exists (λ b. c ≡ b) base → Normal c s → P s)
      → All P a.cidrs
      → All P (add_base t base a).cidrs
  unfolding add_base
  add_base-All P [] a sound h = h
  add_base-All P (c ∷ base) a sound h =
      add_base-All P base (add_cidr t c false a) (λ c' s m. sound c' s (inr m))
        (add_cidr-All P c false a (λ s. sound c s (inl refl)) h)

  pub add_base_mono :
      (s : Text) (base : List Text) (a : Allowed)
      → mem_text s a.cidrs ≡ true
      → mem_text s (add_base t base a).cidrs ≡ true
  unfolding add_base
  add_base_mono s [] a h = h
  add_base_mono s (c ∷ base) a h =
      add_base_mono s base (add_cidr t c false a) (add_cidr_mono s c false a h)

  pub add_base-mem :
      (s c : Text) (base : List Text) (a : Allowed)
      → Exists (λ b. c ≡ b) base
      → Normal c s
      → mem_text s (add_base t base a).cidrs ≡ true
  unfolding add_base
  add_base-mem s c [] a m n = elim m [ ]
  add_base-mem s c (b ∷ base) a (inl e) n =
      add_base_mono s base (add_cidr t b false a) (add_cidr-mem s b a (subst (λ k. Normal k s) e n))
  add_base-mem s c (b ∷ base) a (inr m) n = add_base-mem s c base (add_cidr t b false a) m n

  -- The address of an account, as a network.
  pub PeerHost : Database → ℕ → Text → Type 0
  PeerHost tb pid s = (v : Account) × (get_user_by_id pid tb ≡ some v) × Normal (host_of v.vpn_ip) s

  add_peer-cases :
      (tb : Database) (pid : ℕ) (a : Allowed)
      → (add_peer t tb pid a ≡ a)
        ⊎ ((v : Account) × (get_user_by_id pid tb ≡ some v)
            × (add_peer t tb pid a ≡ add_cidr t (host_of v.vpn_ip) true a))
  unfolding add_peer
  add_peer-cases tb pid a = elim (Option-cases (get_user_by_id pid tb)) [
    | inl e ↦ inl (ground (arith, e))
    | inr (v, e) ↦ elim (Bool-cases (text_beq (trim_space v.vpn_ip) [])) [
      | inl b ↦ inl (ground (arith, e, b))
      | inr b ↦ inr (v, e, ground (arith, e, b))
    ]
  ]

  pub add_peers-All :
      (P : Text → Type 0) (tb : Database) (ids : List ℕ) (a : Allowed)
      → ((pid : ℕ) (s : Text) → Exists (λ k. pid ≡ k) ids → PeerHost tb pid s → P s)
      → All P a.cidrs
      → All P (add_peers t tb ids a).cidrs
  unfolding add_peers PeerHost
  add_peers-All P tb [] a sound h = h
  add_peers-All P tb (pid ∷ ids) a sound h =
      let next : All P (add_peer t tb pid a).cidrs = elim (add_peer-cases tb pid a) [
        | inl e ↦ subst (λ (b : Allowed). All P b.cidrs) (sym e) h
        | inr (v, found, e) ↦
            subst (λ (b : Allowed). All P b.cidrs) (sym e)
              (add_cidr-All P (host_of v.vpn_ip) true a
                (λ s n. sound pid s (inl refl) (v, found, n)) h)
      ] in
      add_peers-All P tb ids (add_peer t tb pid a) (λ k s m. sound k s (inr m)) next

  pub add_peers_mono :
      (s : Text) (tb : Database) (ids : List ℕ) (a : Allowed)
      → mem_text s a.cidrs ≡ true
      → mem_text s (add_peers t tb ids a).cidrs ≡ true
  unfolding add_peers
  add_peers_mono s tb [] a h = h
  add_peers_mono s tb (pid ∷ ids) a h =
      let next : mem_text s (add_peer t tb pid a).cidrs ≡ true = elim (add_peer-cases tb pid a) [
        | inl e ↦ subst (λ (b : Allowed). mem_text s b.cidrs ≡ true) (sym e) h
        | inr (v, found, e) ↦
            subst (λ (b : Allowed). mem_text s b.cidrs ≡ true) (sym e)
              (add_cidr_mono s (host_of v.vpn_ip) true a h)
      ] in
      add_peers_mono s tb ids (add_peer t tb pid a) next

  -- The destination or the via's address of a route in force.
  unfoldable pub InForce : Database → PeerRoute → Text → Type 0
  InForce tb r s =
      (has_lan_registry_match t r.via_user_id r.dest_cidr tb ≡ some true)
      × ((v : Account) × (get_user_by_id r.via_user_id tb ≡ some v)
          × (trim_space v.vpn_ip ≢ [])
          × (Normal r.dest_cidr s ⊎ Normal (host_of (trim_space v.vpn_ip)) s))

  pub add_route-All :
      (P : Text → Type 0) (info : ManagedRouteInfo) (seen : List ℕ) (a : Allowed)
      → ((s : Text) → Normal info.dest_cidr s ⊎ Normal (host_of info.via_ip) s → P s)
      → All P a.cidrs
      → All P (add_route t info seen a).cidrs
  unfolding add_route
  add_route-All P info seen a sound h =
      let one = add_cidr-All P info.dest_cidr false a (λ s n. sound s (inl n)) h in
      let two =
        add_cidr-All P (host_of info.via_ip) true (add_cidr t info.dest_cidr false a)
          (λ s n. sound s (inr n)) one in
      ground (arith, one, two)

  pub add_route_mono :
      (s : Text) (info : ManagedRouteInfo) (seen : List ℕ) (a : Allowed)
      → mem_text s a.cidrs ≡ true
      → mem_text s (add_route t info seen a).cidrs ≡ true
  unfolding add_route
  add_route_mono s info seen a h =
      let a' = add_cidr t info.dest_cidr false a in
      let one = add_cidr_mono s info.dest_cidr false a h in
      ground (arith, one, add_cidr_mono s (host_of info.via_ip) true a' one)

  pub add_route-mem :
      (s : Text) (info : ManagedRouteInfo) (seen : List ℕ) (a : Allowed)
      → Normal info.dest_cidr s
      → mem_text s (add_route t info seen a).cidrs ≡ true
  unfolding add_route
  add_route-mem s info seen a n =
      let a' = add_cidr t info.dest_cidr false a in
      let one = add_cidr-mem s info.dest_cidr a n in
      ground (arith, one, add_cidr_mono s (host_of info.via_ip) true a' one)

  -- A route that is not stale is in force.
  pub route_info-InForce :
      (tb : Database) (r : PeerRoute) (registered : Bool) (s : Text)
      → has_lan_registry_match t r.via_user_id r.dest_cidr tb ≡ some registered
      → (route_info t tb r registered).stale ≡ false
      → Normal (route_info t tb r registered).dest_cidr s
        ⊎ Normal (host_of (route_info t tb r registered).via_ip) s
      → InForce tb r s
  unfolding route_info InForce
  route_info-InForce tb r registered s h fresh n =
      elim (Option-cases (get_user_by_id r.via_user_id tb)) [
        | inl e ↦ absurd (ground (arith, fresh, e))
        | inr (v, e) ↦
            let same : (route_info t tb r registered).via_ip ≡ trim_space v.vpn_ip =
              ground (arith, e) in
            (
              ground (arith, h, fresh),
              (
                v,
                e,
                ground (arith, fresh, e, text_beq_iff (trim_space v.vpn_ip) []),
                subst (λ k. Normal r.dest_cidr s ⊎ Normal (host_of k) s) same n,
              ),
            )
      ]
