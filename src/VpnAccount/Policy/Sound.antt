-- ===== src/VpnAccount/Policy/Sound.antt =====
-- Where the networks of a client's policy come from, and that none is missing.
use hao_vpn.Prelude.{
  ℕ, ◌≡◌, refl, ap, sym, subst, ◌∙◌, ◌⊎◌, inl, inr, Bool, true, List, [], ◌∷◌, none, some, arith,
  Text, Option-cases, All, Exists,
}
use hao_vpn.Prelude.Sort.{sort_by, text_ltb}
use hao_vpn.Net.{IpNet, Text6}
use hao_vpn.Net.Print.{net_string}
use hao_vpn.NetUtil.Strings.{trim_space, mem_text}
use hao_vpn.NetUtil.Rules.{parse_cidr_or_host, normalize_cidr_or_host}
use hao_vpn.VpnAccount.Tables.{
  Account, Database, PeerRoute, list_peer_access_peer_ids, list_peer_routes_for_accessor,
  has_lan_registry_match, normalize_peer_route_dest,
}
use hao_vpn.VpnAccount.{Config, resolve_allowed_ips}
use hao_vpn.VpnAccount.Policy.{
  ManagedRouteInfo, ClientPolicy, Allowed, add_base, add_peers, route_info, add_routes,
  resolve_client_policy, no_allowed,
}
use hao_vpn.VpnAccount.Policy.Steps.{
  Normal, PeerHost, InForce, All-sort_by, mem-sort_by, add_base-All, add_base-mem, add_peers-All,
  add_peers_mono,
}
use hao_vpn.VpnAccount.Policy.Routes.{Listed, Routed, add_routes-Routed}

Exists-of :
    {A : Type 0} (P : A → Type 0) (x : A) (xs : List A) → Exists (λ y. x ≡ y) xs → P x → Exists P xs
Exists-of P x [] m p = elim m [ ]
Exists-of P x (y ∷ ys) (inl e) p = inl (subst P e p)
Exists-of P x (y ∷ ys) (inr m) p = inr (Exists-of P x ys m p)

All-of :
    {A : Type 0} (P : A → Type 0) (xs : List A)
    → ((x : A) → Exists (λ y. x ≡ y) xs → P x)
    → All P xs
All-of P [] h = tt
All-of P (x ∷ xs) h = (h x (inl refl), All-of P xs (λ y m. h y (inr m)))

module _ (t : Text6) where
  -- A rule that is in a list of networks under its normal text.
  abbrev pub Installed : List Text → Text → Type 0
  Installed cidrs c =
      (n : IpNet) × (parse_cidr_or_host t c ≡ some n) × (mem_text (net_string t n) cidrs ≡ true)

  -- Where a network of a policy comes from: the account's rules, a peer's address, or a managed route.
  pub Justified : Config → Account → Database → Text → Type 0
  Justified cfg u tb s =
      Exists (λ c. Normal t c s) (resolve_allowed_ips cfg u.allowed_ips)
      ⊎ (Exists (λ pid. PeerHost t tb pid s) (list_peer_access_peer_ids u.id tb)
          ⊎ Exists (λ r. InForce t tb r s) (list_peer_routes_for_accessor u.id tb))

  pub record IsComplete (cfg : Config) (u : Account) (tb : Database) (pol : ClientPolicy)
      : Type 0 where
    pub justified : All (Justified cfg u tb) pol.allowed_ips
    pub base :
        All
          (λ c. (parse_cidr_or_host t c ≡ none) ⊎ Installed pol.allowed_ips c)
          (resolve_allowed_ips cfg u.allowed_ips)
    pub listed : Listed t tb (list_peer_routes_for_accessor u.id tb) pol.managed_routes
    pub installed :
        All
          (λ (i : ManagedRouteInfo). (i.stale ≡ true) ⊎ Installed pol.allowed_ips i.dest_cidr)
          pol.managed_routes

  match-parse :
      (tb : Database) (via : ℕ) (dest : Text) (b : Bool)
      → has_lan_registry_match t via dest tb ≡ some b
      → (n : IpNet) × (parse_cidr_or_host t dest ≡ some n)
  unfolding has_lan_registry_match normalize_peer_route_dest normalize_cidr_or_host
  match-parse tb via dest b h = elim (Option-cases (parse_cidr_or_host t dest)) [
    | inl e ↦ absurd (ground (arith, h, e, Option-cases (parse_cidr_or_host t (trim_space dest))))
    | inr (n, e) ↦ (n, e)
  ]

  routes-Installed :
      (tb : Database) (cidrs cidrs' : List Text) (rs : List PeerRoute)
      (infos : List ManagedRouteInfo)
      → Listed t tb rs infos
      → ((s : Text) → mem_text s cidrs ≡ true → mem_text s cidrs' ≡ true)
      → All
          (λ (i : ManagedRouteInfo).
            (i.stale ≡ true) ⊎ ((s : Text) → Normal t i.dest_cidr s → mem_text s cidrs ≡ true))
          infos
      → All (λ (i : ManagedRouteInfo). (i.stale ≡ true) ⊎ Installed cidrs' i.dest_cidr) infos
  unfolding Normal
  routes-Installed tb cidrs cidrs' [] [] l up h = tt
  routes-Installed tb cidrs cidrs' [] (i ∷ infos) l up h = elim l [ ]
  routes-Installed tb cidrs cidrs' (r ∷ rs) [] l up h = elim l [ ]
  routes-Installed tb cidrs cidrs' (r ∷ rs) (i ∷ infos) ((b, matched, e), l) up (now_, h) = (
    elim now_ [
      | inl st ↦ inl st
      | inr f ↦
          let same : i.dest_cidr ≡ r.dest_cidr =
            unfold route_info in ap (λ (k : ManagedRouteInfo). k.dest_cidr) e in
          let (n, p) = match-parse tb r.via_user_id r.dest_cidr b matched in
          let p' : parse_cidr_or_host t i.dest_cidr ≡ some n = ap (parse_cidr_or_host t) same ∙ p in
          inr (n, p', up (net_string t n) (f (net_string t n) (n, p', refl)))
    ],
    routes-Installed tb cidrs cidrs' rs infos l up h,
  )

  abbrev base_of : Config → Account → Allowed
  base_of cfg u = add_base t (resolve_allowed_ips cfg u.allowed_ips) (no_allowed t)

  abbrev peers_of : Config → Account → Database → Allowed
  peers_of cfg u tb = add_peers t tb (list_peer_access_peer_ids u.id tb) (base_of cfg u)

  -- A policy, by the loop over the routes.
  resolved :
      (cfg : Config) (u : Account) (tb : Database) (pol : ClientPolicy)
      → resolve_client_policy t cfg u tb ≡ some pol
      → (infos : List ManagedRouteInfo) × (vias : List ℕ) × (a : Allowed) × (add_routes t tb
            (list_peer_routes_for_accessor u.id tb)
            []
            (peers_of cfg u tb)
          ≡ some (infos, vias, a))
        × (pol.allowed_ips ≡ sort_by text_ltb a.cidrs)
        × (pol.managed_routes ≡ infos)
  unfolding resolve_client_policy
  resolved cfg u tb pol h =
      elim (Option-cases
        (add_routes t tb (list_peer_routes_for_accessor u.id tb) [] (peers_of cfg u tb))) [
          | inl e ↦ absurd (ground (arith, h, e))
          | inr ((infos, vias, a), e) ↦
              (infos, vias, a, e, ground (arith, h, e), ground (arith, h, e))
        ]

  sorted-mem :
      (s : Text) (a : Allowed) (cidrs : List Text)
      → cidrs ≡ sort_by text_ltb a.cidrs
      → mem_text s a.cidrs ≡ true
      → mem_text s cidrs ≡ true
  sorted-mem s a cidrs e m = ap (mem_text s) e ∙ mem-sort_by s a.cidrs ∙ m

  -- Every network before the loop over the routes is justified.
  peers_of-Justified :
      (cfg : Config) (u : Account) (tb : Database)
      → All (Justified cfg u tb) (peers_of cfg u tb).cidrs
  unfolding Justified
  peers_of-Justified cfg u tb =
      add_peers-All t (Justified cfg u tb) tb (list_peer_access_peer_ids u.id tb) (base_of cfg u)
        (λ pid s m p.
          inr
            (inl (Exists-of (λ k. PeerHost t tb k s) pid (list_peer_access_peer_ids u.id tb) m p)))
        (add_base-All t (Justified cfg u tb) (resolve_allowed_ips cfg u.allowed_ips) (no_allowed t)
          (λ c s m n.
            inl (Exists-of (λ k. Normal t k s) c (resolve_allowed_ips cfg u.allowed_ips) m n))
          tt)

  routes_of-Routed :
      (cfg : Config) (u : Account) (tb : Database) (infos : List ManagedRouteInfo) (vias : List ℕ)
      (a : Allowed)
      → add_routes t tb (list_peer_routes_for_accessor u.id tb) [] (peers_of cfg u tb)
        ≡ some (infos, vias, a)
      → Routed t
          (Justified cfg u tb)
          tb
          (list_peer_routes_for_accessor u.id tb)
          (peers_of cfg u tb)
          a
          infos
  unfolding Justified
  routes_of-Routed cfg u tb infos vias a e =
      add_routes-Routed t (Justified cfg u tb) tb (list_peer_routes_for_accessor u.id tb) []
        (peers_of cfg u tb) a infos vias
        (λ r s m f.
          inr
            (inr (Exists-of (λ k. InForce t tb k s) r (list_peer_routes_for_accessor u.id tb) m f)))
        e

  base-Installed :
      (cfg : Config) (u : Account) (tb : Database) (a : Allowed) (cidrs : List Text)
      → cidrs ≡ sort_by text_ltb a.cidrs
      → ((s : Text) → mem_text s (peers_of cfg u tb).cidrs ≡ true → mem_text s a.cidrs ≡ true)
      → All
          (λ c. (parse_cidr_or_host t c ≡ none) ⊎ Installed cidrs c)
          (resolve_allowed_ips cfg u.allowed_ips)
  unfolding Normal
  base-Installed cfg u tb a cidrs same kept =
      let base = resolve_allowed_ips cfg u.allowed_ips in
      All-of (λ c. (parse_cidr_or_host t c ≡ none) ⊎ Installed cidrs c) base
        (λ c m. elim (Option-cases (parse_cidr_or_host t c)) [
          | inl e ↦ inl e
          | inr (n, e) ↦
              let s = net_string t n in
              let one = add_base-mem t s c base (no_allowed t) m (n, e, refl) in
              let two =
                add_peers_mono t s tb (list_peer_access_peer_ids u.id tb) (base_of cfg u) one in
              inr (n, e, sorted-mem s a cidrs same (kept s two))
        ])

  -- Every network of a resolved policy comes from a rule of the account, the address of a peer, or
  -- a managed route in force, whose via has an address and announces the destination. Every rule
  -- of the account that parses is in it, every managed route of the account is listed in order,
  -- and the destination of each one that is not stale is in it.
  pub resolve_client_policy-IsComplete :
      (cfg : Config) (u : Account) (tb : Database) (pol : ClientPolicy)
      → resolve_client_policy t cfg u tb ≡ some pol
      → IsComplete cfg u tb pol
  resolve_client_policy-IsComplete cfg u tb pol h =
      let (infos, vias, a, e, cidrs, managed) = resolved cfg u tb pol h in
      let f = routes_of-Routed cfg u tb infos vias a e in
      let routes = list_peer_routes_for_accessor u.id tb in
      record {
        justified =
            subst (All (Justified cfg u tb)) (sym cidrs) (
              All-sort_by (Justified cfg u tb) a.cidrs (f.justified (peers_of-Justified cfg u tb)));
        base = base-Installed cfg u tb a pol.allowed_ips cidrs f.kept;
        listed = subst (Listed t tb routes) (sym managed) f.listed;
        installed =
            subst
              (All (λ (i : ManagedRouteInfo).
                (i.stale ≡ true) ⊎ Installed pol.allowed_ips i.dest_cidr))
              (sym managed)
              (routes-Installed tb a.cidrs pol.allowed_ips routes infos f.listed
                (λ s. sorted-mem s a pol.allowed_ips cidrs) f.installed);
      }
