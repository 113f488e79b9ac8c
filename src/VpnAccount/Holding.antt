-- ===== src/VpnAccount/Holding.antt =====
-- The address that EnsureVPNIP gives an account.
use hao_vpn.Prelude.{
  ℕ, ◌≡◌, refl, ap, sym, subst, ◌∙◌, ◌⊎◌, inl, inr, true, false, [], ◌∷◌, none, some, arith, Text,
  text_eq, text_beq, ok, err, ==_iff, Bool-cases, Option-cases, if◌then◌else◌, ◌==◌,
}
use hao_vpn.Prelude.Map.{get, get-put}
use hao_vpn.Net.{Text6}
use hao_vpn.IpPool.{owner, is_reserved, allocate, allocate_specific, no_free_ips}
use hao_vpn.IpPool.Placed.{Placed, allocate-Placed, allocate_specific-Placed}
use hao_vpn.VpnAccount.Tables.{
  Account, IpAllocation, dynamic_lease, record_ip_allocation, set_allocations, update_user_vpn_ip,
  set_users, get_leased_ip_for_user,
}
use hao_vpn.VpnAccount.{
  Service, Outcome, on_register_ip, ensure_new_ip, ensure_vpn_ip, take_ip, set_pool, is_fixed,
  pool_error, fixed_without_ip, unknown_ip_mode,
}

-- A row of ip_allocations for an address that is in use.
abbrev pub in_use : ℕ → ℕ → IpAllocation
in_use now user = record {
  user_id = user;
  allocated_at = now;
  is_released = false;
  lease_until = none;
}

-- The address was open to the account, is the account's now in the pool and in the table, and no
-- other address has changed hands.
pub record Given (now user : ℕ) (ip : Text) (s s' : Service) : Type 0 where
  pub was_open : (owner ip s.pool ≡ 0) ⊎ (owner ip s.pool ≡ user)
  pub not_reserved : is_reserved ip s.pool ≡ false
  pub holders : (o : Text) → owner o s'.pool ≡ (if ip == o then user else owner o s.pool)
  pub rows :
      (o : Text)
      → get o s'.tables.ip_allocations
        ≡ (if ip == o then some (in_use now user) else get o s.tables.ip_allocations)

pub Ensured : ℕ → Account → Service → Outcome Text → Type 0
Ensured now u s (s', calls, ok ip) =
    ((is_fixed u.ip_mode ≡ true) × (ip ≡ u.vpn_ip) × (s' ≡ s) × (calls ≡ []))
    ⊎ (Given now u.id ip s s' × (calls ≡ on_register_ip ip u.id ∷ []))
Ensured now u s (s', calls, err e) =
    (s'.tables ≡ s.tables) × (calls ≡ []) × ((o : Text) → owner o s'.pool ≡ owner o s.pool)

module _ (t : Text6) (now : ℕ) (u : Account) where
  taken-Given :
      (ip : Text) (s s' : Service)
      → Placed ip u.id s.pool s'.pool
      → (s'.tables.ip_allocations ≡ s.tables.ip_allocations)
      → Given now u.id ip s (take_ip now ip u.id s').0
  unfolding take_ip record_ip_allocation set_allocations
  taken-Given ip s s' p same = record {
    was_open = p.was_open;
    not_reserved = p.not_reserved;
    holders = λ o. holders ip s s' p o;
    rows = λ o. ground (arith, same, get-put ip o (in_use now u.id) s'.tables.ip_allocations);
  }
    where
      holders :
          (ip : Text) (s s' : Service)
          → Placed ip u.id s.pool s'.pool
          → (o : Text) → owner o s'.pool ≡ (if ip == o then u.id else owner o s.pool)
      holders ip s s' p o = elim (Bool-cases (ip == o)) [
        | inl e ↦ rw e (ap (λ k. owner k s'.pool) (sym ((==_iff ip o).0 e)) ∙ p.is_owner)
        | inr e ↦ rw e (p.elsewhere o (λ k. cc (e, (==_iff ip o).1 k)))
      ]

  -- EnsureVPNIP where the pool chooses, by what the pool answers.
  abbrev chosen : Text → Service → Service
  chosen ip s = record s {
    tables = update_user_vpn_ip u.id ip s.tables;
    pool = (allocate t u.id s.pool).0;
  }

  Ensured-taken :
      (ip : Text) (s s' : Service)
      → Placed ip u.id s.pool s'.pool
      → s'.tables.ip_allocations ≡ s.tables.ip_allocations
      → Ensured now u s ((take_ip now ip u.id s').0, (take_ip now ip u.id s').1, ok ip)
  unfolding Ensured
  Ensured-taken ip s s' p same = inr (taken-Given ip s s' p same, unfold take_ip in refl)

  ensure_new_ip-Ensured : (s : Service) → Ensured now u s (ensure_new_ip t now u s)
  ensure_new_ip-Ensured s = elim (allocate-Placed t u.id s.pool) [
    | inl (ip, e, p) ↦
        let eq : ensure_new_ip t now u s ≡ (
          (take_ip now ip u.id (chosen ip s)).0,
          (take_ip now ip u.id (chosen ip s)).1,
          ok ip,
        ) =
          unfold ensure_new_ip in ground (arith, e) in
        subst (Ensured now u s) (sym eq)
          (Ensured-taken ip s (chosen ip s) p (unfold update_user_vpn_ip set_users in refl))
    | inr (e, same) ↦
        let eq : ensure_new_ip t now u s
            ≡ (set_pool (allocate t u.id s.pool).0 s, [], err (pool_error no_free_ips)) =
          unfold ensure_new_ip in ground (arith, e) in
        subst (Ensured now u s) (sym eq) (unfold Ensured in (refl, refl, same))
  ]

  leased-Ensured :
      (ip : Text) (s : Service)
      → is_fixed u.ip_mode ≡ false
      → text_beq u.ip_mode dynamic_lease ≡ true
      → get_leased_ip_for_user now u.id s.tables ≡ some ip
      → text_beq ip [] ≡ false
      → Ensured now u s (ensure_vpn_ip t now u s)
  leased-Ensured ip s mode lease found real = elim (allocate_specific-Placed t ip u.id s.pool) [
    | inl (e, p) ↦
        let s' = set_pool (allocate_specific t ip u.id s.pool).0 s in
        let eq : ensure_vpn_ip t now u s
            ≡ ((take_ip now ip u.id s').0, (take_ip now ip u.id s').1, ok ip) =
          unfold ensure_vpn_ip in ground (arith, mode, lease, found, real, e) in
        subst (Ensured now u s) (sym eq) (Ensured-taken ip s s' p refl)
    | inr (e, r) ↦
        let eq : ensure_vpn_ip t now u s ≡ ensure_new_ip t now u s =
          unfold ensure_vpn_ip in ground (arith, mode, lease, found, real, r) in
        subst (Ensured now u s) (sym eq) (ensure_new_ip-Ensured s)
  ]

  -- Which branch of EnsureVPNIP is taken.
  branch :
      (s : Service)
      → ((is_fixed u.ip_mode ≡ true) × (ensure_vpn_ip t now u s ≡ (s, [], ok u.vpn_ip)))
        ⊎ ((ensure_vpn_ip t now u s ≡ (s, [], err fixed_without_ip))
            ⊎ ((ensure_vpn_ip t now u s ≡ (s, [], err (unknown_ip_mode u.ip_mode)))
                ⊎ ((ensure_vpn_ip t now u s ≡ ensure_new_ip t now u s)
                    ⊎ ((is_fixed u.ip_mode ≡ false)
                        × (text_beq u.ip_mode dynamic_lease ≡ true)
                        × (ip : Text) × (get_leased_ip_for_user now u.id s.tables ≡ some ip)
                        × (text_beq ip [] ≡ false)))))
  unfolding ensure_vpn_ip
  branch s = elim (Option-cases (get_leased_ip_for_user now u.id s.tables)) [
    | inl e ↦ ground (arith, e)
    | inr (ip, e) ↦ elim (Bool-cases (text_beq ip [])) [
      | inl b ↦ ground (arith, e, b)
      | inr b ↦ elim (Bool-cases (text_beq u.ip_mode dynamic_lease)) [
        | inl l ↦ elim (Bool-cases (is_fixed u.ip_mode)) [
          | inl f ↦ ground (arith, f)
          | inr f ↦ inr (inr (inr (inr (f, l, ip, e, b))))
        ]
        | inr l ↦ ground (arith, l)
      ]
    ]
  ]

  -- EnsureVPNIP either returns the address of a fixed account and changes nothing, or gives the
  -- account an address that is not reserved and that nobody else held in the pool: it is the
  -- account's in the pool and among the allocations afterwards, all other addresses stay as they
  -- were, and OnRegisterIP is called once. An error changes neither the tables nor who holds an
  -- address, and calls nothing.
  pub ensure_vpn_ip-Ensured : (s : Service) → Ensured now u s (ensure_vpn_ip t now u s)
  ensure_vpn_ip-Ensured s = elim (branch s) [
    | inl (f, e) ↦ subst (Ensured now u s) (sym e) (unfold Ensured in inl (f, refl, refl, refl))
    | inr (inl e) ↦ subst (Ensured now u s) (sym e) (unfold Ensured in (refl, refl, λ o. refl))
    | inr (inr (inl e)) ↦
        subst (Ensured now u s) (sym e) (unfold Ensured in (refl, refl, λ o. refl))
    | inr (inr (inr (inl e))) ↦ subst (Ensured now u s) (sym e) (ensure_new_ip-Ensured s)
    | inr (inr (inr (inr (f, l, ip, e, b)))) ↦ leased-Ensured ip s f l e b
  ]
