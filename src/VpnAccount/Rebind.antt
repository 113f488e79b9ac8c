-- ===== src/VpnAccount/Rebind.antt =====
-- What a change of policy, and the end of an account, do to the addresses in the pool.
use hao_vpn.Prelude.{
  ℕ, ◌≡◌, ◌≢◌, refl, sym, subst, ◌⊎◌, inl, inr, true, false, ◌&&◌, not, List, [], ◌++◌, some, arith,
  Text, text_eq, text_beq, text_beq_iff, Result, ok, err, Bool-cases, Result-cases, if◌then◌else◌,
  ◌==◌,
}
use hao_vpn.Net.{Text6}
use hao_vpn.NetUtil.Strings.{trim_space}
use hao_vpn.IpPool.{owner, allocate_specific}
use hao_vpn.IpPool.Placed.{Placed, allocate_specific-Placed, release-owner}
use hao_vpn.VpnAccount.Tables.{
  Account, get_user_by_id, has_vpn, release_ip_allocation, record_ip_allocation, set_allocations,
}
use hao_vpn.VpnAccount.{
  Service, Outcome, Config, Call, AccountError, release_ip, take_ip, set_pool, guard_last_admin,
  delete_account, fixed_needs_ip, pool_error,
}
use hao_vpn.VpnAccount.Provision.{VpnPatchInput, validate_manual_ip, rebind_fixed_vpn_ip, rebind}

-- Deleting an account with keys and a stored address, unless it is refused, frees that address in
-- the pool, whichever account holds it there, and leaves all others with their holders.
pub delete_account-owner :
    (user : ℕ) (o : Text) (u : Account) (s : Service)
    → get_user_by_id user s.tables ≡ some u
    → guard_last_admin u s ≡ false
    → has_vpn u ≡ true
    → u.vpn_ip ≢ []
    → owner o (delete_account user s).0.pool ≡ (if u.vpn_ip == o then 0 else owner o s.pool)
unfolding delete_account release_ip
delete_account-owner user o u s found free vpn real =
    ground
      (arith, found, free, vpn, real, text_beq_iff u.vpn_ip [], release-owner u.vpn_ip o s.pool)

module _ (t : Text6) (cfg : Config) (now : ℕ) where
  -- What a rebinding leaves: an error changes nothing; else the new address is the account's, the
  -- old one is free, and the others are as before.
  pub Rebound : ℕ → Text → Service → Outcome (Unit {0}) → Type 0
  Rebound user old_ip s (s', calls, err e) = (s' ≡ s) × (calls ≡ [])
  Rebound user old_ip s (s', calls, ok done) =
      ((s' ≡ s) × (calls ≡ []))
      ⊎ ((ip : Text) × (old_ip ≢ ip)
          × (owner ip s'.pool ≡ user)
          × ((owner ip s.pool ≡ 0) ⊎ (owner ip s.pool ≡ user))
          × (old_ip ≢ [] → owner old_ip s'.pool ≡ 0)
          × ((o : Text) → o ≢ ip → o ≢ old_ip → owner o s'.pool ≡ owner o s.pool))

  moved : ℕ → Text → Text → Service → Service
  moved user old_ip norm s =
      (release_ip old_ip
        (take_ip now norm user (set_pool (allocate_specific t norm user s.pool).0 s)).0).0

  moved-owner :
      (user : ℕ) (old_ip norm o : Text) (s : Service)
      → owner o (moved user old_ip norm s).pool ≡ (
          if not (text_beq old_ip []) && (old_ip == o)
          then 0
          else owner o (allocate_specific t norm user s.pool).0)
  unfolding moved release_ip take_ip
  moved-owner user old_ip norm o s =
      ground (arith, release-owner old_ip o (allocate_specific t norm user s.pool).0)

  moved-Rebound :
      (user : ℕ) (old_ip norm : Text) (s : Service) (calls : List Call)
      → old_ip ≢ norm
      → Placed norm user s.pool (allocate_specific t norm user s.pool).0
      → Rebound user old_ip s (moved user old_ip norm s, calls, ok tt)
  unfolding Rebound
  moved-Rebound user old_ip norm s calls other p = inr (
    norm,
    other,
    ground
        (arith, other, p.is_owner, moved-owner user old_ip norm norm s, text_beq_iff old_ip norm),
    p.was_open,
    λ real. ground (
      arith,
      real,
      moved-owner user old_ip norm old_ip s,
      text_beq_iff old_ip [],
      text_beq_iff old_ip old_ip,
    ),
    λ o a b. ground (
      arith,
      a,
      b,
      p.elsewhere o (λ e. a (sym e)),
      moved-owner user old_ip norm o s,
      text_beq_iff old_ip o,
    ),
  )

  -- Which branch of RebindFixedVPNIP is taken.
  rebind_branch :
      (user : ℕ) (old_ip new_ip : Text) (s : Service)
      → let r = rebind_fixed_vpn_ip t cfg now user old_ip new_ip s in
        ((e : AccountError) × (r ≡ (s, [], err e)))
        ⊎ ((r ≡ (s, [], ok tt))
            ⊎ ((norm : Text) × (calls : List Call) × (old_ip ≢ norm)
                × Placed norm user s.pool (allocate_specific t norm user s.pool).0
                × (r ≡ (moved user old_ip norm s, calls, ok tt))))
  unfolding rebind_fixed_vpn_ip moved
  rebind_branch user old_ip new_ip s = elim (Bool-cases (text_beq (trim_space new_ip) [])) [
    | inl b ↦ inl (fixed_needs_ip, ground (arith, b))
    | inr b ↦ elim (Result-cases (validate_manual_ip t cfg (trim_space new_ip) user s)) [
      | inr (e, v) ↦ inl (e, ground (arith, b, v))
      | inl (norm, v) ↦ elim (Bool-cases (text_beq old_ip norm)) [
        | inl same ↦ inr (inl (ground (arith, b, v, same)))
        | inr other ↦ elim (allocate_specific-Placed t norm user s.pool) [
          | inl (done, p) ↦ inr (
              inr (
                norm,
                (take_ip now norm user (set_pool (allocate_specific t norm user s.pool).0 s)).1
                    ++ (release_ip old_ip
                        (take_ip now norm user
                          (set_pool (allocate_specific t norm user s.pool).0 s)).0).1,
                ground (arith, other, text_beq_iff old_ip norm),
                p,
                ground (arith, b, v, other, done),
              ))
          | inr (e, r) ↦ inl (pool_error e, ground (arith, b, v, other, r))
        ]
      ]
    ]
  ]

  rebind_fixed-Rebound :
      (user : ℕ) (old_ip new_ip : Text) (s : Service)
      → Rebound user old_ip s (rebind_fixed_vpn_ip t cfg now user old_ip new_ip s)
  rebind_fixed-Rebound user old_ip new_ip s = elim (rebind_branch user old_ip new_ip s) [
    | inl (e, r) ↦ subst (Rebound user old_ip s) (sym r) (unfold Rebound in (refl, refl))
    | inr (inl r) ↦ subst (Rebound user old_ip s) (sym r) (unfold Rebound in inl (refl, refl))
    | inr (inr (norm, calls, other, p, r)) ↦
        subst (Rebound user old_ip s) (sym r) (moved-Rebound user old_ip norm s calls other p)
  ]

  -- Addresses of others stay theirs, and the accounts are untouched.
  pub record Keeps (user : ℕ) (ip : Text) (s s' : Service) : Type 0 where
    pub users : s'.tables.users ≡ s.tables.users
    pub others :
        (o : Text) (v : ℕ) → owner o s.pool ≡ v → v ≢ 0 → v ≢ user → o ≢ ip → owner o s'.pool ≡ v

  moved-users :
      (user : ℕ) (old_ip norm : Text) (s : Service)
      → (moved user old_ip norm s).tables.users ≡ s.tables.users
  unfolding moved release_ip take_ip release_ip_allocation record_ip_allocation set_allocations
  moved-users user old_ip norm s = ground arith

  released-Keeps : (user : ℕ) (ip : Text) (s : Service) → Keeps user ip s (release_ip ip s).0
  unfolding release_ip release_ip_allocation set_allocations
  released-Keeps user ip s = record {
    users = ground arith;
    others =
        λ o v e _ _ other. ground (arith, e, other, release-owner ip o s.pool, text_beq_iff ip o);
  }

  moved-Keeps :
      (user : ℕ) (ip old_ip norm : Text) (s : Service)
      → (old_ip ≡ []) ⊎ (old_ip ≡ ip)
      → Placed norm user s.pool (allocate_specific t norm user s.pool).0
      → Keeps user ip s (moved user old_ip norm s)
  moved-Keeps user ip old_ip norm s old p = record {
    users = moved-users user old_ip norm s;
    others = λ o v e real mine other. elim (Bool-cases (text_beq norm o)) [
      | inl same ↦ absurd (ground (arith, e, real, mine, p.was_open, same, text_beq_iff norm o))
      | inr apart ↦ ground (
        arith,
        e,
        other,
        old,
        moved-owner user old_ip norm o s,
        text_beq_iff old_ip o,
        text_beq_iff old_ip [],
        p.elsewhere o (λ k. cc (apart, (text_beq_iff norm o).1 k)),
      )
    ];
  }

  pub same-Keeps : (user : ℕ) (ip : Text) (s : Service) → Keeps user ip s s
  same-Keeps user ip s = record { users = refl; others = λ o v e _ _ _. e }

  -- What PlanVPNPatch makes of the pool: an error changes nothing.
  unfoldable pub Kept {ℓ} :
      {A : Type ℓ} → ℕ → Text → Service → Service × List Call × Result AccountError A → Type 0
  Kept user ip s (s', calls, err e) = (s' ≡ s) × (calls ≡ [])
  Kept user ip s (s', calls, ok a) = Keeps user ip s s'

  rebind_fixed-Kept :
      (user : ℕ) (ip old_ip new_ip : Text) (s : Service)
      → (old_ip ≡ []) ⊎ (old_ip ≡ ip)
      → Kept user ip s (rebind_fixed_vpn_ip t cfg now user old_ip new_ip s)
  rebind_fixed-Kept user ip old_ip new_ip s old = elim (rebind_branch user old_ip new_ip s) [
    | inl (e, r) ↦ subst (Kept user ip s) (sym r) (unfold Kept in (refl, refl))
    | inr (inl r) ↦ subst (Kept user ip s) (sym r) (unfold Kept in same-Keeps user ip s)
    | inr (inr (norm, calls, other, p, r)) ↦
        subst (Kept user ip s) (sym r) (unfold Kept in moved-Keeps user ip old_ip norm s old p)
  ]

  pub rebind-Kept :
      (u : Account) (i : VpnPatchInput) (new_ip : Text) (s : Service)
      → Kept u.id u.vpn_ip s (rebind t cfg now u i new_ip s)
  rebind-Kept u i new_ip s = elim (which u i new_ip s) [
    | inl e ↦ subst (Kept u.id u.vpn_ip s) (sym e) (unfold Kept in released-Keeps u.id u.vpn_ip s)
    | inr (inl e) ↦
        subst (Kept u.id u.vpn_ip s) (sym e)
          (rebind_fixed-Kept u.id u.vpn_ip [] new_ip s (inl refl))
    | inr (inr (inl e)) ↦
        subst (Kept u.id u.vpn_ip s) (sym e)
          (rebind_fixed-Kept u.id u.vpn_ip u.vpn_ip new_ip s (inr refl))
    | inr (inr (inr e)) ↦
        subst (Kept u.id u.vpn_ip s) (sym e) (unfold Kept in same-Keeps u.id u.vpn_ip s)
  ]
    where
      which :
          (u : Account) (i : VpnPatchInput) (new_ip : Text) (s : Service)
          → let r = rebind t cfg now u i new_ip s in
            (r ≡ ((release_ip u.vpn_ip s).0, (release_ip u.vpn_ip s).1, ok tt))
            ⊎ ((r ≡ rebind_fixed_vpn_ip t cfg now u.id [] new_ip s)
                ⊎ ((r ≡ rebind_fixed_vpn_ip t cfg now u.id u.vpn_ip new_ip s)
                    ⊎ (r ≡ (s, [], ok tt))))
      which u i new_ip s = unfold rebind in ground arith
