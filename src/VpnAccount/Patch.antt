-- ===== src/VpnAccount/Patch.antt =====
-- What a change of policy leaves of the accounts and of the pool.
use hao_vpn.Prelude.{
  ℕ, ◌+◌, ◌≡◌, refl, ap, sym, subst, ◌∙◌, ◌⊎◌, inl, inr, Bool, false, not, List, [], ◌∷◌, ◌++◌,
  none, some, arith, Text, text_eq, text_beq, text_beq_iff, ok, err, nat_beq, Bool-cases,
  Result-cases, if◌then◌else◌,
}
use hao_vpn.Net.{Text6}
use hao_vpn.NetUtil.Cidr.{validate_no_full_tunnel}
use hao_vpn.IpPool.{owner}
use hao_vpn.VpnAccount.Tables.{
  Account, Database, find_user, update_user, get_user_by_id, set_users, has_vpn,
  increment_policy_ver, update_vpn_fields,
}
use hao_vpn.VpnAccount.{
  Service, Outcome, Config, AccountError, on_kick_user, normalize_ipv4, account_not_found,
  full_tunnel,
}
use hao_vpn.VpnAccount.Provision.{
  VpnPatchInput, VpnPatchPlan, rebind, planned_ip, plan_vpn_patch, apply_vpn_patch, new_mode_of,
}
use hao_vpn.VpnAccount.Rebind.{Kept, Keeps, rebind-Kept}

module _ (t : Text6) (cfg : Config) (now : ℕ) where
  -- The plan in place of what the rebinding returned.
  abbrev with_plan : VpnPatchPlan → Outcome (Unit {0}) → Outcome VpnPatchPlan
  with_plan plan (s', calls, ok done) = (s', calls, ok plan)
  with_plan plan (s', calls, err e) = (s', calls, err e)

  with_plan-Kept :
      (user : ℕ) (ip : Text) (s : Service) (plan : VpnPatchPlan) (r : Outcome (Unit {0}))
      → Kept t cfg now user ip s r
      → Kept t cfg now user ip s (with_plan plan r)
  unfolding Kept
  with_plan-Kept user ip s plan (s', calls, ok done) k = k
  with_plan-Kept user ip s plan (s', calls, err e) k = k

  abbrev is_refused : VpnPatchInput → Bool
  is_refused i = elim i.allowed_ips [
    | none ↦ false
    | some cidrs ↦ not (validate_no_full_tunnel t cidrs)
  ]

  planned_by : Account → VpnPatchInput → Text → VpnPatchPlan
  planned_by u i new_ip = record {
    new_ip = new_ip;
    new_mode = new_mode_of t cfg u i;
    allowed_ips = elim i.allowed_ips [ none ↦ u.allowed_ips | some cidrs ↦ cidrs ];
    ip_lease_sec = if nat_beq i.ip_lease_sec 0 then u.ip_lease_sec else i.ip_lease_sec;
  }

  plan_branch :
      (u : Account) (i : VpnPatchInput) (s : Service)
      → let r = plan_vpn_patch t cfg now u i s in
        ((e : AccountError) × (r ≡ (s, [], err e)))
        ⊎ ((new_ip : Text) × (r
              ≡ with_plan (planned_by u i new_ip) (rebind t cfg now u i new_ip s)))
  unfolding plan_vpn_patch planned_by
  plan_branch u i s = elim (Bool-cases (has_vpn u)) [
    | inr v ↦ inl (account_not_found, ground (arith, v))
    | inl v ↦ elim (Bool-cases (is_refused i)) [
      | inl f ↦ inl (full_tunnel, ground (arith, v, f))
      | inr f ↦ elim (Result-cases (planned_ip t cfg u i)) [
        | inr (e, p) ↦ inl (e, ground (arith, v, f, p))
        | inl (new_ip, p) ↦
            inr (new_ip, ground (arith, v, f, p, Result-cases (rebind t cfg now u i new_ip s).2))
      ]
    ]
  ]

  plan-Kept :
      (u : Account) (i : VpnPatchInput) (s : Service)
      → Kept t cfg now u.id u.vpn_ip s (plan_vpn_patch t cfg now u i s)
  plan-Kept u i s = elim (plan_branch u i s) [
    | inl (e, r) ↦ subst (Kept t cfg now u.id u.vpn_ip s) (sym r) (unfold Kept in (refl, refl))
    | inr (new_ip, r) ↦ subst (Kept t cfg now u.id u.vpn_ip s) (sym r) (
        with_plan-Kept u.id u.vpn_ip s (planned_by u i new_ip) (rebind t cfg now u i new_ip s)
          (rebind-Kept t cfg now u i new_ip s))
  ]

  abbrev normal_of : Text → Text
  normal_of ip = elim (normalize_ipv4 t ip) [ none ↦ ip | some norm ↦ norm ]

  -- An accepted patch stores the new policy under the next version; a refused one changes nothing.
  -- Addresses that other accounts hold stay theirs.
  abbrev pub Patched : ℕ → Account → Service → Outcome (ℕ × Text × Text) → Type 0
  Patched user u s (s', calls, err e) = (s' ≡ s) × (calls ≡ [])
  Patched user u s (s', calls, ok (pv, ip, mode)) =
      ((v : Account) × (get_user_by_id user s'.tables ≡ some v)
        × (v.vpn_ip ≡ ip)
        × (v.ip_mode ≡ mode)
        × (v.policy_ver ≡ pv)
        × (pv ≡ u.policy_ver + 1))
      × ((o : Text)
          → (owner o s'.pool ≡ owner o s.pool)
            ⊎ ((owner o s.pool ≡ 0) ⊎ ((owner o s.pool ≡ user) ⊎ (o ≡ u.vpn_ip))))

find_user-id : (id : ℕ) (u : Account) (us : List Account) → find_user id us ≡ some u → u.id ≡ id
unfolding find_user
find_user-id id u [] h = ground (arith, h)
find_user-id id u (v ∷ us) h = ground (arith, h, find_user-id id u us)

find_user-update :
    (id : ℕ) (f : Account → Account) (u : Account) (us : List Account)
    → ((v : Account) → (f v).id ≡ v.id)
    → find_user id us ≡ some u
    → find_user id (update_user id f us) ≡ some (f u)
unfolding find_user update_user
find_user-update id f u [] same h = ground (arith, h)
find_user-update id f u (v ∷ us) same h = elim (Bool-cases (nat_beq v.id id)) [
  | inl e ↦ ground (arith, h, e, same v)
  | inr e ↦ ground (arith, h, e, find_user-update id f u us same)
]

-- The accounts after IncrementPolicyVer and UpdateVPNFields.
abbrev bumped : ℕ → Database → Database
bumped user tb = (increment_policy_ver user tb).0

increment-some :
    (user : ℕ) (u : Account) (tb : Database)
    → find_user user tb.users ≡ some u
    → (find_user user (bumped user tb).users ≡ some (record u { policy_ver = u.policy_ver + 1 }))
      × ((increment_policy_ver user tb).1 ≡ some (u.policy_ver + 1))
unfolding increment_policy_ver set_users get_user_by_id
increment-some user u tb h =
    let e =
      find_user-update user (λ u. record u { policy_ver = u.policy_ver + 1 }) u tb.users (λ v. refl)
        h in
    (e, ground (arith, e))

update_vpn_fields-some :
    (user : ℕ) (ip : Text) (allowed : List Text) (mode : Text) (lease ver : ℕ) (u : Account)
    (tb : Database)
    → find_user user tb.users ≡ some u
    → get_user_by_id user (update_vpn_fields user ip allowed mode lease ver tb)
      ≡ some (record u {
        vpn_ip = ip;
        allowed_ips = allowed;
        ip_mode = mode;
        ip_lease_sec = lease;
        policy_ver = ver;
      })
unfolding update_vpn_fields set_users get_user_by_id
update_vpn_fields-some user ip allowed mode lease ver u tb h =
    find_user-update user
      (λ u. record u {
        vpn_ip = ip;
        allowed_ips = allowed;
        ip_mode = mode;
        ip_lease_sec = lease;
        policy_ver = ver;
      })
      u tb.users (λ v. refl) h

module _ (t : Text6) (cfg : Config) (now : ℕ) where
  finish : ℕ → Account → Outcome VpnPatchPlan → Outcome (ℕ × Text × Text)
  finish user u (s', calls, err e) = (s', calls, err e)
  finish user u (s', calls, ok plan) = (
    record s' {
      tables =
          update_vpn_fields user (normal_of t cfg now plan.new_ip) plan.allowed_ips plan.new_mode
            plan.ip_lease_sec (u.policy_ver + 1) (bumped user s'.tables);
    },
    calls ++ (on_kick_user user ∷ []),
    ok (u.policy_ver + 1, normal_of t cfg now plan.new_ip, plan.new_mode),
  )

  others :
      (user : ℕ) (u : Account) (s s' : Service)
      → Keeps t cfg now user u.vpn_ip s s'
      → (o : Text)
      → (owner o s'.pool ≡ owner o s.pool)
        ⊎ ((owner o s.pool ≡ 0) ⊎ ((owner o s.pool ≡ user) ⊎ (o ≡ u.vpn_ip)))
  others user u s s' k o = elim (Bool-cases (text_beq o u.vpn_ip)) [
    | inl e ↦ inr (inr (inr ((text_beq_iff o u.vpn_ip).0 e)))
    | inr e ↦ elim (Bool-cases (nat_beq (owner o s.pool) 0)) [
      | inl z ↦ inr (inl (ground (arith, z)))
      | inr z ↦ elim (Bool-cases (nat_beq (owner o s.pool) user)) [
        | inl m ↦ inr (inr (inl (ground (arith, m))))
        | inr m ↦ inl (
            k.others o (owner o s.pool) refl (ground (arith, z)) (ground (arith, m))
              (ground (arith, e, text_beq_iff o u.vpn_ip)))
      ]
    ]
  ]

  finish-Patched :
      (user : ℕ) (u : Account) (s : Service) (r : Outcome VpnPatchPlan)
      → find_user user s.tables.users ≡ some u
      → u.id ≡ user
      → Kept t cfg now user u.vpn_ip s r
      → Patched t cfg now user u s (finish user u r)
  unfolding Kept finish
  finish-Patched user u s (s', calls, err e) found same k = k
  finish-Patched user u s (s', calls, ok plan) found same k =
      let found' : find_user user s'.tables.users ≡ some u = ap (find_user user) k.users ∙ found in
      (
        (
          record u {
            vpn_ip = normal_of t cfg now plan.new_ip;
            allowed_ips = plan.allowed_ips;
            ip_mode = plan.new_mode;
            ip_lease_sec = plan.ip_lease_sec;
            policy_ver = u.policy_ver + 1;
          },
          update_vpn_fields-some user (normal_of t cfg now plan.new_ip) plan.allowed_ips
              plan.new_mode plan.ip_lease_sec (u.policy_ver + 1)
              (record u { policy_ver = u.policy_ver + 1 }) (bumped user s'.tables)
              (increment-some user u s'.tables found').0,
          refl,
          refl,
          refl,
          refl,
        ),
        λ o. others user u s s' k o,
      )

  apply-finish :
      (user : ℕ) (i : VpnPatchInput) (u : Account) (s : Service) (r : Outcome VpnPatchPlan)
      → find_user user s.tables.users ≡ some u
      → plan_vpn_patch t cfg now u i s ≡ r
      → Kept t cfg now user u.vpn_ip s r
      → apply_vpn_patch t cfg now user i s ≡ finish user u r
  unfolding apply_vpn_patch finish get_user_by_id Kept
  apply-finish user i u s (s', calls, err e) found p k = ground (arith, found, p)
  apply-finish user i u s (s', calls, ok plan) found p k =
      let found' : find_user user s'.tables.users ≡ some u = ap (find_user user) k.users ∙ found in
      ground (arith, found, p, (increment-some user u s'.tables found').1)

  -- A patch of an existing account that ApplyVPNPatch refuses changes nothing and calls nothing.
  -- One that it takes stores the address and the mode that it returns under the next version, and
  -- an address that another account holds in the pool stays that account's, unless it is the
  -- stored address of the patched one.
  pub apply_vpn_patch-Patched :
      (user : ℕ) (i : VpnPatchInput) (u : Account) (s : Service)
      → get_user_by_id user s.tables ≡ some u
      → Patched t cfg now user u s (apply_vpn_patch t cfg now user i s)
  unfolding get_user_by_id
  apply_vpn_patch-Patched user i u s found =
      let r = plan_vpn_patch t cfg now u i s in
      let same = find_user-id user u s.tables.users found in
      let kept : Kept t cfg now user u.vpn_ip s r =
        subst (λ k. Kept t cfg now k u.vpn_ip s r) same (plan-Kept t cfg now u i s) in
      subst (Patched t cfg now user u s) (sym (apply-finish user i u s r found refl kept))
        (finish-Patched user u s r found same kept)
