-- ===== src/VpnAccount/Admins.antt =====
-- An enabled administrator is always left.
use hao_vpn.Prelude.{
  ℕ, ◌+◌, ◌<◌, ◌≤◌, ◌≡◌, ◌≢◌, refl, subst, sym, Bool, true, false, ◌&&◌, not, List, [], ◌∷◌, some,
  arith, nat_beq, leb, length, All, if◌then◌else◌, Bool-cases, Option-cases, inl, inr, ◌⊎◌,
}
use hao_vpn.VpnAccount.Tables.{
  Account, filter, find_user, update_user, is_enabled_admin, get_user_by_id, count_enabled_admins,
  set_user_enabled, delete_user, set_users, release_ip_allocation, set_allocations,
}
use hao_vpn.VpnAccount.{Service, delete_account, set_account_enabled, guard_last_admin, release_ip}

-- The calls that can take an administrator away.
pub data AdminCall : Type 0 where
  deletes : ℕ → AdminCall
  enables : ℕ → Bool → AdminCall

unfoldable pub after : AdminCall → Service → Service
after (deletes id) s = (delete_account id s).0
after (enables id b) s = (set_account_enabled id b s).0

unfoldable pub after_all : List AdminCall → Service → Service
after_all [] s = s
after_all (c ∷ cs) s = after_all cs (after c s)

-- Ids are distinct: the primary key.
abbrev pub HasKeys : List Account → Type 0
HasKeys [] = Unit
HasKeys (u ∷ us) = All (λ v. v.id ≢ u.id) us × HasKeys us

abbrev admins : List Account → ℕ
admins us = length (filter is_enabled_admin us)

All-filter :
    (keep : Account → Bool) (P : Account → Type 0) (us : List Account)
    → All P us
    → All P (filter keep us)
unfolding filter
All-filter keep P [] h = tt
All-filter keep P (u ∷ us) h = ground (arith, All-filter keep P us h.1)

filter-HasKeys : (keep : Account → Bool) (us : List Account) → HasKeys us → HasKeys (filter keep us)
unfolding filter
filter-HasKeys keep [] h = tt
filter-HasKeys keep (u ∷ us) h =
    ground (arith, filter-HasKeys keep us h.1, All-filter keep (λ v. v.id ≢ u.id) us h.0)

All-update_user :
    (id k : ℕ) (b : Bool) (us : List Account)
    → All (λ v. v.id ≢ k) us
    → All (λ v. v.id ≢ k) (update_user id (λ u. record u { enabled = b }) us)
unfolding update_user
All-update_user id k b [] h = tt
All-update_user id k b (u ∷ us) h = ground (arith, All-update_user id k b us h.1)

update_user-HasKeys :
    (id : ℕ) (b : Bool) (us : List Account)
    → HasKeys us
    → HasKeys (update_user id (λ u. record u { enabled = b }) us)
unfolding update_user
update_user-HasKeys id b [] h = tt
update_user-HasKeys id b (u ∷ us) h = elim (Bool-cases (nat_beq u.id id)) [
  | inl e ↦ rw e (All-update_user id u.id b us h.0, update_user-HasKeys id b us h.1)
  | inr e ↦ rw e (All-update_user id u.id b us h.0, update_user-HasKeys id b us h.1)
]

-- The other accounts are not the one that was found.
absent :
    (id : ℕ) (v : Account) (us : List Account)
    → HasKeys (v ∷ us)
    → nat_beq v.id id ≡ true
    → All (λ w. w.id ≢ id) us
absent id v us h e =
    let same : v.id ≡ id = ground (arith, e) in subst (λ k. All (λ w. w.id ≢ k) us) same h.0

-- The list without an account that is not in it.
filter_absent :
    (id : ℕ) (us : List Account)
    → All (λ v. v.id ≢ id) us
    → filter (λ u. not (nat_beq u.id id)) us ≡ us
unfolding filter
filter_absent id [] h = refl
filter_absent id (u ∷ us) h = ground (arith, filter_absent id us h.1)

update_absent :
    (id : ℕ) (b : Bool) (us : List Account)
    → All (λ v. v.id ≢ id) us
    → update_user id (λ u. record u { enabled = b }) us ≡ us
unfolding update_user
update_absent id b [] h = refl
update_absent id b (u ∷ us) h = ground (arith, update_absent id b us h.1)

-- Deleting or disabling an account takes at most itself off the count.
admins-filter :
    (id : ℕ) (u : Account) (us : List Account)
    → HasKeys us
    → find_user id us ≡ some u
    → admins us
      ≤ admins (filter (λ v. not (nat_beq v.id id)) us) + (if is_enabled_admin u then 1 else 0)
unfolding filter find_user
admins-filter id u [] h e = ground (arith, e)
admins-filter id u (v ∷ us) h e = elim (Bool-cases (nat_beq v.id id)) [
  | inl m ↦ ground (arith, m, e, filter_absent id us (absent id v us h m))
  | inr m ↦ ground (arith, m, e, admins-filter id u us h.1)
]

admins-disable :
    (id : ℕ) (u : Account) (us : List Account)
    → HasKeys us
    → find_user id us ≡ some u
    → admins us
      ≤ admins (update_user id (λ v. record v { enabled = false }) us)
        + (if is_enabled_admin u then 1 else 0)
unfolding filter find_user update_user
admins-disable id u [] h e = ground (arith, e)
admins-disable id u (v ∷ us) h e = elim (Bool-cases (nat_beq v.id id)) [
  | inl m ↦ ground (arith, m, e, update_absent id false us (absent id v us h m))
  | inr m ↦ ground (arith, m, e, admins-disable id u us h.1)
]

admins-enable :
    (id : ℕ) (us : List Account)
    → admins us ≤ admins (update_user id (λ v. record v { enabled = true }) us)
unfolding filter update_user
admins-enable id [] = omega arith
admins-enable id (v ∷ us) = ground (arith, admins-enable id us)

-- The accounts after a call: as before, or without one that the guard lets go.
Guarded : ℕ → (List Account → List Account) → List Account → List Account → Type 0
Guarded id f us us' =
    (us' ≡ us)
    ⊎ ((u : Account) × (find_user id us ≡ some u)
        × ((is_enabled_admin u && leb (admins us) 1) ≡ false)
        × (us' ≡ f us))

delete_account-Guarded :
    (id : ℕ) (s : Service)
    → Guarded id
        (filter (λ v. not (nat_beq v.id id)))
        s.tables.users
        (delete_account id s).0.tables.users
unfolding Guarded delete_account get_user_by_id guard_last_admin count_enabled_admins delete_user
    release_ip release_ip_allocation set_allocations
delete_account-Guarded id s = elim (Option-cases (find_user id s.tables.users)) [
  | inl e ↦ inl (ground (arith, e))
  | inr (u, e) ↦ elim (Bool-cases (is_enabled_admin u && leb (admins s.tables.users) 1)) [
    | inl g ↦ inl (ground (arith, e, g))
    | inr g ↦ inr (u, e, g, ground (arith, e, g))
  ]
]

disable-Guarded :
    (id : ℕ) (s : Service)
    → Guarded id
        (update_user id (λ v. record v { enabled = false }))
        s.tables.users
        (set_account_enabled id false s).0.tables.users
unfolding Guarded set_account_enabled get_user_by_id guard_last_admin count_enabled_admins
    set_user_enabled set_users
disable-Guarded id s = elim (Option-cases (find_user id s.tables.users)) [
  | inl e ↦ inl (ground (arith, e))
  | inr (u, e) ↦ elim (Bool-cases (is_enabled_admin u && leb (admins s.tables.users) 1)) [
    | inl g ↦ inl (ground (arith, e, g))
    | inr g ↦ inr (u, e, g, ground (arith, e, g))
  ]
]

abbrev IsManaged : List Account → Type 0
IsManaged us = HasKeys us × (0 < admins us)

Guarded-IsManaged :
    (id : ℕ) (f : List Account → List Account) (us us' : List Account)
    → ((u : Account)
        → find_user id us ≡ some u
        → admins us ≤ admins (f us) + (if is_enabled_admin u then 1 else 0))
    → HasKeys (f us)
    → Guarded id f us us'
    → IsManaged us
    → IsManaged us'
unfolding Guarded
Guarded-IsManaged id f us us' bound keys (inl e) m = subst IsManaged (sym e) m
Guarded-IsManaged id f us us' bound keys (inr (u, e, g, same)) m =
    subst IsManaged (sym same) (keys, ground (arith, g, m.1, bound u e))

after-IsManaged :
    (c : AdminCall) (s : Service) → IsManaged s.tables.users → IsManaged (after c s).tables.users
unfolding after
after-IsManaged (deletes id) s m =
    let f = filter (λ (v : Account). not (nat_beq v.id id)) in
    Guarded-IsManaged id f s.tables.users (delete_account id s).0.tables.users
      (λ u e. admins-filter id u s.tables.users m.0 e)
      (filter-HasKeys (λ v. not (nat_beq v.id id)) s.tables.users m.0) (delete_account-Guarded id s)
      m
after-IsManaged (enables id false) s m =
    let f = update_user id (λ v. record v { enabled = false }) in
    Guarded-IsManaged id f s.tables.users (set_account_enabled id false s).0.tables.users
      (λ u e. admins-disable id u s.tables.users m.0 e)
      (update_user-HasKeys id false s.tables.users m.0) (disable-Guarded id s) m
after-IsManaged (enables id true) s m =
    unfold set_account_enabled set_user_enabled set_users in
    (
      update_user-HasKeys id true s.tables.users m.0,
      omega (arith, admins-enable id s.tables.users, m.1),
    )

-- If the ids of accounts are distinct and there is an enabled administrator, there is one after
-- any sequence of DeleteAccount and SetAccountEnabled calls.
pub after_all-admins :
    (cs : List AdminCall) (s : Service)
    → HasKeys s.tables.users
    → 0 < count_enabled_admins s.tables
    → 0 < count_enabled_admins (after_all cs s).tables
unfolding after_all count_enabled_admins
after_all-admins cs s keys some_left = go cs s (keys, some_left)
  where
    go :
        (cs : List AdminCall) (s : Service)
        → IsManaged s.tables.users
        → 0 < admins (after_all cs s).tables.users
    go [] s m = m.1
    go (c ∷ cs) s m = go cs (after c s) (after-IsManaged c s m)
