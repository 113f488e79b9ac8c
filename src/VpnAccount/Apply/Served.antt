-- ===== src/VpnAccount/Apply/Served.antt =====
-- Whom Apply serves, and which marks are left.
use hao_vpn.Prelude.{
  ℕ, ◌+◌, ◌≡◌, ◌≢◌, refl, ap, sym, subst, ◌∙◌, ◌⊎◌, inl, inr, Bool, true, false, ◌&&◌, ◌||◌, not,
  List, [], ◌∷◌, ◌++◌, Option, none, some, is_some, arith, nat_beq, any, any_append, length, All,
  Bool-cases, Option-cases, if◌then◌else◌,
}
use hao_vpn.VpnAccount.Tables.{
  Account, Database, filter, find_user, update_user, has_vpn, get_user_by_id, increment_policy_ver,
  set_users,
}
use hao_vpn.VpnAccount.Admins.{HasKeys}
use hao_vpn.VpnAccount.Apply.{
  Applier, Mark, has_user, is_online, vpn_ids, due, apply_to, clear_done, marked, apply,
}

abbrev pub Distinct : List ℕ → Type 0
Distinct [] = Unit
Distinct (id ∷ ids) = All (λ k. k ≢ id) ids × Distinct ids

pub has_user-filter :
    (id : ℕ) (keep : ℕ → Bool) (ids : List ℕ)
    → has_user id (filter keep ids) ≡ (has_user id ids && keep id)
unfolding filter
has_user-filter id keep [] = refl
has_user-filter id keep (k ∷ ids) = ground (arith, has_user-filter id keep ids)

All-keep : (P : ℕ → Type 0) (keep : ℕ → Bool) (ids : List ℕ) → All P ids → All P (filter keep ids)
unfolding filter
All-keep P keep [] h = tt
All-keep P keep (k ∷ ids) h = ground (arith, All-keep P keep ids h.1)

filter-Distinct : (keep : ℕ → Bool) (ids : List ℕ) → Distinct ids → Distinct (filter keep ids)
unfolding filter
filter-Distinct keep [] h = tt
filter-Distinct keep (k ∷ ids) h =
    ground (arith, filter-Distinct keep ids h.1, All-keep (λ j. j ≢ k) keep ids h.0)

vpn_ids-All :
    (P : ℕ → Type 0) (us : List Account) → All (λ (u : Account). P u.id) us → All P (vpn_ids us)
unfolding filter
vpn_ids-All P [] h = tt
vpn_ids-All P (u ∷ us) h = ground (arith, vpn_ids-All P us h.1)

vpn_ids-Distinct : (us : List Account) → HasKeys us → Distinct (vpn_ids us)
unfolding filter
vpn_ids-Distinct [] h = tt
vpn_ids-Distinct (u ∷ us) h =
    ground (arith, vpn_ids-Distinct us h.1, vpn_ids-All (λ k. k ≢ u.id) us h.0)

has_user-absent : (id : ℕ) (ids : List ℕ) → All (λ k. k ≢ id) ids → has_user id ids ≡ false
has_user-absent id [] h = refl
has_user-absent id (k ∷ ids) h = ground (arith, h.0, has_user-absent id ids h.1)

-- The account under its next version.
abbrev pub bump : Account → Account
bump u = record u { policy_ver = u.policy_ver + 1 }

abbrev pub bumped : Option Account → Option Account
bumped none = none
bumped (some u) = some (bump u)

find-update :
    (id k : ℕ) (us : List Account)
    → find_user id (update_user k bump us)
      ≡ (if nat_beq k id then bumped (find_user id us) else find_user id us)
unfolding find_user update_user
find-update id k [] = ground arith
find-update id k (u ∷ us) = ground (arith, find-update id k us)

get-increment :
    (id k : ℕ) (tb : Database)
    → get_user_by_id id (increment_policy_ver k tb).0
      ≡ (if nat_beq k id then bumped (get_user_by_id id tb) else get_user_by_id id tb)
unfolding get_user_by_id increment_policy_ver set_users
get-increment id k tb = find-update id k tb.users

increment-found :
    (k : ℕ) (tb : Database) → is_some (increment_policy_ver k tb).1 ≡ is_some (get_user_by_id k tb)
unfolding increment_policy_ver
increment-found k tb = ground (arith, get-increment k k tb, Option-cases (get_user_by_id k tb))

found-increment :
    (id k : ℕ) (tb : Database)
    → is_some (get_user_by_id id (increment_policy_ver k tb).0) ≡ is_some (get_user_by_id id tb)
found-increment id k tb = ground (arith, get-increment id k tb, Option-cases (get_user_by_id id tb))

abbrev served : ℕ → List ℕ → Database → Bool
served id ids tb = has_user id ids && is_some (get_user_by_id id tb)

apply_to-done :
    (id : ℕ) (ids : List ℕ) (tb : Database) → has_user id (apply_to ids tb).1 ≡ served id ids tb
unfolding apply_to
apply_to-done id [] tb = refl
apply_to-done id (k ∷ ids) tb =
    let tb' = (increment_policy_ver k tb).0 in
    ground (
      arith,
      increment-found k tb,
      found-increment id k tb,
      apply_to-done id ids tb',
      Option-cases (increment_policy_ver k tb).1,
    )

apply_to-get :
    (id : ℕ) (ids : List ℕ) (tb : Database)
    → Distinct ids
    → get_user_by_id id (apply_to ids tb).0
      ≡ (if has_user id ids then bumped (get_user_by_id id tb) else get_user_by_id id tb)
unfolding apply_to
apply_to-get id [] tb h = refl
apply_to-get id (k ∷ ids) tb h =
    let tb' = (increment_policy_ver k tb).0 in
    ground (
      arith,
      apply_to-get id ids tb' h.1,
      get-increment id k tb,
      has_user-absent k ids h.0,
      Option-cases (increment_policy_ver k tb).1,
    )

abbrev Known : Database → ℕ → Type 0
Known tb id = is_some (get_user_by_id id tb) ≡ true

increment-Known :
    (k : ℕ) (ids : List ℕ) (tb : Database)
    → All (Known tb) ids
    → All (Known (increment_policy_ver k tb).0) ids
increment-Known k [] tb h = tt
increment-Known k (j ∷ ids) tb h = (found-increment j k tb ∙ h.0, increment-Known k ids tb h.1)

apply_to-Known : (ids : List ℕ) (tb : Database) → All (Known tb) ids → (apply_to ids tb).2 ≡ 0
unfolding apply_to
apply_to-Known [] tb h = refl
apply_to-Known (k ∷ ids) tb h =
    let tb' = (increment_policy_ver k tb).0 in
    ground (
      arith,
      increment-found k tb,
      h.0,
      apply_to-Known ids tb' (increment-Known k ids tb h.1),
      Option-cases (increment_policy_ver k tb).1,
    )

-- Accounts that are listed are found.
find_user-listed :
    (us vs : List Account)
    → ((id : ℕ) → is_some (find_user id us) ≡ true → is_some (find_user id vs) ≡ true)
    → All (λ (u : Account). is_some (find_user u.id vs) ≡ true) us
unfolding find_user
find_user-listed [] vs h = tt
find_user-listed (u ∷ us) vs h =
    (h u.id (ground arith), find_user-listed us vs (λ id e. h id (ground (arith, e))))

vpn_ids-Known : (tb : Database) → All (Known tb) (vpn_ids tb.users)
unfolding get_user_by_id
vpn_ids-Known tb = vpn_ids-All (Known tb) tb.users (find_user-listed tb.users tb.users (λ id e. e))

abbrev is_vpn : Option Account → Bool
is_vpn none = false
is_vpn (some u) = has_vpn u

has_user-vpn_ids :
    (id : ℕ) (us : List Account) → HasKeys us → has_user id (vpn_ids us) ≡ is_vpn (find_user id us)
unfolding find_user filter
has_user-vpn_ids id [] h = refl
has_user-vpn_ids id (u ∷ us) h = ground (
  arith,
  has_user-vpn_ids id us h.1,
  has_user-absent u.id (vpn_ids us) (vpn_ids-All (λ k. k ≢ u.id) us h.0),
)

any_vpn : (us : List Account) → nat_beq (length (vpn_ids us)) 0 ≡ not (any has_vpn us)
unfolding filter
any_vpn [] = refl
any_vpn (u ∷ us) = ground (arith, any_vpn us)

module _ (force_all : Bool) (online : Option (List ℕ)) (meanwhile : List Mark) (tb : Database)
    (p : Applier) where
  abbrev pub is_due : ℕ → Bool
  is_due id = if force_all || p.is_all then is_vpn (get_user_by_id id tb) else has_user id p.ids

  pub record Applied (r : Applier × Database × List ℕ) : Type 0 where
    pub versions :
        (id : ℕ)
        → get_user_by_id id r.1 ≡ (
            if is_due id && is_online online id
            then bumped (get_user_by_id id tb)
            else get_user_by_id id tb)
    pub kicks :
        (id : ℕ)
        → has_user id r.2 ≡ ((is_due id && is_online online id) && is_some (get_user_by_id id tb))
    pub marks :
        (id : ℕ)
        → has_user id r.0.ids ≡ (
            has_user id (marked meanwhile p).ids
            && not (is_due id && (not (is_online online id) || is_some (get_user_by_id id tb))))
    pub all_mark :
        r.0.is_all
        ≡ ((marked meanwhile p).is_all && not ((force_all || p.is_all) && any has_vpn tb.users))

  abbrev ids_due : List ℕ
  ids_due = due force_all tb p

  due_lem : (id : ℕ) → HasKeys tb.users → has_user id ids_due ≡ is_due id
  unfolding due get_user_by_id
  due_lem id keys = ground (arith, has_user-vpn_ids id tb.users keys)

  due-Distinct : HasKeys tb.users → Distinct p.ids → Distinct ids_due
  unfolding due
  due-Distinct keys distinct = ground (arith, distinct, vpn_ids-Distinct tb.users keys)

  abbrev to_kick : List ℕ
  to_kick = filter (is_online online) ids_due

  abbrev offline : List ℕ
  offline = filter (λ id. not (is_online online id)) ids_due

  abbrev looped : Database × List ℕ × ℕ
  looped = apply_to to_kick tb

  abbrev all_done : Bool
  all_done = (force_all || p.is_all) && nat_beq looped.2 0

  -- The two ends of Apply.
  apply_branch :
      ((length ids_due ≡ 0)
        × (apply force_all online meanwhile tb p ≡ (marked meanwhile p, tb, [])))
      ⊎ ((length ids_due ≢ 0)
          × (apply force_all online meanwhile tb p ≡ (
            clear_done (looped.1 ++ offline) all_done (marked meanwhile p),
            looped.0,
            looped.1,
          )))
  unfolding apply
  apply_branch = ground arith

  none_due : (id : ℕ) → length ids_due ≡ 0 → has_user id ids_due ≡ false
  none_due id h = empty_has id ids_due h
    where
      empty_has : (id : ℕ) (ids : List ℕ) → length ids ≡ 0 → has_user id ids ≡ false
      empty_has id [] h = refl
      empty_has id (k ∷ ids) h = ground (arith, h)

  idle-Applied : HasKeys tb.users → length ids_due ≡ 0 → Applied (marked meanwhile p, tb, [])
  idle-Applied keys h = record {
    versions = λ id. ground (arith, due_lem id keys, none_due id h);
    kicks = λ id. ground (arith, due_lem id keys, none_due id h);
    marks = λ id. ground (arith, due_lem id keys, none_due id h);
    all_mark = unfold due in ground (arith, h, any_vpn tb.users);
  }

  busy-versions :
      (id : ℕ)
      → HasKeys tb.users
      → Distinct p.ids
      → get_user_by_id id looped.0 ≡ (
          if is_due id && is_online online id
          then bumped (get_user_by_id id tb)
          else get_user_by_id id tb)
  busy-versions id keys distinct =
      let d = filter-Distinct (is_online online) ids_due (due-Distinct keys distinct) in
      ground (
        arith,
        apply_to-get id to_kick tb d,
        has_user-filter id (is_online online) ids_due,
        due_lem id keys,
      )

  busy-kicks :
      (id : ℕ)
      → HasKeys tb.users
      → has_user id looped.1
        ≡ ((is_due id && is_online online id) && is_some (get_user_by_id id tb))
  busy-kicks id keys = ground (
    arith,
    apply_to-done id to_kick tb,
    has_user-filter id (is_online online) ids_due,
    due_lem id keys,
  )

  busy-marks :
      (id : ℕ)
      → HasKeys tb.users
      → has_user id (clear_done (looped.1 ++ offline) all_done (marked meanwhile p)).ids ≡ (
          has_user id (marked meanwhile p).ids
          && not (is_due id && (not (is_online online id) || is_some (get_user_by_id id tb))))
  unfolding clear_done
  busy-marks id keys =
      let handled = looped.1 ++ offline in
      ground (
        arith,
        has_user-filter id (λ k. not (has_user k handled)) (marked meanwhile p).ids,
        any_append (λ k. nat_beq k id) looped.1 offline,
        busy-kicks id keys,
        has_user-filter id (λ k. not (is_online online k)) ids_due,
        due_lem id keys,
      )

  -- When all accounts are due, none fails.
  none_failed : force_all || p.is_all ≡ true → looped.2 ≡ 0
  unfolding due
  none_failed h =
      let known : All (Known tb) ids_due = ground (arith, h, vpn_ids-Known tb) in
      apply_to-Known to_kick tb (All-keep (Known tb) (is_online online) ids_due known)

  busy-all_mark :
      length ids_due ≢ 0
      → (clear_done (looped.1 ++ offline) all_done (marked meanwhile p)).is_all
        ≡ ((marked meanwhile p).is_all && not ((force_all || p.is_all) && any has_vpn tb.users))
  unfolding clear_done due
  busy-all_mark h = elim (Bool-cases (force_all || p.is_all)) [
    | inl f ↦ ground (arith, h, f, none_failed f, any_vpn tb.users)
    | inr f ↦ ground (arith, f)
  ]

  -- Who is kicked.
  pub apply-kicks :
      (id : ℕ)
      → HasKeys tb.users
      → has_user id (apply force_all online meanwhile tb p).2
        ≡ ((is_due id && is_online online id) && is_some (get_user_by_id id tb))
  apply-kicks id keys = elim apply_branch [
    | inl (h, e) ↦ ap (λ r. has_user id r.2) e ∙ (idle-Applied keys h).kicks id
    | inr (h, e) ↦ ap (λ r. has_user id r.2) e ∙ busy-kicks id keys
  ]

  -- Apply raises the version of just the accounts that are due and online, by one, and kicks those
  -- of them that exist. Afterwards the marks are those set before and meanwhile, without those of
  -- the due accounts that were kicked or are offline; the mark of all stays only if no account has
  -- keys or not all were due. Ids of accounts and marked ids are distinct.
  pub apply-Applied :
      HasKeys tb.users → Distinct p.ids → Applied (apply force_all online meanwhile tb p)
  apply-Applied keys distinct = elim apply_branch [
    | inl (h, e) ↦ subst Applied (sym e) (idle-Applied keys h)
    | inr (h, e) ↦ subst Applied (sym e) (record {
      versions = λ id. busy-versions id keys distinct;
      kicks = λ id. busy-kicks id keys;
      marks = λ id. busy-marks id keys;
      all_mark = busy-all_mark h;
    })
  ]
