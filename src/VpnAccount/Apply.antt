-- ===== src/VpnAccount/Apply.antt =====
-- peer_apply.go: accounts whose policy changed are marked, and Apply makes the online ones reconnect;
-- with the lists of members of peer_route_normalize.go. Apply gives the lock up between reading the
-- marks and taking them back, so the marks that others set meanwhile are an argument. Id 0 stands for
-- all accounts and for every id that is not positive.
pub mod Served
use hao_vpn.Prelude.{
  ℕ, zero, suc, Bool, true, false, ◌&&◌, ◌||◌, not, List, [], ◌∷◌, ◌++◌, Option, none, some,
  nat_beq, ltb, any, map, length, if◌then◌else◌,
}
use hao_vpn.VpnAccount.Tables.{Account, Database, filter, has_vpn, increment_policy_ver}

-- The ids are those of the set, in the order of its iteration.
pub record Applier : Type 0 where
  pub is_all : Bool
  pub ids : List ℕ

abbrev pub has_user : ℕ → List ℕ → Bool
has_user id = any (λ k. nat_beq k id)

abbrev pub new_applier : Applier
new_applier = record { is_all = false; ids = [] }

unfoldable pub mark_user : ℕ → Applier → Applier
mark_user id p =
    if ltb 0 id && not (has_user id p.ids) then record p { ids = p.ids ++ (id ∷ []) } else p

unfoldable pub mark_users : List ℕ → Applier → Applier
unfolding mark_user
mark_users [] p = p
mark_users (id ∷ ids) p = mark_users ids (mark_user id p)

unfoldable pub mark_all : Applier → Applier
mark_all p = record p { is_all = true }

-- PeerRouteHasAllMembers
abbrev pub has_all_members : List ℕ → Bool
has_all_members = has_user 0

unfoldable pub mark_members : List ℕ → Applier → Applier
unfolding mark_users mark_all
mark_members members p = if has_all_members members then mark_all p else mark_users members p

unfoldable pub members_from : List ℕ → List ℕ → List ℕ
members_from out [] = out
members_from out (id ∷ ids) =
    if nat_beq id 0 || has_user id out
    then members_from out ids
    else members_from (out ++ (id ∷ [])) ids

unfoldable pub normalize_member_user_ids : List ℕ → List ℕ
unfolding members_from
normalize_member_user_ids ids = if has_all_members ids then 0 ∷ [] else members_from [] ids

unfoldable pub union_member_user_ids : List ℕ → List ℕ → List ℕ
unfolding normalize_member_user_ids
union_member_user_ids a b = normalize_member_user_ids (a ++ b)

unfoldable pub mark_members_union : List ℕ → List ℕ → Applier → Applier
unfolding mark_members union_member_user_ids
mark_members_union old_members new_members =
    mark_members (union_member_user_ids old_members new_members)

unfoldable pub clear_done : List ℕ → Bool → Applier → Applier
unfolding filter
clear_done done clear_all p = record {
  is_all = if clear_all then false else p.is_all;
  ids = filter (λ k. not (has_user k done)) p.ids;
}

-- ListUserDirectory, the ids of the accounts with keys.
abbrev pub vpn_ids : List Account → List ℕ
vpn_ids us = map {A = Account} (λ u. u.id) (filter has_vpn us)

-- The accounts that an Apply is about.
unfoldable pub due : Bool → Database → Applier → List ℕ
due force_all tb p = if force_all || p.is_all then vpn_ids tb.users else p.ids

-- `none` where ListOnline is not set.
abbrev pub is_online : Option (List ℕ) → ℕ → Bool
is_online online id = elim online [ none ↦ true | some on ↦ ltb 0 id && has_user id on ]

-- The loop over the accounts to kick: which were, and how many failed.
unfoldable pub apply_to : List ℕ → Database → Database × List ℕ × ℕ
apply_to [] tb = (tb, [], 0)
apply_to (id ∷ ids) tb =
    let (tb', ver) = increment_policy_ver id tb in
    let (tb'', done, failed) = apply_to ids tb' in
    elim ver [ none ↦ (tb'', done, suc failed) | some pv ↦ (tb'', id ∷ done, failed) ]

-- What others call meanwhile.
pub data Mark : Type 0 where
  marks_users : List ℕ → Mark
  marks_all : Mark

unfoldable pub marked : List Mark → Applier → Applier
unfolding mark_users mark_all
marked [] p = p
marked (marks_users ids ∷ ms) p = marked ms (mark_users ids p)
marked (marks_all ∷ ms) p = marked ms (mark_all p)

-- The result's list is that of the accounts kicked.
unfoldable pub apply :
    Bool → Option (List ℕ) → List Mark → Database → Applier → Applier × Database × List ℕ
unfolding due apply_to clear_done
apply force_all online meanwhile tb p =
    let ids = due force_all tb p in
    let (tb', done, failed) = apply_to (filter (is_online online) ids) tb in
    let offline = filter (λ id. not (is_online online id)) ids in
    let clear_all = (force_all || p.is_all) && nat_beq failed 0 in
    if nat_beq (length ids) 0
    then (marked meanwhile p, tb, [])
    else (clear_done (done ++ offline) clear_all (marked meanwhile p), tb', done)
