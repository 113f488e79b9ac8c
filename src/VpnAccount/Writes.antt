-- ===== src/VpnAccount/Writes.antt =====
-- peer_write.go and the writes of peer_routes.go and peer_access.go: managed routes and access among
-- peers, each with the marks that it leaves. The id that a new route gets is an argument; a route's
-- id is a primary key, so the statements for one id stop at the first row. An id that is not positive
-- is 0.
pub mod Marks
pub mod Routes
mod Access
pub mod Followed
use hao_vpn.Prelude.{
  ℕ, Bool, true, false, ◌&&◌, ◌||◌, not, List, [], ◌∷◌, ◌++◌, Option, none, some, Text, text_beq,
  nat_beq, ltb, any, length, if◌then◌else◌, Result, ok, err,
}
use hao_vpn.Prelude.Sort.{sort_by}
use hao_vpn.Net.{Text6}
use hao_vpn.VpnAccount.Tables.{
  Account, Database, PeerRoute, filter, has_vpn, get_user_by_id, normalize_peer_route_dest,
}
use hao_vpn.VpnAccount.Apply.{
  Applier, has_user, mark_users, mark_members, mark_members_union, normalize_member_user_ids,
}

pub data WriteError : Type 0 where
  via_required via_not_found via_not_vpn bad_dest no_members bad_member route_exists
        route_not_found :
      WriteError
  access_args invalid_pair no_peer_account : WriteError

pub record Peers : Type 0 where
  pub applier : Applier
  pub tables : Database

pub record CreatePeerRouteInput : Type 0 where
  pub dest_cidr : Text
  pub via_user_id : ℕ
  pub member_user_ids : List ℕ

-- requireVPNUser
abbrev pub is_vpn_user : ℕ → Database → Bool
is_vpn_user id tb = elim (get_user_by_id id tb) [ none ↦ false | some u ↦ has_vpn u ]

-- validatePeerRouteMemberIDs
abbrev pub are_members : ℕ → List ℕ → Database → Bool
are_members via members tb =
    not (any (λ id. not (nat_beq id 0) && (nat_beq id via || not (is_vpn_user id tb))) members)

unfoldable pub get_peer_route : ℕ → List PeerRoute → Option PeerRoute
get_peer_route id [] = none
get_peer_route id (r ∷ rs) = if nat_beq r.id id then some r else get_peer_route id rs

unfoldable pub update_route : ℕ → (PeerRoute → PeerRoute) → List PeerRoute → List PeerRoute
update_route id f [] = []
update_route id f (r ∷ rs) = if nat_beq r.id id then f r ∷ rs else r ∷ update_route id f rs

unfoldable pub remove_route : ℕ → List PeerRoute → List PeerRoute
remove_route id [] = []
remove_route id (r ∷ rs) = if nat_beq r.id id then rs else r ∷ remove_route id rs

abbrev pub with_members : List ℕ → PeerRoute → PeerRoute
with_members members r = record r { member_user_ids = sort_by ltb members }

abbrev pub set_routes : List PeerRoute → Database → Database
set_routes rs tb = record tb { peer_routes = rs }

abbrev pub set_access : List (ℕ × ℕ) → Database → Database
set_access rows tb = record tb { peer_access = rows }

abbrev pub is_pair : ℕ → ℕ → ℕ × ℕ → Bool
is_pair a b row = nat_beq row.0 a && nat_beq row.1 b

-- persist.AddPeerAccess
unfoldable pub add_access : ℕ → ℕ → Database → Result WriteError Database
add_access a b tb =
    if nat_beq a 0 || (nat_beq b 0 || nat_beq a b)
    then err invalid_pair
    else if not (is_vpn_user a tb) || not (is_vpn_user b tb)
    then err no_peer_account
    else if any (is_pair a b) tb.peer_access
    then ok tb
    else ok (set_access (tb.peer_access ++ ((a, b) ∷ [])) tb)

unfoldable pub add_peer_access_pair : ℕ → ℕ → Database → Database × Result WriteError (Unit {0})
unfolding add_access
add_peer_access_pair a b tb = elim (add_access a b tb) [
  | err e ↦ (tb, err e)
  | ok tb' ↦ elim (add_access b a tb') [ err e ↦ (tb', err e) | ok tb'' ↦ (tb'', ok tt) ]
]

unfoldable pub add_peer_access : ℕ → ℕ → Peers → Peers × Result WriteError (Unit {0})
add_peer_access a b s =
    let (tb, done) = add_peer_access_pair a b s.tables in
    elim done [
      | err e ↦ (record s { tables = tb }, err e)
      | ok u ↦ (record { applier = mark_users (a ∷ b ∷ []) s.applier; tables = tb }, ok tt)
    ]

unfoldable pub remove_peer_access : ℕ → ℕ → Peers → Peers × Result WriteError (Unit {0})
unfolding mark_users filter
remove_peer_access a b s =
    let rows = filter (λ row. not (is_pair a b row || is_pair b a row)) s.tables.peer_access in
    if nat_beq a 0 || nat_beq b 0 then (s, err access_args) else (
      record { applier = mark_users (a ∷ b ∷ []) s.applier; tables = set_access rows s.tables },
      ok tt,
    )

-- persist.ReplacePeerRouteMembers
unfoldable pub replace_members : ℕ → List ℕ → Database → Result WriteError Database
unfolding get_peer_route update_route normalize_member_user_ids
replace_members id members tb =
    let members' = normalize_member_user_ids members in
    if nat_beq (length members') 0
    then err no_members
    else elim (get_peer_route id tb.peer_routes) [
      | none ↦ err route_not_found
      | some r ↦
          if not (are_members r.via_user_id members' tb)
          then err bad_member
          else ok (set_routes (update_route id (with_members members') tb.peer_routes) tb)
    ]

unfoldable pub replace_peer_route_members : ℕ → List ℕ → Peers → Peers × Result WriteError PeerRoute
unfolding get_peer_route replace_members mark_members_union
replace_peer_route_members id members s = elim (get_peer_route id s.tables.peer_routes) [
  | none ↦ (s, err route_not_found)
  | some old ↦ elim (replace_members id members s.tables) [
    | err e ↦ (s, err e)
    | ok tb ↦
        let s' : Peers = record {
          applier = mark_members_union old.member_user_ids members s.applier;
          tables = tb;
        } in
        elim (get_peer_route id tb.peer_routes) [
          | none ↦ (s', err route_not_found)
          | some r ↦ (s', ok r)
        ]
  ]
]

unfoldable pub delete_peer_route : ℕ → Peers → Peers × Result WriteError PeerRoute
unfolding get_peer_route remove_route mark_members
delete_peer_route id s = elim (get_peer_route id s.tables.peer_routes) [
  | none ↦ (s, err route_not_found)
  | some old ↦ (
    record {
      applier = mark_members old.member_user_ids s.applier;
      tables = set_routes (remove_route id s.tables.peer_routes) s.tables;
    },
    ok old,
  )
]

module _ (t : Text6) where
  unfoldable pub insert_peer_route :
      ℕ → CreatePeerRouteInput → Database → Result WriteError Database
  unfolding normalize_member_user_ids
  insert_peer_route id i tb = elim (normalize_peer_route_dest t i.dest_cidr) [
    | none ↦ err bad_dest
    | some dest ↦
        let members = normalize_member_user_ids i.member_user_ids in
        let row = with_members members (record {
          id = id;
          dest_cidr = dest;
          via_user_id = i.via_user_id;
          member_user_ids = [];
        }) in
        if not (is_vpn_user i.via_user_id tb)
        then err via_not_vpn
        else if nat_beq (length members) 0
        then err no_members
        else if not (are_members i.via_user_id members tb)
        then err bad_member
        else if any (λ r. text_beq r.dest_cidr dest && nat_beq r.via_user_id i.via_user_id)
            tb.peer_routes
        then err route_exists
        else ok (set_routes (tb.peer_routes ++ (row ∷ [])) tb)
  ]

  unfoldable pub create_peer_route :
      ℕ → CreatePeerRouteInput → Peers → Peers × Result WriteError (List ℕ)
  create_peer_route id i s =
      let members = normalize_member_user_ids i.member_user_ids in
      if nat_beq i.via_user_id 0
      then (s, err via_required)
      else elim (get_user_by_id i.via_user_id s.tables) [
        | none ↦ (s, err via_not_found)
        | some via ↦
            if not (has_vpn via)
            then (s, err via_not_vpn)
            else elim (insert_peer_route id i s.tables) [
              | err e ↦ (s, err e)
              | ok tb ↦
                  (record { applier = mark_members members s.applier; tables = tb }, ok members)
            ]
      ]
