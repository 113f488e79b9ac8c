-- ===== src/SessionMgr/ViaIndex.antt =====
-- register_lan.go and route_lookup.go: the index of managed routes over all online sessions.
pub mod Order
use hao_vpn.Prelude.{
  ℕ, Bool, true, false, List, [], ◌∷◌, ◌++◌, Option, none, some, map, nat_beq, nat_eq, text_beq,
  ltb, if◌then◌else◌, Text, any,
}
use hao_vpn.Prelude.Map.{Map, get}
use hao_vpn.Prelude.Sort.{sort_by, text_ltb}
use hao_vpn.Net.{Ip, Text6, contains}
use hao_vpn.Net.Print.{net_string}
use hao_vpn.SessionMgr.{ViaRoute, AccountSession, Manager, session_of, deref}

-- The comparison of the second sort: by network text, then by account.
unfoldable pub via_less : Text6 → ViaRoute → ViaRoute → Bool
via_less t a b =
    let s = net_string t a.net in
    let s' = net_string t b.net in
    if text_beq s s' then ltb a.via_user_id b.via_user_id else text_ltb s s'

module _ {S : Type 0} where
  abbrev pub user_ids : Manager S → List ℕ
  user_ids m = map (λ e. e.0) m.sessions

  -- The routes of the accounts, in the order given.
  unfoldable pub routes_of : Manager S → List ℕ → List ViaRoute
  routes_of m [] = []
  routes_of m (id ∷ ids) = elim (session_of m id) [
    | none ↦ routes_of m ids
    | some (r, ps) ↦ ps.via_routes ++ routes_of m ids
  ]

  unfoldable pub rebuild_via_index : Text6 → Manager S → Manager S
  unfolding routes_of via_less
  rebuild_via_index t m = record m {
    via_index = sort_by (via_less t) (routes_of m (sort_by ltb (user_ids m)));
  }

  unfoldable pub session_is_active_via : Manager S → ℕ → Bool
  session_is_active_via m user =
      if nat_beq user 0 then false else any (λ e. nat_beq e.via_user_id user) m.via_index

  -- The first route to the destination whose via account is online, as the via's reference.
  unfoldable pub first_via : Manager S → List ViaRoute → Ip → Option ℕ
  first_via m [] dst = none
  first_via m (e ∷ es) dst =
      if contains e.net dst
      then elim (get e.via_user_id m.sessions) [ some r ↦ some r | none ↦ first_via m es dst ]
      else first_via m es dst
