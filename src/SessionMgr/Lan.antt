-- ===== src/SessionMgr/Lan.antt =====
-- register_lan.go: exit LANs, the rate limit of lan_registry, and pruning of managed routes.
pub mod Prune
use hao_vpn.Prelude.{
  ℕ, suc, ◌+◌, ◌*◌, Bool, true, false, ◌&&◌, ◌||◌, not, List, [], ◌∷◌, Option, none, some, nat_beq,
  nat_eq, if◌then◌else◌, Text, ltb,
}
use hao_vpn.Prelude.Map.{Map, get, put}
use hao_vpn.Net.{Text6}
use hao_vpn.Net.Print.{net_string}
use hao_vpn.NetUtil.Strings.{mem_text}
use hao_vpn.SessionMgr.{AccountSession, Manager, ViaRoute, session_of, store_session, deref, second}
use hao_vpn.SessionMgr.Register.{load_exit_lans}
use hao_vpn.SessionMgr.ViaIndex.{rebuild_via_index}

abbrev pub lan_registry_min_interval : ℕ
lan_registry_min_interval = 30 * second

-- Whether a route stays.
abbrev pub keeps : Text6 → ℕ → List Text → ViaRoute → Bool
keeps t via allowed e = not (nat_beq e.via_user_id via) || mem_text (net_string t e.net) allowed

unfoldable pub kept_routes : Text6 → ℕ → List Text → List ViaRoute → List ViaRoute
kept_routes t via allowed [] = []
kept_routes t via allowed (e ∷ es) =
    let rest = kept_routes t via allowed es in if keeps t via allowed e then e ∷ rest else rest

unfoldable pub is_pruned : Text6 → ℕ → List Text → List ViaRoute → Bool
is_pruned t via allowed [] = false
is_pruned t via allowed (e ∷ es) = not (keeps t via allowed e) || is_pruned t via allowed es

module _ {S : Type 0} where
  unfoldable pub reload_exit_lans : Text6 → ℕ → Manager S → Manager S
  reload_exit_lans t user m = if nat_beq user 0 then m else elim (session_of m user) [
    | none ↦ m
    | some (r, ps) ↦ store_session r (record ps { exit_lans = load_exit_lans t user m }) m
  ]

  -- A clock behind the last sync counts as no time passed, as `now.Sub` is then negative.
  unfoldable pub allow_lan_registry_sync : ℕ → ℕ → Manager S → Manager S × Bool
  allow_lan_registry_sync now user m =
      if nat_beq user 0 then (m, false) else elim (session_of m user) [
        | none ↦ (m, false)
        | some (r, ps) ↦
            if ltb 0 ps.lan_registry_sync_count
              && ltb now (ps.last_lan_registry_sync + lan_registry_min_interval)
            then (m, false)
            else (
              store_session r
                  (record ps {
                    lan_registry_sync_count = suc ps.lan_registry_sync_count;
                    last_lan_registry_sync = now;
                  })
                  m,
              true,
            )
      ]

  -- The destinations that the via's registry lists now; a failed read lists none.
  abbrev pub registered : ℕ → Manager S → List Text
  registered via m = elim m.store [
    | none ↦ []
    | some st ↦ elim (st.client_lan_registry via) [ none ↦ [] | some rows ↦ rows ]
  ]

  -- The loop over the sessions: the heap after it, and the accounts that lost a route.
  unfoldable pub prune_loop :
      Text6 → ℕ → List Text → Map ℕ ℕ → Map ℕ (AccountSession S) → Map ℕ (AccountSession S) × List ℕ
  unfolding kept_routes is_pruned
  prune_loop t via allowed [] heap = (heap, [])
  prune_loop t via allowed ((id, r) ∷ sessions) heap = elim (get r heap) [
    | none ↦ prune_loop t via allowed sessions heap
    | some ps ↦
        let kept = record ps { via_routes = kept_routes t via allowed ps.via_routes } in
        let same = prune_loop t via allowed sessions heap in
        let pruned = prune_loop t via allowed sessions (put r kept heap) in
        if is_pruned t via allowed ps.via_routes then (pruned.0, id ∷ pruned.1) else same
  ]

  unfoldable pub prune_via_routes_after_registry : Text6 → ℕ → Manager S → Manager S × List ℕ
  unfolding prune_loop rebuild_via_index
  prune_via_routes_after_registry t via m =
      if nat_beq via 0
      then (m, [])
      else let (heap', affected) = prune_loop t via (registered via m) m.sessions m.heap in
        (rebuild_via_index t (record m { heap = heap' }), affected)
