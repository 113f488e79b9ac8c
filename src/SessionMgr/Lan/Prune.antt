-- ===== src/SessionMgr/Lan/Prune.antt =====
-- After the registry of a via shrinks, no live session and no index entry routes to it what the
-- registry no longer lists.
use hao_vpn.Prelude.{
  ℕ, suc, ◌+◌, ◌≤◌, ◌≡◌, ◌≢◌, refl, ◌⊎◌, inl, inr, true, false, List, [], ◌∷◌, some, nat_eq,
  nat_beq, text_eq, arith, Text, All, Bool-cases, Option-cases, subst,
}
use hao_vpn.Prelude.Map.{Map, get, put, get-put}
use hao_vpn.Net.{Text6}
use hao_vpn.Net.Print.{net_string}
use hao_vpn.NetUtil.Strings.{mem_text}
use hao_vpn.SessionMgr.{AccountSession, Manager, ViaRoute, session_of}
use hao_vpn.SessionMgr.ViaIndex.{rebuild_via_index}
use hao_vpn.SessionMgr.ViaIndex.Order.{All-rebuild_via_index, EachSession}
use hao_vpn.SessionMgr.Lan.{
  keeps, kept_routes, is_pruned, prune_loop, prune_via_routes_after_registry, registered,
  allow_lan_registry_sync, lan_registry_min_interval,
}

module _ (t : Text6) (via : ℕ) (allowed : List Text) where
  -- A route goes to another via, or to a destination that the registry lists.
  abbrev pub IsLive : ViaRoute → Type 0
  IsLive e = (e.via_user_id ≢ via) ⊎ (mem_text (net_string t e.net) allowed ≡ true)

  keeps_sound : (e : ViaRoute) → keeps t via allowed e ≡ true → IsLive e
  keeps_sound e h = elim (Bool-cases (nat_beq e.via_user_id via)) [
    | inl same ↦ inr (ground (arith, same))
    | inr other ↦ inl (λ p. ground (arith, other))
  ]

  kept_routes-IsLive : (es : List ViaRoute) → All IsLive (kept_routes t via allowed es)
  unfolding kept_routes
  kept_routes-IsLive [] = tt
  kept_routes-IsLive (e ∷ es) = elim (Bool-cases (keeps t via allowed e)) [
    | inr cut ↦ rw (cut, kept_routes) (kept_routes-IsLive es)
    | inl stays ↦ rw (stays, kept_routes) (keeps_sound e stays, kept_routes-IsLive es)
  ]

  not-is_pruned : (es : List ViaRoute) → is_pruned t via allowed es ≡ false → All IsLive es
  unfolding is_pruned
  not-is_pruned [] h = tt
  not-is_pruned (e ∷ es) h =
      (keeps_sound e (ground (arith, h)), not-is_pruned es (ground (arith, h)))

  module _ {S : Type 0} where
    -- The session behind the pointer, if any, has live routes only.
    abbrev IsClean : Map ℕ (AccountSession S) → ℕ → Type 0
    IsClean heap r = (ps : AccountSession S) → get r heap ≡ some ps → All IsLive ps.via_routes

    abbrev pruned_session : AccountSession S → AccountSession S
    pruned_session ps = record ps { via_routes = kept_routes t via allowed ps.via_routes }

    put-IsClean :
        (heap : Map ℕ (AccountSession S)) (r : ℕ) (ps : AccountSession S) (r' : ℕ)
        → (r ≢ r' → IsClean heap r')
        → IsClean (put r (pruned_session ps) heap) r'
    put-IsClean heap r ps r' clean ps' found = elim (Bool-cases (nat_beq r r')) [
      | inl same ↦
          let it : ps' ≡ pruned_session ps =
            ground (arith, same, get-put r r' (pruned_session ps) heap) in
          rw it (kept_routes-IsLive ps.via_routes)
      | inr other ↦
          clean (λ e. ground (arith, other)) ps'
            (ground (arith, other, get-put r r' (pruned_session ps) heap))
    ]

    prune_loop-IsClean :
        (sessions : Map ℕ ℕ) (heap : Map ℕ (AccountSession S)) (r : ℕ)
        → IsClean heap r
        → IsClean (prune_loop t via allowed sessions heap).0 r
    unfolding prune_loop
    prune_loop-IsClean [] heap r clean = clean
    prune_loop-IsClean ((id, r₀) ∷ sessions) heap r clean = elim (Option-cases (get r₀ heap)) [
      | inl e ↦ rw (e, prune_loop) (prune_loop-IsClean sessions heap r clean)
      | inr (ps, e) ↦ elim (Bool-cases (is_pruned t via allowed ps.via_routes)) [
        | inr whole ↦ rw (e, prune_loop) (rw whole (prune_loop-IsClean sessions heap r clean))
        | inl cut ↦
            rw (e, prune_loop)
              (rw cut (
                prune_loop-IsClean sessions (put r₀ (pruned_session ps) heap) r
                  (put-IsClean heap r₀ ps r (λ _. clean))))
      ]
    ]

    -- The session of the first entry is clean once the loop has gone on from there.
    prune_loop_head :
        (id : ℕ) (sessions : Map ℕ ℕ) (heap : Map ℕ (AccountSession S)) (r : ℕ)
        → IsClean (prune_loop t via allowed ((id, r) ∷ sessions) heap).0 r
    unfolding prune_loop
    prune_loop_head id sessions heap r = elim (Option-cases (get r heap)) [
      | inl e ↦
          rw (e, prune_loop)
            (prune_loop-IsClean sessions heap r (λ ps found. absurd (ground (arith, e))))
      | inr (ps, e) ↦ elim (Bool-cases (is_pruned t via allowed ps.via_routes)) [
        | inr whole ↦
            rw (e, prune_loop)
              (rw whole (
                prune_loop-IsClean sessions heap r (λ ps' found.
                  let it : ps' ≡ ps = ground (arith, e) in
                  rw it (not-is_pruned ps.via_routes whole))))
        | inl cut ↦
            rw (e, prune_loop)
              (rw cut (
                prune_loop-IsClean sessions (put r (pruned_session ps) heap) r
                  (put-IsClean heap r ps r (λ ne. absurd (ne refl)))))
      ]
    ]

    -- A session that is clean after the rest of the loop, whatever the heap, is clean after it all.
    prune_loop_later :
        (id r : ℕ) (sessions : Map ℕ ℕ) (heap : Map ℕ (AccountSession S)) (target : ℕ)
        → ((heap' : Map ℕ (AccountSession S))
            → IsClean (prune_loop t via allowed sessions heap').0 target)
        → IsClean (prune_loop t via allowed ((id, r) ∷ sessions) heap).0 target
    unfolding prune_loop
    prune_loop_later id r sessions heap target rest = elim (Option-cases (get r heap)) [
      | inl e ↦ rw (e, prune_loop) (rest heap)
      | inr (ps, e) ↦ elim (Bool-cases (is_pruned t via allowed ps.via_routes)) [
        | inr whole ↦ rw (e, prune_loop) (rw whole (rest heap))
        | inl cut ↦ rw (e, prune_loop) (rw cut (rest (put r (pruned_session ps) heap)))
      ]
    ]

    prune_loop-session :
        (sessions : Map ℕ ℕ) (heap : Map ℕ (AccountSession S)) (id r : ℕ)
        → get id sessions ≡ some r
        → IsClean (prune_loop t via allowed sessions heap).0 r
    unfolding get
    prune_loop-session [] heap id r found = absurd (ground arith)
    prune_loop-session ((j, r₀) ∷ sessions) heap id r found = elim (Bool-cases (nat_beq j id)) [
      | inl here ↦
          let same : r₀ ≡ r = ground (arith, here) in
          subst (λ (x : ℕ). IsClean (prune_loop t via allowed ((j, r₀) ∷ sessions) heap).0 x) same
            (prune_loop_head j sessions heap r₀)
      | inr there ↦
          prune_loop_later j r₀ sessions heap r
            (λ heap'. prune_loop-session sessions heap' id r (ground (arith, there)))
    ]

module _ {S : Type 0} (t : Text6) where
  abbrev pruned : ℕ → Manager S → Manager S
  pruned via m = record m { heap = (prune_loop t via (registered via m) m.sessions m.heap).0 }

  prune_lem :
      (via : ℕ) (m : Manager S)
      → via ≢ 0
      → (prune_via_routes_after_registry t via m).0 ≡ rebuild_via_index t (pruned via m)
  unfolding prune_via_routes_after_registry
  prune_lem via m h = ground (arith, h)

  pruned-EachSession :
      (via : ℕ) (m : Manager S) → EachSession t (IsLive t via (registered via m)) (pruned via m)
  pruned-EachSession via m id r ps found =
      prune_loop-session t via (registered via m) m.sessions m.heap id r (ground arith) ps
        (ground arith)

  -- After PruneViaRoutesAfterRegistry for a via with a valid id, every route of every online
  -- session and every entry of the outbound index goes to another via or to a destination that
  -- this via's registry lists.
  pub prune-IsLive :
      (via : ℕ) (m : Manager S)
      → via ≢ 0
      → EachSession t (IsLive t via (registered via m)) (prune_via_routes_after_registry t via m).0
        × All
            (IsLive t via (registered via m))
            (prune_via_routes_after_registry t via m).0.via_index
  unfolding rebuild_via_index
  prune-IsLive via m h = rw (prune_lem via m h) (
    pruned-EachSession via m,
    All-rebuild_via_index t (IsLive t via (registered via m)) (pruned via m)
        (pruned-EachSession via m),
  )

module _ {S : Type 0} where
  -- If a lan_registry frame of a session was accepted and the next one is accepted too, at least
  -- 30 seconds lie between them.
  pub allow_lan_registry_sync_spaced :
      (now later user r : ℕ) (m : Manager S) (ps ps' : AccountSession S)
      → session_of m user ≡ some (r, ps)
      → (allow_lan_registry_sync now user m).1 ≡ true
      → session_of (allow_lan_registry_sync now user m).0 user ≡ some (r, ps')
      → (allow_lan_registry_sync later user (allow_lan_registry_sync now user m).0).1 ≡ true
      → now + lan_registry_min_interval ≤ later
  unfolding allow_lan_registry_sync
  allow_lan_registry_sync_spaced now later user r m ps ps' on first on' second_ = ground (
    arith,
    get-put r r
        (record ps {
          lan_registry_sync_count = suc ps.lan_registry_sync_count;
          last_lan_registry_sync = now;
        })
        m.heap,
  )
