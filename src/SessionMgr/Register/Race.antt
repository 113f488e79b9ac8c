-- ===== src/SessionMgr/Register/Race.antt =====
-- Two registrations of one account whose critical sections interleave.
use hao_vpn.Prelude.{suc, ◌≡◌, refl, [], none, some, nat_eq, text_eq, arith, Text, ok}
use hao_vpn.Prelude.Map.{put, get-put}
use hao_vpn.Net.{Text6}
use hao_vpn.SessionMgr.{AccountSession, Manager, Env, session_of, deref}
use hao_vpn.SessionMgr.ViaIndex.{rebuild_via_index}
use hao_vpn.SessionMgr.Register.{Detached, detach, attach, drain_old_conn}

module _ {S : Type 0} (t : Text6) where
  -- Two registrations of one offline account whose first critical sections both run before a
  -- second one are both accepted with no connection to close, and the second replaces the first
  -- session, which keeps its key.
  pub detach-attach_race :
      (env env' : Env) (remote remote' : Text) (m : Manager S) (a b : AccountSession S)
      → a.user_id ≡ b.user_id
      → session_of m a.user_id ≡ none
      → let nobody : Detached = record { old_conn = none; inherit_rx = 0; inherit_tx = 0 } in
        let m' = attach t b (attach t a m) in
        (detach env t a.user_id remote m ≡ (m, ok nobody))
        × (detach env' t b.user_id remote' m ≡ (m, ok nobody))
        × (drain_old_conn nobody.old_conn ≡ [])
        × (session_of m' a.user_id ≡ some (suc m.next_ref, b))
        × (deref m' m.next_ref ≡ some a)
  unfolding detach attach rebuild_via_index
  detach-attach_race env env' remote remote' m a b same offline = (
    ground arith,
    ground arith,
    refl,
    ground (
      arith,
      get-put b.user_id a.user_id (suc m.next_ref) (put a.user_id m.next_ref m.sessions),
      get-put (suc m.next_ref) (suc m.next_ref) b (put m.next_ref a m.heap),
    ),
    ground (
      arith,
      get-put (suc m.next_ref) m.next_ref b (put m.next_ref a m.heap),
      get-put m.next_ref m.next_ref a m.heap,
    ),
  )
