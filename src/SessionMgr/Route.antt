-- ===== src/SessionMgr/Route.antt =====
-- route.go: packets from the TUN device to an account.
pub mod Target
use hao_vpn.Prelude.{
  ℕ, ◌+◌, Bool, true, false, not, List, [], ◌∷◌, Option, none, some, nat_beq, nat_eq, text_eq,
  if◌then◌else◌, Text, length, take, drop, ltb,
}
use hao_vpn.Prelude.Map.{get}
use hao_vpn.Net.{Ip, Text6}
use hao_vpn.Net.Print.{ip_string}
use hao_vpn.SessionMgr.{
  AccountSession, Manager, Effect, Env, Cipher, Direction, dir_out, sent, observe, deref,
  store_session,
}
use hao_vpn.SessionMgr.ViaIndex.{first_via}

abbrev pub dst_of : List ℕ → Ip
dst_of packet = take 4 (drop 16 packet)

abbrev pub src_of : List ℕ → Ip
src_of packet = take 4 (drop 12 packet)

module _ {S : Type 0} where
  -- Whether the account's current session is this one. (`cur.Conn == ps.Conn` is then plain.)
  abbrev pub is_current : Manager S → ℕ → ℕ → Bool
  is_current m user r = elim (get user m.sessions) [ none ↦ false | some cur ↦ nat_beq cur r ]

  unfoldable pub send_to_account :
      Env → Cipher S → ℕ → List ℕ → Manager S → Manager S × List Effect × Bool
  send_to_account env c r packet m = elim (deref m r) [
    | none ↦ (m, [], false)
    | some ps ↦ elim ps.crypto [
      | none ↦ (m, [], false)
      | some key ↦
          if not (is_current m ps.user_id r)
          then (m, [], false)
          else let (sealed, key') = c.encrypt key packet in
            let used = record ps { crypto = some key' } in
            elim sealed [
              | none ↦ (store_session r used m, [], false)
              | some enc ↦
                  if not (env.send_ok ps.conn) then (store_session r used m, [], false) else (
                    store_session r (record used { tx_bytes = ps.tx_bytes + length packet }) m,
                    sent ps.conn enc
                        ∷ (if m.has_flows then observe ps.user_id packet dir_out ∷ [] else []),
                    true,
                  )
            ]
    ]
  ]

  -- The session that RouteOutbound picks.
  unfoldable pub outbound_target : Text6 → List ℕ → Manager S → Option ℕ
  outbound_target t packet m = elim (get (ip_string t (dst_of packet)) m.by_ip) [
    | some r ↦ some r
    | none ↦ first_via m m.via_index (dst_of packet)
  ]

  unfoldable pub route_outbound :
      Env → Cipher S → Text6 → List ℕ → Manager S → Manager S × List Effect × Bool
  unfolding outbound_target
  route_outbound env c t packet m =
      if ltb (length packet) 20 then (m, [], false) else elim (outbound_target t packet m) [
        | none ↦ (m, [], false)
        | some r ↦ send_to_account env c r packet m
      ]
