-- ===== src/SessionMgr/Inbound.antt =====
-- route_inbound.go: packets from an account. HandleInbound looks the session up, decrypts without
-- the lock, and looks it up again; the two halves are functions of their own (`open_packet`,
-- `deliver`), between which other calls may run.
pub mod Stale
pub mod Isolation
use hao_vpn.Prelude.{
  ℕ, ◌+◌, ◌*◌, ◌^◌, ◌%◌, ◌/◌, Bool, true, false, ◌&&◌, ◌||◌, not, List, [], ◌∷◌, ◌++◌, Option, none,
  some, nat_beq, nat_eq, if◌then◌else◌, Text, length, ltb,
}
use hao_vpn.Prelude.Map.{get}
use hao_vpn.Net.{Ip, Text6}
use hao_vpn.Net.Print.{ip_string}
use hao_vpn.NetUtil.Addr.{is_tun_noise_for_log, is_tun_noise_source}
use hao_vpn.SafeUtil.Throttle.{allow_every}
use hao_vpn.SessionMgr.{
  AccountSession, Manager, Step, Effect, Env, Cipher, dir_in, write_tun, observe, deref, session_of,
  store_session, second,
}
use hao_vpn.SessionMgr.Stats.{note_inbound_rx}
use hao_vpn.SessionMgr.ViaIndex.{first_via, session_is_active_via}
use hao_vpn.SessionMgr.Policy.{
  source_ip_allowed, source_from_exit_lan, dst_allowed, is_other_account_vpn_ip,
  lateral_peer_allowed, lookup_online_by_vpn_ip,
}
use hao_vpn.SessionMgr.Route.{dst_of, src_of, send_to_account, is_current}

-- What the first half finds: nothing to do, a decryption error, or a session and its plaintext.
pub data Opened : Type 0 where
  dropped bad_packet : Opened
  opened : ℕ → List ℕ → Opened

abbrev first_nibble : List ℕ → ℕ
first_nibble [] = 0
first_nibble (b ∷ packet) = b / 16

module _ {S : Type 0} where
  unfoldable pub open_packet : Cipher S → ℕ → ℕ → List ℕ → Manager S → Manager S × Opened
  open_packet c user conn bytes m = elim (session_of m user) [
    | none ↦ (m, dropped)
    | some (r, ps) ↦ elim ps.crypto [
      | none ↦ (m, dropped)
      | some key ↦
          if not (nat_beq ps.conn conn)
          then (m, dropped)
          else let (plain, key') = c.decrypt key bytes in
            let m' = store_session r (record ps { crypto = some key' }) m in
            elim plain [ none ↦ (m', bad_packet) | some packet ↦ (m', opened r packet) ]
    ]
  ]

  -- The flow table's part, and a packet handed on to another session.
  abbrev observed : Manager S → ℕ → List ℕ → List Effect
  observed m user packet = if m.has_flows then observe user packet dir_in ∷ [] else []

  forward : Env → Cipher S → ℕ → List ℕ → Manager S → Step S
  forward env c r packet m = let (m', es, done) = send_to_account env c r packet m in (m', es)

  -- A forged source: only the time of the last warning may move.
  drop_forged : Env → ℕ → AccountSession S → Ip → Ip → Manager S → Step S
  drop_forged env r ps src dst m =
      if is_tun_noise_source src || is_tun_noise_for_log dst then (m, []) else (
        store_session r
            (record ps {
              last_spoof_warn = (allow_every env.now (10 * second) ps.last_spoof_warn).1;
            })
            m,
        [],
      )

  -- A destination outside AllowedIPs: the drop count moves, and the time of the last warning may.
  drop_overreach : Env → ℕ → AccountSession S → Ip → Manager S → Step S
  drop_overreach env r ps dst m =
      let counted = record ps { dst_drop_count = (ps.dst_drop_count + 1) % 2 ^ 64 } in
      if is_tun_noise_for_log dst then (store_session r counted m, []) else (
        store_session r
            (record counted {
              last_dst_warn = (allow_every env.now (10 * second) ps.last_dst_warn).1;
            })
            m,
        [],
      )

  -- The accepted packet: to the peer, to the via, or to the TUN device.
  pass_on : Env → Cipher S → Text6 → ℕ → ℕ → AccountSession S → List ℕ → Bool → Manager S → Step S
  unfolding forward
  pass_on env c t user r ps packet lateral m =
      let dst = dst_of packet in
      let noted = note_inbound_rx env.now r ps user (length packet) m in
      let seen = observed m user packet in
      if lateral
      then elim (lookup_online_by_vpn_ip m (ip_string t dst)) [
        | none ↦ (noted, seen)
        | some peer ↦ let (m', es) = forward env c peer packet noted in (m', seen ++ es)
      ]
      else elim (first_via m ps.via_routes dst) [
        | some via ↦ let (m', es) = forward env c via packet noted in (m', seen ++ es)
        | none ↦ (noted, seen ++ write_tun packet ∷ [])
      ]

  -- The checks behind the source check, without the way back of a via.
  check_and_pass : Env → Cipher S → Text6 → ℕ → ℕ → AccountSession S → List ℕ → Manager S → Step S
  unfolding drop_overreach pass_on
  check_and_pass env c t user r ps packet m =
      let dst = dst_of packet in
      let lateral = is_other_account_vpn_ip m user (ip_string t dst) in
      if lateral && not (lateral_peer_allowed m ps (ip_string t dst))
      then (m, [])
      else if not (dst_allowed t ps dst)
      then drop_overreach env r ps dst m
      else pass_on env c t user r ps packet lateral m

  -- The online peer of another account at the destination.
  abbrev pub other_online : Text6 → ℕ → Ip → Manager S → Option ℕ
  other_online t user dst m = elim (lookup_online_by_vpn_ip m (ip_string t dst)) [
    | none ↦ none
    | some peer ↦ elim (deref m peer) [
      | none ↦ none
      | some ps ↦ if nat_beq ps.user_id user then none else some peer
    ]
  ]

  unfoldable pub deliver : Env → Cipher S → Text6 → ℕ → ℕ → ℕ → List ℕ → Manager S → Step S
  unfolding drop_forged forward check_and_pass
  deliver env c t user conn r packet m = elim (deref m r) [
    | none ↦ (m, [])
    | some ps ↦
        let dst = dst_of packet in
        let src = src_of packet in
        if not (is_current m user r && nat_beq ps.conn conn)
        then (m, [])
        else if ltb (length packet) 20
        then (m, [])
        else if not (nat_beq (first_nibble packet) 4)
        then (m, [])
        else if not (source_ip_allowed t ps src)
        then drop_forged env r ps src dst m
        else let ordinary = check_and_pass env c t user r ps packet m in
          if source_from_exit_lan ps src && session_is_active_via m user
          then elim (other_online t user dst m) [
            | none ↦ ordinary
            | some peer ↦
                let noted = note_inbound_rx env.now r ps user (length packet) m in
                let (m', es) = forward env c peer packet noted in (m', observed m user packet ++ es)
          ]
          else ordinary
  ]

  unfoldable pub handle_inbound :
      Env → Cipher S → Text6 → ℕ → ℕ → List ℕ → Manager S → Manager S × List Effect × Bool
  unfolding open_packet deliver
  handle_inbound env c t user conn bytes m =
      let (m', found) = open_packet c user conn bytes m in
      elim found [
        | dropped ↦ (m', [], false)
        | bad_packet ↦ (m', [], true)
        | opened r packet ↦
            let (m'', es) = deliver env c t user conn r packet m' in (m'', es, false)
      ]
