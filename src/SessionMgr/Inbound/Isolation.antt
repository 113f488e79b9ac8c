-- ===== src/SessionMgr/Inbound/Isolation.antt =====
-- What a packet of an account must satisfy to reach another session or the TUN device.
use hao_vpn.Prelude.{
  ℕ, ◌≡◌, ◌≢◌, ◌⊎◌, inl, inr, Bool, true, false, List, [], ◌∷◌, some, nat_beq, nat_eq, text_eq,
  arith, any, Exists, any→Exists, text_beq, text_beq_iff, Text, Bool-cases,
}
use hao_vpn.Prelude.Map.{get}
use hao_vpn.Net.{Ip, IpNet, Text6, contains}
use hao_vpn.Net.Print.{ip_string}
use hao_vpn.NetUtil.Rules.{vpn_ip_or_in_nets, ip_in_any_net}
use hao_vpn.SessionMgr.{
  AccountSession, Manager, Env, Effect, Cipher, ViaRoute, deref, sent, write_tun,
}
use hao_vpn.SessionMgr.ViaIndex.{session_is_active_via}
use hao_vpn.SessionMgr.Policy.{
  source_ip_allowed, source_from_exit_lan, dst_allowed, is_other_account_vpn_ip,
  lateral_peer_allowed,
}
use hao_vpn.SessionMgr.Route.{is_current, dst_of, src_of}
use hao_vpn.SessionMgr.Inbound.{deliver, check_and_pass, drop_overreach, drop_forged}

-- An effect that hands a packet on.
abbrev pub is_delivery : Effect → Bool
is_delivery (sent conn bytes) = true
is_delivery (write_tun packet) = true
is_delivery _ = false

abbrev pub InSome : List IpNet → Ip → Type 0
InSome nets ip = Exists (λ n. contains n ip ≡ true) nets

-- The account's own address, or an address in one of the networks.
abbrev pub OwnOrIn : Text6 → Text → List IpNet → Ip → Type 0
OwnOrIn t vpn_ip nets ip = (ip_string t ip ≡ vpn_ip) ⊎ InSome nets ip

-- The Boolean tests of the code, as such statements.
ip_in_any_net_sound : (nets : List IpNet) (ip : Ip) → ip_in_any_net nets ip ≡ true → InSome nets ip
unfolding ip_in_any_net
ip_in_any_net_sound [] ip h = cc
ip_in_any_net_sound (n ∷ nets) ip h = elim (Bool-cases (contains n ip)) [
  | inl e ↦ inl e
  | inr e ↦ inr (ip_in_any_net_sound nets ip (ground (arith, e)))
]

vpn_ip_or_in_nets_sound :
    (t : Text6) (vpn_ip : Text) (nets : List IpNet) (ip : Ip)
    → vpn_ip_or_in_nets t vpn_ip nets ip ≡ true
    → OwnOrIn t vpn_ip nets ip
unfolding vpn_ip_or_in_nets
vpn_ip_or_in_nets_sound t vpn_ip nets ip h = elim (Bool-cases (text_beq (ip_string t ip) vpn_ip)) [
  | inl e ↦ inl ((text_beq_iff (ip_string t ip) vpn_ip).0 e)
  | inr e ↦ inr (ip_in_any_net_sound nets ip (ground (arith, e)))
]

mem_sound : (id : ℕ) (ids : List ℕ) → any (λ i. nat_beq i id) ids ≡ true → Exists (λ i. i ≡ id) ids
mem_sound id ids = any→Exists _ _ (λ i h. ground arith) ids

module _ {S : Type 0} (t : Text6) where
  -- The packet comes out of a LAN behind the account, which is the via of some managed route.
  abbrev pub FromViaLan : Manager S → ℕ → AccountSession S → Ip → Type 0
  FromViaLan m user ps src =
      InSome ps.exit_lans src × Exists (λ (e : ViaRoute). e.via_user_id ≡ user) m.via_index

  -- The account may reach the owner of a VPN address: all may, or it is listed, or it is a via.
  abbrev pub MayReach : Manager S → AccountSession S → ℕ → Type 0
  MayReach m ps owner =
      (m.allow_all_peers ≡ true)
      ⊎ (Exists (λ id. id ≡ owner) ps.peer_access ⊎ Exists (λ id. id ≡ owner) ps.via_peers)

  pub record IsPermitted (m : Manager S) (user r : ℕ) (ps : AccountSession S) (src dst : Ip)
      : Type 0 where
    pub current : get user m.sessions ≡ some r
    pub source : OwnOrIn t ps.vpn_ip ps.exit_lans src
    pub destination : OwnOrIn t ps.vpn_ip ps.allowed_ips dst ⊎ FromViaLan m user ps src
    pub lateral :
        (owner : ℕ)
        → get (ip_string t dst) m.vpn_index ≡ some owner
        → owner ≢ user
        → MayReach m ps owner ⊎ FromViaLan m user ps src

  check_and_pass_tests :
      (env : Env) (c : Cipher S) (user r : ℕ) (ps : AccountSession S) (packet : List ℕ)
      (m : Manager S)
      → any is_delivery (check_and_pass env c t user r ps packet m).1 ≡ true
      → ((is_other_account_vpn_ip m user (ip_string t (dst_of packet)) ≡ false)
          ⊎ (lateral_peer_allowed m ps (ip_string t (dst_of packet)) ≡ true))
        × (dst_allowed t ps (dst_of packet) ≡ true)
  unfolding check_and_pass drop_overreach
  check_and_pass_tests env c user r ps packet m h = ground arith

  -- A packet is handed on only for the current session and an allowed source, and then either on
  -- the ordinary path or on the way back of a via.
  deliver_tests :
      (env : Env) (c : Cipher S) (user conn r : ℕ) (packet : List ℕ) (m : Manager S)
      (ps : AccountSession S)
      → deref m r ≡ some ps
      → any is_delivery (deliver env c t user conn r packet m).1 ≡ true
      → (is_current m user r ≡ true)
        × (source_ip_allowed t ps (src_of packet) ≡ true)
        × ((any is_delivery (check_and_pass env c t user r ps packet m).1 ≡ true)
            ⊎ ((source_from_exit_lan ps (src_of packet) ≡ true)
                × (session_is_active_via m user ≡ true)))
  unfolding deliver drop_forged
  deliver_tests env c user conn r packet m ps e h = ground arith

  lateral_sound :
      (m : Manager S) (ps : AccountSession S) (dst : Text) (owner : ℕ)
      → get dst m.vpn_index ≡ some owner
      → lateral_peer_allowed m ps dst ≡ true
      → MayReach m ps owner
  unfolding lateral_peer_allowed
  lateral_sound m ps dst owner e h = elim (Bool-cases m.allow_all_peers) [
    | inl all ↦ inl all
    | inr some_ ↦ elim (Bool-cases (any (λ id. nat_beq id owner) ps.peer_access)) [
      | inl listed ↦ inr (inl (mem_sound owner ps.peer_access listed))
      | inr unlisted ↦ inr (inr (mem_sound owner ps.via_peers (ground (arith, some_, unlisted))))
    ]
  ]

  from_via_sound :
      (m : Manager S) (user : ℕ) (ps : AccountSession S) (src : Ip)
      → source_from_exit_lan ps src ≡ true
      → session_is_active_via m user ≡ true
      → FromViaLan m user ps src
  unfolding source_from_exit_lan session_is_active_via
  from_via_sound m user ps src lan via = (
    ip_in_any_net_sound ps.exit_lans src (ground arith),
    any→Exists (λ e. nat_beq e.via_user_id user) _ (λ e h. ground arith) m.via_index (ground arith),
  )

  -- If a decrypted packet is handed to another session or to the TUN device, then it belongs to
  -- the account's current session; its source is the account's VPN address or lies in its exit
  -- LANs; its destination is allowed to the account; and if the destination is another account's
  -- VPN address, the account may reach that account. The only way round the last two is a packet
  -- out of an exit LAN of an account that is the via of a managed route.
  pub deliver-IsPermitted :
      (env : Env) (c : Cipher S) (user conn r : ℕ) (packet : List ℕ) (m : Manager S)
      (ps : AccountSession S)
      → deref m r ≡ some ps
      → any is_delivery (deliver env c t user conn r packet m).1 ≡ true
      → IsPermitted m user r ps (src_of packet) (dst_of packet)
  unfolding source_ip_allowed dst_allowed is_other_account_vpn_ip
  deliver-IsPermitted env c user conn r packet m ps e h =
      let (cur, source, path) = deliver_tests env c user conn r packet m ps e h in
      record {
        current = ground (arith, cur);
        source =
            vpn_ip_or_in_nets_sound t ps.vpn_ip ps.exit_lans (src_of packet)
              (ground (arith, source));
        destination = elim path [
          | inl plain ↦ inl (
              vpn_ip_or_in_nets_sound t ps.vpn_ip ps.allowed_ips (dst_of packet)
                (check_and_pass_tests env c user r ps packet m plain).1)
          | inr (lan, via) ↦ inr (from_via_sound m user ps (src_of packet) lan via)
        ];
        lateral = λ owner known other. elim path [
          | inl plain ↦ elim (check_and_pass_tests env c user r ps packet m plain).0 [
            | inl own ↦ absurd (other (ground (arith, known, own)))
            | inr may ↦ inl (lateral_sound m ps (ip_string t (dst_of packet)) owner known may)
          ]
          | inr (lan, via) ↦ inr (from_via_sound m user ps (src_of packet) lan via)
        ];
      }
