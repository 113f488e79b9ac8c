-- ===== src/ProbeDefense/Exempt.antt =====
-- An address that is exempt from bans.
use hao_vpn.Prelude.{ℕ, true, ◌≡◌, ◌≢◌, ◌∙◌, nat_beq, length, refl, Text, codes, arith}
use hao_vpn.Net.{Text6}
use hao_vpn.NetUtil.Addr.{split_remote_addr}
use hao_vpn.ProbeDefense.Tables.{insert_security_event}
use hao_vpn.ProbeDefense.Guard.{
  check_accept, ip_banned, is_spared, skips_ban, allow_source_ip, Guard, is_ban_exempt,
  is_allowlisted, record_event, maybe_auto_ban, record_reject,
}

-- The record of an event touches neither the settings nor the bans.
pub record_event-keeps :
    (now : ℕ) (ip port phase signature action : Text) (g : Guard)
    → let g' = record_event now ip port phase signature action g in
      (g'.cfg ≡ g.cfg)
      × (g'.ban_exempt_ips ≡ g.ban_exempt_ips)
      × (g'.store.ip_blocks ≡ g.store.ip_blocks)
unfolding record_event insert_security_event
record_event-keeps now ip port phase signature action g = ground arith

module _ (t6 : Text6) where
  is_spared-record_event :
      (now : ℕ) (ip i port phase signature action : Text) (g : Guard)
      → is_spared t6 i (record_event now ip port phase signature action g) ≡ is_spared t6 i g
  unfolding is_spared is_allowlisted is_ban_exempt allow_source_ip record_event
  is_spared-record_event now ip i port phase signature action g = refl

  no_list :
      (g : Guard) (ip : Text)
      → nat_beq (length g.cfg.allowed_source_ips) 0 ≡ true
      → allow_source_ip t6 ip g ≡ true
  unfolding allow_source_ip
  no_list g ip h = ground (arith, h)

  maybe_auto_ban-spared :
      (now : ℕ) (ip signature : Text) (g : Guard)
      → is_spared t6 ip g ≡ true
      → maybe_auto_ban t6 now ip signature g ≡ g
  unfolding maybe_auto_ban skips_ban
  maybe_auto_ban-spared now ip signature g h = ground (arith, h)

  pub record_reject-spared :
      (now : ℕ) (ip port phase signature : Text) (g : Guard)
      → is_spared t6 ip g ≡ true
      → (record_reject t6 now ip port phase signature g).store.ip_blocks ≡ g.store.ip_blocks
  unfolding record_reject
  record_reject-spared now ip port phase signature g h =
      let g' = record_event now ip port phase signature (codes "rejected") g in
      let same =
        maybe_auto_ban-spared now ip signature g'
          (is_spared-record_event now ip ip port phase signature (codes "rejected") g ∙ h) in
      ground (arith, same, record_event-keeps now ip port phase signature (codes "rejected") g)

  -- A connection from an address that is exempt from bans is never refused as banned and leads to
  -- no ban; whether it is let in depends on the source list alone.
  pub check_accept-exempt :
      (now : ℕ) (remote_addr : Text) (g : Guard)
      → is_ban_exempt t6 (split_remote_addr remote_addr).0 g ≡ true
      → let (g', allow, banner) = check_accept t6 now remote_addr g in
        (banner ≢ ip_banned)
        × (allow ≡ allow_source_ip t6 (split_remote_addr remote_addr).0 g)
        × (g'.store.ip_blocks ≡ g.store.ip_blocks)
  unfolding check_accept is_spared
  check_accept-exempt now remote_addr g h =
      let (ip, port) = split_remote_addr remote_addr in
      let spared : is_spared t6 ip g ≡ true = ground (arith, h) in
      let kept =
        record_reject-spared now ip port (codes "tcp_accept") (codes "source_deny") g spared in
      ground (arith, h, kept, no_list g ip)
