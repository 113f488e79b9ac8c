-- ===== src/ProbeDefense/Guard.antt =====
-- guard.go and exempt.go: the check of a connecting address and the record of what it did wrong.
use hao_vpn.Prelude.{
  ℕ, ◌+◌, ◌*◌, ◌-◌, Bool, true, false, ◌&&◌, ◌||◌, not, List, [], ◌∷◌, ◌++◌, Option, none, some,
  Text, text_beq, codes, ltb, any, length, nat_beq, is_some, if◌then◌else◌,
}
use hao_vpn.Prelude.Int.{ℤ, pos, negsuc, pos_part, leb_ℤ}
use hao_vpn.Net.{Text6}
use hao_vpn.NetUtil.Addr.{split_remote_addr, parse_host_ip}
use hao_vpn.NetUtil.Rules.{ip_matches_rules}
use hao_vpn.NetUtil.Strings.{trim_space}
use hao_vpn.ProbeDefense.Tables.{
  second, Store, SecurityEvent, IpBlock, insert_security_event, count_security_events_since,
  get_active_ip_block, upsert_ip_block, increment_ip_block_hit,
}

pub record Config : Type 0 where
  pub enabled : Bool
  pub record_events : Bool
  pub auto_ban : Bool
  pub ban_after_events : ℤ
  pub ban_window_sec : ℤ
  pub ban_duration_sec : ℤ
  pub ignore_signatures_for_ban : List Text
  pub allowed_source_ips : List Text
  pub ban_exempt_ips : List Text

pub record Guard : Type 0 where
  pub store : Store
  pub cfg : Config
  pub ban_exempt_ips : List Text

unfoldable pub new : Store → Config → Guard
new store cfg = record { store = store; cfg = cfg; ban_exempt_ips = cfg.ban_exempt_ips }

abbrev pub with_store : (Store → Store) → Guard → Guard
with_store f g = record g { store = f g.store }

-- The banner that is written before TLS.
pub data Banner : Type 0 where
  no_banner ip_banned source_denied : Banner

unfoldable pub is_blocked_raw : ℕ → Text → Guard → Bool
is_blocked_raw now ip g = is_some (get_active_ip_block now ip g.store)

-- `record` writes only if events are recorded.
unfoldable pub record_event : ℕ → Text → Text → Text → Text → Text → Guard → Guard
record_event now ip port phase signature action g =
    let e : SecurityEvent = record {
      client_ip = ip;
      client_port = port;
      phase = phase;
      signature = signature;
      action = action;
      created_at = 0;
    } in
    with_store (λ st. if g.cfg.record_events then insert_security_event now e st else st) g

unfoldable pub record_ban_hit : ℕ → Text → Text → Guard → Guard
unfolding record_event
record_ban_hit now ip port g =
    record_event now ip port (codes "ban_hit") (codes "banned") (codes "banned_hit")
      (with_store (increment_ip_block_hit ip) g)

-- When a ban of so many seconds ends; none is never. -1 takes the default.
unfoldable pub resolve_ban_expiry_time : ℕ → ℤ → ℤ → Option ℕ
resolve_ban_expiry_time now (pos n) default = if nat_beq n 0 then none else some (now + n * second)
resolve_ban_expiry_time now (negsuc n) default =
    if nat_beq n 0 && not (leb_ℤ default (pos 0))
    then some (now + pos_part default * second)
    else none

-- The settings of maybeAutoBan, with their defaults.
unfoldable pub window_of : Config → ℕ
window_of cfg =
    (if leb_ℤ cfg.ban_window_sec (pos 0) then 600 else pos_part cfg.ban_window_sec) * second

unfoldable pub threshold_of : Config → ℕ
threshold_of cfg = if leb_ℤ cfg.ban_after_events (pos 0) then 8 else pos_part cfg.ban_after_events

unfoldable pub is_ignored : Text → Config → Bool
is_ignored signature cfg =
    any (λ ign. text_beq signature (trim_space ign)) cfg.ignore_signatures_for_ban

-- The ban that maybeAutoBan writes; the fixed end of the reason is left out.
unfoldable pub auto_block : ℕ → Text → Config → IpBlock
unfolding resolve_ban_expiry_time
auto_block now signature cfg = record {
  reason = codes "auto: " ++ signature;
  source = codes "auto";
  signature = signature;
  hits = 0;
  expires_at = resolve_ban_expiry_time now (negsuc 0) cfg.ban_duration_sec;
  enabled = true;
}

module _ (t6 : Text6) where
  unfoldable pub is_ban_exempt : Text → Guard → Bool
  is_ban_exempt ip g = if text_beq ip [] then false else elim (parse_host_ip t6 ip) [
    | none ↦ false
    | some parsed ↦ ip_matches_rules t6 parsed g.ban_exempt_ips
  ]

  -- CheckSourceIPAllowed, for a list that is not empty.
  abbrev pub source_allowed : Text → List Text → Bool
  source_allowed ip rules = elim (parse_host_ip t6 ip) [
    | none ↦ false
    | some parsed ↦ ip_matches_rules t6 parsed rules
  ]

  unfoldable pub allow_source_ip : Text → Guard → Bool
  allow_source_ip ip g = elim g.cfg.allowed_source_ips [
    | [] ↦ true
    | rule ∷ rules ↦ source_allowed ip (rule ∷ rules)
  ]

  unfoldable pub is_allowlisted : Text → Guard → Bool
  unfolding allow_source_ip
  is_allowlisted ip g = elim g.cfg.allowed_source_ips [
    | [] ↦ false
    | rule ∷ rules ↦ allow_source_ip ip g
  ]

  unfoldable pub is_blocked : ℕ → Text → Guard → Bool
  unfolding is_ban_exempt is_blocked_raw
  is_blocked now ip g =
      if text_beq ip [] || is_ban_exempt ip g then false else is_blocked_raw now ip g

  -- An address that is never banned automatically.
  unfoldable pub is_spared : Text → Guard → Bool
  unfolding is_allowlisted is_ban_exempt
  is_spared ip g = is_allowlisted ip g || is_ban_exempt ip g

  -- The early returns of maybeAutoBan.
  unfoldable pub skips_ban : ℕ → Text → Text → Guard → Bool
  unfolding is_spared is_ignored window_of threshold_of
  skips_ban now ip signature g =
      let since = now - window_of g.cfg in
      let n = count_security_events_since ip since g.cfg.ignore_signatures_for_ban g.store in
      (not g.cfg.auto_ban || text_beq ip [])
      || (is_spared ip g || (is_ignored signature g.cfg || ltb n (threshold_of g.cfg)))

  unfoldable pub maybe_auto_ban : ℕ → Text → Text → Guard → Guard
  unfolding skips_ban auto_block record_event
  maybe_auto_ban now ip signature g =
      let block = auto_block now signature g.cfg in
      if skips_ban now ip signature g
      then g
      else record_event now ip [] (codes "tcp_accept") signature (codes "auto_banned")
          (with_store (upsert_ip_block ip block) g)

  unfoldable pub record_reject : ℕ → Text → Text → Text → Text → Guard → Guard
  unfolding maybe_auto_ban record_event
  record_reject now ip port phase signature g =
      let g' = record_event now ip port phase signature (codes "rejected") g in
      if g.cfg.enabled then maybe_auto_ban now ip signature g' else g'

  unfoldable pub check_accept : ℕ → Text → Guard → Guard × Bool × Banner
  unfolding is_blocked_raw is_ban_exempt allow_source_ip record_ban_hit record_reject
  check_accept now remote_addr g =
      let (ip, port) = split_remote_addr remote_addr in
      if is_blocked_raw now ip g && not (is_ban_exempt ip g)
      then (record_ban_hit now ip port g, false, ip_banned)
      else if nat_beq (length g.cfg.allowed_source_ips) 0 || allow_source_ip ip g
      then (g, true, no_banner)
      else (
        record_reject now ip port (codes "tcp_accept") (codes "source_deny") g,
        false,
        source_denied,
      )

  -- OnHandshakeReject, OnFrameDecodeError and OnTransportReadError, with the signature that the
  -- error was classified as; none is an error that is ignored.
  unfoldable pub on_reject : ℕ → Text → Text → Option Text → Guard → Guard
  unfolding record_reject
  on_reject now remote_addr phase none g = g
  on_reject now remote_addr phase (some signature) g =
      let (ip, port) = split_remote_addr remote_addr in record_reject now ip port phase signature g
