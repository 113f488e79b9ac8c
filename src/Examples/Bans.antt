-- ===== src/Examples/Bans.antt =====
-- A guard that bans after two rejections within ten minutes, for an hour.
use hao_vpn.Prelude.{ℕ, ◌≡◌, ◌*◌, refl, [], ◌∷◌, arith, true, false, codes, Text, ok}
use hao_vpn.Prelude.Int.{pos}
use hao_vpn.Net.{contains}
use hao_vpn.Net.Parse.{parse_ip, parse_cidr}
use hao_vpn.NetUtil.Addr.{split_remote_addr, parse_host_ip, host_from_addr}
use hao_vpn.NetUtil.Rules.{ip_matches_rules, parse_cidr_or_host}
use hao_vpn.NetUtil.Strings.{trim_space, trim, cut_last}
use hao_vpn.ProbeDefense.Tables.{Store, second, count_events}
use hao_vpn.ProbeDefense.Guard.{
  Config, Guard, is_ban_exempt, is_blocked_raw, allow_source_ip, check_accept, record_reject,
  ip_banned, window_of, threshold_of, is_spared, is_ignored, resolve_ban_expiry_time,
}
use hao_vpn.ProbeDefense.Bans.{manual_ban, unban}
use hao_vpn.ProbeDefense.Counting.{IsCounting}
use hao_vpn.ProbeDefense.AutoBan.{rejects, rejects-threshold, unban-rebanned}
use hao_vpn.ProbeDefense.ManualBan.{lasts, manual_ban-lasts}
use hao_vpn.Transport.Config.{default_config}
use hao_vpn.Transport.Reconnect.{
  Client, dialling, exited, succeeded, start, loop_step, new_reconnect_client,
}
use hao_vpn.DialErr.{classify_reject_banner_line}
use hao_vpn.DialErr.Refused.{banner_text, dial_result, check_accept-loop_step}
use hao_vpn.ProbeDefense.Tables.{
  get_active_ip_block, insert_security_event, upsert_ip_block, increment_ip_block_hit,
}
use hao_vpn.Prelude.Map.{get, put, remove}
use hao_vpn.ProbeDefense.Guard.{record_ban_hit, record_event}
use hao_vpn.ProbeDefense.Bans.{validate_ip_or_cidr, manual_ban_store}
use hao_vpn.Examples.Data.{no_text6}

abbrev empty_store : Store
empty_store = record { security_events = []; ip_blocks = []; ip_ban_exempt = [] }

abbrev settings : Config
settings = record {
  enabled = true;
  record_events = true;
  auto_ban = true;
  ban_after_events = pos 2;
  ban_window_sec = pos 600;
  ban_duration_sec = pos 3600;
  ignore_signatures_for_ban = codes "auth_failed" ∷ [];
  allowed_source_ips = [];
  ban_exempt_ips = codes "203.0.113.0/24" ∷ [];
}

abbrev guard : Guard
guard = record { store = empty_store; cfg = settings; ban_exempt_ips = settings.ban_exempt_ips }

abbrev scanner : Text
scanner = codes "198.51.100.7"

counting : IsCounting no_text6 scanner (codes "http_get") guard
unfolding is_spared is_ignored cut_last trim parse_host_ip parse_ip ip_matches_rules
    parse_cidr_or_host trim_space parse_cidr contains host_from_addr
counting = (refl, refl, refl, refl, refl, refl)

no_events :
    count_events scanner 0 guard.cfg.ignore_signatures_for_ban guard.store.security_events ≡ 0
unfolding count_events
no_events = refl

ten_minutes : window_of guard.cfg ≡ 600 * second
unfolding window_of
ten_minutes = refl

two : 2 ≡ threshold_of guard.cfg
unfolding threshold_of
two = refl

abbrev once : Guard
once =
    rejects no_text6 scanner (codes "4000") (codes "frame") (codes "http_get") ((700 * second) ∷ [])
      guard

abbrev again : ℕ → Guard → Guard
again now = record_reject no_text6 now scanner (codes "4000") (codes "frame") (codes "http_get")

rejects-threshold_example :
    (once.store.ip_blocks ≡ guard.store.ip_blocks)
    × (is_blocked_raw (4000 * second) scanner (again (900 * second) once) ≡ true)
rejects-threshold_example =
    rejects-threshold no_text6 scanner (codes "4000") (codes "frame") (codes "http_get")
      (600 * second) (900 * second) (4000 * second) 3599 ((700 * second) ∷ []) guard counting
      no_events ((omega arith, omega (arith, ten_minutes)), tt) two
      (omega arith, omega (arith, ten_minutes)) refl (omega arith)

unban-rebanned_example :
    is_blocked_raw
      (4000 * second)
      scanner
      (again (1000 * second) (unban scanner (again (900 * second) once)))
    ≡ true
unban-rebanned_example =
    unban-rebanned no_text6 scanner (codes "4000") (codes "frame") (codes "http_get") (600 * second)
      (900 * second) (1000 * second) (4000 * second) 3599 ((700 * second) ∷ []) guard counting
      no_events ((omega arith, omega (arith, ten_minutes)), tt) two (omega arith)
      (omega (arith, ten_minutes)) refl (omega arith)

abbrev banned : Guard
banned = (manual_ban no_text6 (10 * second) scanner (codes "scan") (pos 60) guard).0

manual_ban-lasts_example :
    (is_ban_exempt no_text6 (trim_space scanner) guard ≡ false)
    × (is_blocked_raw (75 * second) (trim_space scanner) banned
        ≡ lasts
            (75 * second)
            (resolve_ban_expiry_time (10 * second) (pos 60) guard.cfg.ban_duration_sec))
    × (is_blocked_raw (75 * second) (trim_space scanner) (unban (trim_space scanner) banned)
        ≡ false)
manual_ban-lasts_example =
    manual_ban-lasts no_text6 (10 * second) (75 * second) scanner (codes "scan") (pos 60) guard
      banned accepted
  where
    accepted :
        manual_ban no_text6 (10 * second) scanner (codes "scan") (pos 60) guard ≡ (banned, ok tt)
    accepted =
        unfold manual_ban is_ban_exempt host_from_addr cut_last trim parse_host_ip parse_ip
          ip_matches_rules parse_cidr_or_host trim_space parse_cidr contains in
        refl

-- The client of the banned address, at its dial.
abbrev scanning : Client
scanning = loop_step succeeded true (start (new_reconnect_client default_config true))

at_dial : scanning.pc ≡ dialling
unfolding loop_step start new_reconnect_client
at_dial = refl

abbrev turned_away : Guard
turned_away = (check_accept no_text6 (15 * second) (codes "198.51.100.7:4000") banned).0

refused_scanner :
    check_accept no_text6 (15 * second) (codes "198.51.100.7:4000") banned
    ≡ (turned_away, false, ip_banned)
unfolding check_accept get_active_ip_block get manual_ban trim_space parse_ip parse_host_ip
    host_from_addr cut_last ip_matches_rules parse_cidr_or_host parse_cidr contains
    insert_security_event upsert_ip_block put split_remote_addr trim allow_source_ip is_ban_exempt
    is_blocked_raw resolve_ban_expiry_time record_ban_hit validate_ip_or_cidr manual_ban_store
    record_event increment_ip_block_hit remove
refused_scanner = refl

check_accept-loop_step_example :
    (loop_step (dial_result (classify_reject_banner_line (banner_text ip_banned))) true scanning).pc
    ≡ exited
check_accept-loop_step_example =
    check_accept-loop_step no_text6 (15 * second) (codes "198.51.100.7:4000") banned turned_away
      ip_banned true scanning refused_scanner at_dial
