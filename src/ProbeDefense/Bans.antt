-- ===== src/ProbeDefense/Bans.antt =====
-- manual_ban.go, and what guard.go and exempt.go change on an administrator's request.
use hao_vpn.Prelude.{
  ℕ, zero, suc, Bool, true, false, ◌&&◌, not, List, [], ◌∷◌, ◌++◌, Text, text_beq, codes, ltb,
  is_some, if◌then◌else◌, Result, ok, err, reject_if, ◌>>◌,
}
use hao_vpn.Prelude.Int.{ℤ, pos, negsuc}
use hao_vpn.Net.{Text6}
use hao_vpn.Net.Parse.{parse_ip, parse_cidr}
use hao_vpn.NetUtil.Strings.{trim_space, dedup_trim_non_empty}
use hao_vpn.ProbeDefense.Tables.{
  Store, IpBlock, upsert_ip_block, disable_ip_block, upsert_ban_exempt, enabled_ips,
}
use hao_vpn.ProbeDefense.Guard.{
  Guard, with_store, is_ban_exempt, record_event, resolve_ban_expiry_time,
}

pub data BanError : Type 0 where
  invalid_ban_ip ban_exempt : BanError
  negative_duration duration_too_short duration_too_long : BanError

-- ValidateManualBanDuration
unfoldable pub validate_manual_ban_duration : ℤ → Result BanError (Unit {0})
validate_manual_ban_duration (negsuc n) = elim n [ zero ↦ ok tt | suc k ↦ err negative_duration ]
validate_manual_ban_duration (pos n) =
    reject_if (ltb 0 n && ltb n 60) duration_too_short
    >> reject_if (ltb 315360000 n) duration_too_long

-- The ban of ManualBanStore.
unfoldable pub manual_block : ℕ → Text → ℤ → ℤ → IpBlock
unfolding resolve_ban_expiry_time
manual_block now reason duration default = record {
  reason = reason;
  source = codes "manual";
  signature = [];
  hits = 0;
  expires_at = resolve_ban_expiry_time now duration default;
  enabled = true;
}

module _ (t6 : Text6) where
  -- ValidateIPOrCIDR
  unfoldable pub validate_ip_or_cidr : Bool → Text → Bool
  validate_ip_or_cidr allow_cidr s =
      let s' = trim_space s in
      if text_beq s' []
      then false
      else if is_some (parse_ip t6 s')
      then true
      else allow_cidr && is_some (parse_cidr t6 s')

  unfoldable pub manual_ban_store :
      ℕ → (Text → Bool) → Text → Text → ℤ → ℤ → Store → Result BanError Store
  unfolding validate_ip_or_cidr manual_block
  manual_ban_store now is_exempt ip reason duration default st =
      let ip' = trim_space ip in
      let block = manual_block now reason duration default in
      if not (validate_ip_or_cidr false ip')
      then err invalid_ban_ip
      else if is_exempt ip'
      then err ban_exempt
      else ok (upsert_ip_block ip' block st)

  unfoldable pub manual_ban : ℕ → Text → Text → ℤ → Guard → Guard × Result BanError (Unit {0})
  unfolding manual_ban_store record_event
  manual_ban now ip reason duration g =
      elim (manual_ban_store now (λ s. is_ban_exempt t6 s g) ip reason duration
        g.cfg.ban_duration_sec g.store) [
          | err e ↦ (g, err e)
          | ok st ↦ (
            record_event now (trim_space ip) [] (codes "tcp_accept") (codes "manual")
                (codes "manual_banned") (record g { store = st }),
            ok tt,
          )
        ]

  -- ImportBanExemptFromYAML; an address that is not valid is passed over. The note is shortened.
  unfoldable pub import_ban_exempt_from_yaml : List Text → Store → Result (Unit {0}) Store
  unfolding validate_ip_or_cidr
  import_ban_exempt_from_yaml [] st = ok st
  import_ban_exempt_from_yaml (ip ∷ ips) st =
      let ip' = trim_space ip in
      let skip = import_ban_exempt_from_yaml ips st in
      if text_beq ip' []
      then skip
      else if not (validate_ip_or_cidr true ip')
      then skip
      else elim (upsert_ban_exempt ip' (codes "server.yaml") (codes "yaml_import") st) [
        | err e ↦ err e
        | ok st' ↦ import_ban_exempt_from_yaml ips st'
      ]

unfoldable pub unban : Text → Guard → Guard
unban ip g = with_store (disable_ip_block ip) g

unfoldable pub reload_ban_exempt : Guard → Guard
reload_ban_exempt g = record g {
  ban_exempt_ips = dedup_trim_non_empty (g.cfg.ban_exempt_ips ++ enabled_ips g.store.ip_ban_exempt);
}

abbrev pub set_ban_exempt_ips : List Text → Guard → Guard
set_ban_exempt_ips ips g = record g { ban_exempt_ips = ips }
