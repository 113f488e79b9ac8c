-- ===== src/DialErr/Refused.antt =====
-- An address that the server's guard refuses: the client reads why and gives up.
use hao_vpn.Prelude.{ℕ, Bool, true, false, ◌≡◌, refl, [], Text, arith, if◌then◌else◌, inl, inr, ◌⊎◌}
use hao_vpn.Net.{Text6}
use hao_vpn.NetUtil.Strings.{trim_space, trim}
use hao_vpn.ProbeDefense.Guard.{Guard, Banner, no_banner, check_accept}
use hao_vpn.Transport.Reconnect.{Client, dialling, exited, DialResult, failed, fatal, loop_step}
use hao_vpn.DialErr.{
  DialError, banner_ip_banned, banner_source_denied, match_reject_banner_prefix,
  classify_reject_banner_line, is_fatal_dial_error,
}

-- What WriteRejectBanner writes.
abbrev pub banner_text : Banner → Text
banner_text Banner.no_banner = []
banner_text Banner.ip_banned = banner_ip_banned
banner_text Banner.source_denied = banner_source_denied

-- The branch of the reconnect loop on an error of Dial.
abbrev pub dial_result : DialError → DialResult
dial_result e = if is_fatal_dial_error e then fatal else failed

is_fatal-banner :
    (b : Banner)
    → (b ≡ no_banner) ⊎ (is_fatal_dial_error (classify_reject_banner_line (banner_text b)) ≡ true)
unfolding classify_reject_banner_line match_reject_banner_prefix is_fatal_dial_error trim_space trim
is_fatal-banner Banner.no_banner = inl refl
is_fatal-banner Banner.ip_banned = inr refl
is_fatal-banner Banner.source_denied = inr refl

refused-banner :
    (t6 : Text6) (now : ℕ) (addr : Text) (g g' : Guard) (b : Banner)
    → check_accept t6 now addr g ≡ (g', false, b)
    → (b ≡ no_banner → true ≡ false)
unfolding check_accept
refused-banner t6 now addr g g' b h e = ground (arith, h, e)

-- When the server's guard refuses an address, the line that it writes, once the client reads it as
-- the result of its dial, ends the client's reconnect loop.
pub check_accept-loop_step :
    (t6 : Text6) (now : ℕ) (addr : Text) (g g' : Guard) (b : Banner) (ts : Bool) (r : Client)
    → check_accept t6 now addr g ≡ (g', false, b)
    → r.pc ≡ dialling
    → (loop_step (dial_result (classify_reject_banner_line (banner_text b))) ts r).pc ≡ exited
unfolding loop_step
check_accept-loop_step t6 now addr g g' b ts r h at =
    ground (arith, at, is_fatal-banner b, refused-banner t6 now addr g g' b h)
