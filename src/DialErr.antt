-- ===== src/DialErr.antt =====
-- internal/dialerr: the codes that a server writes before TLS, and what the client makes of them.
pub mod Refused
use hao_vpn.Prelude.{
  ℕ, Bool, true, false, ◌&&◌, ◌||◌, List, [], ◌∷◌, ◌++◌, Option, none, some, Text, nat_beq, codes,
  if◌then◌else◌,
}
use hao_vpn.NetUtil.Strings.{trim_space, to_lower, is_prefix, contains_text}

-- The sentinels, and any other error.
pub data DialError : Type 0 where
  ip_banned source_denied plaintext_before_tls closed_before_tls : DialError
  other : Text → DialError

abbrev crlf : Text
crlf = 13 ∷ 10 ∷ []

-- BannerIPBanned and BannerSourceDenied.
abbrev pub banner_ip_banned : Text
banner_ip_banned = codes "HAOVPN:IP_BANNED" ++ crlf

abbrev pub banner_source_denied : Text
banner_source_denied = codes "HAOVPN:SOURCE_DENIED" ++ crlf

unfoldable pub match_reject_banner_prefix : Text → Option DialError
match_reject_banner_prefix s =
    let s' = trim_space s in
    if is_prefix (codes "HAOVPN:IP_BANNED") s'
    then some ip_banned
    else if is_prefix (codes "HAOVPN:SOURCE_DENIED") s'
    then some source_denied
    else none

unfoldable pub classify_reject_banner_line : Text → DialError
unfolding match_reject_banner_prefix
classify_reject_banner_line line = elim (match_reject_banner_prefix line) [
  | some e ↦ e
  | none ↦ other (codes "unexpected server preamble: " ++ trim_space line)
]

unfoldable pub is_fatal_dial_error : DialError → Bool
is_fatal_dial_error ip_banned = true
is_fatal_dial_error source_denied = true
is_fatal_dial_error plaintext_before_tls = true
is_fatal_dial_error closed_before_tls = false
is_fatal_dial_error (other s) = false

-- IsTLSBadRecordMsg and ClassifyTLSHandshakeErr, on the text of a TLS error.
unfoldable pub is_tls_bad_record_msg : Text → Bool
is_tls_bad_record_msg msg =
    contains_text (to_lower msg) (codes "first record does not look like a tls")

unfoldable pub classify_tls_handshake_err : Text → DialError
unfolding is_tls_bad_record_msg
classify_tls_handshake_err msg =
    if is_tls_bad_record_msg msg then plaintext_before_tls else other msg
