-- ===== src/Auth.antt =====
-- internal/auth: who may log in, and the sessions of the web interface. service.go's types.
--
-- Times are nanoseconds and 0 is the zero time, which no clock shows. Each table has a lock of its
-- own. What runs under one lock is one function of the service; a login is several of them, with
-- other calls between.
pub mod Lockout
pub mod WebSession
pub mod Login
use hao_vpn.Prelude.{ℕ, ◌*◌, Bool, [], Option, Text, if◌then◌else◌}
use hao_vpn.Prelude.Int.{ℤ, pos, pos_part, leb_ℤ}
use hao_vpn.Prelude.Map.{Map}

abbrev pub nanoseconds : ℕ
nanoseconds = 1000000000

-- The fields of persist.User that the service reads.
pub record User : Type 0 where
  pub id : ℕ
  pub username : Text
  pub password_hash : Text
  pub enabled : Bool
  pub is_admin : Bool
  pub must_change_password : Bool
  pub public_key : Text
  pub private_key_enc : Text

-- The store's lookup (none is its error) and bcrypt's comparison of a hash with a password.
pub record Accounts : Type 0 where
  pub get_user_by_username : Text → Option User
  pub check_password : Text → Text → Bool

pub record SessionEntry : Type 0 where
  pub user_id : ℕ
  pub username : Text
  pub expires_at : ℕ
  pub absolute_expires_at : ℕ
  pub csrf_token : Text

pub record LockoutEntry : Type 0 where
  pub failures : ℕ
  pub locked_until : ℕ

pub record Service : Type 0 where
  pub sessions : Map Text SessionEntry
  pub web_lockouts : Map Text LockoutEntry
  pub tunnel_lockouts : Map Text LockoutEntry
  pub max_attempts : ℕ
  pub lockout_sec : ℕ
  pub session_ttl : ℕ

pub data AuthError : Type 0 where
  bad_credentials login_locked must_change_password no_vpn random_failed : AuthError

-- A setting, or its default where it is not positive.
abbrev or_default : ℤ → ℕ → ℕ
or_default n d = if leb_ℤ n (pos 0) then d else pos_part n

unfoldable pub new : ℤ → ℤ → ℤ → Service
new max_attempts lockout_sec session_ttl_sec = record {
  sessions = [];
  web_lockouts = [];
  tunnel_lockouts = [];
  max_attempts = or_default max_attempts 5;
  lockout_sec = or_default lockout_sec 900;
  session_ttl = or_default session_ttl_sec 28800 * nanoseconds;
}
