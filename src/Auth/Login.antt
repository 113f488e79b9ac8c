-- ===== src/Auth/Login.antt =====
-- login.go and tunnel_login.go: passwords, for the web interface and for the tunnel.
pub mod Guesses
pub mod Realms
pub mod Sound
use hao_vpn.Prelude.{
  ℕ, Bool, true, false, not, ◌||◌, List, [], Option, none, some, if◌then◌else◌, Text, text_beq,
  Result, ok, err,
}
use hao_vpn.Auth.{
  Service, User, Accounts, AuthError, bad_credentials, login_locked, must_change_password, no_vpn,
  random_failed,
}
use hao_vpn.Auth.Lockout.{
  LockoutRealm, lockout_web, lockout_tunnel, is_locked, record_failure, clear_failures,
}
use hao_vpn.Auth.WebSession.{create_session}

module _ (a : Accounts) where
  -- verifyCredentials after its isLocked; unknown, disabled and wrong give the same error.
  unfoldable pub check_credentials :
      ℕ → LockoutRealm → Text → Text → Text → Service → Service × Result AuthError User
  unfolding record_failure clear_failures
  check_credentials now realm username password ip s =
      let failed : Service × Result AuthError User =
        (record_failure now realm ip s, err bad_credentials) in
      elim (a.get_user_by_username username) [
        | none ↦ failed
        | some u ↦
            if not u.enabled
            then failed
            else if not (a.check_password u.password_hash password)
            then failed
            else (clear_failures realm ip s, ok u)
      ]

  -- verifyCredentials: isLocked at the time `now`, the rest at `later`. The lock is free between
  -- them, and `others` is what other calls make of the service meanwhile.
  unfoldable pub verify_credentials :
      ℕ
      → ℕ
      → (Service → Service)
      → LockoutRealm
      → Text
      → Text
      → Text
      → Service
      → Service × Result AuthError User
  unfolding is_locked check_credentials
  verify_credentials now later others realm username password ip s =
      let (s', locked) = is_locked now realm ip s in
      if locked
      then (s', err login_locked)
      else check_credentials later realm username password ip (others s')

  -- Login; `random` is what randomToken gives for the session and the CSRF token, and `more` what
  -- other calls make of the service before the last step.
  unfoldable pub login :
      ℕ
      → ℕ
      → (Service → Service)
      → (Service → Service)
      → Option (Text × Text)
      → Text
      → Text
      → Text
      → Service
      → Service × Result AuthError (Text × User)
  unfolding verify_credentials create_session
  login now later others more random username password ip s =
      let (s1, checked) = verify_credentials now later others lockout_web username password ip s in
      let s' = more s1 in
      elim checked [
        | err e ↦ (s1, err e)
        | ok u ↦
            if not u.is_admin
            then (record_failure later lockout_web ip s', err bad_credentials)
            else elim random [
              | none ↦ (s', err random_failed)
              | some (token, csrf) ↦ (create_session later token csrf u s', ok (token, u))
            ]
      ]

  unfoldable pub verify_tunnel_login :
      ℕ → ℕ → (Service → Service) → Text → Text → Text → Service → Service × Result AuthError User
  unfolding verify_credentials
  verify_tunnel_login now later others username password ip s =
      let (s', checked) =
        verify_credentials now later others lockout_tunnel username password ip s in
      elim checked [
        | err e ↦ (s', err e)
        | ok u ↦
            if u.must_change_password
            then (s', err must_change_password)
            else if text_beq u.public_key [] || text_beq u.private_key_enc []
            then (s', err no_vpn)
            else (s', ok u)
      ]
