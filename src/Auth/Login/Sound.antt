-- ===== src/Auth/Login/Sound.antt =====
-- Who gets in.
use hao_vpn.Prelude.{
  ℕ, ◌≡◌, ◌≢◌, true, false, Option, none, some, [], Text, ok, arith, Option-cases, inl, inr,
  text_beq_iff, text_eq, refl, Result-cases,
}
use hao_vpn.Prelude.Map.{get, get-put_self, get-remove_self}
use hao_vpn.Auth.{Service, User, Accounts, SessionEntry}
use hao_vpn.Auth.Lockout.{LockoutRealm, lockout_web, lockout_tunnel, lockout_map, is_locked}
use hao_vpn.Auth.Login.{verify_credentials, login, verify_tunnel_login}
use hao_vpn.Auth.WebSession.{new_entry, create_session}

module _ (a : Accounts) where
  -- The account of that name, enabled, with that password.
  pub record IsRight (username password : Text) (u : User) : Type 0 where
    pub known : a.get_user_by_username username ≡ some u
    pub enabled : u.enabled ≡ true
    pub matching : a.check_password u.password_hash password ≡ true

  verify_credentials-IsRight :
      (now later : ℕ) (others : Service → Service) (realm : LockoutRealm)
      (username password ip : Text) (s : Service) (u : User)
      → (verify_credentials a now later others realm username password ip s).1 ≡ ok u
      → ((is_locked now realm ip s).1 ≡ false) × IsRight username password u
  unfolding verify_credentials
  verify_credentials-IsRight now later others realm username password ip s u h = (
    ground arith,
    record { known = ground arith; enabled = ground arith; matching = ground arith },
  )

  login_parts :
      (now later : ℕ) (others more : Service → Service) (random : Option (Text × Text))
      (username password ip token : Text) (s : Service) (u : User)
      → (login a now later others more random username password ip s).1 ≡ ok (token, u)
      → (u.is_admin ≡ true)
        × ((verify_credentials a now later others lockout_web username password ip s).1 ≡ ok u)
        × ((csrf : Text) × ((login a now later others more random username password ip s).0
              ≡ create_session later token csrf u (
                  more
                    (verify_credentials a now later others lockout_web username password ip s).0)))
  unfolding login
  login_parts now later others more random username password ip token s u h =
      elim (Result-cases
        (verify_credentials a now later others lockout_web username password ip s).1) [
          | inr (e, bad) ↦ absurd (ground (arith, bad))
          | inl (v, good) ↦ elim (Option-cases random) [
            | inl e ↦ absurd (ground (arith, good, e))
            | inr ((issued, csrf), e) ↦
                (ground (arith, good, e), ground (arith, good, e), (csrf, ground (arith, good, e)))
          ]
        ]

  -- Who logs in to the web interface is an enabled administrator who gave the password from an
  -- address that is not locked, and the token leads to a session of that account.
  pub login_sound :
      (now later : ℕ) (others more : Service → Service) (random : Option (Text × Text))
      (username password ip token : Text) (s : Service) (u : User)
      → (login a now later others more random username password ip s).1 ≡ ok (token, u)
      → (u.is_admin ≡ true)
        × ((is_locked now lockout_web ip s).1 ≡ false)
        × IsRight username password u
        × ((e : SessionEntry) × (get token
                (login a now later others more random username password ip s).0.sessions
              ≡ some e)
            × (e.user_id ≡ u.id))
  login_sound now later others more random username password ip token s u h =
      let (admin, verified, (csrf, e)) =
        login_parts now later others more random username password ip token s u h in
      let (open_, right) =
        verify_credentials-IsRight now later others lockout_web username password ip s u verified in
      let s' = more (verify_credentials a now later others lockout_web username password ip s).0 in
      (
        admin,
        open_,
        right,
        (
          new_entry later csrf u s',
          rw e
              (unfold create_session in get-put_self token (new_entry later csrf u s') s'.sessions),
          refl,
        ),
      )

  -- Who logs in to the tunnel has an enabled account with keys and no pending change of password,
  -- and gave the password from an address that is not locked.
  pub verify_tunnel_login_sound :
      (now later : ℕ) (others : Service → Service) (username password ip : Text) (s : Service)
      (u : User)
      → (verify_tunnel_login a now later others username password ip s).1 ≡ ok u
      → (u.must_change_password ≡ false)
        × (u.public_key ≢ [])
        × (u.private_key_enc ≢ [])
        × ((is_locked now lockout_tunnel ip s).1 ≡ false)
        × IsRight username password u
  unfolding verify_tunnel_login
  verify_tunnel_login_sound now later others username password ip s u h =
      let right : (verify_credentials a now later others lockout_tunnel username password ip s).1
          ≡ ok u =
        ground arith in
      let (open_, is_right) =
        verify_credentials-IsRight now later others lockout_tunnel username password ip s u right in
      (
        ground arith,
        ground (arith, text_beq_iff u.public_key []),
        ground (arith, text_beq_iff u.private_key_enc []),
        open_,
        is_right,
      )

  -- From an address that is not locked, the name and password of an enabled account get in, and
  -- the failures of the address are forgotten.
  pub verify_credentials_right :
      (now : ℕ) (realm : LockoutRealm) (username password ip : Text) (s : Service) (u : User)
      → (is_locked now realm ip s).1 ≡ false
      → IsRight username password u
      → let (s', r) = verify_credentials a now now (λ k. k) realm username password ip s in
        (r ≡ ok u) × (get ip (lockout_map realm s') ≡ none)
  unfolding verify_credentials
  verify_credentials_right now lockout_web username password ip s u open_ right = ground (
    arith,
    right.known,
    right.enabled,
    right.matching,
    get-remove_self ip (is_locked now lockout_web ip s).0.web_lockouts,
  )
  verify_credentials_right now lockout_tunnel username password ip s u open_ right = ground (
    arith,
    right.known,
    right.enabled,
    right.matching,
    get-remove_self ip (is_locked now lockout_tunnel ip s).0.tunnel_lockouts,
  )
