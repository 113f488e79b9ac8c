-- ===== src/Examples/Accounts.antt =====
-- Logins of an administrator and wrong guesses.
use hao_vpn.Prelude.{
  ℕ, suc, ◌+◌, List, ◌≤◌, ◌≡◌, ◌≢◌, refl, true, false, [], ◌∷◌, none, some, ok, arith, codes,
  text_eq, text_beq, is_some, if◌then◌else◌,
}
use hao_vpn.Prelude.Map.{get, put, remove}
use hao_vpn.Auth.{Service, User, Accounts, SessionEntry}
use hao_vpn.Auth.Lockout.{lockout_web, lockout_tunnel, is_locked, record_failure}
use hao_vpn.Auth.Login.{check_credentials, login, verify_tunnel_login}
use hao_vpn.Auth.Login.Guesses.{
  Guess, Step, asks, ends, Attack, pick, step, attacked, most_under_way,
}
use hao_vpn.Auth.Login.Guesses.Bound.{attacked-let_past}
use hao_vpn.Auth.Login.Sound.{IsRight, login_sound, verify_tunnel_login_sound}
use hao_vpn.Auth.WebSession.{
  create_session, validate_session, touch_session, delete_where, logout_all_for_user,
}

abbrev root : User
root = record {
  id = 1;
  username = codes "root";
  password_hash = codes "h";
  enabled = true;
  is_admin = true;
  must_change_password = false;
  public_key = codes "k";
  private_key_enc = codes "p";
}

-- One account, whose password is "secret1".
abbrev only_root : Accounts
only_root = record {
  get_user_by_username = λ name. if text_beq name (codes "root") then some root else none;
  check_password = λ hash password. text_beq password (codes "secret1");
}

abbrev quiet : Service
quiet = record {
  sessions = [];
  web_lockouts = [];
  tunnel_lockouts = [];
  max_attempts = 2;
  lockout_sec = 900;
  session_ttl = 100;
}

abbrev guess : Guess
guess = record { username = codes "root"; password = codes "a" }

-- Three guesses go past the lock before any of them has failed.
abbrev at_once : List Step
at_once =
    asks 5 guess
    ∷ asks 6 guess
    ∷ asks 7 guess
    ∷ ends 8 0
    ∷ ends 9 1
    ∷ ends 10 0
    ∷ asks 11 guess
    ∷ []

abbrev untried : Attack
untried = record { service = quiet; under_way = []; let_past = 0 }

three_let_past : (attacked only_root lockout_web (codes "9.9.9.9") at_once untried).let_past ≡ 3
unfolding attacked step is_locked get pick check_credentials put
three_let_past = refl

attacked-let_past_example :
    suc (attacked only_root lockout_web (codes "9.9.9.9") at_once untried).let_past
    ≤ 2 + most_under_way only_root lockout_web (codes "9.9.9.9") at_once untried
unfolding get
attacked-let_past_example =
    attacked-let_past only_root lockout_web (codes "9.9.9.9") at_once 5 quiet refl (omega arith)
      (wrong, (wrong, (wrong, (tt, (tt, (tt, (wrong, tt))))))) (ground arith)
  where
    wrong :
        (u : User)
        → only_root.get_user_by_username (codes "root") ≡ some u
        → u.enabled ≡ true
        → only_root.check_password u.password_hash (codes "a") ≡ false
    wrong u h e = refl

-- While the password is looked at, another guess from the address fails.
abbrev meanwhile : Service → Service
meanwhile = record_failure 5 lockout_web (codes "9.9.9.9")

right : IsRight only_root (codes "root") (codes "secret1") root
right = record { known = refl; enabled = refl; matching = refl }

logged_in :
    (login only_root 5 6 meanwhile
      (λ k. k)
      (some (codes "t", codes "c"))
      (codes "root")
      (codes "secret1")
      (codes "9.9.9.9")
      quiet).1
    ≡ ok (codes "t", root)
unfolding login get
logged_in = refl

login_sound_example :
    (root.is_admin ≡ true)
    × ((is_locked 5 lockout_web (codes "9.9.9.9") quiet).1 ≡ false)
    × IsRight only_root (codes "root") (codes "secret1") root
    × ((e : SessionEntry) × (get
            (codes "t")
            (login only_root 5 6 meanwhile
              (λ k. k)
              (some (codes "t", codes "c"))
              (codes "root")
              (codes "secret1")
              (codes "9.9.9.9")
              quiet).0.sessions
          ≡ some e)
        × (e.user_id ≡ root.id))
login_sound_example =
    login_sound only_root 5 6 meanwhile (λ k. k) (some (codes "t", codes "c")) (codes "root")
      (codes "secret1") (codes "9.9.9.9") (codes "t") quiet root logged_in

tunnel_logged_in :
    (verify_tunnel_login only_root 5 6 meanwhile
      (codes "root")
      (codes "secret1")
      (codes "9.9.9.9")
      quiet).1
    ≡ ok root
unfolding verify_tunnel_login get
tunnel_logged_in = refl

verify_tunnel_login_sound_example :
    (root.must_change_password ≡ false)
    × (root.public_key ≢ [])
    × (root.private_key_enc ≢ [])
    × ((is_locked 5 lockout_tunnel (codes "9.9.9.9") quiet).1 ≡ false)
    × IsRight only_root (codes "root") (codes "secret1") root
verify_tunnel_login_sound_example =
    verify_tunnel_login_sound only_root 5 6 meanwhile (codes "root") (codes "secret1")
      (codes "9.9.9.9") quiet root tunnel_logged_in

-- A renewal carries a session on.
renewed_run :
    is_some
      (validate_session 150
        (codes "t")
        (touch_session 90 (codes "t") (create_session 10 (codes "t") (codes "c") root quiet))).1
    ≡ true
unfolding validate_session touch_session create_session get put
renewed_run = refl

abbrev of : ℕ → SessionEntry
of id = record {
  user_id = id;
  username = codes "u";
  expires_at = 110;
  absolute_expires_at = 210;
  csrf_token = codes "c";
}

abbrev two_users : Service
two_users = record quiet { sessions = (codes "t", of 1) ∷ (codes "v", of 2) ∷ [] }

still_there : get (codes "v") (logout_all_for_user 1 two_users).0.sessions ≡ some (of 2)
unfolding logout_all_for_user delete_where get remove
still_there = refl
