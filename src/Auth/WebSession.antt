-- ===== src/Auth/WebSession.antt =====
-- session.go: the sessions of the web interface, by token.
pub mod Lifetime
use hao_vpn.Prelude.{
  ℕ, suc, ◌+◌, ◌*◌, Bool, true, false, not, ◌&&◌, ◌||◌, [], ◌∷◌, Option, none, some, nat_beq, ltb,
  if◌then◌else◌, Text, text_eq, text_beq,
}
use hao_vpn.Prelude.Map.{Map, get, put, remove}
use hao_vpn.Auth.{Service, SessionEntry, User}

abbrev pub new_entry : ℕ → Text → User → Service → SessionEntry
new_entry now csrf u s = record {
  user_id = u.id;
  username = u.username;
  expires_at = now + s.session_ttl;
  absolute_expires_at = now + 2 * s.session_ttl;
  csrf_token = csrf;
}

-- createSession with the two tokens that randomToken gave.
unfoldable pub create_session : ℕ → Text → Text → User → Service → Service
create_session now token csrf u s = record s {
  sessions = put token (new_entry now csrf u s) s.sessions;
}

-- The absolute limit is set and has passed.
abbrev pub past_absolute : ℕ → SessionEntry → Bool
past_absolute now e = not (nat_beq e.absolute_expires_at 0) && ltb e.absolute_expires_at now

abbrev pub is_expired : ℕ → SessionEntry → Bool
is_expired now e = ltb e.expires_at now || past_absolute now e

abbrev pub delete_session : Text → Service → Service
delete_session token s = record s { sessions = remove token s.sessions }

unfoldable pub validate_session : ℕ → Text → Service → Service × Option SessionEntry
validate_session now token s = elim (get token s.sessions) [
  | none ↦ (s, none)
  | some e ↦ if is_expired now e then (delete_session token s, none) else (s, some e)
]

-- The entry with its expiry moved on, but not past the absolute limit.
abbrev pub renewed : ℕ → Service → SessionEntry → SessionEntry
renewed now s e =
    let next = now + s.session_ttl in
    record e {
      expires_at =
          if not (nat_beq e.absolute_expires_at 0) && ltb e.absolute_expires_at next
          then e.absolute_expires_at
          else next;
    }

unfoldable pub touch_session : ℕ → Text → Service → Service
touch_session now token s = elim (get token s.sessions) [
  | none ↦ s
  | some e ↦
      if past_absolute now e
      then delete_session token s
      else record s { sessions = put token (renewed now s e) s.sessions }
]

unfoldable pub logout : Text → Service → Service
logout token s = delete_session token s

-- A loop over the given entries that deletes those that `drops` picks from the map.
unfoldable pub delete_where :
    (SessionEntry → Bool)
    → Map Text SessionEntry
    → Map Text SessionEntry
    → Map Text SessionEntry × ℕ
delete_where drops [] m = (m, 0)
delete_where drops ((token, e) ∷ entries) m =
    let dropped = delete_where drops entries (remove token m) in
    let same = delete_where drops entries m in if drops e then (dropped.0, suc dropped.1) else same

unfoldable pub logout_all_for_user : ℕ → Service → Service × ℕ
logout_all_for_user user s =
    let (m, n) = delete_where (λ e. nat_beq e.user_id user) s.sessions s.sessions in
    (record s { sessions = m }, n)

unfoldable pub prune_expired_sessions : ℕ → Service → Service × ℕ
prune_expired_sessions now s =
    let (m, n) = delete_where (is_expired now) s.sessions s.sessions in
    (record s { sessions = m }, n)

unfoldable pub validate_csrf : ℕ → Text → Text → Service → Service × Bool
unfolding validate_session
validate_csrf now token csrf s =
    let (s', found) = validate_session now token s in
    elim found [ none ↦ (s', false) | some e ↦ (s', text_beq e.csrf_token csrf) ]

unfoldable pub get_csrf : ℕ → Text → Service → Service × Text
unfolding validate_session
get_csrf now token s =
    let (s', found) = validate_session now token s in
    elim found [ none ↦ (s', []) | some e ↦ (s', e.csrf_token) ]
