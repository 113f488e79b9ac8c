-- ===== src/Auth/WebSession/Lifetime.antt =====
-- How long a session of the web interface can live.
use hao_vpn.Prelude.{
  ℕ, ◌+◌, ◌*◌, ◌<◌, ◌≡◌, ◌≢◌, refl, Bool, true, List, [], ◌∷◌, none, some, nat_beq, Text, text_eq,
  All, arith, ◌⊎◌, inl, inr, ◌==◌, ==_iff, Bool-cases, Option-cases,
}
use hao_vpn.Prelude.Map.{Map, get, remove, get-put, get-remove}
use hao_vpn.Auth.{Service, SessionEntry, User}
use hao_vpn.Auth.WebSession.{
  create_session, validate_session, touch_session, logout, delete_where, logout_all_for_user,
  prune_expired_sessions, is_expired, past_absolute, new_entry, renewed,
}

pub data Call : Type 0 where
  creates : ℕ → Text → Text → User → Call
  validates touches : ℕ → Text → Call
  logs_out : Text → Call
  logs_out_all prunes : ℕ → Call

pub after : Call → Service → Service
after (creates now token csrf u) s = create_session now token csrf u s
after (validates now token) s = (validate_session now token s).0
after (touches now token) s = touch_session now token s
after (logs_out token) s = logout token s
after (logs_out_all user) s = (logout_all_for_user user s).0
after (prunes now) s = (prune_expired_sessions now s).0

pub after_all : List Call → Service → Service
after_all [] s = s
after_all (c ∷ cs) s = after_all cs (after c s)

-- The call does not issue this token.
abbrev pub IsOther : Text → Call → Type 0
IsOther token (creates now issued csrf u) = issued ≢ token
IsOther token _ = Unit {0}

-- The token's session, if there is one, has this absolute limit.
abbrev IsCapped : Text → ℕ → Service → Type 0
IsCapped token limit s =
    (e : SessionEntry) → get token s.sessions ≡ some e → e.absolute_expires_at ≡ limit

-- The loop of deletions keeps an entry or deletes it.
delete_where-keeps :
    (drops : SessionEntry → Bool) (entries m : Map Text SessionEntry) (token : Text)
    → (get token (delete_where drops entries m).0 ≡ none)
      ⊎ (get token (delete_where drops entries m).0 ≡ get token m)
unfolding delete_where
delete_where-keeps drops [] m token = inr refl
delete_where-keeps drops ((issued, e) ∷ entries) m token = ground (
  arith,
  delete_where-keeps drops entries m token,
  delete_where-keeps drops entries (remove issued m) token,
  get-remove issued token m,
)

touch_session-IsCapped :
    (now : ℕ) (given token : Text) (limit : ℕ) (s : Service)
    → IsCapped token limit s
    → IsCapped token limit (touch_session now given s)
unfolding touch_session
touch_session-IsCapped now given token limit s capped e h =
    elim (Option-cases (get given s.sessions)) [
      | inl miss ↦ capped e (ground (arith, miss))
      | inr (old, hit) ↦ elim (Bool-cases (past_absolute now old)) [
        | inl past ↦ capped e (ground (arith, hit, past, get-remove given token s.sessions))
        | inr open_ ↦ elim (Bool-cases (given == token)) [
          | inl same ↦
              let kept = capped old (ground (arith, hit, ==_iff given token, same)) in
              ground
                (arith, hit, open_, same, kept, get-put given token (renewed now s old) s.sessions)
          | inr other ↦ capped e (
              ground (arith, hit, open_, other, get-put given token (renewed now s old) s.sessions))
        ]
      ]
    ]

after-IsCapped :
    (c : Call) (token : Text) (limit : ℕ) (s : Service)
    → IsOther token c
    → IsCapped token limit s
    → IsCapped token limit (after c s)
unfolding after
after-IsCapped (creates now issued csrf u) token limit s other capped e h = capped e (
    unfold create_session in
    ground (arith, get-put issued token (new_entry now csrf u s) s.sessions, ==_iff issued token))
after-IsCapped (validates now given) token limit s other capped e h =
    capped e (unfold validate_session in ground (arith, get-remove given token s.sessions))
after-IsCapped (touches now given) token limit s other capped e h =
    touch_session-IsCapped now given token limit s capped e h
after-IsCapped (logs_out given) token limit s other capped e h =
    capped e (unfold logout in ground (arith, get-remove given token s.sessions))
after-IsCapped (logs_out_all user) token limit s other capped e h = capped e (
    unfold logout_all_for_user in
    ground (arith, delete_where-keeps (λ e. nat_beq e.user_id user) s.sessions s.sessions token))
after-IsCapped (prunes now) token limit s other capped e h = capped e (
    unfold prune_expired_sessions in
    ground (arith, delete_where-keeps (is_expired now) s.sessions s.sessions token))

after_all-IsCapped :
    (cs : List Call) (token : Text) (limit : ℕ) (s : Service)
    → All (IsOther token) cs
    → IsCapped token limit s
    → IsCapped token limit (after_all cs s)
unfolding after_all
after_all-IsCapped [] token limit s other capped = capped
after_all-IsCapped (c ∷ cs) token limit s other capped =
    after_all-IsCapped cs token limit (after c s) other.1
      (after-IsCapped c token limit s other.0 capped)

-- A web session is over once twice the session time has passed since its login at a positive time,
-- whatever calls were made meanwhile, renewals included, as long as its token is not issued again.
pub create_session-after_all :
    (cs : List Call) (start now : ℕ) (token csrf : Text) (u : User) (s : Service)
    → All (IsOther token) cs
    → 0 < start
    → start + 2 * s.session_ttl < now
    → (validate_session now token (after_all cs (create_session start token csrf u s))).1 ≡ none
unfolding validate_session
create_session-after_all cs start now token csrf u s other clock late =
    elim (Option-cases (get token s'.sessions)) [
      | inl gone ↦ ground (arith, gone)
      | inr (e, found) ↦ ground (arith, found, capped e found)
    ]
  where
    s' : Service
    s' = after_all cs (create_session start token csrf u s)

    capped : IsCapped token (start + 2 * s.session_ttl) s'
    capped =
        after_all-IsCapped cs token (start + 2 * s.session_ttl)
          (create_session start token csrf u s) other
          (λ e h.
            unfold create_session in
            ground (
              arith,
              h,
              get-put token token (new_entry start csrf u s) s.sessions,
              ==_iff token token,
            ))

-- A deleted entry does not come back in the loop.
delete_where-none :
    (drops : SessionEntry → Bool) (entries m : Map Text SessionEntry) (token : Text)
    → get token m ≡ none
    → get token (delete_where drops entries m).0 ≡ none
delete_where-none drops entries m token gone =
    ground (arith, delete_where-keeps drops entries m token)

delete_where-drops :
    (drops : SessionEntry → Bool) (entries m : Map Text SessionEntry) (token : Text)
    (e : SessionEntry)
    → get token entries ≡ some e
    → drops e ≡ true
    → get token (delete_where drops entries m).0 ≡ none
unfolding delete_where get
delete_where-drops drops [] m token e h d = ground arith
delete_where-drops drops ((issued, v) ∷ entries) m token e h d = ground (
  arith,
  delete_where-drops drops entries m token e,
  delete_where-drops drops entries (remove issued m) token e,
  delete_where-none drops entries (remove issued m) token,
  get-remove issued token m,
  ==_iff issued token,
)

-- After all of a user's sessions are logged out, a token that still leads to a session leads to
-- one of another user that it led to before.
pub logout_all_for_user-get :
    (user : ℕ) (token : Text) (s : Service) (e : SessionEntry)
    → get token (logout_all_for_user user s).0.sessions ≡ some e
    → (e.user_id ≢ user) × (get token s.sessions ≡ some e)
unfolding logout_all_for_user
logout_all_for_user-get user token s e found =
    let was : get token s.sessions ≡ some e =
      ground
        (arith, delete_where-keeps (λ e. nat_beq e.user_id user) s.sessions s.sessions token) in
    (
      (λ own. ground (
        arith,
        was,
        own,
        delete_where-drops (λ e. nat_beq e.user_id user) s.sessions s.sessions token e was,
      )),
      was,
    )
