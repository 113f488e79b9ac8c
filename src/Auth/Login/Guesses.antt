-- ===== src/Auth/Login/Guesses.antt =====
-- Guesses from one address, any number of which may be under way at once.
pub mod Bound
use hao_vpn.Prelude.{
  ℕ, zero, suc, ◌+◌, ◌*◌, ◌≤◌, ◌<◌, ◌≡◌, refl, ap, ◌∙◌, sym, subst, ◌⊎◌, Bool, true, false, List,
  [], ◌∷◌, Option, none, some, leb, Text, text_eq, Result, ok, err, All, arith, Option-cases,
  Bool-cases, inl, inr, length, if◌then◌else◌,
}
use hao_vpn.Prelude.Map.{get, get-put_self}
use hao_vpn.Auth.{Service, User, Accounts, LockoutEntry, AuthError, bad_credentials, nanoseconds}
use hao_vpn.Auth.Lockout.{
  LockoutRealm, lockout_web, lockout_tunnel, lockout_map, is_locked, record_failure, entry,
  one_more,
}
use hao_vpn.Auth.Login.{check_credentials}

pub record Guess : Type 0 where
  pub username : Text
  pub password : Text

-- One of the two locked parts of verifyCredentials: a guess asks whether the address is locked, or
-- one of those that went past that, by its place among them, is looked at and counted.
pub data Step : Type 0 where
  asks : ℕ → Guess → Step
  ends : ℕ → ℕ → Step

abbrev pub time_of : Step → ℕ
time_of (asks now g) = now
time_of (ends now i) = now

-- The step falls into the given time.
abbrev pub IsWithin : ℕ → ℕ → Step → Type 0
IsWithin start until st = (start ≤ time_of st) × (time_of st < until)

-- The service, the guesses that went past the lock and have not ended, and how many ever did.
pub record Attack : Type 0 where
  pub service : Service
  pub under_way : List Guess
  pub let_past : ℕ

-- Takes one out of the list.
unfoldable pub pick : ℕ → List Guess → Option (Guess × List Guess)
pick i [] = none
pick zero (g ∷ gs) = some (g, gs)
pick (suc i) (g ∷ gs) = elim (pick i gs) [ none ↦ none | some (k, ks) ↦ some (k, g ∷ ks) ]

module _ (a : Accounts) where
  -- The login is not that of an enabled account with its password.
  abbrev pub IsWrong : Guess → Type 0
  IsWrong g =
      (u : User)
      → a.get_user_by_username g.username ≡ some u
      → u.enabled ≡ true
      → a.check_password u.password_hash g.password ≡ false

  abbrev pub AsksWrong : Step → Type 0
  AsksWrong (asks now g) = IsWrong g
  AsksWrong (ends now i) = Unit

  module _ (realm : LockoutRealm) (ip : Text) where
    unfoldable pub step : Step → Attack → Attack
    step (asks now g) w =
        let (s, locked) = is_locked now realm ip w.service in
        if locked
        then record w { service = s }
        else record { service = s; under_way = g ∷ w.under_way; let_past = suc w.let_past }
    step (ends now i) w = elim (pick i w.under_way) [
      | none ↦ w
      | some (g, rest) ↦ record w {
        service = (check_credentials a now realm g.username g.password ip w.service).0;
        under_way = rest;
      }
    ]

    unfoldable pub attacked : List Step → Attack → Attack
    attacked [] w = w
    attacked (st ∷ sts) w = attacked sts (step st w)

    -- The most guesses that are ever under way at once.
    unfoldable pub most_under_way : List Step → Attack → ℕ
    most_under_way [] w = length w.under_way
    most_under_way (st ∷ sts) w =
        let later = most_under_way sts (step st w) in
        if leb (length w.under_way) later then later else length w.under_way
