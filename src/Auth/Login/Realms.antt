-- ===== src/Auth/Login/Realms.antt =====
-- The two realms and the addresses do not lock each other out.
use hao_vpn.Prelude.{
  ℕ, ◌≡◌, ◌≢◌, refl, Option, Text, text_eq, arith, ◌⊎◌, inl, inr, ==_iff, Bool-cases, ◌∙◌,
}
use hao_vpn.Prelude.Map.{Map, get, remove, get-put, get-remove}
use hao_vpn.Auth.{Service, Accounts, LockoutEntry}
use hao_vpn.Auth.Lockout.{
  LockoutRealm, lockout_web, lockout_tunnel, lockout_map, with_lockouts, is_locked, record_failure,
  entry, one_more,
}
use hao_vpn.Auth.Login.{verify_credentials}

-- What the lock tables say of an address in a realm.
abbrev pub looked_up : LockoutRealm → Text → Service → Option LockoutEntry
looked_up realm ip s = get ip (lockout_map realm s)

-- The service differs at most in the entry of the address in the realm.
abbrev IsElsewhereSame : LockoutRealm → Text → Service → Service → Type 0
IsElsewhereSame realm ip s s' =
    (s'.sessions ≡ s.sessions)
    × ((other : LockoutRealm) (ip' : Text)
        → (realm ≢ other) ⊎ (ip ≢ ip')
        → looked_up other ip' s' ≡ looked_up other ip' s)

with_lockouts-elsewhere :
    (realm : LockoutRealm) (ip : Text) (m : Map Text LockoutEntry) (s : Service)
    → ((ip' : Text) → ip ≢ ip' → get ip' m ≡ get ip' (lockout_map realm s))
    → IsElsewhereSame realm ip s (with_lockouts realm m s)
with_lockouts-elsewhere lockout_web ip m s same = (refl, others)
  where
    others :
        (other : LockoutRealm) (ip' : Text)
        → (lockout_web ≢ other) ⊎ (ip ≢ ip')
        → looked_up other ip' (with_lockouts lockout_web m s) ≡ looked_up other ip' s
    others lockout_tunnel ip' h = refl
    others lockout_web ip' (inl h) = absurd (h refl)
    others lockout_web ip' (inr h) = same ip' h
with_lockouts-elsewhere lockout_tunnel ip m s same = (refl, others)
  where
    others :
        (other : LockoutRealm) (ip' : Text)
        → (lockout_tunnel ≢ other) ⊎ (ip ≢ ip')
        → looked_up other ip' (with_lockouts lockout_tunnel m s) ≡ looked_up other ip' s
    others lockout_web ip' h = refl
    others lockout_tunnel ip' (inl h) = absurd (h refl)
    others lockout_tunnel ip' (inr h) = same ip' h

module _ (realm : LockoutRealm) (ip : Text) where
  removed :
      (s : Service)
      → IsElsewhereSame realm ip s (with_lockouts realm (remove ip (lockout_map realm s)) s)
  removed s =
      with_lockouts-elsewhere realm ip _ s
        (λ ip' h. ground (arith, get-remove ip ip' (lockout_map realm s), ==_iff ip ip'))

  record_failure-elsewhere :
      (now : ℕ) (s : Service) → IsElsewhereSame realm ip s (record_failure now realm ip s)
  unfolding record_failure
  record_failure-elsewhere now s = with_lockouts-elsewhere realm ip _ s (λ ip' h. ground (
    arith,
    get-put ip ip' (one_more now s (entry ip (lockout_map realm s))) (lockout_map realm s),
    ==_iff ip ip',
  ))

  is_locked_outcome :
      (now : ℕ) (s : Service)
      → ((is_locked now realm ip s).0 ≡ s)
        ⊎ ((is_locked now realm ip s).0 ≡ with_lockouts realm (remove ip (lockout_map realm s)) s)
  unfolding is_locked
  is_locked_outcome now s = ground arith

  is_locked-elsewhere :
      (now : ℕ) (s : Service) → IsElsewhereSame realm ip s (is_locked now realm ip s).0
  is_locked-elsewhere now s = elim (is_locked_outcome now s) [
    | inl e ↦ rw e (refl, λ other ip' h. refl)
    | inr e ↦ rw e (removed s)
  ]

  then_same :
      (s s' s'' : Service)
      → IsElsewhereSame realm ip s s'
      → IsElsewhereSame realm ip s' s''
      → IsElsewhereSame realm ip s s''
  then_same s s' s'' (p, q) (p', q') = (p' ∙ p, λ other ip' h. q' other ip' h ∙ q other ip' h)

  -- What an attempt leaves: the lock looked up, and then a failure more, or none at all.
  outcome :
      (a : Accounts) (now : ℕ) (username password : Text) (s : Service)
      → let s' = (verify_credentials a now now (λ k. k) realm username password ip s).0 in
        let s1 = (is_locked now realm ip s).0 in
        (s' ≡ s1)
        ⊎ ((s' ≡ record_failure now realm ip s1)
            ⊎ (s' ≡ with_lockouts realm (remove ip (lockout_map realm s1)) s1))
  unfolding verify_credentials is_locked
  outcome a now username password s = elim (Bool-cases (is_locked now realm ip s).1) [
    | inl e ↦ inl (ground (arith, e))
    | inr e ↦ inr (ground (arith, e))
  ]

  -- A login attempt changes no web session, no lock of the other realm, and no lock of another
  -- address.
  pub verify_credentials-elsewhere :
      (a : Accounts) (now : ℕ) (username password : Text) (s : Service)
      → let s' = (verify_credentials a now now (λ k. k) realm username password ip s).0 in
        (s'.sessions ≡ s.sessions)
        × ((other : LockoutRealm) (ip' : Text)
            → (realm ≢ other) ⊎ (ip ≢ ip')
            → get ip' (lockout_map other s') ≡ get ip' (lockout_map other s))
  verify_credentials-elsewhere a now username password s =
      elim (outcome a now username password s) [
        | inl e ↦ rw e (is_locked-elsewhere now s)
        | inr (inl e) ↦
            rw e (then_same s s1 _ (is_locked-elsewhere now s) (record_failure-elsewhere now s1))
        | inr (inr e) ↦ rw e (then_same s s1 _ (is_locked-elsewhere now s) (removed s1))
      ]
    where
      s1 : Service
      s1 = (is_locked now realm ip s).0
