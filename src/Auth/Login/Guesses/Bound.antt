-- ===== src/Auth/Login/Guesses/Bound.antt =====
-- How many passwords may be tried from one address.
use hao_vpn.Prelude.{
  ℕ, zero, suc, ◌+◌, ◌*◌, ◌≤◌, ◌<◌, ◌≡◌, refl, ap, ◌∙◌, sym, subst, ◌⊎◌, true, false, List, [], ◌∷◌,
  none, some, leb, Text, text_eq, All, arith, Option-cases, Bool-cases, inl, inr, length,
}
use hao_vpn.Prelude.Map.{get, get-put_self}
use hao_vpn.Auth.{Service, Accounts, LockoutEntry, nanoseconds}
use hao_vpn.Auth.Lockout.{
  LockoutRealm, lockout_web, lockout_tunnel, lockout_map, is_locked, record_failure, entry,
  one_more,
}
use hao_vpn.Auth.Login.{check_credentials}
use hao_vpn.Auth.Login.Guesses.{
  Guess, Step, asks, ends, IsWithin, Attack, pick, IsWrong, AsksWrong, step, attacked,
  most_under_way,
}

-- A failure changes no setting, and adds one to the entry of the address.
record_failure_lem :
    (now : ℕ) (realm : LockoutRealm) (ip : Text) (s : Service)
    → let s' = record_failure now realm ip s in
      (s'.max_attempts ≡ s.max_attempts)
      × (s'.lockout_sec ≡ s.lockout_sec)
      × (get ip (lockout_map realm s') ≡ some (one_more now s (entry ip (lockout_map realm s))))
unfolding record_failure
record_failure_lem now lockout_web ip s =
    (refl, refl, get-put_self ip _ (lockout_map lockout_web s))
record_failure_lem now lockout_tunnel ip s =
    (refl, refl, get-put_self ip _ (lockout_map lockout_tunnel s))

module _ (a : Accounts) where
  module _ (realm : LockoutRealm) (ip : Text) where
    most_now : (sts : List Step) (w : Attack) → length w.under_way ≤ most_under_way a realm ip sts w
    unfolding most_under_way
    most_now [] w = omega arith
    most_now (st ∷ sts) w = ground arith

    most_later :
        (st : Step) (sts : List Step) (w : Attack)
        → most_under_way a realm ip sts (step a realm ip st w)
          ≤ most_under_way a realm ip (st ∷ sts) w
    unfolding most_under_way
    most_later st sts w = ground arith

    check_wrong :
        (now : ℕ) (g : Guess) (s : Service)
        → IsWrong a g
        → (check_credentials a now realm g.username g.password ip s).0
          ≡ record_failure now realm ip s
    unfolding check_credentials
    check_wrong now g s wrong = elim (Option-cases (a.get_user_by_username g.username)) [
      | inl e ↦ ground (arith, e)
      | inr (u, e) ↦ elim (Bool-cases u.enabled) [
        | inl on ↦ ground (arith, e, on, wrong u e on)
        | inr off ↦ ground (arith, e, off)
      ]
    ]

    is_locked_open :
        (now : ℕ) (s : Service)
        → (entry ip (lockout_map realm s)).locked_until ≡ 0
        → is_locked now realm ip s ≡ (s, false)
    unfolding is_locked
    is_locked_open now s h = ground arith

    is_locked_shut :
        (now : ℕ) (s : Service) (e : LockoutEntry)
        → get ip (lockout_map realm s) ≡ some e
        → now < e.locked_until
        → is_locked now realm ip s ≡ (s, true)
    unfolding is_locked
    is_locked_shut now s e found before = ground (arith, found)

    -- A guess and the others are wrong, and together as many as all.
    abbrev Parted : List Guess → Guess × List Guess → Type 0
    Parted gs r = IsWrong a r.0 × All (IsWrong a) r.1 × (length gs ≡ suc (length r.1))

    pick-Parted :
        (i : ℕ) (gs : List Guess) (r : Guess × List Guess)
        → pick i gs ≡ some r
        → All (IsWrong a) gs
        → Parted gs r
    unfolding pick
    pick-Parted i [] r h w = absurd (ground (arith, h))
    pick-Parted zero (k ∷ gs) r h w =
        let same : (k, gs) ≡ r = ground (arith, h) in subst (Parted (k ∷ gs)) same (w.0, w.1, refl)
    pick-Parted (suc i) (k ∷ gs) r h w = elim (Option-cases (pick i gs)) [
      | inl e ↦ absurd (ground (arith, h, e))
      | inr (j, e) ↦
          let (one, others, count) = pick-Parted i gs j e w.1 in
          let same : (j.0, k ∷ j.1) ≡ r = ground (arith, h, e) in
          subst (Parted (k ∷ gs)) same (one, (w.0, others), ap suc count)
    ]

    -- A guess that ends counts as one failure more.
    record Ended (now : ℕ) (w w' : Attack) : Type 0 where
      service : w'.service ≡ record_failure now realm ip w.service
      wrong : All (IsWrong a) w'.under_way
      fewer : length w.under_way ≡ suc (length w'.under_way)
      as_many : w'.let_past ≡ w.let_past

    end_branch :
        (now i : ℕ) (w : Attack)
        → All (IsWrong a) w.under_way
        → (step a realm ip (ends now i) w ≡ w) ⊎ Ended now w (step a realm ip (ends now i) w)
    unfolding step
    end_branch now i w wrong = elim (Option-cases (pick i w.under_way)) [
      | inl e ↦ inl (ground (arith, e))
      | inr ((g, rest), e) ↦
          let (one, others, count) = pick-Parted i w.under_way (g, rest) e wrong in
          let s' = (check_credentials a now realm g.username g.password ip w.service).0 in
          let after : step a realm ip (ends now i) w ≡ record w { service = s'; under_way = rest } =
            ground (arith, e) in
          inr (
            subst (Ended now w) (sym after) (record {
              service = check_wrong now g w.service one;
              wrong = others;
              fewer = count;
              as_many = refl;
            }))
    ]

    module _ (start until : ℕ) where
      -- The address is locked, and every further failure locks it again.
      record Shut (w : Attack) : Type 0 where
        entry_of : LockoutEntry
        found : get ip (lockout_map realm w.service) ≡ some entry_of
        long : until ≤ entry_of.locked_until
        many : w.service.max_attempts ≤ entry_of.failures
        period : until ≤ start + w.service.lockout_sec * nanoseconds
        wrong : All (IsWrong a) w.under_way

      failed-Shut :
          (now : ℕ) (w w' : Attack) (e : LockoutEntry)
          → Ended now w w'
          → entry ip (lockout_map realm w.service) ≡ e
          → w.service.max_attempts ≤ suc e.failures
          → until ≤ start + w.service.lockout_sec * nanoseconds
          → start ≤ now
          → Shut w'
      failed-Shut now w w' e f same many period since =
          let (attempts, sec, found) = record_failure_lem now realm ip w.service in
          let attempts' = ap (λ (s : Service). s.max_attempts) f.service ∙ attempts in
          let sec' = ap (λ (s : Service). s.lockout_sec) f.service ∙ sec in
          record {
            entry_of = one_more now w.service (entry ip (lockout_map realm w.service));
            found = ap (λ s. get ip (lockout_map realm s)) f.service ∙ found;
            long = ground (arith, same, many, period, since);
            many = ground (arith, same, many, attempts');
            period = ground (arith, sec', period);
            wrong = f.wrong;
          }

      let_past-Shut :
          (sts : List Step) (w : Attack)
          → Shut w
          → All (IsWithin start until) sts
          → (attacked a realm ip sts w).let_past ≡ w.let_past
      unfolding attacked
      let_past-Shut [] w shut within = refl
      let_past-Shut (asks now g ∷ sts) w shut within =
          let locked : is_locked now realm ip w.service ≡ (w.service, true) =
            is_locked_shut now w.service shut.entry_of shut.found
              (omega (arith, shut.long, within.0)) in
          let same : step a realm ip (asks now g) w ≡ w = unfold step in ground (arith, locked) in
          ap (λ (v : Attack). (attacked a realm ip sts v).let_past) same
          ∙ let_past-Shut sts w shut within.1
      let_past-Shut (ends now i ∷ sts) w shut within = elim (end_branch now i w shut.wrong) [
        | inl same ↦
            ap (λ (v : Attack). (attacked a realm ip sts v).let_past) same
            ∙ let_past-Shut sts w shut within.1
        | inr f ↦
            let w' = step a realm ip (ends now i) w in
            let shut' : Shut w' =
              failed-Shut now w w' shut.entry_of f (ground (arith, shut.found))
                (omega (arith, shut.many)) shut.period (within.0).0 in
            let_past-Shut sts w' shut' within.1 ∙ f.as_many
      ]

      -- Not locked yet: whoever was let past has failed or is under way.
      record Open (limit : ℕ) (w : Attack) : Type 0 where
        entry_of : LockoutEntry
        found : entry ip (lockout_map realm w.service) ≡ entry_of
        unlocked : entry_of.locked_until ≡ 0
        few : entry_of.failures < limit
        attempts : w.service.max_attempts ≡ limit
        counted : w.let_past ≤ entry_of.failures + length w.under_way
        period : until ≤ start + w.service.lockout_sec * nanoseconds
        wrong : All (IsWrong a) w.under_way

      asked-Open :
          (limit now : ℕ) (g : Guess) (w : Attack)
          → Open limit w
          → IsWrong a g
          → Open limit (step a realm ip (asks now g) w)
      asked-Open limit now g w o wrong =
          let free : is_locked now realm ip w.service ≡ (w.service, false) =
            is_locked_open now w.service
              (ap (λ (e : LockoutEntry). e.locked_until) o.found ∙ o.unlocked) in
          let after : step a realm ip (asks now g) w
              ≡ record w { under_way = g ∷ w.under_way; let_past = suc w.let_past } =
            unfold step in ground (arith, free) in
          subst (Open limit) (sym after) (record {
            entry_of = o.entry_of;
            found = o.found;
            unlocked = o.unlocked;
            few = o.few;
            attempts = o.attempts;
            counted = omega (arith, o.counted);
            period = o.period;
            wrong = (wrong, o.wrong);
          })

      failed-Open :
          (limit now : ℕ) (w w' : Attack)
          → Ended now w w'
          → (o : Open limit w) → suc (Open.entry_of o).failures < limit
          → Open limit w'
      failed-Open limit now w w' f o more =
          let (attempts, sec, found) = record_failure_lem now realm ip w.service in
          let found' = ap (λ s. get ip (lockout_map realm s)) f.service ∙ found in
          record {
            entry_of = one_more now w.service o.entry_of;
            found = ground (arith, found', o.found);
            unlocked = ground (arith, o.unlocked, o.attempts, more);
            few = more;
            attempts = ap (λ (s : Service). s.max_attempts) f.service ∙ attempts ∙ o.attempts;
            counted = omega (arith, o.counted, f.fewer, f.as_many);
            period = ground (arith, o.period, ap (λ (s : Service). s.lockout_sec) f.service ∙ sec);
            wrong = f.wrong;
          }

      let_past-Open :
          (sts : List Step) (limit : ℕ) (w : Attack)
          → Open limit w
          → All (AsksWrong a) sts
          → All (IsWithin start until) sts
          → suc (attacked a realm ip sts w).let_past ≤ limit + most_under_way a realm ip sts w
      unfolding attacked
      let_past-Open [] limit w o wrong within = omega (arith, o.counted, o.few, most_now [] w)
      let_past-Open (asks now g ∷ sts) limit w o wrong within = omega (
        arith,
        let_past-Open sts limit (step a realm ip (asks now g) w)
            (asked-Open limit now g w o wrong.0) wrong.1 within.1,
        most_later (asks now g) sts w,
      )
      let_past-Open (ends now i ∷ sts) limit w o wrong within =
          let w' = step a realm ip (ends now i) w in
          let later = most_later (ends now i) sts w in
          elim (end_branch now i w o.wrong) [
            | inl same ↦
                let o' : Open limit w' = subst (Open limit) (sym same) o in
                omega (arith, later, let_past-Open sts limit w' o' wrong.1 within.1)
            | inr f ↦ elim (Bool-cases (leb limit (suc o.entry_of.failures))) [
              | inl last ↦
                  let shut : Shut w' =
                    failed-Shut now w w' o.entry_of f o.found (ground (arith, last, o.attempts))
                      o.period (within.0).0 in
                  omega (
                    arith,
                    let_past-Shut sts w' shut within.1,
                    f.as_many,
                    o.counted,
                    o.few,
                    most_now (ends now i ∷ sts) w,
                  )
              | inr more ↦
                  let o' = failed-Open limit now w w' f o (ground (arith, more)) in
                  omega (arith, later, let_past-Open sts limit w' o' wrong.1 within.1)
            ]
          ]

  -- Among wrong guesses from one address in one realm within one lockout period, whose two locked
  -- parts may interleave in any way, fewer get past the test of the lock than the configured
  -- number of attempts and the most guesses that are under way at once together, if the address
  -- had no failures before and that number is positive.
  pub attacked-let_past :
      (realm : LockoutRealm) (ip : Text) (sts : List Step) (start : ℕ) (s : Service)
      → get ip (lockout_map realm s) ≡ none
      → 0 < s.max_attempts
      → All (AsksWrong a) sts
      → All (IsWithin start (start + s.lockout_sec * nanoseconds)) sts
      → let w : Attack = record { service = s; under_way = []; let_past = 0 } in
        suc (attacked a realm ip sts w).let_past ≤ s.max_attempts + most_under_way a realm ip sts w
  attacked-let_past realm ip sts start s clean some_ wrong within =
      let_past-Open realm ip start (start + s.lockout_sec * nanoseconds) sts s.max_attempts
        (record { service = s; under_way = []; let_past = 0 })
        (record {
          entry_of = record { failures = 0; locked_until = 0 };
          found = ground (arith, clean);
          unlocked = refl;
          few = some_;
          attempts = refl;
          counted = omega arith;
          period = omega arith;
          wrong = tt;
        })
        wrong within
