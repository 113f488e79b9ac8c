-- ===== src/SafeUtil/Retry/Attempts.antt =====
-- How often RetryN calls, and what it makes of the results.
use hao_vpn.Prelude.{
  ℕ, zero, suc, ◌+◌, ◌-◌, ◌≤◌, ◌<◌, ◌≡◌, ◌∙◌, refl, sym, ap, subst, true, Option, none, some,
  is_some, Option-cases, inl, inr, ◌⊎◌, arith,
}
use hao_vpn.Prelude.Int.{ℤ}
use hao_vpn.SafeUtil.Retry.{retry_loop, retry_n, attempts_of}

-- A run of calls from `i` on, `n` in all counted from 0, that ends with the result of the last.
abbrev IsRun : {E : Type 0} → ℕ → ℕ → (ℕ → Option E) → ℕ × Option E → Type 0
IsRun i end fn (n, r) =
    (i < n)
    × (n ≤ end)
    × (r ≡ fn (n - 1))
    × (is_some r ≡ true → n ≡ end)
    × ((j : ℕ) → i ≤ j → suc j < n → is_some (fn j) ≡ true)

module _ {E : Type 0} (fn : ℕ → Option E) where
  -- One call that ends the run.
  ends-IsRun :
      (i end : ℕ) (r : Option E)
      → fn i ≡ r
      → suc i ≤ end
      → (is_some r ≡ true → suc i ≡ end)
      → IsRun i end fn (suc i, r)
  ends-IsRun i end r e le full =
      let last : suc i - 1 ≡ i = omega arith in
      (omega arith, le, sym (ap fn last ∙ e), full, λ j low high. ground (arith, low, high))

  -- A failed call before a run.
  later-IsRun :
      (i end : ℕ) (x : E) (run : ℕ × Option E)
      → fn i ≡ some x
      → IsRun (suc i) end fn run
      → IsRun i end fn run
  later-IsRun i end x (n, r) e (low, high, last, full, failed) =
      (omega (arith, low), high, last, full, earlier)
    where
      earlier : (j : ℕ) → i ≤ j → suc j < n → is_some (fn j) ≡ true
      earlier j le lt = ground (arith, e, failed j, le, lt)

  retry_loop-IsRun : (left i : ℕ) → IsRun i (i + suc left) fn (retry_loop (suc left) i fn)
  unfolding retry_loop
  retry_loop-IsRun zero i = elim (Option-cases (fn i)) [
    | inl e ↦ rw (e, retry_loop) (ends-IsRun i (i + 1) none e (omega arith) (λ h. cc))
    | inr (x, e) ↦
        rw (e, retry_loop) (ends-IsRun i (i + 1) (some x) e (omega arith) (λ h. omega arith))
  ]
  retry_loop-IsRun (suc left) i = elim (Option-cases (fn i)) [
    | inl e ↦ rw (e, retry_loop) (ends-IsRun i (i + suc (suc left)) none e (omega arith) (λ h. cc))
    | inr (x, e) ↦
        let same : suc i + suc left ≡ i + suc (suc left) = omega arith in
        let rest =
          subst (λ end. IsRun (suc i) end fn (retry_loop (suc left) (suc i) fn)) same
            (retry_loop-IsRun left (suc i)) in
        simp (e, retry_loop)
          (later-IsRun i (i + suc (suc left)) x (retry_loop (suc left) (suc i) fn) e rest)
  ]

  positive-IsRun : (n : ℕ) → 0 < n → IsRun 0 n fn (retry_loop n 0 fn)
  positive-IsRun zero h = elim h [ ]
  positive-IsRun (suc n) h =
      let same : 0 + suc n ≡ suc n = omega arith in
      subst (λ end. IsRun 0 end fn (retry_loop (suc n) 0 fn)) same (retry_loop-IsRun n 0)

given_up :
    {E : Type 0} {n end : ℕ} (r : Option E) → (is_some r ≡ true → n ≡ end) → (r ≡ none) ⊎ (n ≡ end)
given_up none h = inl refl
given_up (some e) h = inr (h refl)

attempts_of-pos : (attempts : ℤ) → 0 < attempts_of attempts
unfolding attempts_of
attempts_of-pos attempts = ground arith

-- RetryN makes at least one call and at most the number of attempts, or one if that is not
-- positive; every call before the last failed, the result is that of the last, and it is an error
-- only after all attempts.
pub retry_n-failed :
    {E : Type 0} (attempts : ℤ) (fn : ℕ → Option E) (j : ℕ)
    → suc j < (retry_n attempts fn).0
    → let (n, r) = retry_n attempts fn in
      ((0 < n) × (n ≤ attempts_of attempts))
      × (r ≡ fn (n - 1))
      × ((r ≡ none) ⊎ (n ≡ attempts_of attempts))
      × (is_some (fn j) ≡ true)
unfolding retry_n
retry_n-failed attempts fn j early =
    let run = positive-IsRun fn (attempts_of attempts) (attempts_of-pos attempts) in
    ((run.0, run.1), run.2, given_up (retry_n attempts fn).1 run.3, run.4 j (omega arith) early)
