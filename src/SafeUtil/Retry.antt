-- ===== src/SafeUtil/Retry.antt =====
-- internal/safeutil/retry.go. Durations are integers; the waiting itself is left out.
pub mod Attempts
use hao_vpn.Prelude.{
  ℕ, zero, suc, ◌+◌, ◌-◌, ◌*◌, ◌≤◌, ◌≡◌, Bool, true, false, List, [], ◌∷◌, Option, none, some,
  Result, ok, err, ltb, leb, if◌then◌else◌,
}
use hao_vpn.Prelude.Int.{ℤ, pos, pos_part, leb_ℤ, ltb_ℤ, ◌*ℤ◌}

-- ExpBackoff
unfoldable pub exp_backoff : ℤ → ℤ → ℤ
exp_backoff current max =
    let next = current *ℤ pos 2 in
    if leb_ℤ current (pos 0)
    then (if ltb_ℤ (pos 0) max then max else pos 1000000000)
    else if ltb_ℤ (pos 0) max
    then (if ltb_ℤ max next then max else next)
    else next

-- The loop of RetryN over what `fn` returns at each call (`none` is success), from call `i` on: the
-- number of calls, and the last error.
unfoldable pub retry_loop : {E : Type 0} → ℕ → ℕ → (ℕ → Option E) → ℕ × Option E
retry_loop zero i fn = (i, none)
retry_loop (suc left) i fn =
    let rest = retry_loop left (suc i) fn in
    elim (fn i) [
      | none ↦ (suc i, none)
      | some e ↦ elim left [ zero ↦ (suc i, some e) | suc n ↦ rest ]
    ]

unfoldable pub attempts_of : ℤ → ℕ
attempts_of n = if leb_ℤ n (pos 0) then 1 else pos_part n

-- RetryN: the calls made, and the error that it wraps.
unfoldable pub retry_n : {E : Type 0} → ℤ → (ℕ → Option E) → ℕ × Option E
unfolding retry_loop attempts_of
retry_n attempts fn = retry_loop (attempts_of attempts) 0 fn
