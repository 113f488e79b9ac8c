-- ===== src/SafeUtil/Throttle.antt =====
-- internal/safeutil/throttle.go. `last` is the time of the last pass in nanoseconds, 0 if none; a
-- call is one atomic step, so its compare-and-swap succeeds. A nil `last` is `none`.
use hao_vpn.Prelude.{
  ℕ, ◌+◌, ◌≤◌, ◌<◌, Bool, true, false, ◌&&◌, not, List, [], ◌∷◌, nat_beq, ltb, if◌then◌else◌, arith,
  All,
}

-- Whether the call passes, and the new `last`.
unfoldable pub allow_every : ℕ → ℕ → ℕ → Bool × ℕ
allow_every now d last =
    if ltb 0 d && (not (nat_beq last 0) && ltb now (last + d)) then (false, last) else (true, now)

-- A run of calls at the given times: the times that pass.
unfoldable pub passes : ℕ → ℕ → List ℕ → List ℕ
unfolding allow_every
passes d last [] = []
passes d last (now ∷ times) =
    let (pass, last') = allow_every now d last in
    let rest = passes d last' times in if pass then now ∷ rest else rest

-- Successive times that lie at least d apart, the first d after `last`.
abbrev pub IsSpaced : ℕ → ℕ → List ℕ → Type 0
IsSpaced d last [] = Unit {0}
IsSpaced d last (now ∷ times) = (last + d ≤ now) × IsSpaced d now times

-- With a positive interval and a positive clock, the calls that AllowEvery lets pass are that
-- interval apart from each other and from the last pass before them.
pub passes-IsSpaced :
    (d last : ℕ) (times : List ℕ)
    → 0 < d
    → 0 < last
    → All (λ now. 0 < now) times
    → IsSpaced d last (passes d last times)
unfolding passes
passes-IsSpaced d last [] hd hl clock = tt
passes-IsSpaced d last (now ∷ times) hd hl clock = ground (
  arith,
  passes-IsSpaced d last times hd hl clock.1,
  passes-IsSpaced d now times hd clock.0 clock.1,
)
