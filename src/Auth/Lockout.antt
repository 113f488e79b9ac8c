-- ===== src/Auth/Lockout.antt =====
-- lockout.go, and PruneExpiredLockouts of session.go: failed logins per address and realm.
use hao_vpn.Prelude.{
  ℕ, suc, ◌+◌, ◌*◌, Bool, true, false, not, ◌&&◌, [], ◌∷◌, none, some, nat_beq, ltb, leb,
  if◌then◌else◌, Text, text_eq,
}
use hao_vpn.Prelude.Map.{Map, get, put, remove}
use hao_vpn.Auth.{Service, LockoutEntry, nanoseconds}

pub data LockoutRealm : Type 0 where
  lockout_web lockout_tunnel : LockoutRealm

abbrev pub lockout_map : LockoutRealm → Service → Map Text LockoutEntry
lockout_map lockout_web s = s.web_lockouts
lockout_map lockout_tunnel s = s.tunnel_lockouts

-- The service with another table for the realm: Go's map is shared, so a write goes through.
abbrev pub with_lockouts : LockoutRealm → Map Text LockoutEntry → Service → Service
with_lockouts lockout_web m s = record s { web_lockouts = m }
with_lockouts lockout_tunnel m s = record s { tunnel_lockouts = m }

unfoldable pub is_locked : ℕ → LockoutRealm → Text → Service → Service × Bool
is_locked now realm ip s = elim (get ip (lockout_map realm s)) [
  | none ↦ (s, false)
  | some e ↦
      if nat_beq e.locked_until 0
      then (s, false)
      else if ltb now e.locked_until
      then (s, true)
      else (with_lockouts realm (remove ip (lockout_map realm s)) s, false)
]

-- `m[ip]`, with the zero value for a missing key.
abbrev pub entry : Text → Map Text LockoutEntry → LockoutEntry
entry ip m = elim (get ip m) [ none ↦ record { failures = 0; locked_until = 0 } | some e ↦ e ]

-- The entry after one more failure.
abbrev pub one_more : ℕ → Service → LockoutEntry → LockoutEntry
one_more now s e = record {
  failures = suc e.failures;
  locked_until =
      if leb s.max_attempts (suc e.failures)
      then now + s.lockout_sec * nanoseconds
      else e.locked_until;
}

unfoldable pub record_failure : ℕ → LockoutRealm → Text → Service → Service
record_failure now realm ip s =
    let m = lockout_map realm s in with_lockouts realm (put ip (one_more now s (entry ip m)) m) s

unfoldable pub clear_failures : LockoutRealm → Text → Service → Service
clear_failures realm ip s = with_lockouts realm (remove ip (lockout_map realm s)) s

unfoldable pub failure_count : LockoutRealm → Text → Service → ℕ
failure_count realm ip s = (entry ip (lockout_map realm s)).failures

-- The loop over one table, whose entries are given; deleted ones go from the map itself.
unfoldable pub prune_lockouts :
    ℕ → Map Text LockoutEntry → Map Text LockoutEntry → Map Text LockoutEntry × ℕ
prune_lockouts now [] m = (m, 0)
prune_lockouts now ((ip, e) ∷ entries) m =
    let dropped = prune_lockouts now entries (remove ip m) in
    let same = prune_lockouts now entries m in
    if not (nat_beq e.locked_until 0) && ltb e.locked_until now
    then (dropped.0, suc dropped.1)
    else same

unfoldable pub prune_expired_lockouts : ℕ → Service → Service × ℕ
unfolding prune_lockouts
prune_expired_lockouts now s =
    let (web, n) = prune_lockouts now s.web_lockouts s.web_lockouts in
    let (tunnel, k) = prune_lockouts now s.tunnel_lockouts s.tunnel_lockouts in
    (record s { web_lockouts = web; tunnel_lockouts = tunnel }, n + k)
