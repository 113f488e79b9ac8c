-- ===== src/IpPool/Probe.antt =====
-- The linear probe of Allocate: it takes the first free address among the 256 from the cursor on,
-- and fails exactly when none of them is free.
use hao_vpn.Prelude.{
  ℕ, zero, suc, ◌<◌, ◌≡◌, refl, inl, inr, true, false, arith, Text, Result, ok, err, Bool-cases,
  text_eq,
}
use hao_vpn.Prelude.Map.{put}
use hao_vpn.Net.{Text6}
use hao_vpn.Net.Print.{ip_string}
use hao_vpn.IpPool.{Pool, is_free, allocate_loop, allocate, inc_ip, no_free_ips, PoolError}
use hao_vpn.IpPool.Cursor.{advance}

-- The pool with its cursor k addresses further on.
abbrev pub moved : ℕ → Pool → Pool
moved k p = record p { next = advance k p.next }

module _ (t : Text6) where
  -- What a successful call has found: a free address within the rounds, none before it free, and
  -- the pool afterwards.
  pub record Found (rounds peer : ℕ) (p q : Pool) (ip : Text) : Type 0 where
    pub steps : ℕ
    pub in_reach : steps < rounds
    pub earlier_taken : (j : ℕ) → j < steps → is_free t (moved j p) ≡ false
    pub free : is_free t (moved steps p) ≡ true
    pub named : ip ≡ ip_string t (advance steps p.next)
    pub after :
        q ≡ record p { allocated = put ip peer p.allocated; next = advance (suc steps) p.next }

  abbrev pub Probed : ℕ → ℕ → Pool → Pool × Result PoolError Text → Type 0
  Probed rounds peer p (q, ok ip) = Found rounds peer p q ip
  Probed rounds peer p (q, err e) =
      ((j : ℕ) → j < rounds → is_free t (moved j p) ≡ false)
      × (e ≡ no_free_ips)
      × (q ≡ moved rounds p)

  Probed-later :
      (rounds peer : ℕ) (p : Pool) (r : Pool × Result PoolError Text)
      → is_free t p ≡ false
      → Probed rounds peer (record p { next = inc_ip p.next }) r
      → Probed (suc rounds) peer p r
  unfolding advance
  Probed-later rounds peer p (q, ok ip) taken f = record {
    steps = suc f.steps;
    in_reach = omega (arith, f.in_reach);
    earlier_taken = λ j h. earlier j h;
    free = f.free;
    named = f.named;
    after = f.after;
  }
    where
      earlier : (j : ℕ) → j < suc f.steps → is_free t (moved j p) ≡ false
      earlier zero h = taken
      earlier (suc j) h = f.earlier_taken j (omega arith)
  Probed-later rounds peer p (q, err e) taken f = (all, f.1, f.2)
    where
      all : (j : ℕ) → j < suc rounds → is_free t (moved j p) ≡ false
      all zero h = taken
      all (suc j) h = f.0 j (omega arith)

  allocate_loop-Probed :
      (rounds peer : ℕ) (p : Pool) → Probed rounds peer p (allocate_loop t rounds peer p)
  unfolding allocate_loop advance
  allocate_loop-Probed zero peer p = (λ j h. absurd (omega arith), refl, refl)
  allocate_loop-Probed (suc rounds) peer p = elim (Bool-cases (is_free t p)) [
    | inl free ↦
        rw (free, allocate_loop)
          (record {
            steps = 0;
            in_reach = omega arith;
            earlier_taken = λ j h. absurd (omega arith);
            free = free;
            named = refl;
            after = refl;
          })
    | inr taken ↦
        rw (taken, allocate_loop)
          (Probed-later rounds peer p _ taken
            (allocate_loop-Probed rounds peer (record p { next = inc_ip p.next })))
  ]

  -- Allocate gives out the first free address among the 256 from the cursor on, stores its owner
  -- and moves the cursor behind it; it fails exactly when none of them is free, and then only the
  -- cursor moves.
  pub allocate-Probed : (peer : ℕ) (p : Pool) → Probed 256 peer p (allocate t peer p)
  unfolding allocate
  allocate-Probed peer p = allocate_loop-Probed 256 peer p
