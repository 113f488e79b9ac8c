-- ===== src/ClientGui/OpQueue/Preempts.antt =====
-- An intent that is registered while the engine restarts.
use hao_vpn.Prelude.{
  ℕ, suc, ◌+◌, ◌%◌, ◌^◌, ◌<◌, ◌≤◌, ◌≡◌, ◌≢◌, ◌∙◌, sym, subst, true, false, List, [], ◌∷◌, Option,
  arith, length, inl, inr, ◌⊎◌,
}
use hao_vpn.ClientGui.OpQueue.{Intent, is_ending, OpQueue, set_pending, should_abort}

module _ {ℓ} {C : Type ℓ} where
  -- Intents that are registered one after the other.
  unfoldable pub set_all : List (Intent × Option C) → OpQueue C → OpQueue C
  unfolding set_pending
  set_all [] q = q
  set_all ((it, creds) ∷ more) q = set_all more (set_pending it creds q).0

  -- Ending, or some registrations past the generation.
  Past : ℕ → ℕ → OpQueue C → Type 0
  Past gen n q =
      (is_ending q.pending_intent ≡ true)
      ⊎ ((k : ℕ) × (0 < k) × (k ≤ n) × (q.op_gen ≡ (gen + k) % 2 ^ 64))

  set_pending-cases :
      (it : Intent) (creds : Option C) (q : OpQueue C)
      → let r = (set_pending it creds q).0 in
        ((r.op_gen ≡ q.op_gen) × (r.pending_intent ≡ q.pending_intent))
        ⊎ ((r.op_gen ≡ (q.op_gen + 1) % 2 ^ 64)
            × ((is_ending q.pending_intent ≡ false) ⊎ (is_ending r.pending_intent ≡ true)))
  unfolding set_pending
  set_pending-cases it creds q = ground arith

  set_pending-Past :
      (gen n : ℕ) (it : Intent) (creds : Option C) (q : OpQueue C)
      → Past gen n q
      → Past gen (suc n) (set_pending it creds q).0
  unfolding Past
  set_pending-Past gen n it creds q (inl h) = inl (ground (arith, h, set_pending-cases it creds q))
  set_pending-Past gen n it creds q (inr (k, low, high, e)) = elim (set_pending-cases it creds q) [
    | inl (same, p) ↦ inr (k, low, omega (arith, high), same ∙ e)
    | inr (bumped, p) ↦ inr (suc k, omega arith, omega (arith, high), omega (arith, bumped, e))
  ]

  set_all-Past :
      (gen n : ℕ) (more : List (Intent × Option C)) (q : OpQueue C)
      → Past gen n q
      → Past gen (n + length more) (set_all more q)
  unfolding set_all
  set_all-Past gen n [] q h =
      let same : n + 0 ≡ n = omega arith in subst (λ m. Past gen m q) (sym same) h
  set_all-Past gen n ((it, creds) ∷ more) q h =
      let same : suc n + length more ≡ n + suc (length more) = omega arith in
      let q' = (set_pending it creds q).0 in
      subst (λ m. Past gen m (set_all more q')) same
        (set_all-Past gen (suc n) more q' (set_pending-Past gen n it creds q h))

  Past-should_abort :
      (gen n : ℕ) (q : OpQueue C)
      → n < 2 ^ 64
      → gen < 2 ^ 64
      → Past gen n q
      → should_abort gen q ≡ true
  unfolding should_abort Past
  Past-should_abort gen n q small g (inl h) = ground (arith, h)
  Past-should_abort gen n q small g (inr (k, low, high, e)) =
      let moved : (gen + k) % 2 ^ 64 ≢ gen = omega (arith, low, high, small, g) in
      ground (arith, e, moved)

  set_pending-first :
      (it : Intent) (creds : Option C) (q : OpQueue C)
      → (set_pending it creds q).1 ≡ true
      → let r = (set_pending it creds q).0 in
        (is_ending r.pending_intent ≡ true) ⊎ (r.op_gen ≡ (q.op_gen + 1) % 2 ^ 64)
  unfolding set_pending
  set_pending-first it creds q h = ground (arith, h)

  first-Past :
      (it : Intent) (creds : Option C) (q : OpQueue C)
      → (set_pending it creds q).1 ≡ true
      → Past q.op_gen 1 (set_pending it creds q).0
  unfolding Past
  first-Past it creds q h = elim (set_pending-first it creds q h) [
    | inl e ↦ inl e
    | inr e ↦ inr (1, omega arith, omega arith, e)
  ]

  -- An intent that is registered while the engine is busy aborts the restart that took its
  -- generation before, and goes on doing so whatever intents are registered afterwards, fewer than
  -- 2^64 of them.
  pub set_pending-should_abort :
      (it : Intent) (creds : Option C) (more : List (Intent × Option C)) (q : OpQueue C)
      → (set_pending it creds q).1 ≡ true
      → q.op_gen < 2 ^ 64
      → suc (length more) < 2 ^ 64
      → should_abort q.op_gen (set_all more (set_pending it creds q).0) ≡ true
  set_pending-should_abort it creds more q h small few =
      let q' = (set_pending it creds q).0 in
      Past-should_abort q.op_gen (1 + length more) (set_all more q') (omega (arith, few)) small
        (set_all-Past q.op_gen 1 more q' (first-Past it creds q h))
