-- ===== src/IpPool/Owners.antt =====
-- Who holds which address over any sequence of calls of the pool.
use hao_vpn.Prelude.{
  ℕ, ◌<◌, ◌≡◌, ◌≢◌, refl, ap, ◌∙◌, ◌⊎◌, inl, inr, true, false, arith, Text, text_eq, Result, ok,
  err, List, [], ◌∷◌, All, ==_iff,
}
use hao_vpn.Prelude.Map.{get-put, get-remove}
use hao_vpn.Net.{Text6, contains}
use hao_vpn.IpPool.{
  Pool, PoolError, owner, is_reserved, reserve, allocate, allocate_specific, release, no_free_ips,
}
use hao_vpn.IpPool.Cursor.{advance}
use hao_vpn.IpPool.Probe.{allocate-Probed, Probed}

pub data Call : Type 0 where
  reserves releases : Text → Call
  allocates : ℕ → Call
  allocates_specific : Text → ℕ → Call

module _ (t : Text6) where
  pub after : Call → Pool → Pool
  after (reserves ip) p = reserve t ip p
  after (releases ip) p = release ip p
  after (allocates peer) p = (allocate t peer p).0
  after (allocates_specific ip peer) p = (allocate_specific t ip peer p).0

  pub after_all : List Call → Pool → Pool
  after_all [] p = p
  after_all (c ∷ cs) p = after_all cs (after c p)

  -- A successful call of Allocate changes the owner of the one address it returns, which was free
  -- and not reserved.
  allocate-owner :
      (ip : Text) (peer : ℕ) (p : Pool) (r : Pool × Result PoolError Text)
      → Probed t 256 peer p r
      → (owner ip r.0 ≡ owner ip p)
        ⊎ ((owner ip p ≡ 0) × (is_reserved ip p ≡ false) × (owner ip r.0 ≡ peer))
  allocate-owner ip peer p (q, err e) (all, _, done) = inl (rw done)
  allocate-owner ip peer p (q, ok got) f =
      ground (arith, f.after, f.named, f.free, get-put got ip peer p.allocated, ==_iff got ip)

  specific-owner :
      (ip given : Text) (peer : ℕ) (p : Pool)
      → (owner ip (allocate_specific t given peer p).0 ≡ owner ip p)
        ⊎ ((owner ip p ≡ 0) × (is_reserved ip p ≡ false))
  unfolding allocate_specific
  specific-owner ip given peer p =
      ground (arith, get-put given ip peer p.allocated, ==_iff given ip)

  -- What one call does to the owner of one address.
  after-owner :
      (c : Call) (ip : Text) (p : Pool)
      → (owner ip (after c p) ≡ owner ip p)
        ⊎ ((c ≡ releases ip) ⊎ ((owner ip p ≡ 0) × (is_reserved ip p ≡ false)))
  unfolding after
  after-owner (reserves given) ip p = inl (unfold reserve in refl)
  after-owner (releases given) ip p =
      unfold release in ground (arith, get-remove given ip p.allocated, ==_iff given ip)
  after-owner (allocates peer) ip p =
      ground (arith, allocate-owner ip peer p (allocate t peer p) (allocate-Probed t peer p))
  after-owner (allocates_specific given peer) ip p = ground (arith, specific-owner ip given peer p)

  after-is_reserved :
      (c : Call) (ip : Text) (p : Pool)
      → is_reserved ip p ≡ true
      → is_reserved ip (after c p) ≡ true
  unfolding after
  after-is_reserved (reserves given) ip p h =
      unfold reserve in ground (arith, get-put given ip true p.reserved)
  after-is_reserved (releases given) ip p h = unfold release in h
  after-is_reserved (allocates peer) ip p h = kept (allocate t peer p) (allocate-Probed t peer p)
    where
      kept : (r : Pool × Result PoolError Text) → Probed t 256 peer p r → is_reserved ip r.0 ≡ true
      kept (q, err e) (_, _, done) = rw done h
      kept (q, ok got) f = rw f.after h
  after-is_reserved (allocates_specific given peer) ip p h =
      unfold allocate_specific in ground arith

  -- An address that a peer holds stays that peer's over any sequence of Reserve, Release, Allocate
  -- and AllocateSpecific calls that does not release it.
  pub after_all-owner :
      (cs : List Call) (ip : Text) (p : Pool)
      → 0 < owner ip p
      → All (λ c. c ≢ releases ip) cs
      → owner ip (after_all cs p) ≡ owner ip p
  unfolding after_all
  after_all-owner [] ip p held kept = refl
  after_all-owner (c ∷ cs) ip p held kept =
      let same : owner ip (after c p) ≡ owner ip p = ground (arith, after-owner c ip p) in
      after_all-owner cs ip (after c p) (omega arith) kept.1 ∙ same

  -- A reserved address that nobody holds is never given out and stays reserved over any sequence
  -- of pool calls.
  pub after_all-is_reserved :
      (cs : List Call) (ip : Text) (p : Pool)
      → is_reserved ip p ≡ true
      → owner ip p ≡ 0
      → (is_reserved ip (after_all cs p) ≡ true) × (owner ip (after_all cs p) ≡ 0)
  unfolding after_all
  after_all-is_reserved [] ip p h free = (h, free)
  after_all-is_reserved (c ∷ cs) ip p h free =
      after_all-is_reserved cs ip (after c p) (after-is_reserved c ip p h) still
    where
      still : owner ip (after c p) ≡ 0
      still = elim (after-owner c ip p) [
        | inl same ↦ same ∙ free
        | inr (inl released) ↦
            rw released
              (unfold after release in ground (arith, get-remove ip ip p.allocated, ==_iff ip ip))
        | inr (inr (_, open_)) ↦ absurd (ground arith)
      ]

  -- When the cursor and the 255 addresses behind it lie outside the network, Allocate fails even
  -- right after an address was released.
  pub allocate-release_past_network :
      (ip : Text) (peer : ℕ) (p : Pool)
      → ((j : ℕ) → j < 256 → contains p.network (advance j p.next) ≡ false)
      → (allocate t peer (release ip p)).1 ≡ err no_free_ips
  unfolding release
  allocate-release_past_network ip peer p outside =
      stuck (allocate t peer (release ip p)) (allocate-Probed t peer (release ip p))
    where
      stuck :
          (r : Pool × Result PoolError Text)
          → Probed t 256 peer (release ip p) r
          → r.1 ≡ err no_free_ips
      stuck (q, err e) (_, none_left, _) = ap err none_left
      stuck (q, ok got) f = absurd (ground (arith, f.free, outside f.steps f.in_reach))
