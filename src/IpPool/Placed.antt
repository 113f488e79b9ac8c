-- ===== src/IpPool/Placed.antt =====
-- What one call of the pool does, address by address.
use hao_vpn.Prelude.{
  ℕ, ◌≡◌, ◌≢◌, refl, ap, ◌∙◌, ◌⊎◌, inl, inr, false, arith, Text, text_eq, Result, ok, err, ==_iff,
  Option-cases, if◌then◌else◌, ◌==◌,
}
use hao_vpn.Prelude.Map.{put, get-put, get-remove}
use hao_vpn.Net.{Text6}
use hao_vpn.Net.Parse.{parse_ip}
use hao_vpn.IpPool.{
  Pool, PoolError, owner, is_reserved, allocate, allocate_specific, release, no_free_ips,
  not_in_pool, already_allocated,
}
use hao_vpn.IpPool.Probe.{allocate-Probed, Probed}

-- The pool q is p with the address given to a peer, to whom it was open.
pub record Placed (ip : Text) (peer : ℕ) (p q : Pool) : Type 0 where
  pub is_owner : owner ip q ≡ peer
  pub was_open : (owner ip p ≡ 0) ⊎ (owner ip p ≡ peer)
  pub not_reserved : is_reserved ip p ≡ false
  pub elsewhere : (o : Text) → ip ≢ o → owner o q ≡ owner o p

module _ (t : Text6) where
  Probed-Placed :
      (peer : ℕ) (p : Pool) (r : Pool × Result PoolError Text)
      → Probed t 256 peer p r
      → ((ip : Text) × (r.1 ≡ ok ip) × Placed ip peer p r.0)
        ⊎ ((r.1 ≡ err no_free_ips) × ((o : Text) → owner o r.0 ≡ owner o p))
  Probed-Placed peer p (q, err e) (all, none_left, same) =
      inr (ap err none_left, λ o. ap (owner o) same)
  Probed-Placed peer p (q, ok ip) f = inl (
    ip,
    refl,
    record {
      is_owner = ground (arith, f.after, get-put ip ip peer p.allocated, ==_iff ip ip);
      was_open = inl (ground (arith, f.named, f.free));
      not_reserved = ground (arith, f.named, f.free);
      elsewhere =
          λ o other. ground (arith, other, f.after, get-put ip o peer p.allocated, ==_iff ip o);
    },
  )

  pub allocate-Placed :
      (peer : ℕ) (p : Pool)
      → ((ip : Text) × ((allocate t peer p).1 ≡ ok ip) × Placed ip peer p (allocate t peer p).0)
        ⊎ (((allocate t peer p).1 ≡ err no_free_ips)
            × ((o : Text) → owner o (allocate t peer p).0 ≡ owner o p))
  allocate-Placed peer p = Probed-Placed peer p (allocate t peer p) (allocate-Probed t peer p)

  specific-cases :
      (ip : Text) (peer : ℕ) (p : Pool)
      → ((allocate_specific t ip peer p ≡ (record p { allocated = put ip peer p.allocated }, ok tt))
          × ((owner ip p ≡ 0) ⊎ (owner ip p ≡ peer))
          × (is_reserved ip p ≡ false))
        ⊎ ((allocate_specific t ip peer p ≡ (p, err (not_in_pool ip)))
            ⊎ (allocate_specific t ip peer p ≡ (p, err (already_allocated ip))))
  unfolding allocate_specific
  specific-cases ip peer p = ground (arith, Option-cases (parse_ip t ip))

  pub allocate_specific-Placed :
      (ip : Text) (peer : ℕ) (p : Pool)
      → (((allocate_specific t ip peer p).1 ≡ ok tt)
          × Placed ip peer p (allocate_specific t ip peer p).0)
        ⊎ ((e : PoolError) × (allocate_specific t ip peer p ≡ (p, err e)))
  allocate_specific-Placed ip peer p = elim (specific-cases ip peer p) [
    | inl (e, open_, free) ↦ inl (
      ap (λ r. r.1) e,
      record {
        is_owner =
            ap (λ r. owner ip r.0) e ∙ ground (arith, get-put ip ip peer p.allocated, ==_iff ip ip);
        was_open = open_;
        not_reserved = free;
        elsewhere = λ o other.
            ap (λ r. owner o r.0) e
            ∙ ground (arith, other, get-put ip o peer p.allocated, ==_iff ip o);
      },
    )
    | inr (inl e) ↦ inr (not_in_pool ip, e)
    | inr (inr e) ↦ inr (already_allocated ip, e)
  ]

pub release-owner :
    (ip o : Text) (p : Pool) → owner o (release ip p) ≡ (if ip == o then 0 else owner o p)
unfolding release
release-owner ip o p = ground (arith, get-remove ip o p.allocated, ==_iff ip o)
