-- ===== src/Examples/Addresses.antt =====
-- The address pool of 10.88.0.0/24, and rules that match addresses.
use hao_vpn.Prelude.{ℕ, zero, suc, ◌+◌, ◌<◌, ◌≡◌, true, false, [], ◌∷◌, err, arith, codes, text_eq}
use hao_vpn.Prelude.Map.{get}
use hao_vpn.Net.{contains}
use hao_vpn.IpPool.{Pool, allocate, release, owner, no_free_ips, inc_ip}
use hao_vpn.IpPool.Cursor.{advance}
use hao_vpn.IpPool.Probe.{Probed, allocate-Probed}
use hao_vpn.IpPool.Owners.{
  allocates, allocates_specific, after_all, after_all-owner, allocate-release_past_network,
}
use hao_vpn.Examples.Data.{no_text6, vpn_net}

-- The pool after the gateway was reserved and one address was handed out.
abbrev one_out : Pool
one_out = record {
  network = vpn_net;
  reserved = (codes "10.88.0.1", true) ∷ [];
  allocated = (codes "10.88.0.2", 5) ∷ [];
  next = 10 ∷ 88 ∷ 0 ∷ 3 ∷ [];
}

allocate-Probed_example : Probed no_text6 256 9 one_out (allocate no_text6 9 one_out)
allocate-Probed_example = allocate-Probed no_text6 9 one_out

-- Another peer asks for the address by name, and for any address.
after_all-owner_example :
    owner
      (codes "10.88.0.2")
      (after_all no_text6 (allocates_specific (codes "10.88.0.2") 6 ∷ allocates 6 ∷ []) one_out)
    ≡ 5
unfolding get
after_all-owner_example =
    after_all-owner no_text6 (allocates_specific (codes "10.88.0.2") 6 ∷ allocates 6 ∷ [])
      (codes "10.88.0.2") one_out (omega arith) (ground arith, (ground arith, tt))

-- The pool with its cursor behind the last address of the network.
abbrev run_through : Pool
run_through = record one_out { next = 10 ∷ 88 ∷ 1 ∷ 0 ∷ [] }

advance_last_byte :
    (j b : ℕ) → b + j < 256 → advance j (10 ∷ 88 ∷ 1 ∷ b ∷ []) ≡ 10 ∷ 88 ∷ 1 ∷ (b + j) ∷ []
unfolding advance inc_ip
advance_last_byte zero b h = ground arith
advance_last_byte (suc j) b h = ground (arith, advance_last_byte j (b + 1))

outside : (j : ℕ) → j < 256 → contains vpn_net (advance j (10 ∷ 88 ∷ 1 ∷ 0 ∷ [])) ≡ false
unfolding contains
outside j h = rw (advance_last_byte j 0 (omega (arith, h)))

allocate-release_past_network_example :
    (allocate no_text6 9 (release (codes "10.88.0.2") run_through)).1 ≡ err no_free_ips
allocate-release_past_network_example =
    allocate-release_past_network no_text6 (codes "10.88.0.2") 9 run_through outside
