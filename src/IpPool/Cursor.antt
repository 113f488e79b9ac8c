-- ===== src/IpPool/Cursor.antt =====
-- incIP on the four bytes of an IPv4 cursor counts modulo 2^32.
use hao_vpn.Prelude.{ℕ, zero, suc, ◌+◌, ◌*◌, ◌%◌, ◌<◌, ◌≡◌, [], ◌∷◌, arith}
use hao_vpn.Net.{Ip}
use hao_vpn.Net.RoundTrip.{IsOctets}
use hao_vpn.IpPool.{inc_ip}

-- The number that the bytes of an address write.
abbrev pub value : ℕ → ℕ → ℕ → ℕ → ℕ
value a b c d = ((a * 256 + b) * 256 + c) * 256 + d

abbrev pub value_of : Ip → ℕ
value_of (a ∷ b ∷ c ∷ d ∷ []) = value a b c d
value_of _ = 0

-- A cursor of four bytes.
abbrev pub IsV4 : Ip → Type 0
IsV4 (a ∷ b ∷ c ∷ d ∷ []) = IsOctets a b c d
IsV4 _ = ⊥

inc_ip-octets :
    (a b c d : ℕ)
    → IsOctets a b c d
    → IsV4 (inc_ip (a ∷ b ∷ c ∷ d ∷ []))
      × (value_of (inc_ip (a ∷ b ∷ c ∷ d ∷ [])) ≡ (value a b c d + 1) % 4294967296)
unfolding inc_ip
inc_ip-octets a b c d o = ground arith

-- The cursor of an IPv4 pool stays four bytes long and counts up by one, wrapping at 2^32.
pub inc_ip-value_of :
    (ip : Ip) → IsV4 ip → IsV4 (inc_ip ip) × (value_of (inc_ip ip) ≡ (value_of ip + 1) % 4294967296)
inc_ip-value_of [] h = elim h [ ]
inc_ip-value_of (a ∷ []) h = elim h [ ]
inc_ip-value_of (a ∷ b ∷ []) h = elim h [ ]
inc_ip-value_of (a ∷ b ∷ c ∷ []) h = elim h [ ]
inc_ip-value_of (a ∷ b ∷ c ∷ d ∷ []) h = inc_ip-octets a b c d h
inc_ip-value_of (a ∷ b ∷ c ∷ d ∷ e ∷ ip) h = elim h [ ]

value_of_bound : (ip : Ip) → IsV4 ip → value_of ip < 4294967296
value_of_bound [] h = elim h [ ]
value_of_bound (a ∷ []) h = elim h [ ]
value_of_bound (a ∷ b ∷ []) h = elim h [ ]
value_of_bound (a ∷ b ∷ c ∷ []) h = elim h [ ]
value_of_bound (a ∷ b ∷ c ∷ d ∷ []) (p, q, r, s) = omega arith
value_of_bound (a ∷ b ∷ c ∷ d ∷ e ∷ ip) h = elim h [ ]

-- The cursor after k rounds.
unfoldable pub advance : ℕ → Ip → Ip
advance zero ip = ip
advance (suc k) ip = advance k (inc_ip ip)

-- The cursor of an IPv4 pool stays a four-byte address, and k increments count it up by k modulo
-- 2^32.
pub advance-value_of :
    (k : ℕ) (ip : Ip)
    → IsV4 ip
    → IsV4 (advance k ip) × (value_of (advance k ip) ≡ (value_of ip + k) % 4294967296)
unfolding advance
advance-value_of zero ip h = (h, omega (arith, value_of_bound ip h))
advance-value_of (suc k) ip h =
    let (h', e) = inc_ip-value_of ip h in
    let (h'', e') = advance-value_of k (inc_ip ip) h' in (h'', omega arith)
