-- ===== src/NetUtil/Lan/Bytes.antt =====
-- Private addresses byte by byte: a mask of sixteen ones or more keeps the first two bytes.
use hao_vpn.Prelude.{
  ℕ, zero, suc, ◌<◌, ◌≤◌, ◌≡◌, sym, refl, subst, Bool, true, ◌&&◌, List, [], ◌∷◌, some, arith,
  length, All, nat_beq, bit_and, drop, Option-cases, ◌-◌,
}
use hao_vpn.Net.{Ip, same_under}
use hao_vpn.Net.Mask.{masked, mask_length, byte_ones}
use hao_vpn.NetUtil.Addr.{is_rfc1918, is_private_v4}

-- Whether 255 keeps the numbers under a bound.
keeps_under : ℕ → Bool
keeps_under zero = true
keeps_under (suc top) = keeps_under top && nat_beq (bit_and top 255) top

keeps_byte : keeps_under 256 ≡ true
unfolding keeps_under
keeps_byte = refl

kept : (top b : ℕ) → b < top → keeps_under top ≡ true → bit_and b 255 ≡ b
unfolding keeps_under
kept zero b small all = absurd (omega (arith, small))
kept (suc top) b small all = ground (arith, small, all, kept top b)

bit_and_byte : (x : ℕ) → x < 256 → bit_and x 255 ≡ x
bit_and_byte x h = kept 256 x h keeps_byte

byte_ones_small : (b n : ℕ) → byte_ones b ≡ some n → n < 8
unfolding byte_ones
byte_ones_small b n h = ground (arith, h)

mask_head :
    (a ones : ℕ) (rest : List ℕ)
    → mask_length (a ∷ rest) ≡ some ones
    → 8 ≤ ones
    → (a ≡ 255) × (mask_length rest ≡ some (ones - 8))
unfolding mask_length
mask_head a ones rest h wide =
    ground (arith, h, byte_ones_small a ones, Option-cases (mask_length rest))

mask_start :
    (a b ones : ℕ) (rest : List ℕ)
    → mask_length (a ∷ b ∷ rest) ≡ some ones
    → 16 ≤ ones
    → (a ≡ 255) × (b ≡ 255)
mask_start a b ones rest h wide =
    let (first, more) = mask_head a ones (b ∷ rest) h (omega (arith, wide)) in
    (first, (mask_head b (ones - 8) rest more (omega (arith, wide))).0)

-- The four bytes of both addresses, the network's and one under its mask.
private_under :
    (a b c d x y z w m n o q ones : ℕ)
    → mask_length (m ∷ n ∷ o ∷ q ∷ []) ≡ some ones
    → 16 ≤ ones
    → a < 256
    → b < 256
    → x < 256
    → y < 256
    → is_rfc1918 (masked (a ∷ b ∷ c ∷ d ∷ []) (m ∷ n ∷ o ∷ q ∷ [])) ≡ true
    → same_under (a ∷ b ∷ c ∷ d ∷ []) (m ∷ n ∷ o ∷ q ∷ []) (x ∷ y ∷ z ∷ w ∷ []) ≡ true
    → is_private_v4 (x ∷ y ∷ z ∷ w ∷ []) ≡ true
unfolding masked is_rfc1918
private_under a b c d x y z w m n o q ones h wide la lb lx ly p s =
    let (f, g) = mask_start m n ones (o ∷ q ∷ []) h wide in
    ground (
      arith,
      p,
      s,
      f,
      g,
      bit_and_byte a la,
      bit_and_byte b lb,
      bit_and_byte x lx,
      bit_and_byte y ly,
    )

pub All-drop : (P : ℕ → Type 0) (n : ℕ) (xs : List ℕ) → All P xs → All P (drop n xs)
All-drop P zero xs h = h
All-drop P (suc n) [] h = h
All-drop P (suc n) (x ∷ xs) h = All-drop P n xs h.1

-- The four bytes of a list of length 4.
four_bytes :
    (xs : List ℕ)
    → length xs ≡ 4
    → (a : ℕ) × (b : ℕ) × (c : ℕ) × (d : ℕ) × (xs ≡ a ∷ b ∷ c ∷ d ∷ [])
four_bytes [] h = ground (arith, h)
four_bytes (a ∷ []) h = ground (arith, h)
four_bytes (a ∷ b ∷ []) h = ground (arith, h)
four_bytes (a ∷ b ∷ c ∷ []) h = ground (arith, h)
four_bytes (a ∷ b ∷ c ∷ d ∷ []) h = (a, b, c, d, refl)
four_bytes (a ∷ b ∷ c ∷ d ∷ x ∷ xs) h = ground (arith, h)

pub private_bytes :
    (v u : Ip) (mask : List ℕ) (ones : ℕ)
    → length v ≡ 4
    → length u ≡ 4
    → mask_length mask ≡ some ones
    → 16 ≤ ones
    → length mask ≡ 4
    → All (λ b. b < 256) v
    → All (λ b. b < 256) u
    → is_rfc1918 (masked v mask) ≡ true
    → same_under v mask u ≡ true
    → is_private_v4 u ≡ true
private_bytes v u mask ones lv lu h wide width bv bu p same =
    let (a, b, c, d, ev) = four_bytes v lv in
    let (x, y, z, w, eu) = four_bytes u lu in
    let (m, n, o, q, em) = four_bytes mask width in
    let bv' = subst (All (λ b. b < 256)) ev bv in
    let bu' = subst (All (λ b. b < 256)) eu bu in
    subst (λ u. is_private_v4 u ≡ true) (sym eu)
      (private_under a b c d x y z w m n o q ones (subst (λ k. mask_length k ≡ some ones) em h) wide
        bv'.0 bv'.1.0 bu'.0 bu'.1.0
        (subst (λ v. is_rfc1918 (masked v (m ∷ n ∷ o ∷ q ∷ [])) ≡ true) ev
          (subst (λ k. is_rfc1918 (masked v k) ≡ true) em p))
        (subst (λ k. same_under (a ∷ b ∷ c ∷ d ∷ []) k (x ∷ y ∷ z ∷ w ∷ []) ≡ true) em
          (subst (λ v. same_under v mask (x ∷ y ∷ z ∷ w ∷ []) ≡ true) ev
            (subst (λ u. same_under v mask u ≡ true) eu same))))
