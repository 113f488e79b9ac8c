-- ===== src/Net/Mask.antt =====
-- Masks: net.CIDRMask, IP.Mask, IPMask.Size.
use hao_vpn.Prelude.{
  ℕ, zero, suc, ◌+◌, ◌-◌, ◌^◌, Bool, true, ◌&&◌, List, [], ◌∷◌, Option, none, some, nat_beq, ltb,
  if◌then◌else◌, bit_and,
}

-- `bytes` mask bytes of which the first `ones` bits are set (CIDRMask after its range check).
unfoldable pub cidr_mask : ℕ → ℕ → List ℕ
cidr_mask zero ones = []
cidr_mask (suc bytes) ones =
    (if ltb ones 8 then 256 - 2 ^ (8 - ones) else 255) ∷ cidr_mask bytes (ones - 8)

-- IP.Mask for an address and a mask of one length.
unfoldable pub masked : List ℕ → List ℕ → List ℕ
masked (b ∷ ip) (m ∷ mask) = bit_and b m ∷ masked ip mask
masked _ _ = []

-- The leading ones of a byte if it is a run of ones and then zeros (a byte of simpleMaskLength).
unfoldable pub byte_ones : ℕ → Option ℕ
byte_ones b =
    if nat_beq b 0
    then some 0
    else if nat_beq b 128
    then some 1
    else if nat_beq b 192
    then some 2
    else if nat_beq b 224
    then some 3
    else if nat_beq b 240
    then some 4
    else if nat_beq b 248
    then some 5
    else if nat_beq b 252
    then some 6
    else if nat_beq b 254
    then some 7
    else none

all_zero : List ℕ → Bool
all_zero [] = true
all_zero (b ∷ bs) = nat_beq b 0 && all_zero bs

-- simpleMaskLength; none is -1.
unfoldable pub mask_length : List ℕ → Option ℕ
unfolding byte_ones all_zero
mask_length [] = some 0
mask_length (b ∷ bs) =
    let more = mask_length bs in
    if nat_beq b 255
    then elim more [ none ↦ none | some n ↦ some (8 + n) ]
    else if all_zero bs
    then byte_ones b
    else none
