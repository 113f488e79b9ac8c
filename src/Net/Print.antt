-- ===== src/Net/Print.antt =====
-- Printing: IP.String and IPNet.String.
use hao_vpn.Prelude.{
  ℕ, ◌+◌, ◌/◌, ◌%◌, List, [], ◌∷◌, ◌++◌, none, some, length, Text, nat_beq, ltb, if◌then◌else◌,
  codes,
}
use hao_vpn.Net.{Ip, IpNet, Text6, to4, network_number_and_mask}
use hao_vpn.Net.Mask.{mask_length}

-- A number below 1000 in decimal.
unfoldable pub decimal : ℕ → Text
decimal n =
    if ltb n 10
    then (48 + n) ∷ []
    else if ltb n 100
    then (48 + n / 10) ∷ (48 + n % 10) ∷ []
    else (48 + n / 100) ∷ (48 + n / 10 % 10) ∷ (48 + n % 10) ∷ []

unfoldable pub dotted : Ip → Text
unfolding decimal
dotted [] = []
dotted (a ∷ []) = decimal a
dotted (a ∷ b ∷ rest) = decimal a ++ (b'.' ∷ dotted (b ∷ rest))

abbrev hex_digit : ℕ → ℕ
hex_digit n = if ltb n 10 then 48 + n else 87 + n

unfoldable pub hex : List ℕ → Text
hex [] = []
hex (b ∷ bs) = hex_digit (b / 16) ∷ hex_digit (b % 16) ∷ hex bs

-- IP.String
unfoldable pub ip_string : Text6 → Ip → Text
unfolding dotted hex to4
ip_string t ip = elim (to4 ip) [
  | x ∷ xs ↦ dotted (x ∷ xs)
  | [] ↦
      if nat_beq (length ip) 0
      then codes "<nil>"
      else if nat_beq (length ip) 16
      then t.show6 ip
      else b'?' ∷ hex ip
]

-- IPNet.String
unfoldable pub net_string : Text6 → IpNet → Text
unfolding ip_string network_number_and_mask mask_length hex
net_string t n = elim (network_number_and_mask n) [
  | none ↦ codes "<nil>"
  | some (nn, m) ↦ elim (mask_length m) [
    | none ↦ ip_string t nn ++ (b'/' ∷ hex m)
    | some l ↦ ip_string t nn ++ (b'/' ∷ decimal l)
  ]
]
