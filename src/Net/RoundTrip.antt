-- ===== src/Net/RoundTrip.antt =====
-- An IPv4 address that is printed and parsed again is the same address, so two addresses never
-- share a text.
use hao_vpn.Prelude.{ℕ, ◌<◌, ◌≡◌, refl, ap, ◌∙◌, List, [], ◌∷◌, ◌++◌, some, length, Text, arith}
use hao_vpn.Net.{Ip, Text6, ipv4}
use hao_vpn.Net.Print.{decimal, ip_string}
use hao_vpn.Net.Parse.{parse_fields, parse_addr, parse_ip, first_mark}

-- An octet and a dot behind it add a field.
parse_fields-decimal :
    (a : ℕ) (rest : Text) (fields : List ℕ)
    → a < 256
    → length fields < 3
    → parse_fields (decimal a ++ (b'.' ∷ rest)) 0 0 fields
      ≡ parse_fields rest 0 0 (fields ++ (a ∷ []))
unfolding decimal parse_fields
parse_fields-decimal a rest fields h l = ground arith

parse_fields-decimal_last :
    (a : ℕ) (fields : List ℕ)
    → a < 256
    → length fields ≡ 3
    → parse_fields (decimal a) 0 0 fields ≡ some (fields ++ (a ∷ []))
unfolding decimal parse_fields
parse_fields-decimal_last a fields h l = ground arith

first_mark-decimal :
    (a : ℕ) (rest : Text) → a < 256 → first_mark (decimal a ++ (b'.' ∷ rest)) ≡ b'.'
unfolding decimal
first_mark-decimal a rest h = ground arith

abbrev pub IsOctets : ℕ → ℕ → ℕ → ℕ → Type 0
IsOctets a b c d = (a < 256) × (b < 256) × (c < 256) × (d < 256)

-- The text of an IPv4 address from its second octet on, and the whole of it.
abbrev from_second : ℕ → ℕ → ℕ → Text
from_second b c d = decimal b ++ (b'.' ∷ (decimal c ++ (b'.' ∷ decimal d)))

parse_fields-octets :
    (a b c d : ℕ)
    → IsOctets a b c d
    → parse_fields (decimal a ++ (b'.' ∷ from_second b c d)) 0 0 [] ≡ some (a ∷ b ∷ c ∷ d ∷ [])
parse_fields-octets a b c d (ha, hb, hc, hd) =
    parse_fields-decimal a (from_second b c d) [] ha (omega arith)
    ∙ parse_fields-decimal b (decimal c ++ (b'.' ∷ decimal d)) (a ∷ []) hb (omega arith)
    ∙ parse_fields-decimal c (decimal d) (a ∷ b ∷ []) hc (omega arith)
    ∙ parse_fields-decimal_last d (a ∷ b ∷ c ∷ []) hd refl

-- A printed IPv4 address parses to that address, in its 16-byte form.
pub parse_ip-ip_string :
    (t : Text6) (a b c d : ℕ)
    → IsOctets a b c d
    → parse_ip t (ip_string t (a ∷ b ∷ c ∷ d ∷ [])) ≡ some (ipv4 a b c d)
unfolding parse_ip ip_string
parse_ip-ip_string t a b c d o = rw (
  first_mark-decimal a (from_second b c d) o.0,
  parse_ip,
  parse_addr,
  parse_fields-octets a b c d o,
)

-- Two IPv4 addresses with one text are one address.
pub ip_string_injective :
    (t : Text6) (a b c d a' b' c' d' : ℕ)
    → IsOctets a b c d
    → IsOctets a' b' c' d'
    → ip_string t (a ∷ b ∷ c ∷ d ∷ []) ≡ ip_string t (a' ∷ b' ∷ c' ∷ d' ∷ [])
    → ◌≡◌ {A = Ip} (a ∷ b ∷ c ∷ d ∷ []) (a' ∷ b' ∷ c' ∷ d' ∷ [])
ip_string_injective t a b c d a' b' c' d' o o' e =
    cc (parse_ip-ip_string t a b c d o, parse_ip-ip_string t a' b' c' d' o', ap (parse_ip t) e)
