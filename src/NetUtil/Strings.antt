-- ===== src/NetUtil/Strings.antt =====
-- What netutil uses of package strings, and the list helpers of addr.go over it.
use hao_vpn.Prelude.{
  ℕ, ◌+◌, Bool, true, false, ◌&&◌, ◌||◌, List, [], ◌∷◌, Text, nat_beq, leb, if◌then◌else◌, text_beq,
  any, Option, none, some,
}
use mathlib.Core.List.{reverse}

abbrev pub is_space : ℕ → Bool
is_space c = nat_beq c 32 || (leb 9 c && leb c 13)

-- The text without its leading bytes that pass the test.
unfoldable pub trim_left : (ℕ → Bool) → Text → Text
trim_left cut [] = []
trim_left cut (c ∷ s) = if cut c then trim_left cut s else c ∷ s

unfoldable pub trim : (ℕ → Bool) → Text → Text
unfolding trim_left
trim cut s = reverse (trim_left cut (reverse (trim_left cut s)))

-- strings.TrimSpace
unfoldable pub trim_space : Text → Text
unfolding trim
trim_space = trim is_space

abbrev pub lower_byte : ℕ → ℕ
lower_byte c = if leb b'A' c && leb c b'Z' then c + 32 else c

-- strings.ToLower
unfoldable pub to_lower : Text → Text
to_lower [] = []
to_lower (c ∷ s) = lower_byte c ∷ to_lower s

-- strings.ContainsRune for a byte.
abbrev pub has_byte : ℕ → Text → Bool
has_byte b s = any (λ c. nat_beq c b) s

-- The text before and behind the first byte b.
unfoldable pub cut_first : ℕ → Text → Option (Text × Text)
cut_first b [] = none
cut_first b (c ∷ s) =
    if nat_beq c b
    then some ([], s)
    else elim (cut_first b s) [ none ↦ none | some (x, y) ↦ some (c ∷ x, y) ]

-- The text before and behind the last byte b.
unfoldable pub cut_last : ℕ → Text → Option (Text × Text)
cut_last b [] = none
cut_last b (c ∷ s) = elim (cut_last b s) [
  | some (x, y) ↦ some (c ∷ x, y)
  | none ↦ if nat_beq c b then some ([], s) else none
]

abbrev pub mem_text : Text → List Text → Bool
mem_text s = any (text_beq s)

-- DedupTrimNonEmpty; `seen` holds what is in `out` already.
unfoldable pub dedup_from : List Text → List Text → List Text
dedup_from seen [] = []
dedup_from seen (item ∷ items) =
    let s = trim_space item in
    let skip = dedup_from seen items in
    let keep = s ∷ dedup_from (s ∷ seen) items in
    if text_beq s [] || mem_text s seen then skip else keep

unfoldable pub dedup_trim_non_empty : List Text → List Text
unfolding dedup_from
dedup_trim_non_empty = dedup_from []

-- strings.HasPrefix, the prefix first.
abbrev pub is_prefix : Text → Text → Bool
is_prefix [] s = true
is_prefix (x ∷ xs) [] = false
is_prefix (x ∷ xs) (y ∷ ys) = nat_beq x y && is_prefix xs ys

-- strings.Contains(s, q)
abbrev pub contains_text : Text → Text → Bool
contains_text [] q = is_prefix q []
contains_text (c ∷ s) q = is_prefix q (c ∷ s) || contains_text s q
