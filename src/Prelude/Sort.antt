-- ===== src/Prelude/Sort.antt =====
-- A stable sort by a strict order, for sort.Slice on distinct keys and sort.SliceStable.
use mathlib.Core.Bool.{Bool, true, false, ◌&&◌, ◌||◌}
use mathlib.Core.List.{List, [], ◌∷◌}
use hao_vpn.Prelude.Tests.{ltb, nat_beq, if◌then◌else◌}
use hao_vpn.Prelude.Equality.{Text}

module _ {ℓ} {A : Type ℓ} where
  -- Before the elements that are not less, so that equal elements keep their order.
  unfoldable pub insert_by : (A → A → Bool) → A → List A → List A
  insert_by less x [] = x ∷ []
  insert_by less x (y ∷ ys) = if less y x then y ∷ insert_by less x ys else x ∷ y ∷ ys

  unfoldable pub sort_by : (A → A → Bool) → List A → List A
  unfolding insert_by
  sort_by less [] = []
  sort_by less (x ∷ xs) = insert_by less x (sort_by less xs)

-- `<` on Go strings: by bytes, a prefix first.
abbrev pub text_ltb : Text → Text → Bool
text_ltb s [] = false
text_ltb [] (y ∷ ys) = true
text_ltb (x ∷ xs) (y ∷ ys) = ltb x y || (nat_beq x y && text_ltb xs ys)
