-- ===== src/Prelude/Map.antt =====
-- Go's `map` as an association list. `remove` drops every entry of the key, so the laws need no
-- side condition. The order of the entries stands for Go's unspecified iteration order.
use mathlib.Core.Path.{◌≡◌}
use mathlib.Core.List.{List, [], ◌∷◌}
use mathlib.Core.Option.{Option, none, some}
use native.Mathlib.Omega.{arith}
use hao_vpn.Prelude.Tests.{if◌then◌else◌}
use hao_vpn.Prelude.Equality.{Eq, ◌==◌, ==_iff}

abbrev pub Map {ℓ κ} : Type ℓ → Type κ → Type (ℓ ⊔ κ)
Map K V = List (K × V)

module _ {ℓ κ} {K : Type ℓ} {V : Type κ} ⦃e : Eq K⦄ where
  -- v, ok := m[k]
  unfoldable pub get : K → Map K V → Option V
  get k [] = none
  get k ((j, v) ∷ m) = if j == k then some v else get k m

  -- delete(m, k)
  unfoldable pub remove : K → Map K V → Map K V
  remove k [] = []
  remove k ((j, v) ∷ m) = if j == k then remove k m else (j, v) ∷ remove k m

  -- m[k] = v
  unfoldable pub put : K → V → Map K V → Map K V
  unfolding remove
  put k v m = (k, v) ∷ remove k m

  pub get-remove : (k j : K) (m : Map K V) → get j (remove k m) ≡ (if k == j then none else get j m)
  unfolding get remove
  get-remove k j [] = ground arith
  get-remove k j ((i, v) ∷ m) = ground (arith, ==_iff k j, ==_iff i k, ==_iff i j, get-remove k j m)

  pub get-put :
      (k j : K) (v : V) (m : Map K V) → get j (put k v m) ≡ (if k == j then some v else get j m)
  unfolding get put
  get-put k j v m = ground (arith, get-remove k j m)

  pub get-put_self : (k : K) (v : V) (m : Map K V) → get k (put k v m) ≡ some v
  get-put_self k v m = ground (arith, get-put k k v m, ==_iff k k)

  pub get-remove_self : (k : K) (m : Map K V) → get k (remove k m) ≡ none
  get-remove_self k m = ground (arith, get-remove k k m, ==_iff k k)
