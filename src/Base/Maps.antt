-- ===== src/Base/Maps.antt =====
-- Python's `dict` with text keys: an association list in insertion order. Assigning to a key that
-- is there keeps its place; a new key goes to the end.
use Prim.Native.String.{String}
use mathlib.Core.Path.{◌≡◌, refl}
use mathlib.Core.Option.{Option, none, some}
use mathlib.Core.List.{List, [], ◌∷◌}
use native.Mathlib.Omega.{arith}
use text.Mathlib.Text.{◌==◌}
use text.Mathlib.TextEquality.{eq_iff}
use fritzbox_vpn.Base.Bools.{if◌then◌else◌, is_some}
use fritzbox_vpn.Base.Sets.{elem}

abbrev pub Dict {ℓ} : Type ℓ → Type ℓ
Dict V = List (String × V)

module _ {ℓ} {V : Type ℓ} where
  unfoldable pub lookup : String → Dict V → Option V
  lookup k [] = none
  lookup k ((j, v) ∷ m) = if j == k then some v else lookup k m

  -- d[k] = v
  unfoldable pub put : String → V → Dict V → Dict V
  put k v [] = (k, v) ∷ []
  put k v ((j, w) ∷ m) = if j == k then (j, v) ∷ m else (j, w) ∷ put k v m

  -- d.pop(k, None)
  unfoldable pub pop : String → Dict V → Dict V
  pop k [] = []
  pop k ((j, w) ∷ m) = let rest = pop k m in if j == k then rest else (j, w) ∷ rest

  unfoldable pub keys : Dict V → List String
  keys [] = []
  keys ((j, w) ∷ m) = j ∷ keys m

  pub lookup-put :
      (k j : String) (v : V) (m : Dict V)
      → lookup j (put k v m) ≡ (if k == j then some v else lookup j m)
  unfolding lookup put
  lookup-put k j v [] = refl
  lookup-put k j v ((i, w) ∷ m) =
      ground (arith, eq_iff k j, eq_iff i k, eq_iff i j, lookup-put k j v m)

  pub lookup-pop :
      (k j : String) (m : Dict V) → lookup j (pop k m) ≡ (if k == j then none else lookup j m)
  unfolding lookup pop
  lookup-pop k j [] = ground arith
  lookup-pop k j ((i, w) ∷ m) = ground (arith, lookup-pop k j m, eq_iff i k, eq_iff i j, eq_iff k j)

  -- `k in d` and `k in d.keys()` are one test.
  pub elem-keys : (k : String) (m : Dict V) → elem k (keys m) ≡ is_some (lookup k m)
  unfolding lookup keys elem
  elem-keys k [] = refl
  elem-keys k ((j, w) ∷ m) = ground (arith, elem-keys k m)
