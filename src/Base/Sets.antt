-- ===== src/Base/Sets.antt =====
-- Python's `set` of texts: a list seen through membership, in the order of some iteration.
use Prim.Native.String.{String}
use mathlib.Core.Path.{◌≡◌, refl}
use mathlib.Core.Bool.{Bool, true, false, not, ◌&&◌, ◌||◌}
use mathlib.Core.List.{List, [], ◌∷◌, ◌++◌}
use native.Mathlib.Omega.{arith}
use text.Mathlib.Text.{◌==◌}
use text.Mathlib.TextEquality.{eq_iff}
use fritzbox_vpn.Base.Bools.{if◌then◌else◌}

unfoldable pub elem : String → List String → Bool
elem x [] = false
elem x (y ∷ ys) = y == x || elem x ys

-- s.add(x)
unfoldable pub add : String → List String → List String
add x s = if elem x s then s else s ++ x ∷ []

-- s.discard(x)
unfoldable pub discard : String → List String → List String
discard x [] = []
discard x (y ∷ ys) = let rest = discard x ys in if y == x then rest else y ∷ rest

-- s |= t
unfoldable pub union : List String → List String → List String
union s [] = s
union s (y ∷ ys) = union (add y s) ys

-- s - t
unfoldable pub difference : List String → List String → List String
difference [] t = []
difference (y ∷ ys) t = let rest = difference ys t in if elem y t then rest else y ∷ rest

-- s & t
unfoldable pub intersection : List String → List String → List String
intersection [] t = []
intersection (y ∷ ys) t = let rest = intersection ys t in if elem y t then y ∷ rest else rest

-- `not s`
abbrev pub is_empty {ℓ} : {A : Type ℓ} → List A → Bool
is_empty [] = true
is_empty (_ ∷ _) = false

pub elem-append : (x : String) (s t : List String) → elem x (s ++ t) ≡ (elem x s || elem x t)
unfolding elem
elem-append x [] t = refl
elem-append x (y ∷ ys) t = ground (arith, elem-append x ys t)

pub elem-add : (x y : String) (s : List String) → elem x (add y s) ≡ (elem x s || y == x)
unfolding add elem
elem-add x y s = ground (arith, elem-append x s (y ∷ []), eq_iff y x)

pub elem-discard :
    (x y : String) (s : List String) → elem x (discard y s) ≡ (elem x s && not (y == x))
unfolding elem discard
elem-discard x y [] = refl
elem-discard x y (z ∷ zs) = ground (arith, elem-discard x y zs, eq_iff z x, eq_iff z y, eq_iff y x)

pub elem-union : (x : String) (s t : List String) → elem x (union s t) ≡ (elem x s || elem x t)
unfolding elem union
elem-union x s [] = ground arith
elem-union x s (y ∷ ys) = ground (arith, elem-union x (add y s) ys, elem-add x y s)

pub elem-difference :
    (x : String) (s t : List String) → elem x (difference s t) ≡ (elem x s && not (elem x t))
unfolding elem difference
elem-difference x [] t = refl
elem-difference x (y ∷ ys) t = ground (arith, elem-difference x ys t, eq_iff y x)

pub elem-intersection :
    (x : String) (s t : List String) → elem x (intersection s t) ≡ (elem x s && elem x t)
unfolding elem intersection
elem-intersection x [] t = refl
elem-intersection x (y ∷ ys) t = ground (arith, elem-intersection x ys t, eq_iff y x)

pub ruleset set_laws =
    (elem-append, elem-add, elem-discard, elem-union, elem-difference, elem-intersection)
