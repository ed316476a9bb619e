-- ===== src/Base/Distinct.antt =====
-- A list that stands for a set has each element once.
use Prim.Native.String.{String}
use mathlib.Core.Path.{◌≡◌, refl}
use mathlib.Core.Bool.{Bool, true, false, not, ◌&&◌}
use mathlib.Core.List.{List, [], ◌∷◌, ◌++◌}
use mathlib.Core.Logic.{inl, inr}
use native.Mathlib.Omega.{arith}
use text.Mathlib.TextEquality.{eq_iff}
use fritzbox_vpn.Base.Bools.{Bool-cases}
use fritzbox_vpn.Base.Sets.{
  elem, add, discard, union, difference, elem-append, elem-discard, elem-difference,
}

unfoldable pub distinct : List String → Bool
distinct [] = true
distinct (x ∷ xs) = not (elem x xs) && distinct xs

distinct-append :
    (x : String) (s : List String) → elem x s ≡ false → distinct (s ++ x ∷ []) ≡ distinct s
unfolding distinct elem
distinct-append x [] h = refl
distinct-append x (y ∷ s) h =
    ground (arith, distinct-append x s, elem-append y s (x ∷ []), eq_iff x y)

pub distinct-add : (x : String) (s : List String) → distinct (add x s) ≡ distinct s
unfolding add
distinct-add x s = elim (Bool-cases (elem x s)) [
  | inl e ↦ rw e refl
  | inr e ↦ rw e (distinct-append x s e)
]

pub distinct-discard :
    (x : String) (s : List String) → distinct s ≡ true → distinct (discard x s) ≡ true
unfolding distinct discard
distinct-discard x [] h = refl
distinct-discard x (y ∷ s) h = ground (arith, distinct-discard x s, elem-discard y x s)

pub distinct-union : (s t : List String) → distinct s ≡ true → distinct (union s t) ≡ true
unfolding union
distinct-union s [] h = h
distinct-union s (y ∷ t) h = distinct-union (add y s) t (ground (arith, distinct-add y s))

pub distinct-difference : (s t : List String) → distinct s ≡ true → distinct (difference s t) ≡ true
unfolding distinct difference
distinct-difference [] t h = refl
distinct-difference (y ∷ s) t h = ground (arith, distinct-difference s t, elem-difference y s t)
