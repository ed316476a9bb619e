-- ===== src/Base/Each.antt =====
-- A property of every element of a list, and of every pair of a dictionary.
use Prim.Native.String.{String}
use mathlib.Core.Path.{◌≡◌, refl, sym, subst}
use mathlib.Core.Logic.{◌⊎◌, inl, inr}
use mathlib.Core.Option.{some, some-injective}
use mathlib.Core.List.{List, [], ◌∷◌, ◌++◌}
use text.Mathlib.Text.{◌==◌}
use text.Mathlib.TextEquality.{eq_iff}
use fritzbox_vpn.Base.Bools.{Bool-cases}
use fritzbox_vpn.Base.Maps.{Dict, lookup, put}

abbrev pub Everywhere {ℓ} : {A : Type ℓ} → (A → Type 0) → List A → Type 0
Everywhere P [] = Unit
Everywhere P (x ∷ xs) = P x × Everywhere P xs

-- The element stands in the list.
abbrev pub Among : {A : Type 0} → A → List A → Type 0
Among e [] = ⊥
Among e (x ∷ xs) = (e ≡ x) ⊎ Among e xs

pub Everywhere-of-Among :
    {A : Type 0} (P : A → Type 0) (xs : List A) → ((e : A) → Among e xs → P e) → Everywhere P xs
Everywhere-of-Among P [] h = tt
Everywhere-of-Among P (x ∷ xs) h = (h x (inl refl), Everywhere-of-Among P xs (λ e m. h e (inr m)))

module _ {ℓ} {A : Type ℓ} (P : A → Type 0) where
  pub Everywhere-append :
      (xs ys : List A) → Everywhere P xs → Everywhere P ys → Everywhere P (xs ++ ys)
  Everywhere-append [] ys h k = k
  Everywhere-append (x ∷ xs) ys (p, h) k = (p, Everywhere-append xs ys h k)

module _ {ℓ} {V : Type ℓ} (P : String × V → Type 0) where
  pub Everywhere-put :
      (k : String) (v : V) (m : Dict V) → Everywhere P m → P (k, v) → Everywhere P (put k v m)
  unfolding put
  Everywhere-put k v [] h p = (p, tt)
  Everywhere-put k v ((j, w) ∷ m) (q, h) p = elim (Bool-cases (j == k)) [
    | inl e ↦ rw e (subst (λ i. P (i, v)) (sym ((eq_iff j k).0 e)) p, h)
    | inr e ↦ rw e (q, Everywhere-put k v m h p)
  ]

  pub Everywhere-lookup :
      (k : String) (v : V) (m : Dict V) → Everywhere P m → lookup k m ≡ some v → P (k, v)
  unfolding lookup
  Everywhere-lookup k v [] h e = cc
  Everywhere-lookup k v ((j, w) ∷ m) (q, h) e = elim (Bool-cases (j == k)) [
    | inl f ↦
        subst (λ x. P (k, x)) (some-injective _ _ (rw f at e))
          (subst (λ i. P (i, w)) ((eq_iff j k).0 f) q)
    | inr f ↦ Everywhere-lookup k v m h (rw f at e)
  ]
