-- ===== src/Outcome/Inversion.antt =====
-- What a chain of methods that ended one way did before.
use fritzbox_vpn.Base.{◌≡◌, refl, ◌⊎◌, inl, inr}
use fritzbox_vpn.Outcome.{Error, Outcome, ok, raised, continue, handle}

module _ {ℓ} {S A B : Type ℓ} where
  pub continue-ok :
      (r : Outcome A × S) (f : A → S → Outcome B × S) {b : B} {x : S}
      → continue f r ≡ (ok b, x)
      → (a : A) × (y : S) × (r ≡ (ok a, y)) × (f a y ≡ (ok b, x))
  continue-ok (ok a, y) f h = (a, y, refl, h)
  continue-ok (raised e, y) f h = cc

  pub continue-raised :
      (r : Outcome A × S) (f : A → S → Outcome B × S) {e : Error} {x : S}
      → continue f r ≡ (raised e, x)
      → (r ≡ (raised e, x)) ⊎ ((a : A) × (y : S) × (r ≡ (ok a, y)) × (f a y ≡ (raised e, x)))
  continue-raised (ok a, y) f h = inr (a, y, refl, h)
  continue-raised (raised e, y) f h = inl cc

module _ {ℓ} {S A : Type ℓ} where
  pub handle-ok :
      (r : Outcome A × S) (h : Error → S → Outcome A × S) {a : A} {x : S}
      → handle h r ≡ (ok a, x)
      → (r ≡ (ok a, x)) ⊎ ((e : Error) × (y : S) × (r ≡ (raised e, y)) × (h e y ≡ (ok a, x)))
  handle-ok (ok a, y) h p = inl p
  handle-ok (raised e, y) h p = inr (e, y, refl, p)
