-- ===== src/Registry/Merges/Lowest.antt =====
-- custom_components/fritzbox_vpn/entity_registry.py: the choice among the merges for one base id.
use mathlib.Core.Option.{some-injective}
use fritzbox_vpn.Base.{
  ◌≤◌, ◌≡◌, refl, sym, ap, ◌∙◌, inl, inr, true, Option, none, some, List, [], ◌∷◌, Dict, ◌==◌,
  eq_iff, eq_refl, lookup, put, lookup-put, ltb, Bool-cases, arith, Everywhere,
}
use fritzbox_vpn.Registry.Repairs.{number_or_last}
use fritzbox_vpn.Registry.Merges.{Merge, prefer, prefer_lowest}

-- There is a merge for the base id of `m`, of an entity whose number is not higher.
abbrev pub IsCovered : Dict Merge → Merge → Type 0
IsCovered preferred m =
    (p : Merge) × (lookup m.2 preferred ≡ some p) × (number_or_last p.1 ≤ number_or_last m.1)

put-IsCovered :
    (x : Merge) (preferred : Dict Merge) (m : Merge)
    → ((x.2 == m.2) ≡ true → number_or_last x.1 ≤ number_or_last m.1)
    → IsCovered preferred m
    → IsCovered (put x.2 x preferred) m
put-IsCovered x preferred m k (p, f, g) = elim (Bool-cases (x.2 == m.2)) [
  | inl e ↦ (x, lookup-put x.2 m.2 x preferred ∙ rw e refl, k e)
  | inr e ↦ (p, lookup-put x.2 m.2 x preferred ∙ rw e f, g)
]

-- What is found under the base id of `m` is the merge that covers it.
found_covers :
    (x : Merge) (preferred : Dict Merge) (m previous : Merge)
    → lookup x.2 preferred ≡ some previous
    → IsCovered preferred m
    → (x.2 == m.2) ≡ true
    → number_or_last previous.1 ≤ number_or_last m.1
found_covers x preferred m previous e (p, f, g) h =
    let same : previous ≡ p =
      some-injective _ _ (sym e ∙ ap (λ k. lookup k preferred) ((eq_iff x.2 m.2).0 h) ∙ f) in
    rw same g

prefer-IsCovered :
    (o : Option Merge) (x : Merge) (preferred : Dict Merge) (m : Merge)
    → lookup x.2 preferred ≡ o
    → IsCovered preferred m
    → IsCovered (prefer o x preferred) m
prefer-IsCovered none x preferred m e (p, f, g) =
    put-IsCovered x preferred m
      (λ h. cc (sym e ∙ ap (λ k. lookup k preferred) ((eq_iff x.2 m.2).0 h) ∙ f)) (p, f, g)
prefer-IsCovered (some previous) x preferred m e c =
    elim (Bool-cases (ltb (number_or_last x.1) (number_or_last previous.1))) [
      | inl l ↦ rw l (
          put-IsCovered x preferred m
            (λ h. ground (arith, l, found_covers x preferred m previous e c h)) c)
      | inr l ↦ rw l c
    ]

first_covers :
    (o : Option Merge) (x : Merge) (preferred : Dict Merge)
    → lookup x.2 preferred ≡ o
    → IsCovered (prefer o x preferred) x
first_covers none x preferred e =
    (x, lookup-put x.2 x.2 x preferred ∙ rw (eq_refl x.2) refl, omega arith)
first_covers (some previous) x preferred e =
    elim (Bool-cases (ltb (number_or_last x.1) (number_or_last previous.1))) [
      | inl l ↦ rw l (x, lookup-put x.2 x.2 x preferred ∙ rw (eq_refl x.2) refl, omega arith)
      | inr l ↦ rw l (previous, e, ground (arith, l))
    ]

prefer_lowest-keeps :
    (ms : List Merge) (preferred : Dict Merge) (m : Merge)
    → IsCovered preferred m
    → IsCovered (prefer_lowest ms preferred) m
unfolding prefer_lowest
prefer_lowest-keeps [] preferred m c = c
prefer_lowest-keeps (x ∷ ms) preferred m c =
    prefer_lowest-keeps ms (prefer (lookup x.2 preferred) x preferred) m
      (prefer-IsCovered (lookup x.2 preferred) x preferred m refl c)

-- For every candidate the choice holds, under the same base id, a merge of an entity whose number is
-- not higher, whatever was chosen before.
pub prefer_lowest-AreCovered :
    (ms : List Merge) (preferred : Dict Merge)
    → Everywhere (IsCovered (prefer_lowest ms preferred)) ms
unfolding prefer_lowest
prefer_lowest-AreCovered [] preferred = tt
prefer_lowest-AreCovered (x ∷ ms) preferred =
    let first = prefer (lookup x.2 preferred) x preferred in
    (
      prefer_lowest-keeps ms first x (first_covers (lookup x.2 preferred) x preferred refl),
      prefer_lowest-AreCovered ms first,
    )
