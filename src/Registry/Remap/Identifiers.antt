-- ===== src/Registry/Remap/Identifiers.antt =====
-- custom_components/fritzbox_vpn/entity_registry.py: the identifiers of a device whose connection moves.
use fritzbox_vpn.Base.{
  ◌≡◌, ◌≢◌, refl, sym, subst, ◌∙◌, inl, inr, ◌⊎◌, true, false, List, [], ◌∷◌, ◌++◌, String, ◌==◌,
  eq_iff, eq_refl, Bool-cases, and-true, Among,
}
use fritzbox_vpn.Registry.Remap.{
  same_identifier, discard_identifier, has_identifier, add_identifier,
}

same_identifier-true : (xs ys : List String) → same_identifier xs ys ≡ true → xs ≡ ys
same_identifier-true [] [] h = refl
same_identifier-true [] (y ∷ ys) h = cc h
same_identifier-true (x ∷ xs) [] h = cc h
same_identifier-true (x ∷ xs) (y ∷ ys) h =
    let (e, k) = and-true (x == y) (same_identifier xs ys) h in
    let same_head : x ≡ y = (eq_iff x y).0 e in
    let same_tail : xs ≡ ys = same_identifier-true xs ys k in cc (same_head, same_tail)

same_identifier_refl : (xs : List String) → same_identifier xs xs ≡ true
same_identifier_refl [] = refl
same_identifier_refl (x ∷ xs) = rw (eq_refl x, same_identifier_refl xs) refl

different : (x y : List String) → same_identifier y x ≡ false → y ≢ x
different x y e h = cc (h, e, same_identifier_refl x)

kept_of :
    (i x y : List String) (ys rest : List (List String))
    → same_identifier y x ≡ false
    → (Among i rest → Among i ys × (i ≢ x))
    → Among i (y ∷ rest)
    → Among i (y ∷ ys) × (i ≢ x)
kept_of i x y ys rest e left (inl h) = (inl h, λ q. different x y e (sym h ∙ q))
kept_of i x y ys rest e left (inr k) = let (k', d) = left k in (inr k', d)

-- Which identifiers are left without `x`.
Among-discard_identifier :
    (i x : List String) (ys : List (List String))
    → Among i (discard_identifier x ys)
    → Among i ys × (i ≢ x)
unfolding discard_identifier
Among-discard_identifier i x [] m = elim m [ ]
Among-discard_identifier i x (y ∷ ys) m = elim (Bool-cases (same_identifier y x)) [
  | inl e ↦ let (k, d) = Among-discard_identifier i x ys (rw e at m) in (inr k, d)
  | inr e ↦
      kept_of i x y ys (discard_identifier x ys) e (Among-discard_identifier i x ys) (rw e at m)
]

Among-keep :
    (i x y : List String) (ys : List (List String))
    → i ≢ x
    → Among i ys ⊎ (i ≡ y)
    → (Among i ys → Among i (discard_identifier x ys))
    → Among i (discard_identifier x (y ∷ ys))
unfolding discard_identifier
Among-keep i x y ys d (inl m) rest = elim (Bool-cases (same_identifier y x)) [
  | inl e ↦ rw e (rest m)
  | inr e ↦ rw e (inr (rest m))
]
Among-keep i x y ys d (inr h) rest = elim (Bool-cases (same_identifier y x)) [
  | inl e ↦ absurd (d (h ∙ same_identifier-true y x e))
  | inr e ↦ rw e (inl h)
]

discard_identifier-Among :
    (i x : List String) (ys : List (List String))
    → Among i ys
    → i ≢ x
    → Among i (discard_identifier x ys)
discard_identifier-Among i x [] m d = elim m [ ]
discard_identifier-Among i x (y ∷ ys) (inl h) d =
    Among-keep i x y ys d (inr h) (λ m. discard_identifier-Among i x ys m d)
discard_identifier-Among i x (y ∷ ys) (inr m) d =
    Among-keep i x y ys d (inl m) (λ k. discard_identifier-Among i x ys k d)

Among-append_left : (i : List String) (xs ys : List (List String)) → Among i xs → Among i (xs ++ ys)
Among-append_left i [] ys m = elim m [ ]
Among-append_left i (x ∷ xs) ys (inl h) = inl h
Among-append_left i (x ∷ xs) ys (inr m) = inr (Among-append_left i xs ys m)

Among-append_last : (x : List String) (xs : List (List String)) → Among x (xs ++ x ∷ [])
Among-append_last x [] = inl refl
Among-append_last x (y ∷ ys) = inr (Among-append_last x ys)

Among-append_cases :
    (i x : List String) (xs : List (List String)) → Among i (xs ++ x ∷ []) → (i ≡ x) ⊎ Among i xs
Among-append_cases i x [] (inl h) = inl h
Among-append_cases i x [] (inr m) = elim m [ ]
Among-append_cases i x (y ∷ ys) (inl h) = inr (inl h)
Among-append_cases i x (y ∷ ys) (inr m) = elim (Among-append_cases i x ys m) [
  | inl h ↦ inl h
  | inr k ↦ inr (inr k)
]

Among-has_identifier :
    (x : List String) (ys : List (List String)) → has_identifier x ys ≡ true → Among x ys
unfolding has_identifier
Among-has_identifier x [] h = cc h
Among-has_identifier x (y ∷ ys) h = elim (Bool-cases (same_identifier y x)) [
  | inl e ↦ inl (sym (same_identifier-true y x e))
  | inr e ↦ inr (Among-has_identifier x ys (rw e at h))
]

-- After the change of a device: the new identifier, and those there were, but the old one.
abbrev pub IsExchanged :
    List String → List String → List (List String) → List (List String) → Type 0
IsExchanged old new before after =
    (i : List String)
    → (Among i after → (i ≡ new) ⊎ (Among i before × (i ≢ old)))
      × ((i ≡ new) ⊎ (Among i before × (i ≢ old)) → Among i after)

added :
    (new i : List String) (kept : List (List String))
    → (Among i (add_identifier new kept) → (i ≡ new) ⊎ Among i kept)
      × ((i ≡ new) ⊎ Among i kept → Among i (add_identifier new kept))
unfolding add_identifier
added new i kept = elim (Bool-cases (has_identifier new kept)) [
  | inl e ↦ rw e (inr, there e)
  | inr e ↦ rw e (Among-append_cases i new kept, back)
]
  where
    there : has_identifier new kept ≡ true → (i ≡ new) ⊎ Among i kept → Among i kept
    there e (inl h) = subst (λ j. Among j kept) (sym h) (Among-has_identifier new kept e)
    there e (inr m) = m

    back : (i ≡ new) ⊎ Among i kept → Among i (kept ++ new ∷ [])
    back (inl h) = subst (λ j. Among j (kept ++ new ∷ [])) (sym h) (Among-append_last new kept)
    back (inr m) = Among-append_left i kept (new ∷ []) m

pub identifiers-IsExchanged :
    (old new : List String) (before : List (List String))
    → IsExchanged old new before (add_identifier new (discard_identifier old before))
identifiers-IsExchanged old new before i = (forth, back)
  where
    kept :
        (i ≡ new) ⊎ Among i (discard_identifier old before)
        → (i ≡ new) ⊎ (Among i before × (i ≢ old))
    kept (inl h) = inl h
    kept (inr m) = inr (Among-discard_identifier i old before m)

    left :
        (i ≡ new) ⊎ (Among i before × (i ≢ old))
        → (i ≡ new) ⊎ Among i (discard_identifier old before)
    left (inl h) = inl h
    left (inr (m, d)) = inr (discard_identifier-Among i old before m d)

    forth :
        Among i (add_identifier new (discard_identifier old before))
        → (i ≡ new) ⊎ (Among i before × (i ≢ old))
    forth m = kept ((added new i (discard_identifier old before)).0 m)

    back :
        (i ≡ new) ⊎ (Among i before × (i ≢ old))
        → Among i (add_identifier new (discard_identifier old before))
    back s = (added new i (discard_identifier old before)).1 (left s)
