-- ===== src/Runtime/Renaming.antt =====
-- custom_components/fritzbox_vpn/models.py: the remap of the known uids as a renaming.
use fritzbox_vpn.Base.{
  ◌≡◌, refl, sym, ◌∙◌, inl, inr, Bool, true, false, not, ◌&&◌, ◌||◌, is_some, get_or, List, [], ◌∷◌,
  ◌++◌, String, Dict, ◌==◌, eq_iff, lookup, elem, add, discard, Bool-cases, arith, elem-difference,
}
use fritzbox_vpn.Runtime.{
  Platform, Runtime, switch, sensor, binary_sensor, platform_tracking, clear_known_uids, remap_set,
  remap_known_uids,
}

-- The new uid of `uid`, which stays where there is none.
abbrev pub renamed_uid : Dict String → String → String
renamed_uid m uid = get_or (lookup uid m) uid

unfoldable pub renamed : Dict String → List String → List String
renamed m [] = []
renamed m (uid ∷ uids) = renamed_uid m uid ∷ renamed m uids

-- No new uid of the pairs is an old one of `all`.
unfoldable pub is_renaming : Dict String → Dict String → Bool
is_renaming all [] = true
is_renaming all ((old, new) ∷ m) = not (is_some (lookup new all)) && is_renaming all m

elem-renamed-nil : (x : String) (known : List String) → elem x (renamed [] known) ≡ elem x known
unfolding renamed elem lookup
elem-renamed-nil x [] = refl
elem-renamed-nil x (y ∷ known) = ground (arith, elem-renamed-nil x known)

elem-renamed-snoc :
    (m : Dict String) (x y : String) (known : List String)
    → elem x (renamed m (known ++ y ∷ [])) ≡ (elem x (renamed m known) || renamed_uid m y == x)
unfolding renamed elem
elem-renamed-snoc m x y [] = ground arith
elem-renamed-snoc m x y (z ∷ known) = rw (elem-renamed-snoc m x y known) (ground arith)

-- What is renamed is among the renamed.
pub renamed-elem :
    (m : Dict String) (x y : String) (known : List String)
    → elem y known ≡ true
    → (renamed_uid m y == x) ≡ true
    → elem x (renamed m known) ≡ true
unfolding renamed elem
renamed-elem m x y [] h k = cc
renamed-elem m x y (z ∷ known) h k = elim (Bool-cases (z == y)) [
  | inl e ↦ rw ((eq_iff z y).0 e, k) refl
  | inr e ↦ rw (renamed-elem m x y known (rw e at h) k) (ground arith)
]

elem-renamed-add :
    (m : Dict String) (x y : String) (known : List String)
    → elem x (renamed m (add y known)) ≡ (elem x (renamed m known) || renamed_uid m y == x)
unfolding add
elem-renamed-add m x y known = elim (Bool-cases (elem y known)) [
  | inr e ↦ rw e (elem-renamed-snoc m x y known)
  | inl e ↦ rw e (elim (Bool-cases (renamed_uid m y == x)) [
    | inl f ↦ rw (f, renamed-elem m x y known e f) refl
    | inr f ↦ rw f (ground arith)
  ])
]

eq_comm : (x y : String) → (x == y) ≡ (y == x)
eq_comm x y = ground (arith, eq_iff x y, eq_iff y x)

-- Renaming by one more pair.
elem-renamed-cons :
    (m : Dict String) (old new x : String) (known : List String)
    → elem x (renamed ((old, new) ∷ m) known)
      ≡ (elem x (renamed m (discard old known)) || (elem old known && new == x))
unfolding renamed elem lookup discard
elem-renamed-cons m old new x [] = ground arith
elem-renamed-cons m old new x (y ∷ known) = elim (Bool-cases (y == old)) [
  | inl e ↦ rw (eq_comm old y, e, elem-renamed-cons m old new x known) (ground arith)
  | inr e ↦ rw (eq_comm old y, e, elem-renamed-cons m old new x known) (ground arith)
]

discard_absent : (x : String) (known : List String) → elem x known ≡ false → discard x known ≡ known
unfolding elem discard
discard_absent x [] h = refl
discard_absent x (y ∷ known) h = elim (Bool-cases (y == x)) [
  | inl e ↦ cc (rw e at h)
  | inr e ↦ rw (e, discard_absent x known (rw e at h)) refl
]

abbrev IsPart : Dict String → Dict String → Type 0
IsPart m all = (y : String) → is_some (lookup y m) ≡ true → is_some (lookup y all) ≡ true

tail-IsPart : (all m : Dict String) (old new : String) → IsPart ((old, new) ∷ m) all → IsPart m all
unfolding lookup
tail-IsPart all m old new k y h = k y (ground arith)

new_stays :
    (all m : Dict String) (new : String)
    → IsPart m all
    → is_some (lookup new all) ≡ false
    → renamed_uid m new ≡ new
new_stays all m new k h = ground (arith, k new)

-- The loop over the pairs against the renaming at once.
elem-remap_set :
    (all m : Dict String) (x : String) (known : List String)
    → is_renaming all m ≡ true
    → IsPart m all
    → elem x (remap_set m known) ≡ elem x (renamed m known)
unfolding remap_set is_renaming
elem-remap_set all [] x known h k = sym (elem-renamed-nil x known)
elem-remap_set all ((old, new) ∷ m) x known h k = elim (Bool-cases (elem old known)) [
  | inl e ↦
      let part = tail-IsPart all m old new k in
      rw (e, elem-renamed-cons m old new x known, e)
        (elem-remap_set all m x (add new (discard old known)) (ground arith) part
          ∙ elem-renamed-add m x new (discard old known)
          ∙ rw (new_stays all m new part (ground arith)) refl)
  | inr e ↦
      rw (e, elem-renamed-cons m old new x known, e, discard_absent old known e)
        (elem-remap_set all m x known (ground arith) (tail-IsPart all m old new k) ∙ ground arith)
]

abbrev pub known_uids : Platform → Runtime → List String
known_uids p r = (platform_tracking r p).0

-- Where no new uid is also an old one, as in every remap by names, a platform afterwards knows exactly
-- the uids that it knew with each old one replaced by its new one, in whatever order the pairs come.
pub elem-remap_known_uids :
    (m : Dict String) (r : Runtime) (p : Platform) (x : String)
    → is_renaming m m ≡ true
    → elem x (known_uids p (remap_known_uids m r)) ≡ elem x (renamed m (known_uids p r))
unfolding remap_known_uids platform_tracking
elem-remap_known_uids [] r switch x h = sym (elem-renamed-nil x r.known_uids_switch)
elem-remap_known_uids [] r sensor x h = sym (elem-renamed-nil x r.known_uids_sensor)
elem-remap_known_uids [] r binary_sensor x h = sym (elem-renamed-nil x r.known_uids_binary_sensor)
elem-remap_known_uids (q ∷ m) r switch x h =
    elem-remap_set (q ∷ m) (q ∷ m) x r.known_uids_switch h (λ y k. k)
elem-remap_known_uids (q ∷ m) r sensor x h =
    elem-remap_set (q ∷ m) (q ∷ m) x r.known_uids_sensor h (λ y k. k)
elem-remap_known_uids (q ∷ m) r binary_sensor x h =
    elem-remap_set (q ∷ m) (q ∷ m) x r.known_uids_binary_sensor h (λ y k. k)

-- After a removal every platform has forgotten exactly the removed uids.
pub elem-clear_known_uids :
    (uids : List String) (r : Runtime) (p : Platform) (x : String)
    → elem x (known_uids p (clear_known_uids uids r))
      ≡ (elem x (known_uids p r) && not (elem x uids))
unfolding clear_known_uids platform_tracking elem
elem-clear_known_uids [] r switch x = ground arith
elem-clear_known_uids [] r sensor x = ground arith
elem-clear_known_uids [] r binary_sensor x = ground arith
elem-clear_known_uids (u ∷ uids) r switch x = elem-difference x r.known_uids_switch (u ∷ uids)
elem-clear_known_uids (u ∷ uids) r sensor x = elem-difference x r.known_uids_sensor (u ∷ uids)
elem-clear_known_uids (u ∷ uids) r binary_sensor x =
    elem-difference x r.known_uids_binary_sensor (u ∷ uids)
