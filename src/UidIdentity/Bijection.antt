-- ===== src/UidIdentity/Bijection.antt =====
-- name_bijection_uid_remap (uid_identity.py) against what it promises.
use mathlib.Core.Option.{some-injective}
use fritzbox_vpn.Base.{
  ◌≡◌, refl, sym, ◌∙◌, inl, inr, true, not, ◌&&◌, ◌||◌, Option, some, is_some, List, [], String,
  Dict, lookup, keys, elem-keys, elem, intersection, is_empty, Bool-cases, Option-cases, and-true,
}
use fritzbox_vpn.Value.{Payload}
use fritzbox_vpn.UidIdentity.{
  Remap, mapping, refused, by_name, subset, pair_up, then_new, old_name, new_name,
  name_bijection_uid_remap,
}
use fritzbox_vpn.UidIdentity.Names.{Collected, by_name-Collected, subset-elem, Pairs, pair_up-Pairs}

-- A one-to-one map of the old uids onto the new ones that keeps the stripped name.
pub record IsNameBijection (old_uids new_uids : List String) (old_names : Dict String)
    (new_payloads : Dict Payload) (m : Dict String) : Type 0 where
  pub same_name :
      (o n : String)
      → lookup o m ≡ some n
      → (elem o old_uids ≡ true)
        × (elem n new_uids ≡ true)
        × ((name : String) × (old_name old_names o ≡ some name)
            × (new_name new_payloads n ≡ some name))
  pub total : (o : String) → elem o old_uids ≡ true → (n : String) × (lookup o m ≡ some n)
  pub onto : (n : String) → elem n new_uids ≡ true → (o : String) × (lookup o m ≡ some n)
  pub injective : (o o' n : String) → lookup o m ≡ some n → lookup o' m ≡ some n → o ≡ o'

-- What was collected from nothing belongs to the uids.
module _ {name_of : String → Option String} {missing duplicate : String} {uids : List String}
    {found : Dict String} (c : Collected name_of missing duplicate uids [] found) where
  belongs :
      (name uid : String)
      → lookup name found ≡ some uid
      → (name_of uid ≡ some name) × (elem uid uids ≡ true)
  unfolding lookup
  belongs name uid h = elim (c.sound name uid h) [ inl p ↦ cc | inr p ↦ p ]

  one_name : (a b uid : String) → lookup a found ≡ some uid → lookup b found ≡ some uid → a ≡ b
  one_name a b uid h k = some-injective _ _ (sym (belongs a uid h).0 ∙ (belongs b uid k).0)

in_both :
    (a b : Dict String) (name x : String)
    → subset (keys a) (keys b) ≡ true
    → lookup name a ≡ some x
    → (elem name (keys a) ≡ true) × ((y : String) × (lookup name b ≡ some y))
in_both a b name x s h =
    let there : elem name (keys a) ≡ true = rw (elem-keys name a, h) in
    let there' : is_some (lookup name b) ≡ true =
      sym (elem-keys name b) ∙ subset-elem (keys a) (keys b) name s there in
    elim (Option-cases (lookup name b)) [
      | inl e ↦ cc (rw e at there')
      | inr (y, e) ↦ (there, (y, e))
    ]

module _ (old_uids new_uids : List String) (old_names : Dict String) (new_payloads : Dict Payload)
    (old new : Dict String)
    (co : Collected (old_name old_names) "missing_old_name" "duplicate_old_name" old_uids [] old)
    (cn : Collected
      (new_name new_payloads)
      "missing_new_name"
      "duplicate_new_name"
      new_uids
      []
      new) where
  abbrev paired_uids : Dict String
  paired_uids = pair_up (keys old) old new []

  pairs : Pairs old new (keys old) [] paired_uids
  pairs = pair_up-Pairs old new (one_name co) (keys old) []

  -- Each pair comes from a name.
  named :
      (o n : String)
      → lookup o paired_uids ≡ some n
      → (name : String) × (lookup name old ≡ some o) × (lookup name new ≡ some n)
  unfolding lookup
  named o n h = elim (pairs.sound o n h) [ inl p ↦ cc | inr (name, _, p, q) ↦ (name, p, q) ]

  collected-IsNameBijection :
      subset (keys old) (keys new) ≡ true
      → subset (keys new) (keys old) ≡ true
      → IsNameBijection old_uids new_uids old_names new_payloads paired_uids
  collected-IsNameBijection s s' = record {
    same_name = λ o n h.
        let (name, p, q) = named o n h in
        let (e, f) = belongs co name o p in
        let (e', f') = belongs cn name n q in (f, f', (name, e, e'));
    total = λ o h.
        let (name, _, p) = co.complete o h in
        let (there, (n, q)) = in_both old new name o s p in (n, pairs.complete name o n there p q);
    onto = λ n h.
        let (name, _, q) = cn.complete n h in
        let (_, (o, p)) = in_both new old name n s' q in
        let (there, _) = in_both old new name o s p in (o, pairs.complete name o n there p q);
    injective = λ o o' n h h'.
        let (a, p, q) = named o n h in
        let (b, p', q') = named o' n h' in
        some-injective _ _ (sym p ∙ (rw (one_name cn a b n q q') p'));
  }

module _ (old_uids new_uids : List String) (old_names : Dict String) (new_payloads : Dict Payload)
    (m : Dict String) where
  paired_lem :
      (old new : Remap)
      → by_name (old_name old_names) "missing_old_name" "duplicate_old_name" old_uids [] ≡ old
      → by_name (new_name new_payloads) "missing_new_name" "duplicate_new_name" new_uids [] ≡ new
      → then_new old new ≡ mapping m
      → IsNameBijection old_uids new_uids old_names new_payloads m
  paired_lem (refused r) new e e' h = cc
  paired_lem (mapping old) (refused r) e e' h = cc
  paired_lem (mapping old) (mapping new) e e' h =
      elim (Bool-cases (subset (keys old) (keys new) && subset (keys new) (keys old))) [
        | inr f ↦ cc (rw f at h)
        | inl f ↦ rw (← mapping_inj (rw f at h)) (
            collected-IsNameBijection old_uids new_uids old_names new_payloads old new
              (by_name-Collected _ _ _ old_uids [] old e)
              (by_name-Collected _ _ _ new_uids [] new e') (and-true _ _ f).0 (and-true _ _ f).1)
      ]
    where
      mapping_inj : {a b : Dict String} → mapping a ≡ mapping b → a ≡ b
      mapping_inj p = cc p

  -- Where the remap is not refused, it is a bijection from exactly the old uids to exactly the new
  -- ones, and two uids are paired only if their names, stripped and not blank, are the same.
  pub name_bijection_uid_remap-IsNameBijection :
      name_bijection_uid_remap old_uids new_uids old_names new_payloads ≡ mapping m
      → IsNameBijection old_uids new_uids old_names new_payloads m
  unfolding name_bijection_uid_remap
  name_bijection_uid_remap-IsNameBijection h =
      elim (Bool-cases (
        is_empty old_uids
        || is_empty new_uids
        || not (is_empty (intersection old_uids new_uids)))) [
          | inl e ↦ cc (rw e at h)
          | inr e ↦ paired_lem _ _ refl refl (rw e at h)
        ]
