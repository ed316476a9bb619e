-- ===== src/Registry/Merges/Eligible.antt =====
-- custom_components/fritzbox_vpn/entity_registry.py: which entities a merge concerns.
use fritzbox_vpn.Base.{
  ◌≡◌, refl, inl, inr, true, ◌&&◌, Option, none, some, List, [], ◌∷◌, String, Dict, lookup, put,
  ltb, Bool-cases, and-true, Everywhere, Everywhere-put, Everywhere-lookup,
}
use fritzbox_vpn.Registry.State.{Entity, Registries}
use fritzbox_vpn.Registry.EntityIds.{entity_id_base}
use fritzbox_vpn.Registry.Repairs.{uid_of, by_entity_id, number_or_last}
use fritzbox_vpn.Registry.Merges.{
  Merge, is_of_entry, are_eligible, merge_with, merge_to, candidates, prefer, prefer_lowest, values,
  get_orphan_base_suffix_merges,
}

-- The base entity has the base id of the live one's, belongs to the config entry, and its connection is
-- not on the box while the live one's is. Both have the property `Q` of the entities.
pub record IsEligible (Q : Entity → Type 0) (entry_id : String) (current_uids : List String)
    (m : Merge) : Type 0 where
  pub base_has : Q m.0
  pub live_has : Q m.1
  pub has_base_id : m.0.entity_id ≡ m.2
  pub is_base : entity_id_base m.1.entity_id ≡ some m.2
  pub is_own : is_of_entry m.0.config_entry_id entry_id ≡ true
  pub eligible : are_eligible (uid_of m.0) (uid_of m.1) current_uids ≡ true

abbrev IsFiled : (Entity → Type 0) → String × Entity → Type 0
IsFiled Q (base, entry) = (entry.entity_id ≡ base) × Q entry

by_entity_id-IsFiled :
    (Q : Entity → Type 0) (entries : List Entity) (found : Dict Entity)
    → Everywhere Q entries
    → Everywhere (IsFiled Q) found
    → Everywhere (IsFiled Q) (by_entity_id entries found)
unfolding by_entity_id
by_entity_id-IsFiled Q [] found q h = h
by_entity_id-IsFiled Q (entry ∷ entries) found (p, q) h =
    by_entity_id-IsFiled Q entries (put entry.entity_id entry found) q
      (Everywhere-put (IsFiled Q) entry.entity_id entry found h (refl, p))

module _ (Q : Entity → Type 0) (entry_id : String) (current_uids : List String) where
  abbrev Eligible : List Merge → Type 0
  Eligible ms = Everywhere (IsEligible Q entry_id current_uids) ms

  merge_with-Eligible :
      (entry : Entity) (base : String) (own : Dict Entity) (o : Option Entity) (rest : List Merge)
      → Everywhere (IsFiled Q) own
      → lookup base own ≡ o
      → entity_id_base entry.entity_id ≡ some base
      → Q entry
      → Eligible rest
      → Eligible (merge_with entry_id current_uids entry base o rest)
  merge_with-Eligible entry base own none rest f l e q h = h
  merge_with-Eligible entry base own (some base_entry) rest f l e q h =
      elim (Bool-cases (
        is_of_entry base_entry.config_entry_id entry_id
        && are_eligible (uid_of base_entry) (uid_of entry) current_uids)) [
          | inr g ↦ rw g h
          | inl g ↦
              let (own_entry, right) = and-true _ _ g in
              let filed = Everywhere-lookup (IsFiled Q) base base_entry own f l in
              rw g (
                record {
                  base_has = filed.1;
                  live_has = q;
                  has_base_id = filed.0;
                  is_base = e;
                  is_own = own_entry;
                  eligible = right;
                },
                h,
              )
        ]

  merge_to-Eligible :
      (entry : Entity) (own : Dict Entity) (o : Option String) (rest : List Merge)
      → Everywhere (IsFiled Q) own
      → entity_id_base entry.entity_id ≡ o
      → Q entry
      → Eligible rest
      → Eligible (merge_to entry_id current_uids own entry o rest)
  merge_to-Eligible entry own none rest f e q h = h
  merge_to-Eligible entry own (some base) rest f e q h =
      merge_with-Eligible entry base own (lookup base own) rest f refl e q h

  candidates-Eligible :
      (own : Dict Entity) (entries : List Entity)
      → Everywhere (IsFiled Q) own
      → Everywhere Q entries
      → Eligible (candidates entry_id current_uids own entries)
  unfolding candidates
  candidates-Eligible own [] f q = tt
  candidates-Eligible own (entry ∷ entries) f (p, q) =
      merge_to-Eligible entry own (entity_id_base entry.entity_id)
        (candidates entry_id current_uids own entries) f refl p
        (candidates-Eligible own entries f q)

  abbrev Filed : Dict Merge → Type 0
  Filed preferred =
      Everywhere (λ (p : String × Merge). (p.0 ≡ p.1.2) × IsEligible Q entry_id current_uids p.1)
        preferred

  prefer-Filed :
      (o : Option Merge) (m : Merge) (preferred : Dict Merge)
      → IsEligible Q entry_id current_uids m
      → Filed preferred
      → Filed (prefer o m preferred)
  prefer-Filed none m preferred e h =
      Everywhere-put (λ p. (p.0 ≡ p.1.2) × IsEligible Q entry_id current_uids p.1) m.2 m preferred h
        (refl, e)
  prefer-Filed (some previous) m preferred e h =
      elim (Bool-cases (ltb (number_or_last m.1) (number_or_last previous.1))) [
        | inl f ↦ rw f (
            Everywhere-put (λ p. (p.0 ≡ p.1.2) × IsEligible Q entry_id current_uids p.1) m.2 m
              preferred h (refl, e))
        | inr f ↦ rw f h
      ]

  prefer_lowest-Filed :
      (ms : List Merge) (preferred : Dict Merge)
      → Eligible ms
      → Filed preferred
      → Filed (prefer_lowest ms preferred)
  unfolding prefer_lowest
  prefer_lowest-Filed [] preferred e h = h
  prefer_lowest-Filed (m ∷ ms) preferred (e, k) h =
      prefer_lowest-Filed ms (prefer (lookup m.2 preferred) m preferred) k
        (prefer-Filed (lookup m.2 preferred) m preferred e h)

  values-Eligible : (preferred : Dict Merge) → Filed preferred → Eligible (values preferred)
  unfolding values
  values-Eligible [] h = tt
  values-Eligible ((base, m) ∷ preferred) ((_, e), h) = (e, values-Eligible preferred h)

  -- Every merge that is proposed gives a numbered entity of a connection on the box its own base id,
  -- and removes for it an entity that has that id, is of the same config entry, and whose connection
  -- is another one that the box does not list. Both have whatever property all entities of the
  -- config entry have.
  pub get_orphan_base_suffix_merges-AreEligible :
      (regs : Registries)
      → Everywhere Q (regs.entries entry_id)
      → Everywhere
          (IsEligible Q entry_id current_uids)
          (get_orphan_base_suffix_merges regs entry_id current_uids)
  unfolding get_orphan_base_suffix_merges
  get_orphan_base_suffix_merges-AreEligible regs q =
      let own = by_entity_id (regs.entries entry_id) [] in
      values-Eligible
        (prefer_lowest (candidates entry_id current_uids own (regs.entries entry_id)) [])
        (prefer_lowest-Filed (candidates entry_id current_uids own (regs.entries entry_id)) []
          (candidates-Eligible own (regs.entries entry_id)
            (by_entity_id-IsFiled Q (regs.entries entry_id) [] q tt) q)
          tt)
