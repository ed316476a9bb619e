-- ===== src/Registry/Repairs/Safe.antt =====
-- custom_components/fritzbox_vpn/entity_registry.py: what a repair or a clean-up may touch.
use fritzbox_vpn.Base.{
  ◌≡◌, refl, inl, inr, Bool, true, false, not, ◌&&◌, Option, none, some, is_some, get_or, List, [],
  ◌∷◌, String, Dict, ◌==◌, lookup, if◌then◌else◌, Bool-cases, arith, Everywhere, Everywhere-append,
  Everywhere-put, Everywhere-lookup,
}
use fritzbox_vpn.Registry.State.{Entity, Registries}
use fritzbox_vpn.Registry.EntityIds.{entity_id_base}
use fritzbox_vpn.Registry.Repairs.{
  by_entity_id, group, suffixed_by_base, precedes, preferred_of, Repair, repair_base, repair_group,
  repairs_of, get_entity_id_suffix_repairs,
}

-- A repair renames a numbered entity to its own base id. It removes what has that id only where the
-- caller allows it; otherwise no entity has it.
pub record IsSafe (regs : Registries) (allow : Bool) (r : Repair) : Type 0 where
  pub own_base : entity_id_base r.0.entity_id ≡ some r.1
  pub free_or_allowed : (if r.2 then allow else not (is_some (regs.entity r.1))) ≡ true

abbrev HasBase : String → Entity → Type 0
HasBase base entry = entity_id_base entry.entity_id ≡ some base

abbrev IsGroup : String × List Entity → Type 0
IsGroup (base, entries) = Everywhere (HasBase base) entries

better-HasBase :
    (base : String) (b : Bool) (entry first : Entity)
    → HasBase base entry
    → HasBase base first
    → HasBase base (if b then entry else first)
better-HasBase base true entry first p h = p
better-HasBase base false entry first p h = h

preferred-HasBase :
    (base : String) (first : Entity) (entries : List Entity)
    → HasBase base first
    → Everywhere (HasBase base) entries
    → HasBase base (preferred_of first entries)
unfolding preferred_of
preferred-HasBase base first [] h k = h
preferred-HasBase base first (entry ∷ entries) h (p, k) =
    preferred-HasBase base (if precedes entry first then entry else first) entries
      (better-HasBase base (precedes entry first) entry first p h) k

group-IsGroup :
    (o : Option String) (entry : Entity) (groups : Dict (List Entity))
    → entity_id_base entry.entity_id ≡ o
    → Everywhere IsGroup groups
    → Everywhere IsGroup (group o entry groups)
group-IsGroup none entry groups e h = h
group-IsGroup (some base) entry groups e h = Everywhere-put IsGroup base _ groups h (
    Everywhere-append (HasBase base) (get_or (lookup base groups) []) (entry ∷ [])
      (before (lookup base groups) refl) (e, tt))
  where
    before :
        (o : Option (List Entity))
        → lookup base groups ≡ o
        → Everywhere (HasBase base) (get_or o [])
    before none k = tt
    before (some entries) k = Everywhere-lookup IsGroup base entries groups h k

suffixed-IsGroup :
    (entries : List Entity) (groups : Dict (List Entity))
    → Everywhere IsGroup groups
    → Everywhere IsGroup (suffixed_by_base entries groups)
unfolding suffixed_by_base
suffixed-IsGroup [] groups h = h
suffixed-IsGroup (entry ∷ entries) groups h =
    suffixed-IsGroup entries (group (entity_id_base entry.entity_id) entry groups)
      (group-IsGroup (entity_id_base entry.entity_id) entry groups refl h)

module _ (regs : Registries) (entry_id : String) (allow : Bool) where
  base-IsSafe :
      (base : String) (preferred : Entity) (own : Option Entity)
      → HasBase base preferred
      → Everywhere (IsSafe regs allow) (repair_base regs entry_id allow base preferred own)
  base-IsSafe base preferred none h = elim (Bool-cases (is_some (regs.entity base))) [
    | inl e ↦ rw e tt
    | inr e ↦ rw e (record { own_base = h; free_or_allowed = rw e refl }, tt)
  ]
  base-IsSafe base preferred (some own) h = elim (Bool-cases (own.id == preferred.id)) [
    | inl e ↦ rw e tt
    | inr e ↦
        rw e
          (elim (Bool-cases
            (allow && (get_or own.config_entry_id "" == entry_id && is_some own.config_entry_id))) [
              | inl f ↦ rw f (record { own_base = h; free_or_allowed = ground (arith, f) }, tt)
              | inr f ↦ rw f tt
            ])
  ]

  repairs-IsSafe :
      (own : Dict Entity) (groups : Dict (List Entity))
      → Everywhere IsGroup groups
      → Everywhere (IsSafe regs allow) (repairs_of regs entry_id allow own groups)
  unfolding repairs_of
  repairs-IsSafe own [] h = tt
  repairs-IsSafe own ((base, []) ∷ groups) (g, h) = repairs-IsSafe own groups h
  repairs-IsSafe own ((base, first ∷ entries) ∷ groups) ((p, g), h) =
      Everywhere-append (IsSafe regs allow)
        (repair_group regs entry_id allow base (first ∷ entries) (lookup base own)) _
        (base-IsSafe base (preferred_of first entries) (lookup base own)
          (preferred-HasBase base first entries p g))
        (repairs-IsSafe own groups h)

  -- Every repair that is proposed renames a numbered entity to its own base id; and where the caller
  -- does not allow to replace, that base id is free and nothing is removed.
  pub get_entity_id_suffix_repairs-IsSafe :
      Everywhere (IsSafe regs allow) (get_entity_id_suffix_repairs regs entry_id allow)
  unfolding get_entity_id_suffix_repairs
  get_entity_id_suffix_repairs-IsSafe =
      repairs-IsSafe (by_entity_id (regs.entries entry_id) [])
        (suffixed_by_base (regs.entries entry_id) [])
        (suffixed-IsGroup (regs.entries entry_id) [] tt)
