-- ===== src/Registry/Repairs.antt =====
-- custom_components/fritzbox_vpn/entity_registry.py: which entities are orphaned, unexpected, or have
-- an id to repair.
pub mod Safe
pub mod Kept
use Prim.Native.Nat.{Ordering}
use Prim.Native.String.{compare}
use fritzbox_vpn.Base.{
  ℕ, Bool, true, false, not, ◌&&◌, ◌||◌, Option, none, some, is_some, get_or, List, [], ◌∷◌, ◌++◌,
  String, Dict, ◌==◌, lookup, put, elem, add, starts_with, ltb, nat_eq, if◌then◌else◌,
}
use fritzbox_vpn.UidIdentity.{unique_id_prefix}
use fritzbox_vpn.Registry.State.{Entity, Device, Registries, or_empty, is_text}
use fritzbox_vpn.Registry.Ids.{connection_uid_from_entity_unique_id}
use fritzbox_vpn.Registry.EntityIds.{
  expected_entity_id_for_registry_entry, entity_id_base, entity_id_suffix_number,
}

-- The connection that an entity belongs to.
abbrev pub uid_of : Entity → Option String
uid_of entry = connection_uid_from_entity_unique_id (or_empty entry.unique_id)

abbrev pub is_missing : Option String → List String → Bool
is_missing none current_uids = false
is_missing (some uid) current_uids = not (elem uid current_uids)

abbrev pub is_current : Option String → List String → Bool
is_current none current_uids = false
is_current (some uid) current_uids = elem uid current_uids

unfoldable pub orphaned : List String → List Entity → List Entity
orphaned current_uids [] = []
orphaned current_uids (entry ∷ entries) =
    let rest = orphaned current_uids entries in
    if is_missing (uid_of entry) current_uids then entry ∷ rest else rest

-- With the current uids, given or read from the coordinator.
unfoldable pub get_orphaned_entity_entries : Registries → String → List String → List Entity
unfolding orphaned
get_orphaned_entity_entries regs entry_id current_uids =
    orphaned current_uids (regs.entries entry_id)

abbrev pub is_unexpected : Entity → Bool
is_unexpected entry =
    starts_with (or_empty entry.unique_id) unique_id_prefix && not (is_some (uid_of entry))

-- The entities that `remove_unexpected_entity_entries` removes.
unfoldable pub unexpected_entries : List Entity → List Entity
unexpected_entries [] = []
unexpected_entries (entry ∷ entries) =
    let rest = unexpected_entries entries in if is_unexpected entry then entry ∷ rest else rest

abbrev pub add_uid : Option String → List String → List String
add_uid none uids = uids
add_uid (some uid) uids = add uid uids

unfoldable pub uids_from_entity_entries : List Entity → List String → List String
uids_from_entity_entries [] uids = uids
uids_from_entity_entries (entry ∷ entries) uids =
    uids_from_entity_entries entries (add_uid (uid_of entry) uids)

abbrev repair_to :
    Registries → Entity → Option String → List (Entity × String) → List (Entity × String)
repair_to regs entry none rest = rest
repair_to regs entry (some target) rest =
    if entry.entity_id == target || is_some (regs.entity target)
    then rest
    else (entry, target) ∷ rest

unfoldable pub legacy_repairs : Registries → List Entity → List (Entity × String)
legacy_repairs regs [] = []
legacy_repairs regs (entry ∷ entries) =
    repair_to regs entry (expected_entity_id_for_registry_entry regs entry)
      (legacy_repairs regs entries)

unfoldable pub get_legacy_entity_object_id_repairs : Registries → String → List (Entity × String)
unfolding legacy_repairs
get_legacy_entity_object_id_repairs regs entry_id = legacy_repairs regs (regs.entries entry_id)

-- `{e.entity_id: e for e in entries}`
unfoldable pub by_entity_id : List Entity → Dict Entity → Dict Entity
by_entity_id [] found = found
by_entity_id (entry ∷ entries) found = by_entity_id entries (put entry.entity_id entry found)

-- `suffixed_by_base.setdefault(base, []).append(entry)`
abbrev group : Option String → Entity → Dict (List Entity) → Dict (List Entity)
group none entry groups = groups
group (some base) entry groups = put base (get_or (lookup base groups) [] ++ entry ∷ []) groups

unfoldable pub suffixed_by_base : List Entity → Dict (List Entity) → Dict (List Entity)
suffixed_by_base [] groups = groups
suffixed_by_base (entry ∷ entries) groups =
    suffixed_by_base entries (group (entity_id_base entry.entity_id) entry groups)

-- `entity_id_suffix_number(…) or 10_000`
unfoldable pub number_or_last : Entity → ℕ
number_or_last entry = elim (entity_id_suffix_number entry.entity_id) [
  | none ↦ 10000
  | some n ↦ if nat_eq n 0 then 10000 else n
]

abbrev pub is_less : String → String → Bool
is_less s t = elim (compare s t) [ Ordering.lt ↦ true | _ ↦ false ]

abbrev pub precedes : Entity → Entity → Bool
precedes a b =
    ltb (number_or_last a) (number_or_last b)
    || (nat_eq (number_or_last a) (number_or_last b) && is_less a.entity_id b.entity_id)

-- `sorted(entries, key=…)[0]`, of which `first` is the first
unfoldable pub preferred_of : Entity → List Entity → Entity
preferred_of first [] = first
preferred_of first (entry ∷ entries) =
    preferred_of (if precedes entry first then entry else first) entries

abbrev pub Repair : Type 0
Repair = Entity × String × Bool

-- One base with its preferred entity; `own` is the entity of this entry that has the base id.
abbrev pub repair_base : Registries → String → Bool → String → Entity → Option Entity → List Repair
repair_base regs entry_id allow_replace_base base preferred none =
    if is_some (regs.entity base) then [] else (preferred, base, false) ∷ []
repair_base regs entry_id allow_replace_base base preferred (some own) =
    if own.id == preferred.id
    then []
    else if allow_replace_base
        && (get_or own.config_entry_id "" == entry_id && is_some own.config_entry_id)
    then (preferred, base, true) ∷ []
    else []

abbrev pub repair_group :
    Registries → String → Bool → String → List Entity → Option Entity → List Repair
repair_group regs entry_id allow base [] own = []
repair_group regs entry_id allow base (first ∷ entries) own =
    repair_base regs entry_id allow base (preferred_of first entries) own

unfoldable pub repairs_of :
    Registries → String → Bool → Dict Entity → Dict (List Entity) → List Repair
unfolding preferred_of
repairs_of regs entry_id allow own [] = []
repairs_of regs entry_id allow own ((base, entries) ∷ groups) =
    repair_group regs entry_id allow base entries (lookup base own)
    ++ repairs_of regs entry_id allow own groups

unfoldable pub get_entity_id_suffix_repairs : Registries → String → Bool → List Repair
unfolding repairs_of by_entity_id suffixed_by_base
get_entity_id_suffix_repairs regs entry_id allow_replace_base =
    let all_entries = regs.entries entry_id in
    repairs_of regs entry_id allow_replace_base (by_entity_id all_entries [])
      (suffixed_by_base all_entries [])
