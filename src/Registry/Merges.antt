-- ===== src/Registry/Merges.antt =====
-- custom_components/fritzbox_vpn/entity_registry.py: orphaned entities whose id a numbered one takes.
pub mod Eligible
pub mod Lowest
use fritzbox_vpn.Base.{
  ℕ, Bool, true, false, not, ◌&&◌, Option, none, some, get_or, List, [], ◌∷◌, ◌++◌, String, Dict,
  ◌==◌, lookup, put, elem, is_some, ltb, if◌then◌else◌,
}
use fritzbox_vpn.Registry.State.{Entity, Registries}
use fritzbox_vpn.Registry.EntityIds.{entity_id_base}
use fritzbox_vpn.Registry.Repairs.{uid_of, by_entity_id, number_or_last}

-- The orphaned base entity, the live entity with a number, and the base id.
abbrev pub Merge : Type 0
Merge = Entity × Entity × String

-- `x != entry_id`, where `None` is no entry id
abbrev pub is_of_entry : Option String → String → Bool
is_of_entry none entry_id = false
is_of_entry (some x) entry_id = x == entry_id

abbrev pub are_eligible : Option String → Option String → List String → Bool
are_eligible (some base_uid) (some live_uid) current_uids =
    not (elem base_uid current_uids) && (elem live_uid current_uids && not (base_uid == live_uid))
are_eligible _ _ current_uids = false

abbrev pub merge_with :
    String → List String → Entity → String → Option Entity → List Merge → List Merge
merge_with entry_id current_uids entry base none rest = rest
merge_with entry_id current_uids entry base (some base_entry) rest =
    if is_of_entry base_entry.config_entry_id entry_id
      && are_eligible (uid_of base_entry) (uid_of entry) current_uids
    then (base_entry, entry, base) ∷ rest
    else rest

abbrev pub merge_to :
    String → List String → Dict Entity → Entity → Option String → List Merge → List Merge
merge_to entry_id current_uids own entry none rest = rest
merge_to entry_id current_uids own entry (some base) rest =
    merge_with entry_id current_uids entry base (lookup base own) rest

unfoldable pub candidates : String → List String → Dict Entity → List Entity → List Merge
candidates entry_id current_uids own [] = []
candidates entry_id current_uids own (entry ∷ entries) =
    merge_to entry_id current_uids own entry (entity_id_base entry.entity_id)
      (candidates entry_id current_uids own entries)

abbrev pub prefer : Option Merge → Merge → Dict Merge → Dict Merge
prefer none m preferred = put m.2 m preferred
prefer (some previous) m preferred =
    if ltb (number_or_last m.1) (number_or_last previous.1) then put m.2 m preferred else preferred

-- The lowest number for each base id.
unfoldable pub prefer_lowest : List Merge → Dict Merge → Dict Merge
prefer_lowest [] preferred = preferred
prefer_lowest (m ∷ ms) preferred = prefer_lowest ms (prefer (lookup m.2 preferred) m preferred)

unfoldable pub values : Dict Merge → List Merge
values [] = []
values ((base, m) ∷ preferred) = m ∷ values preferred

-- With the current uids, given or read from the coordinator.
unfoldable pub get_orphan_base_suffix_merges : Registries → String → List String → List Merge
unfolding candidates prefer_lowest values
get_orphan_base_suffix_merges regs entry_id current_uids =
    let all_entries = regs.entries entry_id in
    values (
      prefer_lowest (candidates entry_id current_uids (by_entity_id all_entries []) all_entries) [])
