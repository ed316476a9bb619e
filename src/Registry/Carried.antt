-- ===== src/Registry/Carried.antt =====
-- custom_components/fritzbox_vpn/entity_registry.py: the repairs and merges, carried out one by one. A
-- change that raises is skipped.
pub mod Keeps
use fritzbox_vpn.Base.{
  ℕ, zero, suc, ◌+◌, Bool, true, false, Option, none, some, List, [], ◌∷◌, ◌++◌, String, ◌⊕◌, add,
}
use fritzbox_vpn.Outcome.{Outcome, ok, raised, Exec, ◌>>=◌, ◌>>◌}
use fritzbox_vpn.Registry.State.{Entity, Device, Registries, identifier}
use fritzbox_vpn.Registry.Repairs.{
  Repair, uid_of, orphaned, get_orphaned_entity_entries, get_legacy_entity_object_id_repairs,
  get_entity_id_suffix_repairs,
}
use fritzbox_vpn.Registry.Merges.{Merge, get_orphan_base_suffix_merges}
use fritzbox_vpn.Registry.Home.{Home, Current, current, unknown, resolve_current_uids}

abbrev pub length {ℓ} : {A : Type ℓ} → List A → ℕ
length [] = 0
length (x ∷ xs) = suc (length xs)

abbrev pub arrow : String → String → String
arrow from to = from ⊕ " → " ⊕ to

abbrev pub add_orphan : Option String → List String → List String
add_orphan none uids = uids
add_orphan (some uid) uids = add uid uids

-- The uids of the base entities.
unfoldable pub orphan_uids : List Merge → List String → List String
orphan_uids [] uids = uids
orphan_uids (m ∷ ms) uids = orphan_uids ms (add_orphan (uid_of m.0) uids)

module _ (home : Home) where
  -- The messages of what was done.
  abbrev pub carried : String → Outcome (Unit {0}) × home.World → List String × home.World
  carried done (ok u, w) = (done ∷ [], w)
  carried done (raised e, w) = ([], w)

  abbrev pub after : List String → List String × home.World → List String × home.World
  after before (messages, w) = (before ++ messages, w)

  unfoldable pub rename_all : List (Entity × String) → home.World → List String × home.World
  rename_all [] w = ([], w)
  rename_all ((entry, target) ∷ repairs) w =
      let first = carried (arrow entry.entity_id target) (home.rename entry.entity_id target w) in
      after first.0 (rename_all repairs first.1)

  unfoldable pub repair_legacy_entity_object_ids : String → home.World → List String × home.World
  unfolding rename_all
  repair_legacy_entity_object_ids entry_id w =
      rename_all (get_legacy_entity_object_id_repairs (home.registries w) entry_id) w

  abbrev pub replace : Repair → Exec home.World (Unit {0})
  replace (entry, base, true) = home.remove base >> home.rename entry.entity_id base
  replace (entry, base, false) = home.rename entry.entity_id base

  unfoldable pub replace_all : List Repair → home.World → List String × home.World
  replace_all [] w = ([], w)
  replace_all (r ∷ repairs) w =
      let first = carried (arrow r.0.entity_id r.1) (replace r w) in
      after first.0 (replace_all repairs first.1)

  unfoldable pub repair_entity_id_suffixes : String → Bool → home.World → List String × home.World
  unfolding replace_all
  repair_entity_id_suffixes entry_id allow_replace_base w =
      replace_all (get_entity_id_suffix_repairs (home.registries w) entry_id allow_replace_base) w

  abbrev pub merge : Merge → Exec home.World (Unit {0})
  merge (base_entry, entry, base) =
      home.remove base_entry.entity_id >> home.rename entry.entity_id base

  unfoldable pub merge_all : List Merge → home.World → List String × home.World
  merge_all [] w = ([], w)
  merge_all (m ∷ merges) w =
      let first = carried (arrow m.1.entity_id m.2) (merge m w) in
      after first.0 (merge_all merges first.1)

  abbrev pub remove_if_empty : Device → List Entity → home.World → home.World
  remove_if_empty device [] w = home.remove_device device.id w
  remove_if_empty device (entry ∷ entries) w = w

  abbrev pub remove_empty : Option Device → home.World → home.World
  remove_empty none w = w
  remove_empty (some device) w = remove_if_empty device (home.device_entities w device.id) w

  unfoldable pub remove_empty_devices : String → List String → home.World → home.World
  remove_empty_devices entry_id [] w = w
  remove_empty_devices entry_id (uid ∷ uids) w =
      remove_empty_devices entry_id uids
        (remove_empty ((home.registries w).device_with (identifier entry_id uid)) w)

  -- The proposed merges; without current uids there are none.
  abbrev pub merges_for : Current → String → home.World → List Merge
  merges_for (unknown key) entry_id w = []
  merges_for (current uids) entry_id w =
      get_orphan_base_suffix_merges (home.registries w) entry_id uids

  abbrev pub with_devices :
      String → List String → List String × home.World → List String × home.World
  with_devices entry_id uids (messages, w) = (messages, remove_empty_devices entry_id uids w)

  abbrev pub carry_merges : String → List Merge → home.World → List String × home.World
  carry_merges entry_id merges w =
      with_devices entry_id (orphan_uids merges []) (merge_all merges w)

  unfoldable pub repair_orphan_base_suffix_merges : String → home.World → List String × home.World
  unfolding merge_all remove_empty_devices orphan_uids
  repair_orphan_base_suffix_merges entry_id w =
      carry_merges entry_id (merges_for (resolve_current_uids home entry_id w) entry_id w) w

  abbrev pub then_repair :
      (home.World → List String × home.World) → List String × home.World → List String × home.World
  then_repair f (messages, w) = after messages (f w)

  unfoldable pub repair_entity_ids : String → home.World → List String × home.World
  unfolding repair_legacy_entity_object_ids repair_orphan_base_suffix_merges
      repair_entity_id_suffixes
  repair_entity_ids entry_id w = then_repair (repair_entity_id_suffixes entry_id false) (
      then_repair (repair_orphan_base_suffix_merges entry_id)
        (repair_legacy_entity_object_ids entry_id w))

  unfoldable pub count_repairable_entity_issues : String → home.World → ℕ
  count_repairable_entity_issues entry_id w =
      length (get_legacy_entity_object_id_repairs (home.registries w) entry_id)
      + length (merges_for (resolve_current_uids home entry_id w) entry_id w)
      + length (get_entity_id_suffix_repairs (home.registries w) entry_id false)

  abbrev pub count_both : ℕ → List String × home.World → ℕ × home.World
  count_both merged (repaired, w) = (merged + length repaired, w)

  abbrev pub then_suffixes : String → List String × home.World → ℕ × home.World
  then_suffixes entry_id (merged, w) =
      count_both (length merged) (repair_entity_id_suffixes entry_id false w)

  -- `_repair_entity_ids_before_platform_setup` of __init__.py
  unfoldable pub repair_entity_ids_before_platform_setup : String → home.World → ℕ × home.World
  unfolding repair_orphan_base_suffix_merges repair_entity_id_suffixes
  repair_entity_ids_before_platform_setup entry_id w =
      then_suffixes entry_id (repair_orphan_base_suffix_merges entry_id w)
