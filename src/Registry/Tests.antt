-- ===== src/Registry/Tests.antt =====
-- Runs of entity_registry.py over two small registries.
use fritzbox_vpn.Base.{
  ◌≡◌, refl, Bool, true, false, ◌&&◌, Option, none, some, List, [], ◌∷◌, String, Dict, ◌==◌, ◌⊕◌,
  lookup, put, add, keys, elem, distinct, ends_with, if◌then◌else◌, Everywhere,
}
use fritzbox_vpn.UidIdentity.{entity_unique_id}
use fritzbox_vpn.Registry.State.{Entity, Registries}
use fritzbox_vpn.Registry.Ids.{
  first_suffix, unique_id_suffixes, unique_id_suffix_from_entity_unique_id,
  connection_uid_from_entity_unique_id,
}
use fritzbox_vpn.Registry.Ids.RoundTrip.{connection_uid-entity_unique_id, unique_ids_collide}
use fritzbox_vpn.Registry.Remap.{remap_connection_uids}
use fritzbox_vpn.Registry.Remap.Moved.{IsRemapped, remap_connection_uids-IsRemapped}
use fritzbox_vpn.Registry.Repairs.{
  by_entity_id, get_entity_id_suffix_repairs, get_legacy_entity_object_id_repairs,
}
use fritzbox_vpn.Registry.EntityIds.{expected_entity_id_for_registry_entry, entity_id_base}
use fritzbox_vpn.Registry.Home.{resolve_current_uids, runtime_from_hass, runtime_of_loaded}
use fritzbox_vpn.Registry.Merges.{get_orphan_base_suffix_merges}
use fritzbox_vpn.Registry.Merges.Eligible.{IsEligible, get_orphan_base_suffix_merges-AreEligible}
use fritzbox_vpn.Runtime.{Runtime}
use fritzbox_vpn.Session.Listing.{Connections}
use fritzbox_vpn.Registry.Carried.{repair_entity_ids}
use fritzbox_vpn.Registry.Carried.Keeps.{IsOrphan, repair_entity_ids-Keeps}
use fritzbox_vpn.Registry.Removal.{remove_orphaned_entities}
use fritzbox_vpn.Registry.Removal.Forgotten.{
  IsForgotten, IsApart, remove_orphaned_entities-IsForgotten,
}
use fritzbox_vpn.Registry.Sample.{World, Tracked, data_of, assign, sample, find, rename_or_raise}

abbrev entity_of : String → String → String → Entity
entity_of id entity_id unique_id = record {
  id = id;
  entity_id = entity_id;
  domain = "switch";
  unique_id = some unique_id;
  device_id = none;
  config_entry_id = some "entry";
}

-- The switch of a connection that is gone, the one of its successor, and a broken one.
abbrev old_switch : Entity
old_switch = entity_of "1" "switch.home" "fritzbox_vpn_a_switch"

abbrev new_switch : Entity
new_switch = entity_of "2" "switch.home_2" "fritzbox_vpn_b_switch"

abbrev broken : Entity
broken = entity_of "3" "switch.home_3" "fritzbox_vpn_a"

abbrev entities : List Entity
entities = old_switch ∷ new_switch ∷ broken ∷ []

abbrev taken : String → Option String
taken unique_id = if unique_id == "fritzbox_vpn_b_switch" then some "switch.home_2" else none

abbrev small : Registries
small = record {
  entries = λ entry_id. entities;
  entity = λ entity_id. if entity_id == "switch.home" then some old_switch else none;
  entity_id_of = λ domain unique_id. taken unique_id;
  device = λ id. none;
  device_with = λ identifiers. none;
  slugify = λ name. name;
}

known_suffix : elem "status" unique_id_suffixes ≡ true
unfolding elem
known_suffix = refl

no_clash : ("status" == "uid" && ends_with "office_vpn" "_vpn") ≡ false
no_clash = refl

connection_uid-entity_unique_id_example :
    (unique_id_suffix_from_entity_unique_id (entity_unique_id "office_vpn" "status")
      ≡ some "status")
    × (connection_uid_from_entity_unique_id (entity_unique_id "office_vpn" "status")
        ≡ some "office_vpn")
connection_uid-entity_unique_id_example =
    connection_uid-entity_unique_id "office_vpn" "status" known_suffix no_clash

unique_ids_collide_example :
    (entity_unique_id ("office" ⊕ "_vpn") "uid" ≡ entity_unique_id "office" "vpn_uid")
    × (connection_uid_from_entity_unique_id (entity_unique_id ("office" ⊕ "_vpn") "uid")
        ≡ some "office")
unique_ids_collide_example = unique_ids_collide "office"

abbrev moves : Dict String
moves = ("a", "c") ∷ ("b", "d") ∷ []

moves-IsDistinct : distinct (keys moves) ≡ true
unfolding distinct keys elem
moves-IsDistinct = refl

remap_connection_uids-IsRemapped_example :
    IsRemapped small "entry" true moves (remap_connection_uids small "entry" true moves)
remap_connection_uids-IsRemapped_example =
    remap_connection_uids-IsRemapped small "entry" true moves moves-IsDistinct

abbrev IsSwitch : Entity → Type 0
IsSwitch entry = entry.domain ≡ "switch"

get_orphan_base_suffix_merges-AreEligible_example :
    Everywhere
      (IsEligible IsSwitch "entry" ("b" ∷ []))
      (get_orphan_base_suffix_merges small "entry" ("b" ∷ []))
get_orphan_base_suffix_merges-AreEligible_example =
    get_orphan_base_suffix_merges-AreEligible IsSwitch "entry" ("b" ∷ []) small
      (refl, (refl, (refl, tt)))

-- Connection b is listed, and the switches know both.
abbrev tracked : Runtime
tracked = record {
  known_uids_switch = "a" ∷ "b" ∷ [];
  known_uids_sensor = [];
  known_uids_binary_sensor = "a" ∷ [];
}

abbrev house : World
house = record {
  entities = entities;
  loaded = true;
  tracked = some (tracked, some (("b", []) ∷ []));
  removed = [];
}

-- The orphaned switch is removed and its id is taken over.
merge_run :
    let (messages, w) = repair_entity_ids sample "entry" house in
    (messages ≡ "switch.home_2 → switch.home" ∷ []) × (w.removed ≡ "switch.home" ∷ [])
unfolding repair_entity_ids get_legacy_entity_object_id_repairs
    expected_entity_id_for_registry_entry unique_id_suffix_from_entity_unique_id first_suffix
    ends_with resolve_current_uids get_orphan_base_suffix_merges entity_id_base lookup by_entity_id
    put connection_uid_from_entity_unique_id elem keys get_entity_id_suffix_repairs add
merge_run = (refl, refl)

-- What was removed had, at some time, the id of an orphaned entity.
abbrev WasOrphan : String → Type 0
WasOrphan entity_id =
    (seen : World) × ((entry : Entity) × ((entry.entity_id ≡ entity_id)
        × IsOrphan sample "entry" seen entry))

abbrev OnlyOrphans : World → Type 0
OnlyOrphans w = Everywhere WasOrphan w.removed

rename-OnlyOrphans :
    (o : Option Entity) (from to : String) (w : World)
    → OnlyOrphans w
    → OnlyOrphans (rename_or_raise o from to w).1
rename-OnlyOrphans none from to w h = h
rename-OnlyOrphans (some e) from to w h = h

repair_entity_ids-Keeps_example : OnlyOrphans (repair_entity_ids sample "entry" house).1
repair_entity_ids-Keeps_example =
    repair_entity_ids-Keeps sample OnlyOrphans
      (λ from to w h. rename-OnlyOrphans (find to w.entities) from to w h) "entry"
      (λ seen w entry o h. ((seen, (entry, (refl, o))), h)) (λ w device e h. h) house tt

assigned :
    (loaded : Bool) (r old : Runtime) (t : Tracked) (connections : Option Connections)
    → runtime_of_loaded (some (record { is_loaded = loaded; runtime_data = data_of t }))
      ≡ some (old, connections)
    → runtime_of_loaded (some (record { is_loaded = loaded; runtime_data = data_of (assign r t) }))
      ≡ some (r, connections)
assigned false r old t connections e = cc e
assigned true r old none connections e = cc e
assigned true r old (some (s, found)) connections e = cc e

sample-IsApart : IsApart sample "entry"
sample-IsApart = record {
  removed = λ id w. refl;
  device_removed = λ id w. refl;
  assigned = λ r old connections w e. assigned w.loaded r old w.tracked connections e;
}

remove_orphaned_entities-IsForgotten_example :
    let (end, w) = remove_orphaned_entities sample "entry" (old_switch ∷ []) true house in
    IsForgotten end
      (old_switch ∷ [])
      (runtime_from_hass sample house "entry")
      (runtime_from_hass sample w "entry")
remove_orphaned_entities-IsForgotten_example =
    remove_orphaned_entities-IsForgotten sample "entry" sample-IsApart (old_switch ∷ []) house
