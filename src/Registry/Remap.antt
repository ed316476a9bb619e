-- ===== src/Registry/Remap.antt =====
-- custom_components/fritzbox_vpn/entity_registry.py: connections get new uids in the registries.
pub mod Planned
pub mod Applied
pub mod Identifiers
pub mod Renamed
pub mod Moved
use fritzbox_vpn.Base.{
  Bool, true, false, not, ◌&&◌, ◌||◌, Option, none, some, is_some, get_or, List, [], ◌∷◌, ◌++◌,
  String, Dict, ◌==◌, lookup, put, keys, elem, add, is_empty, if◌then◌else◌,
}
use fritzbox_vpn.UidIdentity.{entity_unique_id}
use fritzbox_vpn.Registry.State.{
  Entity, Device, Registries, Change, update_unique_id, update_identifiers, remap_known_uids,
  identifier, or_empty, is_text,
}
use fritzbox_vpn.Registry.Ids.{
  unique_id_suffix_from_entity_unique_id, connection_uid_from_entity_unique_id,
}

pub record Plan : Type 0 where
  pub planned_entities : Dict (List (Entity × String))
  pub planned_devices : Dict Device
  pub conflicted : List String

-- What one entity is: not of the remap, or of an old uid with its new unique id.
abbrev pub move_to : Option String → Option String → Option String → Option (String × String)
move_to (some old_uid) (some suffix) (some new_uid) =
    some (old_uid, entity_unique_id new_uid suffix)
move_to _ _ _ = none

abbrev pub new_uid_of : Dict String → Option String → Option String
new_uid_of old_to_new none = none
new_uid_of old_to_new (some old_uid) = lookup old_uid old_to_new

unfoldable pub move_of : Dict String → Entity → Option (String × String)
move_of old_to_new entry =
    let unique_id = or_empty entry.unique_id in
    let old_uid = connection_uid_from_entity_unique_id unique_id in
    move_to old_uid (unique_id_suffix_from_entity_unique_id unique_id)
      (new_uid_of old_to_new old_uid)

-- `planned_entities.setdefault(old_uid, []).append(…)`, unless the new unique id is taken
abbrev pub plan_move : Registries → Entity → Option (String × String) → Plan → Plan
plan_move regs entry none plan = plan
plan_move regs entry (some (old_uid, new_unique_id)) plan =
    if is_text (regs.entity_id_of entry.domain new_unique_id)
    then record plan { conflicted = add old_uid plan.conflicted }
    else record plan {
      planned_entities =
          put old_uid
            (get_or (lookup old_uid plan.planned_entities) [] ++ (entry, new_unique_id) ∷ [])
            plan.planned_entities;
    }

unfoldable pub plan_entities : Registries → Dict String → List Entity → Plan → Plan
plan_entities regs old_to_new [] plan = plan
plan_entities regs old_to_new (entry ∷ entries) plan =
    plan_entities regs old_to_new entries (plan_move regs entry (move_of old_to_new entry) plan)

abbrev pub is_other : Option Device → Device → Bool
is_other none device = false
is_other (some existing_new) device = not (existing_new.id == device.id)

abbrev pub plan_device : String → Option Device → Option Device → Plan → Plan
plan_device old_uid none existing_new plan = plan
plan_device old_uid (some device) existing_new plan =
    if is_other existing_new device
    then record plan { conflicted = add old_uid plan.conflicted }
    else record plan { planned_devices = put old_uid device plan.planned_devices }

unfoldable pub plan_devices : Registries → String → Dict String → Plan → Plan
plan_devices regs entry_id [] plan = plan
plan_devices regs entry_id ((old_uid, new_uid) ∷ old_to_new) plan =
    plan_devices regs entry_id old_to_new (
      plan_device old_uid (regs.device_with (identifier entry_id old_uid))
        (regs.device_with (identifier entry_id new_uid)) plan)

abbrev pub same_identifier : List String → List String → Bool
same_identifier [] [] = true
same_identifier (x ∷ xs) (y ∷ ys) = let rest = same_identifier xs ys in x == y && rest
same_identifier _ _ = false

-- `new_identifiers.discard(x)` and `new_identifiers.add(x)`
unfoldable pub discard_identifier : List String → List (List String) → List (List String)
discard_identifier x [] = []
discard_identifier x (y ∷ ys) =
    let rest = discard_identifier x ys in if same_identifier y x then rest else y ∷ rest

unfoldable pub has_identifier : List String → List (List String) → Bool
has_identifier x [] = false
has_identifier x (y ∷ ys) = let rest = has_identifier x ys in same_identifier y x || rest

unfoldable pub add_identifier : List String → List (List String) → List (List String)
unfolding has_identifier
add_identifier x s = if has_identifier x s then s else s ++ x ∷ []

unfoldable pub entity_changes : List (Entity × String) → List Change
entity_changes [] = []
entity_changes ((entry, new_unique_id) ∷ plans) =
    update_unique_id entry.entity_id new_unique_id ∷ entity_changes plans

abbrev pub device_changes : String → String → String → Option Device → List Change
device_changes entry_id old_uid new_uid none = []
device_changes entry_id old_uid new_uid (some device) =
    update_identifiers device.id (
      add_identifier (identifier entry_id new_uid)
        (discard_identifier (identifier entry_id old_uid) device.identifiers))
    ∷ []

-- The uids that can move, whole.
unfoldable pub can_move : Plan → String → Bool
can_move plan old_uid =
    not (elem old_uid plan.conflicted)
    && not (
        is_empty (get_or (lookup old_uid plan.planned_entities) [])
        && not (is_some (lookup old_uid plan.planned_devices)))

abbrev pub move_pair :
    String → Plan → String → String → Bool → Dict String × List Change → Dict String × List Change
move_pair entry_id plan old_uid new_uid false done = done
move_pair entry_id plan old_uid new_uid true done = (
  put old_uid new_uid done.0,
  done.1
      ++ entity_changes (get_or (lookup old_uid plan.planned_entities) [])
      ++ device_changes entry_id old_uid new_uid (lookup old_uid plan.planned_devices),
)

unfoldable pub apply_plan :
    String → Plan → Dict String → Dict String × List Change → Dict String × List Change
unfolding can_move entity_changes
apply_plan entry_id plan [] done = done
apply_plan entry_id plan ((old_uid, new_uid) ∷ old_to_new) done =
    apply_plan entry_id plan old_to_new
      (move_pair entry_id plan old_uid new_uid (can_move plan old_uid) done)

unfoldable pub plan_remap : Registries → String → Dict String → Plan
plan_remap regs entry_id old_to_new = plan_devices regs entry_id old_to_new (
    plan_entities regs old_to_new (regs.entries entry_id)
      (record { planned_entities = []; planned_devices = []; conflicted = [] }))

-- The applied pairs, and the changes in order; `loaded` says whether the entry has runtime data.
unfoldable pub remap_connection_uids :
    Registries → String → Bool → Dict String → Dict String × List Change
unfolding plan_remap apply_plan
remap_connection_uids regs entry_id loaded old_to_new =
    if is_empty old_to_new
    then ([], [])
    else (let (applied, changes) =
          apply_plan entry_id (plan_remap regs entry_id old_to_new) old_to_new ([], []) in
        (
          applied,
          if loaded && not (is_empty applied)
              then changes ++ remap_known_uids applied ∷ []
              else changes,
        ))
