-- ===== src/Registry/Removal.antt =====
-- custom_components/fritzbox_vpn/entity_registry.py: the removal of entities, with their devices and the
-- tracking of their connections; and the empty devices of __init__.py.
pub mod Forgotten
use fritzbox_vpn.Base.{
  ℕ, zero, suc, ◌+◌, Bool, true, false, not, ◌&&◌, ◌||◌, Option, none, some, List, [], ◌∷◌, String,
  ◌==◌, add, discard, elem, is_empty, if◌then◌else◌,
}
use fritzbox_vpn.Outcome.{Outcome, ok, raised, Exec, return, ◌>>=◌, ◌>>◌}
use fritzbox_vpn.Session.Listing.{Connections}
use fritzbox_vpn.Runtime.{Runtime, clear_known_uids}
use fritzbox_vpn.Registry.State.{Entity, Device, Registries, identifier, is_text, or_empty}
use fritzbox_vpn.Registry.Repairs.{
  uids_from_entity_entries, get_orphaned_entity_entries, unexpected_entries,
}
use fritzbox_vpn.Registry.Home.{Home, runtime_from_hass}

abbrev pub affected : Entity → List String → List String
affected entry device_ids =
    if is_text entry.device_id then add (or_empty entry.device_id) device_ids else device_ids

-- The ids of the devices of the entities.
unfoldable pub device_ids_of : List Entity → List String → List String
device_ids_of [] device_ids = device_ids
device_ids_of (entry ∷ entries) device_ids = device_ids_of entries (affected entry device_ids)

module _ (home : Home) where
  unfoldable pub remove_all : List Entity → Exec home.World (Unit {0})
  remove_all [] = return tt
  remove_all (entry ∷ entries) = home.remove entry.entity_id >> remove_all entries

  abbrev pub remove_found : Option Device → List String × home.World → List String × home.World
  remove_found none done = done
  remove_found (some device) (device_ids, w) =
      (discard device.id device_ids, home.remove_device device.id w)

  -- The devices of the connections, whole; the ids of the others are left.
  unfoldable pub remove_connection_devices :
      String → List String → List String × home.World → List String × home.World
  remove_connection_devices entry_id [] done = done
  remove_connection_devices entry_id (uid ∷ uids) done =
      remove_connection_devices entry_id uids
        (remove_found ((home.registries done.1).device_with (identifier entry_id uid)) done)

  abbrev pub remove_unused : Option Device → List Entity → home.World → home.World
  remove_unused none entries w = w
  remove_unused (some device) [] w = home.remove_device device.id w
  remove_unused (some device) (entry ∷ entries) w = w

  unfoldable pub remove_unused_devices : List String → home.World → home.World
  remove_unused_devices [] w = w
  remove_unused_devices (id ∷ ids) w =
      remove_unused_devices ids
        (remove_unused ((home.registries w).device id) (home.device_entities w id) w)

  abbrev pub forget_in :
      String → List String → Option (Runtime × Option Connections) → home.World → home.World
  forget_in entry_id uids none w = w
  forget_in entry_id uids (some (r, connections)) w =
      home.set_runtime entry_id (clear_known_uids uids r) w

  -- `runtime.clear_known_uids(uids_removed)`
  unfoldable pub forget_uids : String → List String → home.World → home.World
  forget_uids entry_id uids w =
      if is_empty uids then w else forget_in entry_id uids (runtime_from_hass home w entry_id) w

  abbrev pub tidy : String → List String → List String → home.World → home.World
  tidy entry_id uids device_ids w =
      let (left, w') = remove_connection_devices entry_id uids (device_ids, w) in
      forget_uids entry_id uids (remove_unused_devices left w')

  abbrev pub after_removal :
      String → List Entity → Outcome (Unit {0}) × home.World → Outcome (Unit {0}) × home.World
  after_removal entry_id entries (raised e, w) = (raised e, w)
  after_removal entry_id entries (ok u, w) =
      (ok tt, tidy entry_id (uids_from_entity_entries entries []) (device_ids_of entries []) w)

  unfoldable pub remove_orphaned_entities : String → List Entity → Bool → Exec home.World (Unit {0})
  unfolding remove_all remove_connection_devices remove_unused_devices forget_uids device_ids_of
  remove_orphaned_entities entry_id entries remove_from_registry w =
      if is_empty entries || not remove_from_registry
      then (ok tt, w)
      else after_removal entry_id entries (remove_all entries w)

  abbrev pub counted : ℕ → Outcome (Unit {0}) × home.World → Outcome ℕ × home.World
  counted n (ok u, w) = (ok n, w)
  counted n (raised e, w) = (raised e, w)

  abbrev pub length : List Entity → ℕ
  length [] = 0
  length (x ∷ xs) = suc (length xs)

  unfoldable pub remove_unexpected_entity_entries : String → Exec home.World ℕ
  unfolding remove_orphaned_entities
  remove_unexpected_entity_entries entry_id w =
      let to_remove = unexpected_entries ((home.registries w).entries entry_id) in
      counted (length to_remove) (remove_orphaned_entities entry_id to_remove true w)

  -- An identifier of a connection of the entry.
  abbrev pub is_connection_identifier : String → List String → Bool
  is_connection_identifier entry_id (domain ∷ id ∷ uid ∷ []) =
      domain == "fritzbox_vpn" && id == entry_id
  is_connection_identifier entry_id _ = false

  unfoldable pub any_connection_identifier : String → List (List String) → Bool
  any_connection_identifier entry_id [] = false
  any_connection_identifier entry_id (i ∷ is) =
      is_connection_identifier entry_id i || any_connection_identifier entry_id is

  abbrev pub cleaned : Device → List Entity → ℕ × home.World → ℕ × home.World
  cleaned device [] (removed, w) = (removed + 1, home.remove_device device.id w)
  cleaned device (entry ∷ entries) done = done

  abbrev pub clean_one : String → Device → ℕ × home.World → ℕ × home.World
  clean_one entry_id device done =
      if any_connection_identifier entry_id device.identifiers
      then cleaned device (home.device_entities done.1 device.id) done
      else done

  unfoldable pub clean_devices : String → List Device → ℕ × home.World → ℕ × home.World
  unfolding any_connection_identifier
  clean_devices entry_id [] done = done
  clean_devices entry_id (device ∷ devices) done =
      clean_devices entry_id devices (clean_one entry_id device done)

  -- `_cleanup_empty_connection_devices` of __init__.py
  unfoldable pub cleanup_empty_connection_devices : String → home.World → ℕ × home.World
  unfolding clean_devices
  cleanup_empty_connection_devices entry_id w =
      clean_devices entry_id (home.devices w entry_id) (0, w)
