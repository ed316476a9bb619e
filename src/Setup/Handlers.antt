-- ===== src/Setup/Handlers.antt =====
-- custom_components/fritzbox_vpn/__init__.py: the handlers of the services.
use fritzbox_vpn.Base.{true, List, [], ◌∷◌, String, if◌then◌else◌}
use fritzbox_vpn.Value.{Payload, truthy, to_str}
use fritzbox_vpn.Outcome.{ok, Exec, return, ◌>>◌}
use fritzbox_vpn.Config.{get}
use fritzbox_vpn.Registry.State.{Entity}
use fritzbox_vpn.Registry.Home.{Home, Current, current, unknown, resolve_current_uids}
use fritzbox_vpn.Registry.Repairs.{get_orphaned_entity_entries}
use fritzbox_vpn.Registry.Carried.{repair_entity_ids}
use fritzbox_vpn.Registry.Removal.{remove_orphaned_entities}

-- `loaded` are the ids of the loaded entries of the domain. The schema makes the id a text.
unfoldable pub entry_ids_for_cleanup_service : Payload → List String → List String
unfolding truthy to_str
entry_ids_for_cleanup_service call_data loaded =
    if truthy (get "config_entry_id" call_data)
    then to_str (get "config_entry_id" call_data) ∷ []
    else loaded

-- `reload` is `async_reload` of Home Assistant.
module _ (home : Home) (reload : String → home.World → home.World) where
  abbrev pub then_reload : String → Exec home.World (Unit {0})
  then_reload entry_id w = (ok tt, reload entry_id w)

  abbrev pub remove_found : String → List Entity → Exec home.World (Unit {0})
  remove_found entry_id [] = return tt
  remove_found entry_id (entry ∷ entries) =
      remove_orphaned_entities home entry_id (entry ∷ entries) true >> then_reload entry_id

  abbrev pub remove_for : String → Current → Exec home.World (Unit {0})
  remove_for entry_id (unknown key) w = (ok tt, w)
  remove_for entry_id (current uids) w =
      remove_found entry_id (get_orphaned_entity_entries (home.registries w) entry_id uids) w

  abbrev pub remove_one : String → Exec home.World (Unit {0})
  remove_one entry_id w = remove_for entry_id (resolve_current_uids home entry_id w) w

  -- `_async_remove_unavailable_entities`, for the entries of the call
  unfoldable pub async_remove_unavailable_entities : List String → Exec home.World (Unit {0})
  unfolding remove_orphaned_entities
  async_remove_unavailable_entities [] = return tt
  async_remove_unavailable_entities (entry_id ∷ entry_ids) =
      remove_one entry_id >> async_remove_unavailable_entities entry_ids

  abbrev pub reload_if : String → List String × home.World → home.World
  reload_if entry_id ([], w) = w
  reload_if entry_id (m ∷ messages, w) = reload entry_id w

  -- `_async_repair_entity_id_suffixes`, for the entries of the call
  unfoldable pub async_repair_entity_id_suffixes : List String → home.World → home.World
  unfolding repair_entity_ids
  async_repair_entity_id_suffixes [] w = w
  async_repair_entity_id_suffixes (entry_id ∷ entry_ids) w =
      async_repair_entity_id_suffixes entry_ids
        (reload_if entry_id (repair_entity_ids home entry_id w))
