-- ===== src/Registry/Home.antt =====
-- What custom_components/fritzbox_vpn/entity_registry.py and __init__.py change in Home Assistant: the
-- two registries and the runtime data of the config entries.
use fritzbox_vpn.Base.{Bool, not, if◌then◌else◌, Option, none, some, List, String, keys}
use fritzbox_vpn.Outcome.{Outcome}
use fritzbox_vpn.Session.Listing.{Connections}
use fritzbox_vpn.Runtime.{Runtime}
use fritzbox_vpn.Registry.State.{Entity, Device, Registries}

-- What an entry holds as its `runtime_data`: nothing, something else, or the integration's own data
-- with the data of its coordinator.
pub data RuntimeData : Type 0 where
  no_runtime_data : RuntimeData
  other_runtime_data : RuntimeData
  fritzbox_vpn_runtime_data : Runtime → Option Connections → RuntimeData

-- A config entry of Home Assistant; `is_loaded` is whether its `state` is `LOADED`.
pub record HassEntry : Type 0 where
  pub is_loaded : Bool
  pub runtime_data : RuntimeData

-- `rename` is `async_update_entity` with a new entity id, `remove` is `async_remove`: both may raise.
-- `entry` is `async_get_entry`, and `set_runtime` changes the runtime data in place. `devices` and `device_entities` are
-- `async_entries_for_config_entry` and `async_entries_for_device`.
pub record Home : Type 1 where
  pub World : Type 0
  pub registries : World → Registries
  pub devices : World → String → List Device
  pub device_entities : World → String → List Entity
  pub rename : String → String → World → Outcome (Unit {0}) × World
  pub remove : String → World → Outcome (Unit {0}) × World
  pub remove_device : String → World → World
  pub entry : World → String → Option HassEntry
  pub set_runtime : String → Runtime → World → World

abbrev pub runtime_from_entry : RuntimeData → Option (Runtime × Option Connections)
runtime_from_entry no_runtime_data = none
runtime_from_entry other_runtime_data = none
runtime_from_entry (fritzbox_vpn_runtime_data r connections) = some (r, connections)

abbrev pub runtime_of_loaded : Option HassEntry → Option (Runtime × Option Connections)
runtime_of_loaded none = none
runtime_of_loaded (some entry) =
    if not entry.is_loaded then none else runtime_from_entry entry.runtime_data

abbrev pub runtime_from_hass :
    (home : Home) → home.World → String → Option (Runtime × Option Connections)
runtime_from_hass home w entry_id = runtime_of_loaded (home.entry w entry_id)

-- The uids, or an error key.
pub data Current : Type 0 where
  current : List String → Current
  unknown : String → Current

abbrev pub current_of : Option (Runtime × Option Connections) → Current
current_of none = unknown "integration_not_loaded"
current_of (some (r, none)) = unknown "coordinator_not_ready"
current_of (some (r, some connections)) = current (keys connections)

unfoldable pub resolve_current_uids : (home : Home) → String → home.World → Current
resolve_current_uids home entry_id w = current_of (runtime_from_hass home w entry_id)
