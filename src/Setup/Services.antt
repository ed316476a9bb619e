-- ===== src/Setup/Services.antt =====
-- custom_components/fritzbox_vpn/__init__.py: the registration of the services.
pub mod Lost
use fritzbox_vpn.Base.{
  Bool, true, false, ◌&&◌, List, [], ◌∷◌, String, add, discard, is_empty, if◌then◌else◌,
}

-- Whether the flag stands in the store of the domain, and the services that Home Assistant has.
pub record Services : Type 0 where
  pub flag : Bool
  pub registered : List String

abbrev pub service_remove : String
service_remove = "remove_unavailable_entities"

abbrev pub service_repair : String
service_repair = "repair_entity_id_suffixes"

unfoldable pub register_services_if_needed : Services → Services
register_services_if_needed s =
    if s.flag
    then s
    else (record { flag = true; registered = add service_repair (add service_remove s.registered) })

-- `async_setup`, once for the integration.
unfoldable pub async_setup : Services → Services
unfolding register_services_if_needed
async_setup s = register_services_if_needed s

-- In `async_unload_entry`: the last one takes the services away. `loaded` are the ids of the entries
-- that are loaded.
unfoldable pub unload_services : String → List String → Services → Services
unload_services entry_id loaded s =
    if is_empty (discard entry_id loaded) && s.flag
    then (record {
      flag = false;
      registered = discard service_repair (discard service_remove s.registered);
    })
    else s
