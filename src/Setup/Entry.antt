-- ===== src/Setup/Entry.antt =====
-- custom_components/fritzbox_vpn/__init__.py: the set-up of an entry, its unloading and its migration.
pub mod Late
use fritzbox_vpn.Base.{
  ℕ, ◌+◌, Bool, true, false, not, Option, none, some, List, [], ◌∷◌, String, ◌⊕◌, lower,
  contains_any, ltb, map_option, is_empty, if◌then◌else◌,
}
use fritzbox_vpn.Value.{to_str}
use fritzbox_vpn.Outcome.{Error, Outcome, ok, raised, message}
use fritzbox_vpn.Config.{error_indicator_auth, host_from_config}
use fritzbox_vpn.Session.Listing.{Connections}
use fritzbox_vpn.Adapter.{Adapter, async_close}
use fritzbox_vpn.Registry.Home.{Home}
use fritzbox_vpn.Registry.Carried.{
  repair_legacy_entity_object_ids, repair_entity_ids_before_platform_setup,
}
use fritzbox_vpn.Registry.Removal.{
  remove_unexpected_entity_entries, cleanup_empty_connection_devices,
}
use fritzbox_vpn.Flow.State.{ConfigEntry}
use fritzbox_vpn.Setup.Services.{Services, unload_services}

-- How a set-up ends: `True`, `False`, `ConfigEntryAuthFailed` or `ConfigEntryNotReady`.
pub data SetupEnd : Type 0 where
  set_up : SetupEnd
  not_set_up : SetupEnd
  auth_failed : String → SetupEnd
  not_ready : String → SetupEnd

-- What Home Assistant does: `attach` assigns new runtime data with the coordinator and its data,
-- `add_parent_device` is `async_get_or_create` with the host's URL, and `forward` is
-- `async_forward_entry_setups`.
module _ (home : Home) (attach : String → Option Connections → home.World → home.World)
    (add_parent_device : String → String → home.World → home.World)
    (forward : String → home.World → Outcome (Unit {0}) × home.World) where
  abbrev pub first_refresh_failed : Error → SetupEnd
  first_refresh_failed err =
      if contains_any (lower (message err)) error_indicator_auth
      then auth_failed ("Authentication failed for Fritz!Box: " ⊕ message err)
      else not_ready ("Timeout/Error connecting to Fritz!Box: " ⊕ message err)

  -- An exception of the removal is logged; what it did before stays.
  abbrev pub remove_shadows : String → Option Connections → home.World → home.World
  remove_shadows entry_id none w = w
  remove_shadows entry_id (some []) w = w
  remove_shadows entry_id (some (c ∷ cs)) w = (remove_unexpected_entity_entries home entry_id w).1

  abbrev pub on_forwarded : String → Outcome (Unit {0}) × home.World → SetupEnd × home.World
  on_forwarded entry_id (raised e, w) = (not_set_up, w)
  on_forwarded entry_id (ok u, w) = (set_up, (cleanup_empty_connection_devices home entry_id w).1)

  abbrev pub with_platforms : String → String → home.World → SetupEnd × home.World
  with_platforms entry_id host w =
      let w' = add_parent_device entry_id ("https://" ⊕ host) w in
      on_forwarded entry_id
        (forward entry_id (repair_entity_ids_before_platform_setup home entry_id w').1)

  -- `refresh` is how the coordinator's first refresh ends, with its data.
  unfoldable pub async_setup_entry :
      ConfigEntry → Outcome (Option Connections) → home.World → SetupEnd × home.World
  unfolding remove_unexpected_entity_entries repair_entity_ids_before_platform_setup
      cleanup_empty_connection_devices
  async_setup_entry entry (raised err) w = (first_refresh_failed err, w)
  async_setup_entry entry (ok found) w =
      with_platforms entry.entry_id (to_str (host_from_config entry.config))
        (remove_shadows entry.entry_id found (attach entry.entry_id found w))

-- What is loaded of an entry.
pub record Loaded : Type 0 where
  pub session : Option Adapter
  pub attached : Bool
  pub services : Services

-- `unload_ok` is the answer of `async_unload_platforms`.
unfoldable pub async_unload_entry : Bool → String → List String → Loaded → Bool × Loaded
unfolding unload_services async_close
async_unload_entry unload_ok entry_id loaded l = (
  unload_ok,
  if unload_ok
      then (record {
        session = if l.attached then map_option async_close l.session else l.session;
        attached = false;
        services = unload_services entry_id loaded l.services;
      })
      else l,
)

module _ (home : Home) (attach : String → Option Connections → home.World → home.World)
    (add_parent_device : String → String → home.World → home.World)
    (forward : String → home.World → Outcome (Unit {0}) × home.World) where
  -- The new runtime data is what `attach` makes of the world; what was loaded before stays unloaded.
  abbrev pub set_up_again :
      ConfigEntry
      → Outcome (Option Connections)
      → Bool × Loaded
      → home.World
      → Option SetupEnd × Loaded × home.World
  unfolding async_setup_entry
  set_up_again entry refresh (false, l) w = (none, l, w)
  set_up_again entry refresh (true, l) w =
      let (end, w') = async_setup_entry home attach add_parent_device forward entry refresh w in
      (some end, l, w')

  -- A failed unloading is logged.
  unfoldable pub async_reload_entry :
      Bool
      → ConfigEntry
      → List String
      → Outcome (Option Connections)
      → Loaded
      → home.World
      → Option SetupEnd × Loaded × home.World
  unfolding async_unload_entry
  async_reload_entry unload_ok entry loaded refresh l w =
      set_up_again entry refresh (async_unload_entry unload_ok entry.entry_id loaded l) w

module _ (home : Home) (set_version : String → ℕ → home.World → home.World) where
  -- `async_migrate_entry`; the result is always `True`.
  unfoldable pub async_migrate_entry : ConfigEntry → home.World → Bool × home.World
  unfolding repair_legacy_entity_object_ids
  async_migrate_entry entry w = (
    true,
    if ltb entry.version 2
        then set_version entry.entry_id 2 (repair_legacy_entity_object_ids home entry.entry_id w).1
        else w,
  )
