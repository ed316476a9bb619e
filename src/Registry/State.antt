-- ===== src/Registry/State.antt =====
-- The entity and the device registry of Home Assistant, as custom_components/fritzbox_vpn/
-- entity_registry.py reads them: every function there makes all its reads before its first change.
use fritzbox_vpn.Base.{
  Bool, Option, none, some, get_or, List, [], ◌∷◌, String, Dict, ◌==◌, if◌then◌else◌,
}

pub record Entity : Type 0 where
  pub id : String
  pub entity_id : String
  pub domain : String
  pub unique_id : Option String
  pub device_id : Option String
  pub config_entry_id : Option String

pub record Device : Type 0 where
  pub id : String
  pub name_by_user : Option String
  pub name : Option String
  pub identifiers : List (List String)

-- What the functions ask Home Assistant for: `async_entries_for_config_entry`, `async_get` and
-- `async_get_entity_id` of the entity registry for this domain, `async_get` and `async_get_device` of
-- the device registry, `slugify`.
pub record Registries : Type 0 where
  pub entries : String → List Entity
  pub entity : String → Option Entity
  pub entity_id_of : String → String → Option String
  pub device : String → Option Device
  pub device_with : List String → Option Device
  pub slugify : String → String

pub data Change : Type 0 where
  update_unique_id : String → String → Change
  update_identifiers : String → List (List String) → Change
  remap_known_uids : Dict String → Change

-- `(DOMAIN, entry_id, uid)`
abbrev pub identifier : String → String → List String
identifier entry_id uid = "fritzbox_vpn" ∷ entry_id ∷ uid ∷ []

-- `x or ""`
abbrev pub or_empty : Option String → String
or_empty o = get_or o ""

-- A text that is there and not empty.
abbrev pub is_text : Option String → Bool
is_text none = Bool.false
is_text (some x) = if x == "" then Bool.false else Bool.true
