-- ===== src/Platform/Entities.antt =====
-- custom_components/fritzbox_vpn/entity.py, switch.py, sensor.py and binary_sensor.py: the entities of a
-- connection as they are made.
pub mod Ours
use fritzbox_vpn.Base.{
  Bool, true, false, Option, none, some, get_or, List, [], ◌∷◌, String, ◌==◌, ◌≡◌, refl, elem,
  lookup, if◌then◌else◌,
}
use fritzbox_vpn.Value.{Value, str, bool, Payload, or_null}
use fritzbox_vpn.UidIdentity.{entity_unique_id}
use fritzbox_vpn.Runtime.{Platform, switch, sensor, binary_sensor}
use fritzbox_vpn.Registry.State.{identifier}
use fritzbox_vpn.Coordinator.State.{Coordinator, Connections}
use fritzbox_vpn.Coordinator.Uids.{
  resolve_connection_uid, get_vpn_status, Status, connected, enabled, disabled, unknown,
}
use fritzbox_vpn.Platform.{vpn_entities_for_connections}
use fritzbox_vpn.Platform.Data.{connection_data, switch_is_on, binary_sensor_is_on, vpn_uid_value}

abbrev pub vpn_unique_id : String → String → String
vpn_unique_id connection_uid suffix = entity_unique_id connection_uid suffix

pub record DeviceInfo : Type 0 where
  pub identifiers : List (List String)
  pub name : Value
  pub manufacturer : String
  pub model : String
  pub via_device : List String

-- `payload.get(key, default)`
abbrev pub field_or : String → Value → Payload → Value
field_or key default payload = get_or (lookup key payload) default

unfoldable pub vpn_device_info : String → String → Payload → DeviceInfo
vpn_device_info entry_id connection_uid connection_payload = record {
  identifiers = identifier entry_id connection_uid ∷ [];
  name = field_or "name" (str "Unknown") connection_payload;
  manufacturer = "AVM";
  model = "WireGuard VPN";
  via_device = "fritzbox_vpn" ∷ entry_id ∷ [];
}

-- The classes of the entities; each is made with the suffix of its unique ids.
pub data EntityClass : Type 0 where
  vpn_switch status_sensor uid_sensor vpn_uid_sensor connected_sensor : EntityClass

pub record VpnEntity : Type 0 where
  pub entity_class : EntityClass
  pub entry_id : String
  pub connection_uid : String
  pub connection_payload : Payload
  pub unique_id : String
  pub device_info : DeviceInfo
  pub translation_key : Option String
  pub object_id_suffix : Option String

abbrev pub object_id_suffix_of : String → Option String → Option String → Option String
object_id_suffix_of suffix (some key) given = some (get_or given suffix)
object_id_suffix_of suffix none given = given

-- `FritzBoxVPNEntity.__init__`
unfoldable pub vpn_entity :
    EntityClass → String → Option String → Option String → String → String → Payload → VpnEntity
unfolding vpn_device_info entity_unique_id
vpn_entity entity_class suffix translation_key object_id_suffix entry_id connection_uid payload =
    record {
      entity_class = entity_class;
      entry_id = entry_id;
      connection_uid = connection_uid;
      connection_payload = payload;
      unique_id = vpn_unique_id connection_uid suffix;
      device_info = vpn_device_info entry_id connection_uid payload;
      translation_key = translation_key;
      object_id_suffix = object_id_suffix_of suffix translation_key object_id_suffix;
    }

-- `super().suggested_object_id` is given, as Home Assistant computes it.
unfoldable pub suggested_object_id : Option String → VpnEntity → Option String
suggested_object_id of_super entity =
    if get_or entity.object_id_suffix "" == "" then of_super else entity.object_id_suffix

-- The suffix of a class.
abbrev pub suffix_of : EntityClass → String
suffix_of vpn_switch = "switch"
suffix_of status_sensor = "status"
suffix_of uid_sensor = "uid"
suffix_of vpn_uid_sensor = "vpn_uid"
suffix_of connected_sensor = "connected"

-- The constructors of the five classes.
unfoldable pub new_switch : String → String → Payload → VpnEntity
unfolding vpn_entity
new_switch entry_id uid conn = vpn_entity vpn_switch "switch" none none entry_id uid conn

unfoldable pub new_status_sensor : String → String → Payload → VpnEntity
unfolding vpn_entity
new_status_sensor entry_id uid conn =
    vpn_entity status_sensor "status" (some "status") none entry_id uid conn

unfoldable pub new_uid_sensor : String → String → Payload → VpnEntity
unfolding vpn_entity
new_uid_sensor entry_id uid conn =
    vpn_entity uid_sensor "uid" (some "connection_uid") none entry_id uid conn

unfoldable pub new_vpn_uid_sensor : String → String → Payload → VpnEntity
unfolding vpn_entity
new_vpn_uid_sensor entry_id uid conn =
    vpn_entity vpn_uid_sensor "vpn_uid" (some "vpn_uid") none entry_id uid conn

unfoldable pub new_connected_sensor : String → String → Payload → VpnEntity
unfolding vpn_entity
new_connected_sensor entry_id uid conn =
    vpn_entity connected_sensor "connected" (some "connected") none entry_id uid conn

unfoldable pub sensors_for_connection : String → String → Payload → List VpnEntity
unfolding new_status_sensor new_uid_sensor new_vpn_uid_sensor
sensors_for_connection entry_id uid conn =
    new_status_sensor entry_id uid conn
    ∷ new_uid_sensor entry_id uid conn
    ∷ new_vpn_uid_sensor entry_id uid conn
    ∷ []

-- `_create_one`
abbrev pub create_one :
    (String → String → Payload → VpnEntity) → String → String → Payload → List VpnEntity
create_one create_entity entry_id uid conn = create_entity entry_id uid conn ∷ []

-- What each platform makes of one connection.
unfoldable pub entities_of : Platform → String → String → Payload → List VpnEntity
unfolding new_switch new_connected_sensor sensors_for_connection
entities_of switch entry_id = create_one new_switch entry_id
entities_of sensor entry_id = sensors_for_connection entry_id
entities_of binary_sensor entry_id = create_one new_connected_sensor entry_id

-- The field `_connection_uid`, a text always.
abbrev pub uid_of : VpnEntity → Option String
uid_of entity = some entity.connection_uid

unfoldable pub vpn_entities_for_uids :
    (String → String → Payload → VpnEntity) → String → Connections → List String → List VpnEntity
unfolding vpn_entities_for_connections
vpn_entities_for_uids create_entity entry_id connections uids =
    vpn_entities_for_connections (create_one create_entity entry_id) uid_of connections uids

abbrev pub status_text : Status → String
status_text connected = "connected"
status_text enabled = "enabled"
status_text disabled = "disabled"
status_text unknown = "unknown"

abbrev attributes : String → Status → Option Payload → Payload
attributes resolved status none = []
attributes resolved status (some conn) =
    ("name", or_null (lookup "name" conn))
    ∷ ("uid", str resolved)
    ∷ ("vpn_uid", or_null (lookup "uid" conn))
    ∷ ("active", field_or "active" (bool false) conn)
    ∷ ("connected", field_or "connected" (bool false) conn)
    ∷ ("status", str (status_text status))
    ∷ []

-- The status is asked for with the resolved uid.
unfoldable pub vpn_switch_attributes : Coordinator → String → Payload
unfolding connection_data resolve_connection_uid get_vpn_status
vpn_switch_attributes c connection_uid =
    let resolved = resolve_connection_uid c connection_uid in
    attributes resolved (get_vpn_status c resolved) (connection_data c connection_uid)

-- `native_value` of a sensor.
unfoldable pub native_value : Coordinator → VpnEntity → Option String
unfolding get_vpn_status vpn_uid_value
native_value c entity = elim entity.entity_class [
  | vpn_switch ↦ none
  | status_sensor ↦ some (status_text (get_vpn_status c entity.connection_uid))
  | uid_sensor ↦ some entity.connection_uid
  | vpn_uid_sensor ↦ some (vpn_uid_value c entity.connection_uid)
  | connected_sensor ↦ none
]

-- `is_on` of a switch or binary sensor.
unfoldable pub is_on : Coordinator → VpnEntity → Option Bool
unfolding switch_is_on binary_sensor_is_on
is_on c entity = elim entity.entity_class [
  | vpn_switch ↦ some (switch_is_on c entity.connection_uid)
  | status_sensor ↦ none
  | uid_sensor ↦ none
  | vpn_uid_sensor ↦ none
  | connected_sensor ↦ some (binary_sensor_is_on c entity.connection_uid)
]

-- The two sensors for uids are for diagnosis, and off at first.
abbrev pub is_diagnostic : EntityClass → Bool
is_diagnostic uid_sensor = true
is_diagnostic vpn_uid_sensor = true
is_diagnostic _ = false

abbrev pub enabled_default : EntityClass → Bool
enabled_default uid_sensor = false
enabled_default vpn_uid_sensor = false
enabled_default _ = true

-- The options of the status sensor.
abbrev pub vpn_status_options : List String
vpn_status_options = "connected" ∷ "enabled" ∷ "disabled" ∷ "unknown" ∷ []

-- Whatever the coordinator holds, the status sensor shows one of its options.
pub status_text-IsOption : (s : Status) → elem (status_text s) vpn_status_options ≡ true
unfolding elem
status_text-IsOption connected = refl
status_text-IsOption enabled = refl
status_text-IsOption disabled = refl
status_text-IsOption unknown = refl
