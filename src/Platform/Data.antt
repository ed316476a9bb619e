-- ===== src/Platform/Data.antt =====
-- custom_components/fritzbox_vpn/entity.py, switch.py, sensor.py and binary_sensor.py: what the entities
-- of a connection show.
use fritzbox_vpn.Base.{
  ◌≡◌, refl, inl, inr, Bool, true, false, not, ◌&&◌, ◌||◌, Option, none, some, is_some, get_or, [],
  ◌∷◌, String, ◌==◌, ◌⊕◌, lookup, is_empty, if◌then◌else◌, Bool-cases, arith,
}
use fritzbox_vpn.Value.{str, bool, Payload, truthy, to_str}
use fritzbox_vpn.Outcome.{Outcome, ok, raised, message}
use fritzbox_vpn.Coordinator.State.{Coordinator, Connections, known_data}
use fritzbox_vpn.Coordinator.Uids.{
  resolve_connection_uid, get_vpn_status, status_of, Status, connected, enabled, disabled, unknown,
}

unfoldable pub connection_data : Coordinator → String → Option Payload
connection_data c uid = lookup (resolve_connection_uid c uid) (known_data c)

-- With `last_update_success` of the base class.
unfoldable pub connection_available : Bool → Coordinator → String → Bool
connection_available last_update_success c uid =
    if not last_update_success || is_empty (known_data c)
    then false
    else is_some (lookup (resolve_connection_uid c uid) (known_data c))

abbrev flag_of : String → Option Payload → Bool
flag_of key none = false
flag_of key (some conn) = truthy (get_or (lookup key conn) (bool false))

-- `is_on` of the switch and of the binary sensor
unfoldable pub switch_is_on : Coordinator → String → Bool
unfolding connection_data
switch_is_on c uid = flag_of "active" (connection_data c uid)

unfoldable pub binary_sensor_is_on : Coordinator → String → Bool
unfolding connection_data
binary_sensor_is_on c uid = flag_of "connected" (connection_data c uid)

abbrev vpn_uid_of : Option Payload → String
vpn_uid_of none = ""
vpn_uid_of (some conn) = to_str (get_or (lookup "uid" conn) (str ""))

-- `native_value` of the sensor for the VPN uid
unfoldable pub vpn_uid_value : Coordinator → String → String
unfolding connection_data
vpn_uid_value c uid = vpn_uid_of (connection_data c uid)

-- How a toggle of the switch ends: with the text for the error of `raise_toggle_failed`, if it fails,
-- and whether a refresh was requested.
pub record ToggleEnd : Type 0 where
  pub refreshed : Bool
  pub failed_with : Option String

-- `f": {error}" if error else "."`
abbrev error_placeholder : String → String
error_placeholder error = if error == "" then "." else ": " ⊕ error

unfoldable pub async_toggle_connection : Outcome Bool → ToggleEnd
async_toggle_connection (ok true) = record { refreshed = true; failed_with = none }
async_toggle_connection (ok false) = record {
  refreshed = true;
  failed_with = some (error_placeholder "");
}
async_toggle_connection (raised err) = record {
  refreshed = false;
  failed_with = some (error_placeholder (message err));
}

abbrev is_unknown : Status → Bool
is_unknown unknown = true
is_unknown connected = false
is_unknown enabled = false
is_unknown disabled = false

abbrev is_active : Status → Bool
is_active connected = true
is_active enabled = true
is_active disabled = false
is_active unknown = false

abbrev is_connected : Status → Bool
is_connected connected = true
is_connected enabled = false
is_connected disabled = false
is_connected unknown = false

-- What the entities of one connection show together.
pub record IsCoherent (c : Coordinator) (uid : String) : Type 0 where
  pub availability : connection_available true c uid ≡ not (is_unknown (get_vpn_status c uid))
  pub switch_agrees : switch_is_on c uid ≡ is_active (get_vpn_status c uid)
  pub binary_sensor_agrees :
      is_connected (get_vpn_status c uid) ≡ (switch_is_on c uid && binary_sensor_is_on c uid)

some_found :
    (uid : String) (connections : Connections)
    → is_empty connections ≡ true
    → is_some (lookup uid connections) ≡ false
unfolding lookup
some_found uid [] h = refl
some_found uid (x ∷ connections) h = cc

status_cases :
    (o : Option Payload)
    → (not (is_unknown (status_of o)) ≡ is_some o)
      × (flag_of "active" o ≡ is_active (status_of o))
      × (is_connected (status_of o) ≡ (flag_of "active" o && flag_of "connected" o))
status_cases none = (refl, refl, refl)
status_cases (some conn) = elim (Bool-cases (truthy (get_or (lookup "active" conn) (bool false)))) [
  | inr e ↦ rw e (refl, refl, refl)
  | inl e ↦ elim (Bool-cases (truthy (get_or (lookup "connected" conn) (bool false)))) [
    | inl f ↦ rw (e, f) (refl, refl, refl)
    | inr f ↦ rw (e, f) (refl, refl, refl)
  ]
]

-- After a successful update the entities of one connection agree: they are available exactly where the
-- status is not unknown, the switch is on exactly where the status is enabled or connected, and the
-- status is connected exactly where both the switch and the binary sensor are on.
pub entities-AreCoherent : (c : Coordinator) (uid : String) → IsCoherent c uid
unfolding connection_available switch_is_on binary_sensor_is_on connection_data get_vpn_status
entities-AreCoherent c uid =
    let o = lookup (resolve_connection_uid c uid) (known_data c) in
    let (a, b, d) = status_cases o in
    record {
      availability = ground (arith, a, some_found (resolve_connection_uid c uid) (known_data c));
      switch_agrees = b;
      binary_sensor_agrees = d;
    }
