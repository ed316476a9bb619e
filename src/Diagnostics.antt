-- ===== src/Diagnostics.antt =====
-- custom_components/fritzbox_vpn/diagnostics.py: the diagnostics of an entry.
pub mod Interval
pub mod Tests
use fritzbox_vpn.Base.{ℕ, suc, Bool, Option, none, some, List, [], ◌∷◌, String, lookup}
use fritzbox_vpn.Value.{Value, str, Payload, or_null, value_or}
use fritzbox_vpn.Config.{host_from_config}
use fritzbox_vpn.Coordinator.State.{Coordinator, Connections, known_data}
use fritzbox_vpn.Coordinator.Interval.{normalize_update_interval}

pub record Diagnostics : Type 0 where
  pub entry : Payload
  pub host : Value
  pub update_interval_seconds : ℕ
  pub last_update_success : Option Bool
  pub vpn_connection_count : ℕ
  pub vpn_connections : List Payload

abbrev pub to_redact : List String
to_redact = "username" ∷ "password" ∷ "pass" ∷ "user" ∷ []

abbrev pub shown : String → Payload → Payload
shown uid conn =
    ("connection_uid", str uid)
    ∷ ("name", or_null (lookup "name" conn))
    ∷ ("active", or_null (lookup "active" conn))
    ∷ ("connected", or_null (lookup "connected" conn))
    ∷ []

-- The loop over the coordinator's data, whose values are dictionaries.
unfoldable pub shown_connections : Connections → List Payload
shown_connections [] = []
shown_connections ((uid, conn) ∷ connections) = shown uid conn ∷ shown_connections connections

abbrev pub count : List Payload → ℕ
count [] = 0
count (p ∷ ps) = suc (count ps)

-- `entry.options or {}`
abbrev pub options_or_empty : Option Payload → Payload
options_or_empty none = []
options_or_empty (some options) = options

-- The loaded entry's `last_update_success` and coordinator.
abbrev pub success_of : Option (Bool × Coordinator) → Option Bool
success_of none = none
success_of (some (last_update_success, c)) = some last_update_success

abbrev pub listed_of : Option (Bool × Coordinator) → List Payload
unfolding shown_connections
listed_of none = []
listed_of (some (last_update_success, c)) = shown_connections (known_data c)

unfoldable pub interval_shown : Payload → Option Payload → ℕ
unfolding normalize_update_interval
interval_shown config options = normalize_update_interval (
    value_or (or_null (lookup "update_interval" (options_or_empty options)))
      (or_null (lookup "update_interval" config)))

-- `async_redact_data` of Home Assistant is a parameter, and so is `entry.as_dict()`.
unfoldable pub async_get_config_entry_diagnostics :
    (Payload → List String → Payload)
    → Payload
    → Payload
    → Option Payload
    → Option (Bool × Coordinator)
    → Diagnostics
unfolding interval_shown host_from_config shown_connections
async_get_config_entry_diagnostics async_redact_data as_dict config options runtime = record {
  entry = async_redact_data as_dict to_redact;
  host = host_from_config config;
  update_interval_seconds = interval_shown config options;
  last_update_success = success_of runtime;
  vpn_connection_count = count (listed_of runtime);
  vpn_connections = listed_of runtime;
}
