-- ===== src/Forms/Schema.antt =====
-- custom_components/fritzbox_vpn/flow_forms.py: the schemas of the forms, with their defaults.
use fritzbox_vpn.Base.{
  ℕ, Bool, true, false, Option, none, some, List, [], ◌∷◌, ◌==◌, Char, String, is_empty, lookup,
  if◌then◌else◌,
}
use fritzbox_vpn.Value.{Value, str, num, pos, bool, Payload, value_or}
use fritzbox_vpn.Config.{default_host, value_at, get, password_from_sources}
use fritzbox_vpn.Coordinator.Interval.{
  normalize_update_interval, default_update_interval, update_interval_min, update_interval_max,
}
use fritzbox_vpn.Forms.Host.{Checked, valid, invalid, validate_host}

-- What voluptuous accepts for a field.
pub data Kind : Type 0 where
  text : Kind
  flag : Kind
  whole : ℕ → ℕ → Kind
  choice : List String → Kind

pub record Field : Type 0 where
  pub key : String
  pub required : Bool
  pub default : Option Value
  pub kind : Kind

abbrev pub Schema : Type 0
Schema = List Field

abbrev pub required_field : String → Value → Kind → Field
required_field key default kind = record {
  key = key;
  required = true;
  default = some default;
  kind = kind;
}

abbrev non_empty : Option Payload → Option Payload
non_empty none = none
non_empty (some config) = if is_empty config then none else some config

abbrev defaults_of : Option Payload → String → List (Option Payload) → Value × Value × String
defaults_of none host_fallback extra_password_sources = (str host_fallback, str "", "")
defaults_of (some config) host_fallback extra_password_sources = (
  value_or (get "host" config) (str host_fallback),
  value_or (get "username" config) (str ""),
  password_from_sources (some config ∷ extra_password_sources),
)

unfoldable pub credentials_defaults :
    Option Payload → String → List (Option Payload) → Value × Value × String
credentials_defaults config host_fallback extra_password_sources =
    defaults_of (non_empty config) host_fallback extra_password_sources

unfoldable pub credentials_schema : Value × Value × String → Schema
credentials_schema (host, username, password) =
    required_field "host" host text
    ∷ required_field "username" username text
    ∷ required_field "password" (str password) text
    ∷ []

abbrev pub host_or_default : Checked → String
host_or_default (valid host) = host
host_or_default (invalid message) = default_host

unfoldable pub configure_schema : (Char → Bool) → Payload → Payload → Schema
configure_schema is_wide current_data current_options =
    let defaults = credentials_defaults (some current_data) default_host [] in
    let interval =
      normalize_update_interval
        (value_at (lookup "update_interval" current_options) (num (pos default_update_interval))) in
    required_field "host" (str (host_or_default (validate_host is_wide defaults.0))) text
    ∷ required_field "username" defaults.1 text
    ∷ (record { key = "password"; required = false; default = some (str ""); kind = text })
    ∷ required_field "update_interval" (num (pos interval))
        (whole update_interval_min update_interval_max)
    ∷ []

unfoldable pub configure_schema_for_resubmit : (Char → Bool) → Payload → Schema
unfolding configure_schema
configure_schema_for_resubmit is_wide user_input = configure_schema is_wide user_input user_input

abbrev pub text_or : Option String → String → String
text_or none default = default
text_or (some s) default = if s == "" then default else s

abbrev confirm_source : Option Payload → Option Payload → Option Payload × List (Option Payload)
confirm_source existing_config none = (existing_config, [])
confirm_source existing_config (some input) = (some input, existing_config ∷ [])

unfoldable pub confirm_schema : Option Payload → Option String → Option Payload → Schema
unfolding credentials_schema credentials_defaults
confirm_schema existing_config discovered_host current_input =
    let source = confirm_source existing_config current_input in
    credentials_schema
      (credentials_defaults source.0 (text_or discovered_host default_host) source.1)

unfoldable pub reauth_schema : Value → Schema
reauth_schema username_default =
    required_field "username" username_default text
    ∷ (record { key = "password"; required = true; default = none; kind = text })
    ∷ []

unfoldable pub confirm_checkbox_schema : Schema
confirm_checkbox_schema = required_field "confirm" (bool false) flag ∷ []
