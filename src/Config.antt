-- ===== src/Config.antt =====
-- custom_components/fritzbox_vpn/const.py: what is read from the configuration of an entry. A
-- configuration is a dictionary of any values, or `None`.
use fritzbox_vpn.Base.{
  Option, none, some, List, [], ◌∷◌, String, ◌==◌, ◌⊕◌, lookup, elem, is_empty, if◌then◌else◌,
}
use fritzbox_vpn.Value.{Value, str, Payload, or_null, value_or, to_str}

abbrev pub default_host : String
default_host = "192.168.178.1"

abbrev pub host_fallback_unknown : String
host_fallback_unknown = "unknown"

abbrev pub sensitive_config_keys : List String
sensitive_config_keys = "password" ∷ "pass" ∷ "username" ∷ "user" ∷ []

abbrev pub error_indicator_auth : List String
error_indicator_auth = "login failed" ∷ []

abbrev pub error_indicator_connect : List String
error_indicator_connect = "failed to get login page" ∷ "connection" ∷ []

abbrev pub fritzbox_ssdp_indicators : List String
fritzbox_ssdp_indicators = "fritz.box" ∷ "fritzbox" ∷ "fritz!box" ∷ "avm" ∷ "fritz" ∷ []

abbrev pub fritz_integration_domains : List String
fritz_integration_domains = "fritz" ∷ "fritzbox_tools" ∷ "fritzbox" ∷ "fritzbox_tools_plus" ∷ []

abbrev pub repeater_indicators : List String
repeater_indicators =
    "repeater" ∷ "wlan repeater" ∷ "fritz!wlan repeater" ∷ "fritz!wlanrepeater" ∷ []

unfoldable pub auth_error_notification_id : String → String
auth_error_notification_id host =
    "fritzbox_vpn_auth_error_" ⊕ (if host == "" then host_fallback_unknown else host)

-- `config.get(key, default)`
abbrev pub value_at : Option Value → Value → Value
value_at none default = default
value_at (some v) default = v

unfoldable pub host_from_config : Payload → Value
host_from_config config = value_at (lookup "host" config) (str host_fallback_unknown)

unfoldable pub mask_config_for_log : Payload → Payload
mask_config_for_log [] = []
mask_config_for_log ((k, v) ∷ config) =
    (k, (if elem k sensitive_config_keys then str "***" else v)) ∷ mask_config_for_log config

abbrev pub get : String → Payload → Value
get key config = or_null (lookup key config)

unfoldable pub password_from_source : Option Payload → String
password_from_source none = ""
password_from_source (some source) =
    if is_empty source
    then ""
    else to_str (
        value_or
          (value_or (value_or (get "password" source) (get "password" source)) (get "pass" source))
          (str ""))

unfoldable pub password_from_sources : List (Option Payload) → String
unfolding password_from_source
password_from_sources [] = ""
password_from_sources (source ∷ sources) =
    let p = password_from_source source in if p == "" then password_from_sources sources else p
