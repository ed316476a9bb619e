-- ===== src/Forms/Submit.antt =====
-- custom_components/fritzbox_vpn/flow_forms.py: what is done with submitted values. A method that
-- changes its dictionaries returns them.
use fritzbox_vpn.Base.{
  Bool, true, false, Option, none, some, List, [], ◌∷◌, Char, String, Dict, lookup, put,
  if◌then◌else◌,
}
use fritzbox_vpn.Value.{Value, str, num, pos, Payload, truthy, to_str}
use fritzbox_vpn.Config.{value_at, get, password_from_sources}
use fritzbox_vpn.Coordinator.Interval.{normalize_update_interval, default_update_interval}
use fritzbox_vpn.Forms.Host.{Checked, valid, invalid, validate_host}

-- The error keys by their field.
abbrev pub Errors : Type 0
Errors = Dict String

unfoldable pub fill_password_if_missing : Payload → List (Option Payload) → Payload
fill_password_if_missing user_input sources =
    if truthy (get "password" user_input)
    then user_input
    else put "password" (str (password_from_sources sources)) user_input

abbrev pub on_checked : Checked → Errors → Bool × Errors
on_checked (valid host) errors = (true, errors)
on_checked (invalid message) errors = (false, put "host" "invalid_host" errors)

unfoldable pub validate_host_on_submit : (Char → Bool) → Payload → Errors → Bool × Errors
validate_host_on_submit is_wide user_input errors =
    on_checked (validate_host is_wide (str (to_str (value_at (lookup "host" user_input) (str "")))))
      errors

-- `user_input[…]`: `none` for `KeyError`
abbrev pub data_of : Option Value → Option Value → Option Value → Option Payload
data_of (some host) (some username) (some password) =
    some (("host", host) ∷ ("username", username) ∷ ("password", password) ∷ [])
data_of _ _ _ = none

abbrev pub with_options : Option Payload → Payload → Option (Payload × Payload)
with_options none options = none
with_options (some config) options = some (config, options)

unfoldable pub config_and_options_from_configure_input : Payload → Option (Payload × Payload)
unfolding normalize_update_interval
config_and_options_from_configure_input user_input =
    let interval =
      normalize_update_interval
        (value_at (lookup "update_interval" user_input) (num (pos default_update_interval))) in
    with_options
      (data_of (lookup "host" user_input) (lookup "username" user_input)
        (lookup "password" user_input))
      (("update_interval", num (pos interval)) ∷ [])
