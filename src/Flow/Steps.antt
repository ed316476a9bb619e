-- ===== src/Flow/Steps.antt =====
-- custom_components/fritzbox_vpn/config_flow.py: the steps that add an entry or change its credentials.
use fritzbox_vpn.Base.{
  Bool, true, false, not, ◌&&◌, ◌||◌, Option, none, some, List, [], ◌∷◌, Char, String, ◌==◌, lookup,
  put, if◌then◌else◌,
}
use fritzbox_vpn.Value.{Value, str, Payload, truthy, to_str}
use fritzbox_vpn.Config.{default_host, value_at, get, host_from_config, password_from_sources}
use fritzbox_vpn.Adapter.{Adapter}
use fritzbox_vpn.Source.{FritzEntry, get_existing_fritz_config}
use fritzbox_vpn.Discovery.{
  ServiceInfo, Parsers, host_from_ssdp, unique_id_for_discovery, is_fritzbox_router_discovery,
  is_link_local_host,
}
use fritzbox_vpn.Forms.Schema.{
  credentials_defaults, credentials_schema, configure_schema, configure_schema_for_resubmit,
  confirm_schema, reauth_schema, text_or,
}
use fritzbox_vpn.Forms.Submit.{
  Errors, fill_password_if_missing, validate_host_on_submit,
  config_and_options_from_configure_input,
}
use fritzbox_vpn.Forms.Validation.{
  Box, Failure, cannot_connect, invalid_auth, other_failure, Validated, accepted, refused,
  set_validation_error, validate_input, Submitted, async_validate_configure_input,
}
use fritzbox_vpn.Flow.State.{
  FlowResult, show_form, abort, create_entry, update_and_abort, failed, Flow, ConfigEntry,
}

-- The entries of each domain of another integration.
abbrev pub OtherEntries : Type 0
OtherEntries = String → Option (List FritzEntry)

-- The key for a failure of the configuration that was found.
abbrev pub found_key : Failure → String
found_key cannot_connect = "cannot_connect"
found_key invalid_auth = "invalid_auth"
found_key (other_failure error_msg) = "unknown"

abbrev pub is_complete : Payload → Bool
is_complete config =
    truthy (get "host" config)
    && truthy (get "username" config)
    && not (password_from_sources (some config ∷ []) == "")

-- `is_wide` is `str.isalnum` outside of ASCII. `unique_id_refused` is the reason with which
-- `async_set_unique_id` or `_abort_if_unique_id_configured` ends a flow with this unique id.
module _ (box : Box) (is_wide : Char → Bool) (parsers : Parsers)
    (unique_id_refused : String → Option String) where
  abbrev pub World : Type 0
  World = box.library.World

  -- With the submitted values, which were filled in.
  pub record Attempt : Type 0 where
    pub result : Option FlowResult
    pub user_input : Payload
    pub errors : Errors
    pub world : World

  abbrev pub unless_refused : Option String → FlowResult → FlowResult
  unless_refused none result = result
  unless_refused (some reason) result = abort reason

  abbrev pub for_unique_id : Option String → FlowResult → FlowResult
  for_unique_id none result = result
  for_unique_id (some unique_id) result = unless_refused (unique_id_refused unique_id) result

  abbrev pub on_tested :
      Payload → Errors → Option String → Validated × (Option Adapter × World) → Attempt
  on_tested input errors unique_id (accepted title, (session, w)) = record {
    result = some (for_unique_id unique_id (create_entry title input));
    user_input = input;
    errors = errors;
    world = w;
  }
  on_tested input errors unique_id (refused failure, (session, w)) = record {
    result = none;
    user_input = input;
    errors = set_validation_error errors failure;
    world = w;
  }

  abbrev pub on_host_checked : Payload → Option String → Bool × Errors → World → Attempt
  on_host_checked input unique_id (false, errors) w = record {
    result = none;
    user_input = input;
    errors = errors;
    world = w;
  }
  on_host_checked input unique_id (true, errors) w =
      on_tested input errors unique_id (validate_input box input w)

  unfoldable pub try_create_entry_from_credentials :
      Payload → Errors → List (Option Payload) → Option String → World → Attempt
  unfolding validate_host_on_submit fill_password_if_missing validate_input set_validation_error
  try_create_entry_from_credentials user_input errors password_sources unique_id w =
      let input = fill_password_if_missing user_input password_sources in
      on_host_checked input unique_id (validate_host_on_submit is_wide input errors) w

  abbrev pub user_form : Option Payload → Errors → FlowResult
  user_form config errors =
      show_form "user" (credentials_schema (credentials_defaults config default_host [])) errors []

  abbrev pub on_found : Payload → Validated × (Option Adapter × World) → FlowResult × World
  on_found config (accepted title, (session, w)) = (create_entry title config, w)
  on_found config (refused failure, (session, w)) =
      (user_form (some config) (("base", found_key failure) ∷ []), w)

  -- The configuration that another integration has is tried first, if it is complete.
  abbrev pub try_found : Option Payload → World → FlowResult × World
  try_found none w = (user_form none [], w)
  try_found (some config) w =
      if is_complete config
      then on_found config (validate_input box config w)
      else (user_form (some config) [], w)

  abbrev pub with_flow : Flow → FlowResult × World → FlowResult × (Flow × World)
  with_flow flow (result, w) = (result, (flow, w))

  abbrev pub or_form :
      (Attempt → FlowResult) → Flow → Attempt → Option FlowResult → FlowResult × (Flow × World)
  or_form form flow attempt (some result) = (result, (flow, attempt.world))
  or_form form flow attempt none = (form attempt, (flow, attempt.world))

  -- The form with the submitted values and their errors.
  abbrev pub again_user : Attempt → FlowResult
  again_user a = user_form (some a.user_input) a.errors

  abbrev pub again_confirm : Flow → Attempt → FlowResult
  again_confirm flow a =
      show_form "confirm"
        (confirm_schema flow.existing_config flow.discovered_host (some a.user_input)) a.errors []

  unfoldable pub async_step_user :
      OtherEntries → Option Payload → Flow → World → FlowResult × (Flow × World)
  unfolding get_existing_fritz_config try_create_entry_from_credentials
  async_step_user others none flow w =
      let existing = get_existing_fritz_config others in
      with_flow (record flow { existing_config = existing }) (try_found existing w)
  async_step_user others (some user_input) flow w =
      let attempt =
        try_create_entry_from_credentials user_input [] (flow.existing_config ∷ []) none w in
      or_form again_user flow attempt attempt.result

  unfoldable pub async_step_confirm : Option Payload → Flow → World → FlowResult × (Flow × World)
  unfolding try_create_entry_from_credentials
  async_step_confirm none flow w = (
    show_form "confirm" (confirm_schema flow.existing_config flow.discovered_host none) []
        (("host", text_or flow.discovered_host default_host) ∷ []),
    (flow, w),
  )
  async_step_confirm (some user_input) flow w =
      let attempt =
        try_create_entry_from_credentials user_input [] (flow.existing_config ∷ [])
          flow.discovered_unique_id w in
      or_form (again_confirm flow) flow attempt attempt.result

  -- `later` are the entries when the configuration is looked for again.
  abbrev pub discovered :
      OtherEntries → String → String → Option String → Flow → World → FlowResult × (Flow × World)
  discovered later host unique_id (some reason) flow w = (abort reason, (flow, w))
  discovered later host unique_id none flow w =
      async_step_confirm none
        (record {
          discovered_host = some host;
          discovered_unique_id = some unique_id;
          existing_config = get_existing_fritz_config later;
          title_host = some host;
        })
        w

  abbrev pub with_host :
      ServiceInfo → OtherEntries → Option String → Flow → World → FlowResult × (Flow × World)
  with_host info later none flow w = (abort "no_host", (flow, w))
  with_host info later (some host) flow w =
      if host == "" || is_link_local_host host
      then (abort "no_host", (flow, w))
      else (let unique_id = unique_id_for_discovery parsers info host in
          discovered later host unique_id (unique_id_refused unique_id) flow w)

  abbrev pub unless_found :
      ServiceInfo → OtherEntries → Option Payload → Flow → World → FlowResult × (Flow × World)
  unless_found info later (some config) flow w = (abort "already_configured", (flow, w))
  unless_found info later none flow w =
      if is_fritzbox_router_discovery info
      then with_host info later (host_from_ssdp parsers info) flow w
      else (abort "not_fritzbox", (flow, w))

  unfoldable pub async_step_ssdp :
      ServiceInfo → OtherEntries → OtherEntries → Flow → World → FlowResult × (Flow × World)
  unfolding async_step_confirm get_existing_fritz_config
  async_step_ssdp info others later flow w =
      unless_found info later (get_existing_fritz_config others) flow w

  abbrev pub reauth_form : ConfigEntry → Value → Errors → FlowResult
  reauth_form entry username errors =
      show_form "reauth_confirm" (reauth_schema username) errors
        (("host", to_str (host_from_config entry.config)) ∷ [])

  abbrev pub default_username : ConfigEntry → Value
  default_username entry = value_at (lookup "username" entry.config) (str "")

  abbrev pub credentials : Value → Value → Value → Payload
  credentials host username password =
      ("host", host) ∷ ("username", username) ∷ ("password", password) ∷ []

  abbrev pub on_reauth :
      ConfigEntry → Value → Value → Validated × (Option Adapter × World) → FlowResult × World
  on_reauth entry username password (accepted title, (session, w)) = (
    update_and_abort
        (put "password" password
          (put "username" username (put "host" (host_from_config entry.config) entry.config)))
        none "reauth_successful",
    w,
  )
  on_reauth entry username password (refused failure, (session, w)) =
      (reauth_form entry username (set_validation_error [] failure), w)

  -- A missing key is a `KeyError`.
  abbrev pub reauth_with : ConfigEntry → Option Value → Option Value → World → FlowResult × World
  reauth_with entry none password w = (failed "'username'", w)
  reauth_with entry (some username) none w = (failed "'password'", w)
  reauth_with entry (some username) (some password) w =
      on_reauth entry username password
        (validate_input box (credentials (host_from_config entry.config) username password) w)

  -- `async_step_reauth` is this step without values.
  unfoldable pub async_step_reauth_confirm :
      ConfigEntry → Option Payload → World → FlowResult × World
  unfolding validate_input set_validation_error
  async_step_reauth_confirm entry none w = (reauth_form entry (default_username entry) [], w)
  async_step_reauth_confirm entry (some user_input) w =
      reauth_with entry (lookup "username" user_input) (lookup "password" user_input) w

  abbrev pub updated_entry : Option (Payload × Payload) → FlowResult
  updated_entry none = failed "KeyError"
  updated_entry (some (config, options)) =
      update_and_abort config (some options) "reconfigure_successful"

  abbrev pub on_submitted : Submitted box → Bool → FlowResult × World
  on_submitted submitted true = (
    updated_entry (config_and_options_from_configure_input submitted.user_input),
    submitted.world,
  )
  on_submitted submitted false = (
    show_form "reconfigure" (configure_schema_for_resubmit is_wide submitted.user_input)
        submitted.errors [],
    submitted.world,
  )

  unfoldable pub async_step_reconfigure : ConfigEntry → Option Payload → World → FlowResult × World
  unfolding async_validate_configure_input
  async_step_reconfigure entry none w =
      (show_form "reconfigure" (configure_schema is_wide entry.config entry.options) [] [], w)
  async_step_reconfigure entry (some user_input) w =
      let submitted =
        async_validate_configure_input box is_wide user_input [] (some entry.config ∷ []) w in
      on_submitted submitted submitted.done
