-- ===== src/Flow/Calls/Backed.antt =====
-- custom_components/fritzbox_vpn/config_flow.py: the test behind a new or updated entry.
pub mod Updates
pub mod All
use fritzbox_vpn.Base.{
  Bool, true, false, Option, none, some, List, [], ◌∷◌, Char, String, ◌≡◌, refl, sym, ap, ◌∙◌, inl,
  inr, ◌==◌, ◌||◌, lookup, put, lookup-put, Bool-cases, Option-cases, if◌then◌else◌,
}
use fritzbox_vpn.Value.{Value, num, pos, Payload}
use fritzbox_vpn.Config.{host_from_config}
use fritzbox_vpn.Adapter.{Adapter}
use fritzbox_vpn.Source.{get_existing_fritz_config}
use fritzbox_vpn.Discovery.{
  ServiceInfo, Parsers, is_fritzbox_router_discovery, host_from_ssdp, unique_id_for_discovery,
  is_link_local_host,
}
use fritzbox_vpn.Forms.Submit.{
  data_of, with_options, Errors, fill_password_if_missing, validate_host_on_submit,
  config_and_options_from_configure_input,
}
use fritzbox_vpn.Forms.Validation.{
  Box, Validated, accepted, refused, validate_input, Submitted, on_host, on_validated,
  async_validate_configure_input,
}
use fritzbox_vpn.Forms.Tested.{IsTested}
use fritzbox_vpn.Flow.State.{
  FlowResult, show_form, abort, create_entry, update_and_abort, failed, Flow, ConfigEntry,
}
use fritzbox_vpn.Flow.Steps.{
  OtherEntries, Attempt, unless_refused, for_unique_id, on_tested, on_host_checked,
  try_create_entry_from_credentials, is_complete, on_found, try_found, or_form, again_user,
  again_confirm, async_step_user, async_step_confirm, discovered, with_host, unless_found,
  async_step_ssdp, credentials, on_reauth, reauth_with, async_step_reauth_confirm, updated_entry,
  on_submitted, async_step_reconfigure,
}
use fritzbox_vpn.Flow.Calls.{FlowCall, user, ssdp, confirm, reauth, reconfigure, step}

module _ (box : Box) where
  pub record IsBacked (input : Payload) : Type 0 where
    pub tested : Payload
    pub test : IsTested box tested
    pub same_host : lookup "host" input ≡ lookup "host" tested
    pub same_username : lookup "username" input ≡ lookup "username" tested
    pub same_password : lookup "password" input ≡ lookup "password" tested

  -- What a result says of the entry that it adds or updates.
  abbrev pub ResultIsBacked : FlowResult → Type 0
  ResultIsBacked (create_entry title config) = IsBacked config
  ResultIsBacked (update_and_abort config options reason) = IsBacked config
  ResultIsBacked _ = Unit

  by_itself :
      (input : Payload) (title : String) (w : box.library.World)
      (after : Option Adapter × box.library.World)
      → validate_input box input w ≡ (accepted title, after)
      → IsBacked input
  by_itself input title w after h = record {
    tested = input;
    test = record { title = title; before = w; after = after; answered = h };
    same_host = refl;
    same_username = refl;
    same_password = refl;
  }

  module _ (is_wide : Char → Bool) (parsers : Parsers)
      (unique_id_refused : String → Option String) where
    abbrev Tried : Type 0
    Tried = Attempt box is_wide parsers unique_id_refused

    abbrev OptionIsBacked : Option FlowResult → Type 0
    OptionIsBacked none = Unit
    OptionIsBacked (some result) = ResultIsBacked result

    unless_refused-Backed :
        (o : Option String) (result : FlowResult)
        → ResultIsBacked result
        → ResultIsBacked (unless_refused box is_wide parsers unique_id_refused o result)
    unless_refused-Backed none result h = h
    unless_refused-Backed (some reason) result h = tt

    for_unique_id-Backed :
        (o : Option String) (result : FlowResult)
        → ResultIsBacked result
        → ResultIsBacked (for_unique_id box is_wide parsers unique_id_refused o result)
    for_unique_id-Backed none result h = h
    for_unique_id-Backed (some unique_id) result h =
        unless_refused-Backed (unique_id_refused unique_id) result h

    on_tested-Backed :
        (input : Payload) (errors : Errors) (unique_id : Option String) (w : box.library.World)
        (r : Validated × (Option Adapter × box.library.World))
        → validate_input box input w ≡ r
        → OptionIsBacked
            (on_tested box is_wide parsers unique_id_refused input errors unique_id r).result
    on_tested-Backed input errors unique_id w (accepted title, after) h =
        for_unique_id-Backed unique_id (create_entry title input) (by_itself input title w after h)
    on_tested-Backed input errors unique_id w (refused failure, after) h = tt

    host_checked-Backed :
        (input : Payload) (unique_id : Option String) (r : Bool × Errors) (w : box.library.World)
        → OptionIsBacked
            (on_host_checked box is_wide parsers unique_id_refused input unique_id r w).result
    host_checked-Backed input unique_id (false, errors) w = tt
    host_checked-Backed input unique_id (true, errors) w =
        on_tested-Backed input errors unique_id w (validate_input box input w) refl

    try_create-Backed :
        (input : Payload) (errors : Errors) (sources : List (Option Payload))
        (unique_id : Option String) (w : box.library.World)
        → OptionIsBacked
            (try_create_entry_from_credentials box is_wide parsers unique_id_refused input errors
              sources unique_id w).result
    unfolding try_create_entry_from_credentials
    try_create-Backed input errors sources unique_id w =
        host_checked-Backed (fill_password_if_missing input sources) unique_id
          (validate_host_on_submit is_wide (fill_password_if_missing input sources) errors) w

    or_form-Backed :
        (form : Tried → FlowResult) (flow : Flow) (attempt : Tried) (o : Option FlowResult)
        → ((a : Tried) → ResultIsBacked (form a))
        → OptionIsBacked o
        → ResultIsBacked (or_form box is_wide parsers unique_id_refused form flow attempt o).0
    or_form-Backed form flow attempt none f h = f attempt
    or_form-Backed form flow attempt (some result) f h = h

    found-Backed :
        (config : Payload) (w : box.library.World)
        (r : Validated × (Option Adapter × box.library.World))
        → validate_input box config w ≡ r
        → ResultIsBacked (on_found box is_wide parsers unique_id_refused config r).0
    found-Backed config w (accepted title, after) h = by_itself config title w after h
    found-Backed config w (refused failure, after) h = tt

    try_found-Backed :
        (o : Option Payload) (w : box.library.World)
        → ResultIsBacked (try_found box is_wide parsers unique_id_refused o w).0
    try_found-Backed none w = tt
    try_found-Backed (some config) w = elim (Bool-cases (is_complete config)) [
      | inl e ↦ rw e (found-Backed config w (validate_input box config w) refl)
      | inr e ↦ rw e tt
    ]

    pub user-Backed :
        (others : OtherEntries) (input : Option Payload) (flow : Flow) (w : box.library.World)
        → ResultIsBacked
            (async_step_user box is_wide parsers unique_id_refused others input flow w).0
    unfolding async_step_user
    user-Backed others none flow w = try_found-Backed (get_existing_fritz_config others) w
    user-Backed others (some input) flow w =
        let attempt =
          try_create_entry_from_credentials box is_wide parsers unique_id_refused input []
            (flow.existing_config ∷ []) none w in
        or_form-Backed (again_user box is_wide parsers unique_id_refused) flow attempt
          attempt.result (λ a. tt) (try_create-Backed input [] (flow.existing_config ∷ []) none w)

    pub confirm-Backed :
        (input : Option Payload) (flow : Flow) (w : box.library.World)
        → ResultIsBacked (async_step_confirm box is_wide parsers unique_id_refused input flow w).0
    unfolding async_step_confirm
    confirm-Backed none flow w = tt
    confirm-Backed (some input) flow w =
        let attempt =
          try_create_entry_from_credentials box is_wide parsers unique_id_refused input []
            (flow.existing_config ∷ []) flow.discovered_unique_id w in
        or_form-Backed (again_confirm box is_wide parsers unique_id_refused flow) flow attempt
          attempt.result (λ a. tt)
          (try_create-Backed input [] (flow.existing_config ∷ []) flow.discovered_unique_id w)
