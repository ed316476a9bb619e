-- ===== src/Forms/Validation.antt =====
-- custom_components/fritzbox_vpn/flow_forms.py: the test of credentials against the box, by the session
-- of fritzconnection_session.py, and the keys of its failures.
use fritzbox_vpn.Base.{
  Bool, true, false, Option, none, some, List, [], ◌∷◌, Char, String, lookup, put, lower,
  contains_any, ◌⊕◌, if◌then◌else◌,
}
use fritzbox_vpn.Value.{Value, Payload, to_str}
use fritzbox_vpn.Outcome.{message}
use fritzbox_vpn.Config.{error_indicator_auth, error_indicator_connect, password_from_sources}
use fritzbox_vpn.Session.State.{Session}
use fritzbox_vpn.Session.Listing.{Connections}
use fritzbox_vpn.Adapter.{
  Adapter, Library, Reply, End, returned, timed_out, unreachable, login_failed, raised_again, init,
  async_close, with_https_http_fallback,
}
use fritzbox_vpn.Forms.Submit.{Errors, fill_password_if_missing, validate_host_on_submit}

-- What is behind the session: the library, its listing, and the one of the fallback session.
pub record Box : Type 1 where
  pub library : Library
  pub call : library.World → Reply Connections × library.World
  pub primary : Session → library.World → Reply Connections × (Session × library.World)

-- `CannotConnect`, `InvalidAuth` and any other exception with its `str`.
pub data Failure : Type 0 where
  cannot_connect : Failure
  invalid_auth : Failure
  other_failure : String → Failure

-- The title for the entry.
pub data Validated : Type 0 where
  accepted : String → Validated
  refused : Failure → Validated

-- `str(err)`
abbrev pub text_of : End Connections → Option String
text_of (returned x) = none
text_of (timed_out m) = some m
text_of (unreachable m) = some m
text_of (login_failed m) = some m
text_of (raised_again e) = some (message e)

abbrev pub judge : String → Option String → Validated
judge host none = accepted ("Fritz!Box VPN (" ⊕ host ⊕ ")")
judge host (some error_msg) =
    if contains_any (lower error_msg) error_indicator_auth
    then refused invalid_auth
    else refused cannot_connect

abbrev pub close_after : Option String → Adapter → Adapter
close_after none session = async_close session
close_after (some error_msg) session = session

unfoldable pub validation_error_key : String → String
validation_error_key error_msg =
    if contains_any (lower error_msg) error_indicator_auth
    then "invalid_auth"
    else if contains_any (lower error_msg) error_indicator_connect
    then "cannot_connect"
    else "unknown"

unfoldable pub set_validation_error : Errors → Failure → Errors
unfolding validation_error_key
set_validation_error errors cannot_connect = put "base" "cannot_connect" errors
set_validation_error errors invalid_auth = put "base" "invalid_auth" errors
set_validation_error errors (other_failure error_msg) =
    put "base" (validation_error_key error_msg) errors

module _ (box : Box) where
  -- `session.async_get_vpn_connections()` on a new session
  unfoldable pub list_with :
      String → String → String → box.library.World → End Connections × (Adapter × box.library.World)
  list_with host username password w =
      with_https_http_fallback box.library box.call box.primary "Unexpected mode for sync VPN fetch"
        "failed to get login page" (init host username password true, w)

  abbrev pub listed :
      String
      → End Connections × (Adapter × box.library.World)
      → Validated × (Option Adapter × box.library.World)
  listed host (end, (session, w)) =
      (judge host (text_of end), (some (close_after (text_of end) session), w))

  -- A missing key is a `KeyError`; a host or name that is no text is passed on by its `str`.
  abbrev pub validate_with :
      Option Value
      → Option Value
      → String
      → box.library.World
      → Validated × (Option Adapter × box.library.World)
  validate_with none username password w = (refused (other_failure "'host'"), (none, w))
  validate_with (some host) none password w = (refused (other_failure "'username'"), (none, w))
  validate_with (some host) (some username) password w =
      listed (to_str host) (list_with (to_str host) (to_str username) password w)

  -- With the session that it made.
  unfoldable pub validate_input :
      Payload → box.library.World → Validated × (Option Adapter × box.library.World)
  unfolding list_with
  validate_input input w =
      validate_with (lookup "host" input) (lookup "username" input)
        (password_from_sources (some input ∷ [])) w

  pub record Submitted : Type 0 where
    pub done : Bool
    pub user_input : Payload
    pub errors : Errors
    pub world : box.library.World

  abbrev pub on_validated :
      Payload → Errors → Validated × (Option Adapter × box.library.World) → Submitted
  on_validated input errors (accepted title, (session, w)) = record {
    done = true;
    user_input = input;
    errors = errors;
    world = w;
  }
  on_validated input errors (refused failure, (session, w)) = record {
    done = false;
    user_input = input;
    errors = set_validation_error errors failure;
    world = w;
  }

  abbrev pub on_host : Payload → Bool × Errors → box.library.World → Submitted
  on_host input (false, errors) w = record {
    done = false;
    user_input = input;
    errors = errors;
    world = w;
  }
  on_host input (true, errors) w = on_validated input errors (validate_input input w)

  unfoldable pub async_validate_configure_input :
      (Char → Bool) → Payload → Errors → List (Option Payload) → box.library.World → Submitted
  unfolding validate_input fill_password_if_missing validate_host_on_submit set_validation_error
  async_validate_configure_input is_wide user_input errors password_sources w =
      let input = fill_password_if_missing user_input password_sources in
      on_host input (validate_host_on_submit is_wide input errors) w
