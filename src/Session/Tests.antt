-- ===== src/Session/Tests.antt =====
-- Runs of session.py's methods over a network that plays a list of answers.
use fritzbox_vpn.Base.{
  ℕ, if◌then◌else◌, Bool, ◌≡◌, refl, true, false, Option, none, some, List, [], ◌∷◌, String, ◌==◌,
  lookup, put, elem, strip, lower, contains,
}
use fritzbox_vpn.Value.{str, Value, bool, dict, end, field, to_str, to_dict, truthy}
use fritzbox_vpn.Parsing.{
  normalize_box_connections, normalize_items, item_uid, raw_uid, normalize_connection_uid,
  normalized_entry, connection_active_from_api, extract_box_connections_from_data,
}
use fritzbox_vpn.Outcome.{Outcome, ok, raised, os_error, connection_error}
use fritzbox_vpn.Session.State.{
  Transport, Session, Response, base_url, rest_headers, gets, modify, request, wait,
  raise_transport_error, invalidate_session, init,
}
use fritzbox_vpn.Session.Logic.{Post}
use fritzbox_vpn.Session.Valid.{IsValid, init-IsValid}
use fritzbox_vpn.Session.Valid.Login.{LoggedIn, async_get_session-LoggedIn}
use fritzbox_vpn.Session.Valid.Listing.{IsCached, async_get_vpn_connections-IsCached}
use fritzbox_vpn.Session.Login.{
  fetch_login_page, get_login_page_http, https_fallback_status, async_get_session,
}
use fritzbox_vpn.Session.Login.Format.{url_path, url_query}
use fritzbox_vpn.Session.Login.Fallback.{fallback_on_any_status}
use fritzbox_vpn.Session.Listing.{
  response_json_dict, validate_vpn_listing_status, fetch_vpn_connections_via_data_lua,
  fetch_listing_by_mode, fetch_vpn_connections_once, async_get_vpn_connections, Connections,
}
use fritzbox_vpn.Session.Listing.Reset.{ResetOrKept, fetch_listing-ResetOrKept}
use fritzbox_vpn.Session.Toggle.{put_request, put_activated, toggle_with, async_toggle_vpn}
use fritzbox_vpn.Session.Toggle.Verified.{IsVerified, toggle-IsVerified, toggle-raised}

abbrev listing_of : Bool → Value
listing_of active = dict (
    field "data"
      (dict (
        field "init"
          (dict (
            field "boxConnections" (dict (field "a" (dict (field "active" (bool active) end)) end))
              end))
          end))
      end)

abbrev json_answer : String → Option Value
json_answer text =
    if text == "on"
    then some (listing_of true)
    else if text == "off"
    then some (listing_of false)
    else none

abbrev next_answer : List (Outcome Response) → Outcome Response × List (Outcome Response)
next_answer [] = (raised (os_error "no route to host"), [])
next_answer (r ∷ rs) = (r, rs)

-- The world is the list of the answers that are still to come.
abbrev pub played : Transport
played = record {
  World = List (Outcome Response);
  send = λ r w. next_answer w;
  sleep = λ n w. w;
  parse_json = json_answer;
  parse_xml = λ s. some (("SID", s) ∷ []);
  md5_hex = λ s. s;
  utf8 = λ s. [];
  pbkdf2_hmac = λ p s n. ok [];
}

abbrev pub answer : ℕ → String → Outcome Response
answer status text =
    ok (record { status = status; content_type = "application/json"; body = ok text })

abbrev pub known_session : Session
known_session = record {
  host = "fritz.box";
  username = "u";
  password = "p";
  protocol = "https";
  sid = some "s1";
  listing_mode = some "data_lua";
}

known_session-IsValid : IsValid known_session
unfolding elem
known_session-IsValid = record { protocol_ok = refl; sid_ok = (refl, refl); mode_ok = refl }

pub toggle_answers :
    async_toggle_vpn played "a" true true
      (known_session, answer 200 "off" ∷ answer 200 "" ∷ answer 200 "on" ∷ [])
    ≡ (ok true, (known_session, []))
unfolding async_toggle_vpn toggle_with put_activated put_request gets modify request wait
    async_get_session async_get_vpn_connections fetch_vpn_connections_once fetch_listing_by_mode
    fetch_vpn_connections_via_data_lua validate_vpn_listing_status response_json_dict
    extract_box_connections_from_data normalize_box_connections normalize_items item_uid raw_uid
    normalize_connection_uid normalized_entry connection_active_from_api truthy to_dict to_str
    lookup put elem strip lower contains base_url rest_headers
toggle_answers = refl

abbrev pub switched_on : Connections
switched_on = ("a", ("active", bool true) ∷ ("uid", str "a") ∷ []) ∷ []

pub listing_answers :
    async_get_vpn_connections played (known_session, answer 200 "on" ∷ [])
    ≡ (ok switched_on, (known_session, []))
unfolding gets modify request wait async_get_session async_get_vpn_connections
    fetch_vpn_connections_once fetch_listing_by_mode fetch_vpn_connections_via_data_lua
    validate_vpn_listing_status response_json_dict extract_box_connections_from_data
    normalize_box_connections normalize_items item_uid raw_uid normalize_connection_uid
    normalized_entry connection_active_from_api truthy to_dict to_str lookup put elem strip lower
    contains base_url rest_headers
listing_answers = refl

failed_toggle : async_toggle_vpn played "a" true true (known_session, []) ≡ (
  raised (connection_error "Cannot connect to fritz.box: no route to host"),
  (invalidate_session known_session, []),
)
unfolding async_toggle_vpn toggle_with gets modify request async_get_session
    async_get_vpn_connections fetch_vpn_connections_once fetch_listing_by_mode
    fetch_vpn_connections_via_data_lua raise_transport_error lookup contains base_url
    invalidate_session
failed_toggle = refl

toggle-IsVerified_example : IsVerified played "a" true (known_session, [])
toggle-IsVerified_example =
    toggle-IsVerified played "a" true true
      (known_session, answer 200 "off" ∷ answer 200 "" ∷ answer 200 "on" ∷ []) (known_session, [])
      toggle_answers

toggle-raised_example : async_get_vpn_connections played (known_session, []) ≡ (
  raised (connection_error "Cannot connect to fritz.box: no route to host"),
  (invalidate_session known_session, []),
)
toggle-raised_example =
    toggle-raised played "a" true true known_session []
      (connection_error "Cannot connect to fritz.box: no route to host")
      (invalidate_session known_session, []) known_session-IsValid failed_toggle

abbrev teapot : Response
teapot = record { status = 418; content_type = ""; body = ok "" }

other_status : https_fallback_status played 418 ≡ false
unfolding https_fallback_status
other_status = refl

fallback_on_any_status_example :
    fetch_login_page played "https://fritz.box/login_sid.lua"
      (known_session, ok teapot ∷ answer 200 "page" ∷ [])
    ≡ get_login_page_http played
        (url_path "https://fritz.box/login_sid.lua")
        (url_query "https://fritz.box/login_sid.lua")
        (known_session, answer 200 "page" ∷ [])
fallback_on_any_status_example =
    fallback_on_any_status played "https://fritz.box/login_sid.lua" known_session
      (ok teapot ∷ answer 200 "page" ∷ []) (answer 200 "page" ∷ []) teapot refl refl refl
      other_status

fetch_listing-ResetOrKept_example :
    Post
      (λ _ s'. s' ≡ known_session)
      (ResetOrKept known_session)
      (fetch_listing_by_mode played "data_lua" "s1" (known_session, answer 502 "" ∷ []))
fetch_listing-ResetOrKept_example =
    fetch_listing-ResetOrKept played "data_lua" "s1" known_session (answer 502 "" ∷ [])

async_get_session-LoggedIn_example :
    Post
      (LoggedIn played)
      (λ _ s'. IsValid s')
      (async_get_session played
        (init "fritz.box" "u" "p" "ftp", answer 200 "2$1$2$3$4" ∷ answer 200 "77" ∷ []))
async_get_session-LoggedIn_example =
    async_get_session-LoggedIn played (init "fritz.box" "u" "p" "ftp")
      (answer 200 "2$1$2$3$4" ∷ answer 200 "77" ∷ []) (init-IsValid "fritz.box" "u" "p" "ftp")

async_get_vpn_connections-IsCached_example :
    Post
      (λ _ s'. IsCached s')
      (λ _ s'. IsValid s')
      (async_get_vpn_connections played
        (known_session, answer 403 "" ∷ answer 200 "77" ∷ answer 200 "on" ∷ []))
async_get_vpn_connections-IsCached_example =
    async_get_vpn_connections-IsCached played known_session
      (answer 403 "" ∷ answer 200 "77" ∷ answer 200 "on" ∷ []) known_session-IsValid
