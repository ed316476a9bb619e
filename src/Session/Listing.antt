-- ===== src/Session/Listing.antt =====
-- fritzboxvpn/fritzboxvpn/session.py: the two listings of the VPN connections and their probing.
pub mod Reset
use fritzbox_vpn.Base.{
  ℕ, Bool, true, false, not, ◌&&◌, Option, none, some, List, [], ◌∷◌, String, Dict, ◌==◌, ◌⊕◌,
  lower, contains, nat_eq, if◌then◌else◌, map_option,
}
use fritzbox_vpn.Value.{Value, Payload, dict, is_null, show_nat}
use fritzbox_vpn.Parsing.{
  normalize_box_connections, normalize_entries, extract_box_connections_from_data,
  extract_wireguard_connections_from_rest,
}
use fritzbox_vpn.Outcome.{
  Error, Outcome, ok, raised, connection_error, value_error, is_os_error, is_value_error, message,
  return, raise, lift, attempt, ◌>>=◌, ◌>>◌,
}
use fritzbox_vpn.Session.State.{
  Transport, Session, Action, Request, Response, get, post, no_body, form, gets, modify, request,
  raise_transport_error, base_url, rest_headers, invalidate_session,
}
use fritzbox_vpn.Session.Login.{async_get_session}

abbrev pub Connections : Type 0
Connections = Dict Payload

abbrev pub error_msg_invalid_sid : String
error_msg_invalid_sid = "Invalid SID"

abbrev pub listing_probe_order : List String
listing_probe_order = "data_lua" ∷ "rest" ∷ []

-- `data if isinstance(data, dict) else None`
abbrev object_of : Value → Option Value
object_of (dict fs) = some (dict fs)
object_of _ = none

module _ (t : Transport) where
  abbrev html_or_none : Bool → Outcome (Option Value)
  html_or_none true = raised (value_error "Invalid SID (HTML response)")
  html_or_none false = ok none

  abbrev decoded : Option Value → Bool → Outcome (Option Value)
  decoded none require_json = html_or_none require_json
  decoded (some v) require_json = ok (object_of v)

  -- The body as a JSON object; `none` where the contract is absent.
  unfoldable pub response_json_dict : Response → Bool → Outcome (Option Value)
  unfolding lower contains
  response_json_dict response require_json =
      if contains (lower response.content_type) "json"
      then elim response.body [
        | raised e ↦ raised e
        | ok text ↦ decoded (t.parse_json text) require_json
      ]
      else html_or_none require_json

  unfoldable pub validate_vpn_listing_status : Response → String → Action t (Unit {0})
  unfolding modify
  validate_vpn_listing_status response source =
      if nat_eq response.status 403
      then raise (value_error "Invalid SID (HTTP 403)")
      else if not (nat_eq response.status 200)
      then (do
        modify t invalidate_session
        raise (
            connection_error
              ("Failed to get VPN connections" ⊕ source ⊕ ": HTTP " ⊕ show_nat response.status)))
      else return tt

  abbrev pub rest_connections : Option Value → Option Connections
  rest_connections none = none
  rest_connections (some answer) =
      map_option normalize_entries (extract_wireguard_connections_from_rest answer)

  abbrev pub data_lua_connections : Option Value → Option Connections
  data_lua_connections none = none
  data_lua_connections (some answer) =
      let box = extract_box_connections_from_data answer "shareWireguard" in
      if is_null box then none else some (normalize_box_connections box)

  abbrev pub transport_error : {A : Type 0} → Error → Action t A
  transport_error err = if is_os_error err then raise_transport_error t err else raise err

  -- GET /api/v0/generic/vpn
  unfoldable pub fetch_vpn_connections_via_rest : String → Action t (Option Connections)
  unfolding gets request raise_transport_error
  fetch_vpn_connections_via_rest sid = do
    url ← gets t (λ s. base_url s ⊕ "/api/v0/generic/vpn")
    headers ← gets t (λ s. rest_headers s sid false)
    attempt
        (do
          response ←
              request t (record { method = get; url = url; body = no_body; headers = headers })
          if nat_eq response.status 404 then return none else (do
            validate_vpn_listing_status response " via REST"
            answer ← lift (response_json_dict response false)
            return (rest_connections answer)))
        transport_error

  abbrev data_lua_params : String → Dict String
  data_lua_params sid =
      ("sid", sid)
      ∷ ("xhr", "1")
      ∷ ("xhrId", "all")
      ∷ ("page", "shareWireguard")
      ∷ ("no_sidrenew", "")
      ∷ []

  -- POST /data.lua
  unfoldable pub fetch_vpn_connections_via_data_lua : String → Action t (Option Connections)
  unfolding gets request raise_transport_error
  fetch_vpn_connections_via_data_lua sid = do
    url ← gets t (λ s. base_url s ⊕ "/data.lua")
    attempt
        (do
          response ←
              request t (record {
                method = post;
                url = url;
                body = form (data_lua_params sid);
                headers = [];
              })
          validate_vpn_listing_status response ""
          answer ← lift (response_json_dict response true)
          return (data_lua_connections answer))
        transport_error

  unfoldable pub fetch_listing_by_mode : String → String → Action t (Option Connections)
  fetch_listing_by_mode mode sid =
      if mode == "rest"
      then fetch_vpn_connections_via_rest sid
      else if mode == "data_lua"
      then fetch_vpn_connections_via_data_lua sid
      else raise (value_error ("Unknown VPN listing mode: " ⊕ mode))

  abbrev pub is_preferred : String → Option String → Bool
  is_preferred mode none = false
  is_preferred mode (some p) = mode == p

  abbrev pub keep_mode :
      String → Option Connections → Action t (Option Connections) → Action t (Option Connections)
  keep_mode mode none rest = rest
  keep_mode mode (some c) rest = do
    modify t (λ s. record s { listing_mode = some mode })
    return (some c)

  -- The loop over the listings that were not tried yet.
  unfoldable pub probe_listings :
      List String → Option String → String → Action t (Option Connections)
  unfolding modify
  probe_listings [] preferred sid = return none
  probe_listings (mode ∷ modes) preferred sid =
      let rest = probe_listings modes preferred sid in
      if is_preferred mode preferred
      then rest
      else (do result ← fetch_listing_by_mode mode sid; keep_mode mode result rest)

  abbrev pub or_missing_payload : Option Connections → Action t Connections
  or_missing_payload (some c) = return c
  or_missing_payload none = do
    modify t invalidate_session
    raise (connection_error "VPN connections payload missing from Fritz!Box response")

  abbrev pub keep_or_forget : Option Connections → Action t (Option Connections)
  keep_or_forget (some c) = return (some c)
  keep_or_forget none = do modify t (λ s. record s { listing_mode = none }); return none

  abbrev pub preferred_listing : Option String → String → Action t (Option Connections)
  preferred_listing none sid = return none
  preferred_listing (some mode) sid = do
    result ← fetch_listing_by_mode mode sid
    keep_or_forget result

  abbrev pub then_probe :
      Option Connections → Option String → String → Action t (Option Connections)
  then_probe (some c) preferred sid = return (some c)
  then_probe none preferred sid = probe_listings listing_probe_order preferred sid

  -- One request for the connections, with the login that it needs.
  unfoldable pub fetch_vpn_connections_once : Action t Connections
  unfolding gets modify
  fetch_vpn_connections_once = do
    sid ← async_get_session t
    preferred ← gets t (λ s. s.listing_mode)
    first ← preferred_listing preferred sid
    result ← then_probe first preferred sid
    or_missing_payload result

  -- One more try with a fresh session after an expired session id.
  unfoldable pub async_get_vpn_connections : Action t Connections
  unfolding modify
  async_get_vpn_connections = attempt fetch_vpn_connections_once (λ err.
      if is_value_error err && contains (message err) error_msg_invalid_sid
      then (do modify t invalidate_session; fetch_vpn_connections_once)
      else raise err)
