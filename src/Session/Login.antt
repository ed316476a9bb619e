-- ===== src/Session/Login.antt =====
-- fritzboxvpn/fritzboxvpn/session.py: the login page and the two ways to a session id.
pub mod Format
pub mod Fallback
use fritzbox_vpn.Base.{
  ℕ, ◌*◌, Bool, true, false, not, ◌&&◌, ◌||◌, Option, none, some, List, [], ◌∷◌, String, Dict, ◌==◌,
  ◌⊕◌, starts_with, strip, lookup, ltb, nat_eq, if◌then◌else◌,
}
use fritzbox_vpn.Value.{ℤ, pos, negsuc, parse_int, show_nat}
use fritzbox_vpn.Outcome.{
  Error, Outcome, ok, raised, connection_error, value_error, is_os_error, is_connection_error,
  is_value_error, message, return, raise, lift, attempt, ◌>>=◌, ◌>>◌,
}
use fritzbox_vpn.Session.State.{
  Transport, Session, Action, Request, Response, get, post, no_body, form, gets, modify, request,
  wait, raise_transport_error, login_url, default_protocol, invalid_sid_value,
}
use Format.{url_path, url_query, split_at, from_hex, to_hex}

-- `content and content.strip()`
abbrev has_content : String → Bool
has_content content = not (strip content == "")

module _ (t : Transport) where
  -- `root.findtext(tag)` of the login document (parsing.py)
  unfoldable pub find_login_text : String → String → Option String
  unfolding strip lookup
  find_login_text tag content =
      if has_content content
      then elim (t.parse_xml content) [ none ↦ none | some root ↦ lookup tag root ]
      else none

  unfoldable pub parse_challenge_from_login_xml : String → Option String
  unfolding find_login_text
  parse_challenge_from_login_xml content = find_login_text "Challenge" content

  unfoldable pub parse_sid_from_login_response : String → Option String
  unfolding find_login_text
  parse_sid_from_login_response content = find_login_text "SID" content

  unfoldable pub parse_blocktime_from_login_xml : String → Option ℤ
  unfolding find_login_text
  parse_blocktime_from_login_xml content = elim (find_login_text "BlockTime" content) [
    | none ↦ none
    | some raw ↦ parse_int raw
  ]

  -- A text that is there and not empty.
  abbrev pub present : Option String → Option String
  present none = none
  present (some x) = if x == "" then none else some x

  -- `not sid or sid == INVALID_SID_VALUE` refuses.
  abbrev pub valid_sid : Option String → Option String
  valid_sid none = none
  valid_sid (some x) = if x == "" || x == invalid_sid_value then none else some x

  abbrev body_if_ok : Response → Error → Action t String
  body_if_ok response err = if nat_eq response.status 200 then lift response.body else raise err

  -- GET the login page over HTTP; the protocol is switched after success only.
  unfoldable pub get_login_page_http : String → String → Action t String
  unfolding gets modify request
  get_login_page_http api_path query = do
    host ← gets t (λ s. s.host)
    content ←
        attempt
          (do
            response ← request t (record {
              method = get;
              url = "http://" ⊕ host ⊕ api_path ⊕ (if query == "" then "" else "?" ⊕ query);
              body = no_body;
              headers = [];
            })
            body_if_ok response
                (connection_error ("Failed to get login page: " ⊕ show_nat response.status)))
          (λ err.
            if is_os_error err && not (is_connection_error err)
            then raise (connection_error ("Cannot connect to " ⊕ host ⊕ ": " ⊕ message err))
            else raise err)
    modify t (λ s. record s { protocol = "http" })
    return content

  unfoldable pub https_fallback_status : ℕ → Bool
  https_fallback_status n = nat_eq n 400 || nat_eq n 404 || nat_eq n 502 || nat_eq n 503

  -- The `ConnectionError` for another status is an `OSError`: the `except` clause below takes it too.
  unfoldable pub fetch_login_page : String → Action t String
  unfolding gets request
  fetch_login_page url =
      let api_path = url_path url in
      let query = url_query url in
      attempt
        (do
          response ← request t (record { method = get; url = url; body = no_body; headers = [] })
          protocol ← gets t (λ s. s.protocol)
          if nat_eq response.status 200
              then lift response.body
              else if protocol == "https" && https_fallback_status response.status
              then get_login_page_http api_path query
              else raise
                  (connection_error ("Failed to get login page: " ⊕ show_nat response.status)))
        (λ err.
          if is_os_error err
          then (do
            protocol ← gets t (λ s. s.protocol)
            host ← gets t (λ s. s.host)
            if not (protocol == "https")
                then raise (connection_error ("Cannot connect to " ⊕ host ⊕ ": " ⊕ message err))
                else get_login_page_http api_path query)
          else raise err)

  abbrev pbkdf2_digest :
      String → String → Option (List ℕ) → Option ℤ → Option (List ℕ) → Option ℤ → Outcome String
  pbkdf2_digest password salt2_hex (some salt1) (some iter1) (some salt2) (some iter2) =
      elim (t.pbkdf2_hmac (t.utf8 password) salt1 iter1) [
        | raised e ↦ raised e
        | ok hash1 ↦ elim (t.pbkdf2_hmac hash1 salt2 iter2) [
          | raised e ↦ raised e
          | ok hash2 ↦ ok (salt2_hex ⊕ "$" ⊕ to_hex hash2)
        ]
      ]
  pbkdf2_digest password salt2_hex _ _ _ _ = raised (value_error "invalid challenge number")

  abbrev pbkdf2_parts : List String → String → Outcome String
  pbkdf2_parts (version ∷ iter1 ∷ salt1_hex ∷ iter2 ∷ salt2_hex ∷ _) password =
      if version == "2"
      then pbkdf2_digest password salt2_hex (from_hex salt1_hex) (parse_int iter1)
          (from_hex salt2_hex) (parse_int iter2)
      else raised (value_error "Unexpected PBKDF2 challenge format")
  pbkdf2_parts _ password = raised (value_error "Unexpected PBKDF2 challenge format")

  unfoldable pub calculate_pbkdf2_response : String → String → Outcome String
  unfolding split_at
  calculate_pbkdf2_response challenge password = pbkdf2_parts (split_at b'$' challenge) password

  abbrev pub wait_seconds : Option ℤ → Action t (Unit {0})
  wait_seconds (some (pos n)) = if ltb 0 n then wait t (n * 1000) else return tt
  wait_seconds _ = return tt

  abbrev pub supported : Option String → Option String
  supported none = none
  supported (some c) = if not (c == "") && starts_with c "2$" then some c else none

  abbrev pub login_form : String → String → Dict String
  login_form username response = ("username", username) ∷ ("response", response) ∷ []

  -- POST of the response of the PBKDF2 login; `none` for a status other than 200.
  unfoldable pub post_pbkdf2 : String → Action t (Option String)
  unfolding gets request raise_transport_error
  post_pbkdf2 response = do
    url ← gets t (λ s. login_url s true)
    username ← gets t (λ s. s.username)
    attempt
        (do
          response_http ← request t (record {
            method = post;
            url = url;
            body = form (login_form username response);
            headers = [];
          })
          if nat_eq response_http.status 200
              then (do resp_content ← lift response_http.body; return (some resp_content))
              else return none)
        (λ err.
          if is_os_error err && not (is_connection_error err)
          then raise_transport_error t err
          else raise err)

  abbrev pub sid_of_post : Option String → Option String
  sid_of_post none = none
  sid_of_post (some content) = valid_sid (parse_sid_from_login_response content)

  abbrev pub answer_challenge : String → Option String → Action t (Option String)
  answer_challenge content none = return none
  answer_challenge content (some challenge) = do
    wait_seconds (parse_blocktime_from_login_xml content)
    password ← gets t (λ s. s.password)
    response ← lift (calculate_pbkdf2_response challenge password)
    posted ← post_pbkdf2 response
    return (sid_of_post posted)

  unfoldable pub try_get_session_via_pbkdf2 : Action t (Option String)
  unfolding gets wait
  try_get_session_via_pbkdf2 = do
    url ← gets t (λ s. login_url s true)
    content ← fetch_login_page url
    if content == ""
        then return none
        else answer_challenge content (supported (parse_challenge_from_login_xml content))

  abbrev pub store_sid : String → Action t String
  store_sid sid = do modify t (λ s. record s { sid = some sid }); return sid

  -- POST of the response of the MD5 login.
  unfoldable pub post_md5 : String → Action t String
  unfolding gets request raise_transport_error
  post_md5 challenge = do
    url ← gets t (λ s. login_url s false)
    username ← gets t (λ s. s.username)
    password ← gets t (λ s. s.password)
    attempt
        (do
          response ← request t (record {
            method = post;
            url = url;
            body =
                form
                  (login_form username (challenge ⊕ "-" ⊕ t.md5_hex (challenge ⊕ "-" ⊕ password)));
            headers = [];
          })
          body_if_ok response (connection_error ("Login failed: " ⊕ show_nat response.status)))
        (λ err.
          if is_os_error err && not (is_connection_error err)
          then raise_transport_error t err
          else raise err)

  abbrev pub login_failed_sid : String
  login_failed_sid =
      "Login failed: Invalid SID. This can be caused by: (1) Incorrect username or password, or (2) TR-064 not being enabled. Please check your credentials first, then verify that TR-064 (Permit access for apps) is enabled in the Fritz!Box under Home Network > Network > Network settings > Access Settings in the Home Network. Note: UPnP is only needed for automatic discovery via SSDP, not for API access."

  abbrev pub accept_sid : Option String → Action t String
  accept_sid none = raise (value_error login_failed_sid)
  accept_sid (some sid) = store_sid sid

  abbrev pub answer_md5 : Option String → Action t String
  answer_md5 none = raise (value_error "Could not parse login response XML or find challenge")
  answer_md5 (some challenge) = do
    content ← post_md5 challenge
    accept_sid (valid_sid (parse_sid_from_login_response content))

  -- The legacy login.
  unfoldable pub get_session_via_md5 : Action t String
  unfolding gets modify
  get_session_via_md5 = do
    url ← gets t (λ s. login_url s false)
    content ← attempt (fetch_login_page url) (λ err.
        if is_connection_error err || is_value_error err
        then raise err
        else raise (connection_error ("Unexpected error: " ⊕ message err)))
    if content == ""
        then raise (connection_error "No response from Fritz!Box login page")
        else answer_md5 (present (parse_challenge_from_login_xml content))

  abbrev pub after_pbkdf2 : Option String → Action t String
  after_pbkdf2 none = get_session_via_md5
  after_pbkdf2 (some sid) = store_sid sid

  abbrev pub cached_or_login : Option String → Action t String
  cached_or_login (some sid) = return sid
  cached_or_login none = do
    sid ←
        attempt try_get_session_via_pbkdf2
          (λ err. if is_value_error err then return none else raise err)
    after_pbkdf2 sid

  -- The session id: the cached one, else that of a login.
  unfoldable pub async_get_session : Action t String
  unfolding gets modify
  async_get_session = do cached ← gets t (λ s. s.sid); cached_or_login cached
