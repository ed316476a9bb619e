-- ===== src/Session/State.antt =====
-- fritzboxvpn/fritzboxvpn/session.py: the session object, its URLs and headers, and what it talks to.
use fritzbox_vpn.Base.{
  ℕ, Bool, Option, none, List, [], ◌∷◌, String, Dict, ◌⊕◌, put, elem, if◌then◌else◌,
}
use fritzbox_vpn.Value.{Value, ℤ}
use fritzbox_vpn.Outcome.{Error, Outcome, Exec, ok, connection_error, raise, ◌>>=◌, ◌>>◌, message}

pub data Method : Type 0 where
  get post put_method : Method

pub data Body : Type 0 where
  no_body : Body
  form : Dict String → Body
  json : Dict Value → Body

pub record Request : Type 0 where
  pub method : Method
  pub url : String
  pub body : Body
  pub headers : Dict String

-- `content_type` is the header's text, empty where it is missing; reading the body may raise.
pub record Response : Type 0 where
  pub status : ℕ
  pub content_type : String
  pub body : Outcome String

-- What is not this program's: the network behind aiohttp's client, `asyncio.sleep` (in
-- milliseconds), and the decoders and digests of Python's C libraries. A document is the list of the
-- root's children with their texts.
pub record Transport : Type 1 where
  pub World : Type 0
  pub send : Request → World → Outcome Response × World
  pub sleep : ℕ → World → World
  pub parse_json : String → Option Value
  pub parse_xml : String → Option (Dict String)
  pub md5_hex : String → String
  pub utf8 : String → List ℕ
  pub pbkdf2_hmac : List ℕ → List ℕ → ℤ → Outcome (List ℕ)

pub record Session : Type 0 where
  pub host : String
  pub username : String
  pub password : String
  pub protocol : String
  pub sid : Option String
  pub listing_mode : Option String

abbrev pub protocols_allowed : List String
protocols_allowed = "http" ∷ "https" ∷ []

abbrev pub default_protocol : String
default_protocol = "https"

abbrev pub invalid_sid_value : String
invalid_sid_value = "0000000000000000"

unfoldable pub init : String → String → String → String → Session
unfolding elem
init host username password protocol = record {
  host = host;
  username = username;
  password = password;
  protocol = if elem protocol protocols_allowed then protocol else default_protocol;
  sid = none;
  listing_mode = none;
}

unfoldable pub invalidate_session : Session → Session
invalidate_session s = record s { sid = none; protocol = default_protocol; listing_mode = none }

unfoldable pub async_close : Session → Session
unfolding invalidate_session
async_close s = invalidate_session s

unfoldable pub base_url : Session → String
base_url s = s.protocol ⊕ "://" ⊕ s.host

unfoldable pub login_url : Session → Bool → String
unfolding base_url
login_url s version2 =
    let url = base_url s ⊕ "/login_sid.lua" in if version2 then url ⊕ "?version=2" else url

unfoldable pub rest_headers : Session → String → Bool → Dict String
unfolding base_url put
rest_headers s sid mutation =
    let headers : Dict String =
      ("Authorization", "AVM-SID " ⊕ sid)
      ∷ ("Content-Type", "application/json")
      ∷ ("Accept", "application/json")
      ∷ ("Client-Name", "WebGUI")
      ∷ [] in
    let base = base_url s in
    if mutation
    then put "Referer" (base ⊕ "/") (put "Origin" base (put "Accept" "*/*" headers))
    else headers

-- The methods of a session over a transport.
abbrev pub Action : Transport → Type 0 → Type 0
Action t A = Exec (Session × t.World) A

module _ (t : Transport) where
  unfoldable pub gets : {A : Type 0} → (Session → A) → Action t A
  gets f (s, w) = (ok (f s), (s, w))

  unfoldable pub modify : (Session → Session) → Action t (Unit {0})
  modify f (s, w) = (ok tt, (f s, w))

  unfoldable pub request : Request → Action t Response
  request r (s, w) = let (reply, w') = t.send r w in (reply, (s, w'))

  unfoldable pub wait : ℕ → Action t (Unit {0})
  wait ms (s, w) = (ok tt, (s, t.sleep ms w))

  -- Clears the session and raises `ConnectionError`.
  unfoldable pub raise_transport_error : {A : Type 0} → Error → Action t A
  unfolding gets modify
  raise_transport_error err = do
    modify invalidate_session
    host ← gets (λ s. s.host)
    raise (connection_error ("Cannot connect to " ⊕ host ⊕ ": " ⊕ message err))
