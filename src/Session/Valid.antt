-- ===== src/Session/Valid.antt =====
-- The invariant of a session (session.py) and the requests of its login.
pub mod Login
pub mod Listing
use fritzbox_vpn.Base.{
  ℕ, ◌≡◌, refl, sym, subst, inl, inr, Bool, true, false, not, ◌&&◌, ◌||◌, Option, none, some, List,
  [], ◌∷◌, String, ◌==◌, ◌⊕◌, nat_eq, elem, if◌then◌else◌, Bool-cases, Option-cases, arith,
}
use fritzbox_vpn.Value.{Value, ℤ, pos, negsuc}
use fritzbox_vpn.Outcome.{
  Error, Outcome, ok, raised, is_os_error, is_connection_error, is_value_error, message, continue,
  lift, raise, return, ◌>>=◌, ◌>>◌,
}
use fritzbox_vpn.Session.State.{
  Transport, Session, Action, Request, Response, gets, modify, request, wait, raise_transport_error,
  invalidate_session, init, protocols_allowed, invalid_sid_value,
}
use fritzbox_vpn.Session.Logic.{Post, Post-lift, Post-bind, Post-attempt}
use fritzbox_vpn.Session.Login.{
  get_login_page_http, fetch_login_page, post_pbkdf2, try_get_session_via_pbkdf2, post_md5,
  get_session_via_md5, async_get_session, calculate_pbkdf2_response, valid_sid,
  parse_sid_from_login_response, parse_challenge_from_login_xml, parse_blocktime_from_login_xml,
  https_fallback_status,
}

abbrev pub SidOk : Option String → Type 0
SidOk none = Unit
SidOk (some x) = ((x == "") ≡ false) × ((x == invalid_sid_value) ≡ false)

abbrev pub ModeOk : Option String → Type 0
ModeOk none = Unit
ModeOk (some m) = ((m == "data_lua") || (m == "rest")) ≡ true

-- The protocol is one of the two, a cached session id is neither empty nor the invalid one, and a
-- cached listing mode is a listing that the session knows.
pub record IsValid (s : Session) : Type 0 where
  pub protocol_ok : elem s.protocol protocols_allowed ≡ true
  pub sid_ok : SidOk s.sid
  pub mode_ok : ModeOk s.listing_mode

pub invalidate-IsValid : {s : Session} → IsValid s → IsValid (invalidate_session s)
unfolding invalidate_session elem
invalidate-IsValid v = record { protocol_ok = refl; sid_ok = tt; mode_ok = tt }

pub init-IsValid :
    (host username password protocol : String) → IsValid (init host username password protocol)
unfolding init
init-IsValid host username password protocol = elim (Bool-cases (elem protocol protocols_allowed)) [
  | inl e ↦ record { protocol_ok = rw e e; sid_ok = tt; mode_ok = tt }
  | inr e ↦ record { protocol_ok = rw e (unfold elem in refl); sid_ok = tt; mode_ok = tt }
]

pub valid_sid-SidOk : (t : Transport) (o : Option String) → SidOk (valid_sid t o)
valid_sid-SidOk t none = tt
valid_sid-SidOk t (some x) = elim (Bool-cases (x == "" || x == invalid_sid_value)) [
  | inl e ↦ rw e tt
  | inr e ↦ rw e (ground arith)
]

module _ (t : Transport) where
  abbrev pub Keeps : {A : Type 0} → Outcome A × (Session × t.World) → Type 0
  Keeps r = Post (λ _ s. IsValid s) (λ _ s. IsValid s) r

  abbrev pub Kept : {A : Type 0} → A → Session → Type 0
  Kept _ s = IsValid s

  pub request-Keeps :
      (r : Request) (s : Session) (w : t.World) → IsValid s → Keeps (request t r (s, w))
  unfolding request
  request-Keeps r s w v = Post-lift (t.send r w).0 s (t.send r w).1 (λ _. v) (λ _. v)

  body-Keeps :
      (response : Response) (e : Error) (s : Session) (w : t.World)
      → IsValid s
      → Keeps ((if nat_eq response.status 200 then lift response.body else raise e) (s, w))
  body-Keeps response e s w v = elim (Bool-cases (nat_eq response.status 200)) [
    | inl h ↦ rw h (Post-lift response.body s w (λ _. v) (λ _. v))
    | inr h ↦ rw h (record { holds = v })
  ]

  raise_transport_error-Keeps :
      {A : Type 0} (e : Error) (s : Session) (w : t.World)
      → IsValid s
      → Keeps (raise_transport_error t {A = A} e (s, w))
  unfolding raise_transport_error gets modify
  raise_transport_error-Keeps e s w v = record { holds = invalidate-IsValid v }

  raise-Keeps :
      {A : Type 0} (b : Bool) (e e' : Error) (s : Session) (w : t.World)
      → IsValid s
      → Keeps {A = A} ((if b then raise e else raise e') (s, w))
  raise-Keeps true e e' s w v = record { holds = v }
  raise-Keeps false e e' s w v = record { holds = v }

  transport-Keeps :
      {A : Type 0} (b : Bool) (e e' : Error) (s : Session) (w : t.World)
      → IsValid s
      → Keeps {A = A} ((if b then raise_transport_error t e else raise e') (s, w))
  transport-Keeps true e e' s w v = raise_transport_error-Keeps e s w v
  transport-Keeps false e e' s w v = record { holds = v }

  http-Keeps :
      (api_path query : String) (s : Session) (w : t.World)
      → IsValid s
      → Keeps (get_login_page_http t api_path query (s, w))
  unfolding get_login_page_http gets modify
  http-Keeps api_path query s w v =
      Post-bind {Q' = Kept} _ _
        (Post-attempt {E' = Kept} _ _
          (Post-bind {Q' = Kept} _ _ (request-Keeps _ s w v)
            λ response s' w' v'. body-Keeps response _ s' w' v')
          λ e s' w' v'. raise-Keeps _ _ e s' w' v')
        λ _ s' w' v'. record {
          holds = record {
            protocol_ok = unfold elem in refl;
            sid_ok = v'.sid_ok;
            mode_ok = v'.mode_ok;
          };
        }

  pub fetch_login_page-Keeps :
      (url : String) (s : Session) (w : t.World) → IsValid s → Keeps (fetch_login_page t url (s, w))
  unfolding fetch_login_page gets
  fetch_login_page-Keeps url s w v =
      Post-attempt {E' = Kept} _ _
        (Post-bind {Q' = Kept} _ _ (request-Keeps _ s w v) λ response s' w' v'.
          elim (Bool-cases (nat_eq response.status 200)) [
            | inl h ↦ rw h (Post-lift response.body s' w' (λ _. v') (λ _. v'))
            | inr h ↦
                rw h
                  (elim (Bool-cases
                    (s'.protocol == "https" && https_fallback_status t response.status)) [
                      | inl h' ↦ rw h' (http-Keeps _ _ s' w' v')
                      | inr h' ↦ rw h' (record { holds = v' })
                    ])
          ])
        λ e s' w' v'. elim (Bool-cases (is_os_error e)) [
          | inl h ↦ rw h (elim (Bool-cases (not (s'.protocol == "https"))) [
            | inl h' ↦ rw h' (record { holds = v' })
            | inr h' ↦ rw h' (http-Keeps _ _ s' w' v')
          ])
          | inr h ↦ rw h (record { holds = v' })
        ]

  pub post_md5-Keeps :
      (challenge : String) (s : Session) (w : t.World)
      → IsValid s
      → Keeps (post_md5 t challenge (s, w))
  unfolding post_md5 gets
  post_md5-Keeps challenge s w v =
      Post-attempt {E' = Kept} _ _
        (Post-bind {Q' = Kept} _ _ (request-Keeps _ s w v)
          λ response s' w' v'. body-Keeps response _ s' w' v')
        λ e s' w' v'. transport-Keeps _ e e s' w' v'

  pub post_pbkdf2-Keeps :
      (response : String) (s : Session) (w : t.World)
      → IsValid s
      → Keeps (post_pbkdf2 t response (s, w))
  unfolding post_pbkdf2 gets
  post_pbkdf2-Keeps response s w v =
      Post-attempt {E' = Kept} _ _
        (Post-bind {Q' = Kept} _ _ (request-Keeps _ s w v) λ answer s' w' v'.
          elim (Bool-cases (nat_eq answer.status 200)) [
            | inl h ↦ rw h (
                Post-bind {Q' = Kept} _ _ (Post-lift answer.body s' w' (λ _. v') (λ _. v'))
                  λ _ _ _ v₁. record { holds = v₁ })
            | inr h ↦ rw h (record { holds = v' })
          ])
        λ e s' w' v'. transport-Keeps _ e e s' w' v'
