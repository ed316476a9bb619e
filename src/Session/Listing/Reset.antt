-- ===== src/Session/Listing/Reset.antt =====
-- What one listing request does to the session (fetch_listing_by_mode of session.py).
use fritzbox_vpn.Base.{
  ◌≡◌, refl, sym, subst, ◌⊎◌, inl, inr, Bool, true, false, not, Option, String, ◌==◌, nat_eq,
  Bool-cases,
}
use fritzbox_vpn.Value.{Value}
use fritzbox_vpn.Outcome.{
  Error, value_error, is_os_error, is_connection_error, lift, return, ◌>>=◌, ◌>>◌,
}
use fritzbox_vpn.Session.State.{
  Transport, Session, Response, gets, modify, request, raise_transport_error, invalidate_session,
}
use fritzbox_vpn.Session.Logic.{Post, Post-lift, Post-bind, Post-attempt}
use fritzbox_vpn.Session.Listing.{
  response_json_dict, validate_vpn_listing_status, fetch_vpn_connections_via_rest,
  fetch_vpn_connections_via_data_lua, fetch_listing_by_mode, transport_error, rest_connections,
  data_lua_connections,
}

-- A `ConnectionError` with a reset session, or an error that is no `OSError` with the session as it was.
abbrev pub ResetOrKept : Session → Error → Session → Type 0
ResetOrKept s e s' =
    ((is_connection_error e ≡ true) × (s' ≡ invalidate_session s))
    ⊎ ((is_os_error e ≡ false) × (s' ≡ s))

-- Inside the `try` block.
abbrev Inside : Session → Error → Session → Type 0
Inside s e s' =
    ((is_os_error e ≡ true) × (invalidate_session s' ≡ invalidate_session s))
    ⊎ ((is_os_error e ≡ false) × (s' ≡ s))

kept : (s : Session) (e : Error) → Inside s e s
kept s e = elim (Bool-cases (is_os_error e)) [ inl h ↦ inl (h, refl) | inr h ↦ inr (h, refl) ]

invalidate_twice : (s : Session) → invalidate_session (invalidate_session s) ≡ invalidate_session s
unfolding invalidate_session
invalidate_twice s = refl

module _ (t : Transport) where
  transport_error-ResetOrKept :
      {A : Type 0} {Q : A → Session → Type 0} (s s' : Session) (e : Error) (w : t.World)
      → Inside s e s'
      → Post Q (ResetOrKept s) (transport_error t {A = A} e (s', w))
  unfolding raise_transport_error gets modify
  transport_error-ResetOrKept s s' e w (inl (h, k)) = rw h (record { holds = inl (refl, k) })
  transport_error-ResetOrKept s s' e w (inr (h, k)) = rw h (record { holds = inr (h, k) })

  validate-Inside :
      (response : Response) (source : String) (s : Session) (w : t.World)
      → Post (λ _ s'. s' ≡ s) (Inside s) (validate_vpn_listing_status t response source (s, w))
  unfolding validate_vpn_listing_status modify
  validate-Inside response source s w = elim (Bool-cases (nat_eq response.status 403)) [
    | inl e ↦ rw e (record { holds = kept s (value_error "Invalid SID (HTTP 403)") })
    | inr e ↦ rw e (elim (Bool-cases (not (nat_eq response.status 200))) [
      | inl e' ↦ rw e' (record { holds = inl (refl, invalidate_twice s) })
      | inr e' ↦ rw e' (record { holds = refl })
    ])
  ]

  -- The rest of the `try` block after the response: status, body, result.
  checked-Inside :
      {B : Type 0} (response : Response) (source : String) (require : Bool)
      (f : Option Value → Option B) (s s' : Session) (w : t.World)
      → s' ≡ s
      → Post
          (λ _ s₁. s₁ ≡ s)
          (Inside s)
          ((do
            validate_vpn_listing_status t response source
            answer ← lift (response_json_dict t response require)
            return (f answer))
            (s', w))
  checked-Inside response source require f s s' w same =
      subst
        (λ x.
          Post (λ _ s₁. s₁ ≡ s) (Inside s)
            ((do
              validate_vpn_listing_status t response source
              answer ← lift (response_json_dict t response require)
              return (f answer))
              (x, w)))
        (sym same)
        (Post-bind {Q' = λ _ s₁. s₁ ≡ s} _ _ (validate-Inside response source s w) λ _ s₁ w₁ e.
          Post-bind {Q' = λ _ s₂. s₂ ≡ s} _ _
            (Post-lift (response_json_dict t response require) s₁ w₁ (λ _. e)
              (λ err. subst (Inside s err) (sym e) (kept s err)))
            λ _ s₂ w₂ e'. record { holds = e' })

  via_rest-ResetOrKept :
      (sid : String) (s : Session) (w : t.World)
      → Post (λ _ s'. s' ≡ s) (ResetOrKept s) (fetch_vpn_connections_via_rest t sid (s, w))
  unfolding fetch_vpn_connections_via_rest request gets
  via_rest-ResetOrKept sid s w =
      Post-attempt {E' = Inside s} _ _
        (Post-bind {Q' = λ _ s'. s' ≡ s} _ _
          (Post-lift (t.send _ w).0 s (t.send _ w).1 (λ _. refl) (kept s))
          λ response s' w' same. elim (Bool-cases (nat_eq response.status 404)) [
            | inl e ↦ rw e (record { holds = same })
            | inr e ↦
                rw e (checked-Inside response " via REST" false (rest_connections t) s s' w' same)
          ])
        (λ e s' w' h. transport_error-ResetOrKept s s' e w' h)

  via_data_lua-ResetOrKept :
      (sid : String) (s : Session) (w : t.World)
      → Post (λ _ s'. s' ≡ s) (ResetOrKept s) (fetch_vpn_connections_via_data_lua t sid (s, w))
  unfolding fetch_vpn_connections_via_data_lua request gets
  via_data_lua-ResetOrKept sid s w =
      Post-attempt {E' = Inside s} _ _
        (Post-bind {Q' = λ _ s'. s' ≡ s} _ _
          (Post-lift (t.send _ w).0 s (t.send _ w).1 (λ _. refl) (kept s))
          λ response s' w' same.
            checked-Inside response "" true (data_lua_connections t) s s' w' same)
        (λ e s' w' h. transport_error-ResetOrKept s s' e w' h)

  -- One listing request, in any mode and whatever the network does, leaves the session as it was, or
  -- raises a `ConnectionError` and leaves it without session id, protocol fallback and listing mode:
  -- no timeout and no other `OSError` gets out of it.
  pub fetch_listing-ResetOrKept :
      (mode sid : String) (s : Session) (w : t.World)
      → Post (λ _ s'. s' ≡ s) (ResetOrKept s) (fetch_listing_by_mode t mode sid (s, w))
  unfolding fetch_listing_by_mode
  fetch_listing-ResetOrKept mode sid s w = elim (Bool-cases (mode == "rest")) [
    | inl e ↦ rw e (via_rest-ResetOrKept sid s w)
    | inr e ↦ rw e (elim (Bool-cases (mode == "data_lua")) [
      | inl e' ↦ rw e' (via_data_lua-ResetOrKept sid s w)
      | inr e' ↦ rw e' (record { holds = inr (refl, refl) })
    ])
  ]
