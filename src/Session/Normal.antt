-- ===== src/Session/Normal.antt =====
-- async_get_vpn_connections of session.py: what the connections that it returns look like.
use fritzbox_vpn.Base.{
  inl, inr, Bool, true, false, ◌&&◌, Option, none, some, List, [], ◌∷◌, String, ◌==◌, contains,
  nat_eq, Bool-cases, Option-cases,
}
use fritzbox_vpn.Value.{Value, is_null}
use fritzbox_vpn.Parsing.{
  extract_box_connections_from_data, extract_wireguard_connections_from_rest,
}
use fritzbox_vpn.Parsing.Uids.{
  IsNormal, normalize_box_connections-IsNormal, normalize_entries-IsNormal,
}
use fritzbox_vpn.Outcome.{
  Error, Outcome, ok, raised, is_value_error, is_os_error, message, lift, return, ◌>>=◌, ◌>>◌,
}
use fritzbox_vpn.Session.State.{
  Transport, Session, Response, gets, modify, request, invalidate_session, raise_transport_error,
}
use fritzbox_vpn.Session.Logic.{Post, Post-bind, Post-attempt}
use fritzbox_vpn.Session.Listing.{
  Connections, error_msg_invalid_sid, listing_probe_order, is_preferred, keep_mode, keep_or_forget,
  preferred_listing, then_probe, or_missing_payload, probe_listings, fetch_vpn_connections_once,
  async_get_vpn_connections, fetch_listing_by_mode, fetch_vpn_connections_via_rest,
  fetch_vpn_connections_via_data_lua, rest_connections, data_lua_connections, transport_error,
  response_json_dict, validate_vpn_listing_status,
}
use fritzbox_vpn.Session.Login.{async_get_session}

abbrev OrNone : Option Connections → Type 0
OrNone none = Unit {0}
OrNone (some c) = IsNormal c

module _ (t : Transport) where
  rest-OrNone : (answer : Option Value) → OrNone (rest_connections t answer)
  rest-OrNone none = tt
  rest-OrNone (some answer) = elim (Option-cases (extract_wireguard_connections_from_rest answer)) [
    | inl e ↦ rw e tt
    | inr (entries, e) ↦ rw e (normalize_entries-IsNormal entries)
  ]

  data_lua-OrNone : (answer : Option Value) → OrNone (data_lua_connections t answer)
  data_lua-OrNone none = tt
  data_lua-OrNone (some answer) =
      let box = extract_box_connections_from_data answer "shareWireguard" in
      elim (Bool-cases (is_null box)) [
        | inl e ↦ rw e tt
        | inr e ↦ rw e (normalize_box_connections-IsNormal box)
      ]

  abbrev Any : {A : Type 0} → Outcome A × (Session × t.World) → Type 0
  Any r = Post (λ _ _. Unit) (λ _ _. Unit) r

  any : {A : Type 0} (r : Outcome A × (Session × t.World)) → Any r
  any (ok a, (s, w)) = record { holds = tt }
  any (raised e, (s, w)) = record { holds = tt }

  abbrev Normal : Outcome Connections × (Session × t.World) → Type 0
  Normal r = Post (λ c _. IsNormal c) (λ _ _. Unit) r

  abbrev Listed : Outcome (Option Connections) × (Session × t.World) → Type 0
  Listed r = Post (λ o _. OrNone o) (λ _ _. Unit) r

  transport-Listed : (e : Error) (s : Session) (w : t.World) → Listed (transport_error t e (s, w))
  unfolding raise_transport_error gets modify
  transport-Listed e s w = elim (Bool-cases (is_os_error e)) [
    | inl h ↦ rw h (record { holds = tt })
    | inr h ↦ rw h (record { holds = tt })
  ]

  -- The rest of the `try` block after the response.
  checked-Listed :
      (response : Response) (source : String) (require : Bool)
      (read : Option Value → Option Connections) (s : Session) (w : t.World)
      → ((v : Option Value) → OrNone (read v))
      → Listed (
          (do
            validate_vpn_listing_status t response source
            answer ← lift (response_json_dict t response require)
            return (read answer))
            (s, w))
  checked-Listed response source require read s w h =
      Post-bind {Q' = λ _ _. Unit} _ _ (any (validate_vpn_listing_status t response source (s, w)))
        λ _ s₁ w₁ _.
          Post-bind {Q' = λ _ _. Unit} _ _ (any (response_json_dict t response require, (s₁, w₁)))
            λ v s₂ w₂ _. record { holds = h v }

  rest-Listed :
      (sid : String) (s : Session) (w : t.World)
      → Listed (fetch_vpn_connections_via_rest t sid (s, w))
  unfolding fetch_vpn_connections_via_rest request gets
  rest-Listed sid s w =
      Post-attempt {E' = λ _ _. Unit} _ _
        (Post-bind {Q' = λ _ _. Unit} _ _ (any ((t.send _ w).0, (s, (t.send _ w).1)))
          λ response s₁ w₁ _. elim (Bool-cases (nat_eq response.status 404)) [
            | inl e ↦ rw e (record { holds = tt })
            | inr e ↦
                rw e
                  (checked-Listed response " via REST" false (rest_connections t) s₁ w₁ rest-OrNone)
          ])
        (λ e s₁ w₁ _. transport-Listed e s₁ w₁)

  data_lua-Listed :
      (sid : String) (s : Session) (w : t.World)
      → Listed (fetch_vpn_connections_via_data_lua t sid (s, w))
  unfolding fetch_vpn_connections_via_data_lua request gets
  data_lua-Listed sid s w =
      Post-attempt {E' = λ _ _. Unit} _ _
        (Post-bind {Q' = λ _ _. Unit} _ _ (any ((t.send _ w).0, (s, (t.send _ w).1)))
          λ response s₁ w₁ _.
            checked-Listed response "" true (data_lua_connections t) s₁ w₁ data_lua-OrNone)
        (λ e s₁ w₁ _. transport-Listed e s₁ w₁)

  fetch-Listed :
      (mode sid : String) (s : Session) (w : t.World)
      → Listed (fetch_listing_by_mode t mode sid (s, w))
  unfolding fetch_listing_by_mode
  fetch-Listed mode sid s w = elim (Bool-cases (mode == "rest")) [
    | inl e ↦ rw e (rest-Listed sid s w)
    | inr e ↦ elim (Bool-cases (mode == "data_lua")) [
      | inl f ↦ rw (e, f) (data_lua-Listed sid s w)
      | inr f ↦ rw (e, f) (record { holds = tt })
    ]
  ]

  keep_or_forget-Listed :
      (r : Option Connections) (s : Session) (w : t.World)
      → OrNone r
      → Listed (keep_or_forget t r (s, w))
  unfolding modify
  keep_or_forget-Listed (some c) s w n = record { holds = n }
  keep_or_forget-Listed none s w n = record { holds = tt }

  keep_mode-Listed :
      (mode : String) (r : Option Connections) (rest : Session × t.World → _) (s : Session)
      (w : t.World)
      → OrNone r
      → Listed (rest (s, w))
      → Listed (keep_mode t mode r rest (s, w))
  unfolding modify
  keep_mode-Listed mode none rest s w n k = k
  keep_mode-Listed mode (some c) rest s w n k = record { holds = n }

  preferred-Listed :
      (o : Option String) (sid : String) (s : Session) (w : t.World)
      → Listed (preferred_listing t o sid (s, w))
  unfolding modify
  preferred-Listed none sid s w = record { holds = tt }
  preferred-Listed (some mode) sid s w =
      Post-bind {Q' = λ o _. OrNone o} _ _ (fetch-Listed mode sid s w)
        λ r s₁ w₁ n. keep_or_forget-Listed r s₁ w₁ n

  probe-Listed :
      (modes : List String) (o : Option String) (sid : String) (s : Session) (w : t.World)
      → Listed (probe_listings t modes o sid (s, w))
  unfolding probe_listings
  probe-Listed [] o sid s w = record { holds = tt }
  probe-Listed (mode ∷ modes) o sid s w = elim (Bool-cases (is_preferred t mode o)) [
    | inl e ↦ rw e (probe-Listed modes o sid s w)
    | inr e ↦ rw e (
        Post-bind {Q' = λ o _. OrNone o} _ _ (fetch-Listed mode sid s w)
          λ r s₁ w₁ n. keep_mode-Listed mode r _ s₁ w₁ n (probe-Listed modes o sid s₁ w₁))
  ]

  then_probe-Listed :
      (first : Option Connections) (o : Option String) (sid : String) (s : Session) (w : t.World)
      → OrNone first
      → Listed (then_probe t first o sid (s, w))
  then_probe-Listed (some c) o sid s w n = record { holds = n }
  then_probe-Listed none o sid s w n = probe-Listed listing_probe_order o sid s w

  or_missing-Normal :
      (r : Option Connections) (s : Session) (w : t.World)
      → OrNone r
      → Normal (or_missing_payload t r (s, w))
  unfolding modify
  or_missing-Normal (some c) s w n = record { holds = n }
  or_missing-Normal none s w n = record { holds = tt }

  once-Normal : (s : Session) (w : t.World) → Normal (fetch_vpn_connections_once t (s, w))
  unfolding fetch_vpn_connections_once gets
  once-Normal s w =
      Post-bind {Q' = λ _ _. Unit} _ _ (any (async_get_session t (s, w))) λ sid s₁ w₁ _.
        Post-bind {Q' = λ o _. OrNone o} _ _ (preferred-Listed s₁.listing_mode sid s₁ w₁)
          λ first s₂ w₂ n₂.
            Post-bind {Q' = λ o _. OrNone o} _ _
              (then_probe-Listed first s₁.listing_mode sid s₂ w₂ n₂)
              λ r s₃ w₃ n₃. or_missing-Normal r s₃ w₃ n₃

  -- Whatever the network does, with either of the two listings and on both tries: of the connections that
  -- `async_get_vpn_connections` returns, every one is filed under its own `uid` field, stripped and not
  -- empty, with a Boolean as its `active` field.
  pub async_get_vpn_connections-IsNormal :
      (s : Session) (w : t.World) → Normal (async_get_vpn_connections t (s, w))
  unfolding async_get_vpn_connections modify
  async_get_vpn_connections-IsNormal s w =
      Post-attempt {E' = λ _ _. Unit} _ _ (once-Normal s w) λ e s₁ w₁ _.
        elim (Bool-cases (is_value_error e && contains (message e) error_msg_invalid_sid)) [
          | inl h ↦ rw h (once-Normal (invalidate_session s₁) w₁)
          | inr h ↦ rw h (record { holds = tt })
        ]
