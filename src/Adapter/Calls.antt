-- ===== src/Adapter/Calls.antt =====
-- custom_components/fritzbox_vpn/fritzconnection_session.py: the two public calls, with the session of
-- fritzboxvpn/fritzboxvpn/session.py as the one that the adapter falls back to.
use fritzbox_vpn.Base.{◌≡◌, ◌⊎◌, inl, inr, Bool, true, false, String, some, if◌then◌else◌}
use fritzbox_vpn.Outcome.{Outcome, ok, raised, timeout_error, connection_error, value_error}
use fritzbox_vpn.Session.State.{Transport, Session}
use fritzbox_vpn.Session.Listing.{Connections, async_get_vpn_connections}
use fritzbox_vpn.Session.Toggle.{async_toggle_vpn}
use fritzbox_vpn.Adapter.Origin.{returned-Origin}
use fritzbox_vpn.Adapter.{
  Adapter, Library, other, Reply, replied, failed, End, returned, timed_out, unreachable,
  login_failed, raised_again, with_https_http_fallback,
}

-- The library is asked for its WireGuard module and for a client.
module _ (t : Transport) (wireguard_missing : Bool)
    (connect : Bool → t.World → Reply (Unit {0}) × t.World)
    (wireguard : t.World → Reply (Unit {0}) × t.World) where
  abbrev library : Library
  library = record {
    World = t.World;
    wireguard_missing = wireguard_missing;
    connect = connect;
    wireguard = wireguard;
  }

  -- What the other session raises is none of the library's errors.
  abbrev reply_of : {A : Type 0} → Outcome A × (Session × t.World) → Reply A × (Session × t.World)
  reply_of (ok x, y) = (replied x, y)
  reply_of (raised e, y) = (failed (other e), y)

  -- `_raise_auth_error`: the class of a refused login depends on the call.
  abbrev pub outcome_of :
      {A : Type 0} → Bool → End A × (Adapter × t.World) → Outcome A × (Adapter × t.World)
  outcome_of auth_as_value_error (returned x, y) = (ok x, y)
  outcome_of auth_as_value_error (timed_out m, y) = (raised (timeout_error m), y)
  outcome_of auth_as_value_error (unreachable m, y) = (raised (connection_error m), y)
  outcome_of auth_as_value_error (login_failed m, y) =
      (raised (if auth_as_value_error then value_error m else connection_error m), y)
  outcome_of auth_as_value_error (raised_again e, y) = (raised e, y)

  -- `async_get_vpn_connections` of the adapter; the first argument is the library's call.
  unfoldable pub adapter_get_vpn_connections :
      (t.World → Reply Connections × t.World)
      → Adapter × t.World
      → Outcome Connections × (Adapter × t.World)
  unfolding with_https_http_fallback async_get_vpn_connections
  adapter_get_vpn_connections call x = outcome_of true (
      with_https_http_fallback library call (λ s w. reply_of (async_get_vpn_connections t (s, w)))
        "Unexpected mode for sync VPN fetch" "failed to get login page" x)

  -- `async_toggle_vpn` of the adapter; the first argument is the library's call.
  unfoldable pub adapter_toggle_vpn :
      (String → Bool → t.World → Reply Bool × t.World)
      → String
      → Bool
      → Adapter × t.World
      → Outcome Bool × (Adapter × t.World)
  unfolding with_https_http_fallback async_toggle_vpn
  adapter_toggle_vpn call uid enable x = outcome_of false (
      with_https_http_fallback library (call uid enable)
        (λ s w. reply_of (async_toggle_vpn t uid enable true (s, w)))
        "Unexpected mode for sync VPN toggle" "failed to toggle VPN" x)

  reply_of-replied :
      {A : Type 0} (x : A) (r : Outcome A × (Session × t.World)) (y : Session × t.World)
      → reply_of r ≡ (replied x, y)
      → r ≡ (ok x, y)
  reply_of-replied x (ok x', y') y h = cc h
  reply_of-replied x (raised e, y') y h = cc h

  outcome_of-ok :
      {A : Type 0} (b : Bool) (x : A) (r : End A × (Adapter × t.World)) (y : Adapter × t.World)
      → outcome_of b r ≡ (ok x, y)
      → r ≡ (returned x, y)
  outcome_of-ok b x (returned x', y') y h = cc h
  outcome_of-ok b x (timed_out m, y') y h = cc h
  outcome_of-ok b x (unreachable m, y') y h = cc h
  outcome_of-ok b x (login_failed m, y') y h = cc h
  outcome_of-ok b x (raised_again e, y') y h = cc h

  -- `True` from the adapter's toggle is the answer of the session that it keeps, or of the library.
  pub record BySession (uid : String) (enable : Bool) (y : Adapter × t.World) : Type 0 where
    pub before : Session × t.World
    pub session : Session
    pub answered : async_toggle_vpn t uid enable true before ≡ (ok true, (session, y.1))
    pub kept : y.0.fallback_session ≡ some session

  pub record ByLibrary (call : String → Bool → t.World → Reply Bool × t.World) (uid : String)
      (enable : Bool) (y : Adapter × t.World) : Type 0 where
    pub before : t.World
    pub answered : call uid enable before ≡ (replied true, y.1)

  pub adapter_toggle-Origin :
      (call : String → Bool → t.World → Reply Bool × t.World) (uid : String) (enable : Bool)
      (x y : Adapter × t.World)
      → adapter_toggle_vpn call uid enable x ≡ (ok true, y)
      → BySession uid enable y ⊎ ByLibrary call uid enable y
  unfolding adapter_toggle_vpn
  adapter_toggle-Origin call uid enable x y h =
      let primary =
        λ (s : Session) (w : t.World). reply_of (async_toggle_vpn t uid enable true (s, w)) in
      let end =
        with_https_http_fallback library (call uid enable) primary
          "Unexpected mode for sync VPN toggle" "failed to toggle VPN" x in
      elim (returned-Origin library (call uid enable) primary "Unexpected mode for sync VPN toggle"
        "failed to toggle VPN" true x y (outcome_of-ok false true end y h)) [
          | inl o ↦ inl (record {
            before = (o.before, o.world);
            session = o.after;
            answered =
                reply_of-replied true (async_toggle_vpn t uid enable true (o.before, o.world))
                  (o.after, y.1) o.answered;
            kept = o.kept;
          })
          | inr o ↦ inr (record { before = o.world; answered = o.answered })
        ]

  -- The same of the connections that the adapter returns: the state before, and the session after.
  pub adapter_get-Origin :
      (call : t.World → Reply Connections × t.World) (x y : Adapter × t.World)
      (connections : Connections)
      → adapter_get_vpn_connections call x ≡ (ok connections, y)
      → ((before : Session × t.World) × (after : Session) × (async_get_vpn_connections t before
            ≡ (ok connections, (after, y.1))))
        ⊎ ((before : t.World) × (call before ≡ (replied connections, y.1)))
  unfolding adapter_get_vpn_connections
  adapter_get-Origin call x y connections h =
      let primary = λ (s : Session) (w : t.World). reply_of (async_get_vpn_connections t (s, w)) in
      let end =
        with_https_http_fallback library call primary "Unexpected mode for sync VPN fetch"
          "failed to get login page" x in
      elim (returned-Origin library call primary "Unexpected mode for sync VPN fetch"
        "failed to get login page" connections x y (outcome_of-ok true connections end y h)) [
          | inl o ↦ inl (
            (o.before, o.world),
            o.after,
            reply_of-replied connections (async_get_vpn_connections t (o.before, o.world))
                (o.after, y.1) o.answered,
          )
          | inr o ↦ inr (o.world, o.answered)
        ]
