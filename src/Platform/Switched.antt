-- ===== src/Platform/Switched.antt =====
-- A switch that is turned, through custom_components/fritzbox_vpn/switch.py, coordinator.py and
-- fritzconnection_session.py to the session of fritzboxvpn/fritzboxvpn/session.py.
use fritzbox_vpn.Base.{◌≡◌, ◌⊎◌, inl, inr, refl, Bool, true, false, none, some, String}
use fritzbox_vpn.Outcome.{Outcome, ok, raised}
use fritzbox_vpn.Session.State.{Transport, Session}
use fritzbox_vpn.Session.Toggle.{async_toggle_vpn}
use fritzbox_vpn.Session.Toggle.Verified.{IsVerified, toggle-IsVerified}
use fritzbox_vpn.Adapter.{Adapter, Reply, fritzboxvpn, ensure_client, with_https_http_fallback}
use fritzbox_vpn.Adapter.Calls.{adapter_toggle_vpn, BySession, ByLibrary, adapter_toggle-Origin}
use fritzbox_vpn.Coordinator.State.{Coordinator}
use fritzbox_vpn.Coordinator.Uids.{resolve_connection_uid}
use fritzbox_vpn.Coordinator.Poll.{toggle_vpn}
use fritzbox_vpn.Platform.Data.{ToggleEnd, async_toggle_connection}

-- The library behind the adapter, with its call that toggles a connection.
module _ (t : Transport) (wireguard_missing : Bool)
    (connect : Bool → t.World → Reply (Unit {0}) × t.World)
    (wireguard : t.World → Reply (Unit {0}) × t.World)
    (library_toggle : String → Bool → t.World → Reply Bool × t.World) where
  abbrev pub toggle_with_adapter :
      String → Bool → Adapter × t.World → Outcome Bool × (Adapter × t.World)
  unfolding adapter_toggle_vpn
  toggle_with_adapter uid enable x =
      adapter_toggle_vpn t wireguard_missing connect wireguard library_toggle uid enable x

  -- How a toggle ends for the user, and what is left behind.
  pub record Turned : Type 0 where
    pub toggle_end : ToggleEnd
    pub coordinator : Coordinator
    pub adapter : Adapter
    pub world : t.World

  abbrev turned : Outcome Bool × Coordinator → Adapter × t.World → Turned
  turned (outcome, c) (a, w) = record {
    toggle_end = async_toggle_connection outcome;
    coordinator = c;
    adapter = a;
    world = w;
  }

  -- The coordinator's toggle with the adapter as its session.
  unfoldable pub turn : Bool → Bool → String → Coordinator → Adapter × t.World → Turned
  unfolding toggle_vpn adapter_toggle_vpn async_toggle_connection resolve_connection_uid
  turn enable loaded uid c x =
      turned (toggle_vpn (λ u e. (toggle_with_adapter u e x).0) loaded uid enable c)
        (toggle_with_adapter (resolve_connection_uid c uid) enable x).1

  unfoldable pub async_turn_on : Bool → String → Coordinator → Adapter × t.World → Turned
  unfolding turn
  async_turn_on loaded uid c x = turn true loaded uid c x

  unfoldable pub async_turn_off : Bool → String → Coordinator → Adapter × t.World → Turned
  unfolding turn
  async_turn_off loaded uid c x = turn false loaded uid c x

  abbrev By : String → Bool → Adapter × t.World → Type 0
  By uid enable y =
      BySession t wireguard_missing connect wireguard uid enable y
      ⊎ ByLibrary t wireguard_missing connect wireguard library_toggle uid enable y

  -- The session that the adapter keeps ends with a listing that has the connection as requested, or the
  -- library has answered `True`.
  pub record ByListing (uid : String) (enable : Bool) (y : Adapter × t.World) : Type 0 where
    pub session : Session
    pub kept : y.0.fallback_session ≡ some session
    pub verified : IsVerified t uid enable (session, y.1)

  -- What holds where the user sees no error.
  pub record IsDone (enable : Bool) (uid : String) (c : Coordinator) (end : Turned) : Type 0 where
    pub toggled :
        ByListing (resolve_connection_uid c uid) enable (end.adapter, end.world)
        ⊎ ByLibrary t wireguard_missing connect wireguard library_toggle
            (resolve_connection_uid c uid)
            enable
            (end.adapter, end.world)
    pub refreshed : end.toggle_end.refreshed ≡ true
    pub same_coordinator : end.coordinator ≡ c

  listing_of :
      (uid : String) (enable : Bool) (y : Adapter × t.World)
      → By uid enable y
      → ByListing uid enable y
        ⊎ ByLibrary t wireguard_missing connect wireguard library_toggle uid enable y
  listing_of uid enable y (inr o) = inr o
  listing_of uid enable y (inl o) = inl (record {
    session = o.session;
    kept = o.kept;
    verified = toggle-IsVerified t uid enable true o.before (o.session, y.1) o.answered;
  })

  turn-IsDone :
      (enable loaded : Bool) (uid : String) (c : Coordinator) (x : Adapter × t.World)
      (r : Outcome Bool × (Adapter × t.World))
      → toggle_with_adapter (resolve_connection_uid c uid) enable x ≡ r
      → (turn enable loaded uid c x).toggle_end.failed_with ≡ none
      → IsDone enable uid c (turn enable loaded uid c x)
  unfolding turn toggle_vpn async_toggle_connection
  turn-IsDone enable loaded uid c x (ok true, y) h e = rw h (record {
    toggled = listing_of (resolve_connection_uid c uid) enable y (
        adapter_toggle-Origin t wireguard_missing connect wireguard library_toggle
          (resolve_connection_uid c uid) enable x y h);
    refreshed = refl;
    same_coordinator = refl;
  })
  turn-IsDone enable loaded uid c x (ok false, y) h e = cc (rw h at e)
  turn-IsDone enable loaded uid c x (raised err, y) h e = cc (rw h at e)

  -- Where the turning of a switch ends without an error for the user, the last thing that was done with
  -- the box was a listing, by the session that the adapter keeps, in which the connection that the
  -- entity's uid resolves to is there with the requested `active` state; or the library fritzconnection
  -- was asked last, for that connection and that state, and answered `True`. A refresh is requested, and
  -- the coordinator is as it was. This holds for every state of the adapter, on the first try and on
  -- the second one over HTTP.
  pub turn-IsVerified :
      (enable loaded : Bool) (uid : String) (c : Coordinator) (x : Adapter × t.World)
      → (turn enable loaded uid c x).toggle_end.failed_with ≡ none
      → IsDone enable uid c (turn enable loaded uid c x)
  turn-IsVerified enable loaded uid c x e =
      turn-IsDone enable loaded uid c x
        (toggle_with_adapter (resolve_connection_uid c uid) enable x) refl e

  -- In the fallback mode the adapter's toggle is the one of its session.
  pub adapter_toggle-answer :
      (uid : String) (enable : Bool) (a : Adapter) (s s' : Session) (w w' : t.World)
      (answer : Outcome Bool)
      → a.mode ≡ some fritzboxvpn
      → a.fallback_session ≡ some s
      → async_toggle_vpn t uid enable true (s, w) ≡ (answer, (s', w'))
      → toggle_with_adapter uid enable (a, w)
        ≡ (answer, (record a { fallback_session = some s' }, w'))
  unfolding adapter_toggle_vpn with_https_http_fallback ensure_client
  adapter_toggle-answer uid enable a s s' w w' (ok b) h k q = rw (h, k, q) refl
  adapter_toggle-answer uid enable a s s' w w' (raised e) h k q = rw (h, k, q) refl
