-- ===== src/Coordinator/Published.antt =====
-- custom_components/fritzbox_vpn/coordinator.py over fritzconnection_session.py and fritzboxvpn/fritzboxvpn/
-- session.py: what a poll publishes.
use mathlib.Core.Option.{some-injective}
use fritzbox_vpn.Base.{
  ◌≡◌, refl, sym, ◌∙◌, ◌⊎◌, inl, inr, Bool, Option, some, none, Bool-cases, String, ap,
}
use fritzbox_vpn.Outcome.{
  Error, Outcome, ok, raised, connection_error, timeout_error, os_error, value_error, other_error,
}
use fritzbox_vpn.Parsing.Uids.{IsNormal}
use fritzbox_vpn.Session.State.{Transport}
use fritzbox_vpn.Session.Listing.{Connections}
use fritzbox_vpn.Session.Logic.{Post-ok}
use fritzbox_vpn.Session.Normal.{async_get_vpn_connections-IsNormal}
use fritzbox_vpn.Adapter.{Adapter, Reply, replied}
use fritzbox_vpn.Adapter.Calls.{adapter_get_vpn_connections, adapter_get-Origin}
use fritzbox_vpn.Coordinator.State.{
  Coordinator, Event, PollResult, updated, update_failed, is_auth_error,
}
use fritzbox_vpn.Coordinator.Recovery.{recovery_max_elapsed}
use fritzbox_vpn.Coordinator.Poll.{
  suspicious, accept, refuse_empty, on_listing, on_failure, on_error, on_outcome, async_update_data,
}

abbrev published : PollResult → Option Connections
published (updated connections) = some connections
published (update_failed retry m) = none

failure-Publishes :
    (e : Event) (err : Error) (prefix : String) (c : Coordinator)
    → published (on_failure e err prefix c).0 ≡ none
failure-Publishes e err prefix c = elim (Bool-cases (is_auth_error err)) [
  | inl h ↦ rw h refl
  | inr h ↦ rw h refl
]

error-Publishes :
    (e : Event) (err : Error) (c : Coordinator) → published (on_error e err c).0 ≡ none
unfolding on_error
error-Publishes e (timeout_error m) c = refl
error-Publishes e (connection_error m) c = failure-Publishes e (connection_error m) _ c
error-Publishes e (value_error m) c = failure-Publishes e (value_error m) _ c
error-Publishes e (os_error m) c = failure-Publishes e (os_error m) _ c
error-Publishes e (other_error m) c = failure-Publishes e (other_error m) _ c

listing-Publishes :
    (e : Event) (cs : Connections) (c : Coordinator)
    → (published (on_listing e cs c).0 ≡ none) ⊎ (published (on_listing e cs c).0 ≡ some cs)
unfolding on_listing accept refuse_empty
listing-Publishes e cs c = elim (Bool-cases (suspicious cs c)) [
  | inr h ↦ rw h (inr refl)
  | inl h ↦ elim (Bool-cases (recovery_max_elapsed e.first_time c)) [
    | inl k ↦ rw (h, k) (inr refl)
    | inr k ↦ rw (h, k) (inl refl)
  ]
]

-- A poll publishes the connections that were listed, or none.
updated-Listed :
    (o : Outcome Connections) (e : Event) (c : Coordinator) (connections : Connections)
    → published (on_outcome o e c).0 ≡ some connections
    → o ≡ ok connections
updated-Listed (raised err) e c connections h = cc (h, error-Publishes e err c)
updated-Listed (ok cs) e c connections h = elim (listing-Publishes e cs c) [
  | inl k ↦ cc (h, k)
  | inr k ↦ ap ok (some-injective _ _ (sym k ∙ h))
]

module _ (t : Transport) (wireguard_missing : Bool)
    (connect : Bool → t.World → Reply (Unit {0}) × t.World)
    (wireguard : t.World → Reply (Unit {0}) × t.World)
    (library_list : t.World → Reply Connections × t.World) where
  -- The adapter lists these connections now. They come from the web session, each under its own uid, or
  -- from fritzconnection.
  pub record IsAsListed (x : Adapter × t.World) (connections : Connections) : Type 0 where
    pub after : Adapter × t.World
    pub listed :
        adapter_get_vpn_connections t wireguard_missing connect wireguard library_list x
        ≡ (ok connections, after)
    pub origin :
        IsNormal connections
        ⊎ ((before : t.World) × (library_list before ≡ (replied connections, after.1)))

  adapter_get-IsAsListed :
      (x y : Adapter × t.World) (connections : Connections)
      → adapter_get_vpn_connections t wireguard_missing connect wireguard library_list x
        ≡ (ok connections, y)
      → IsAsListed x connections
  adapter_get-IsAsListed x y connections h =
      elim (adapter_get-Origin t wireguard_missing connect wireguard library_list x y connections
        h) [
          | inl (before, after, e) ↦ record {
            after = y;
            listed = h;
            origin = inl (Post-ok (async_get_vpn_connections-IsNormal t before.0 before.1) e);
          }
          | inr (before, e) ↦ record { after = y; listed = h; origin = inr (before, e) }
        ]

  -- Whatever the state of the coordinator and of the adapter and whatever the network does: the connections
  -- that a poll publishes are those that the adapter lists in this poll. They come from the web session,
  -- and then every one is filed under its own `uid` field, stripped and not empty, with a Boolean as its
  -- `active` field; or they are, unchanged, the last answer of the library fritzconnection.
  pub published-IsAsListed :
      (e : Event) (c : Coordinator) (x : Adapter × t.World) (connections : Connections)
      → e.listing
        ≡ (adapter_get_vpn_connections t wireguard_missing connect wireguard library_list x).0
      → (async_update_data e c).0 ≡ updated connections
      → IsAsListed x connections
  unfolding async_update_data
  published-IsAsListed e c x connections l h =
      let end = adapter_get_vpn_connections t wireguard_missing connect wireguard library_list x in
      let listed : e.listing ≡ ok connections =
        updated-Listed e.listing e c connections (ap published h) in
      adapter_get-IsAsListed x end.1 connections (ap (λ o. (o, end.1)) (sym l ∙ listed))
