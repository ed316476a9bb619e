-- ===== src/Adapter.antt =====
-- custom_components/fritzbox_vpn/fritzconnection_session.py: the session by the library fritzconnection.
pub mod Calls
pub mod Origin
pub mod Reset
pub mod Tests
use fritzbox_vpn.Base.{
  Bool, true, false, not, ◌&&◌, ◌||◌, Option, none, some, is_some, map_option, String, ◌⊕◌,
  if◌then◌else◌,
}
use fritzbox_vpn.Session.State.{
  Session, init as session_init, invalidate_session as invalidate_fallback,
  async_close as close_fallback,
}
use fritzbox_vpn.Outcome.{Error, other_error}

-- What the library raises, as the code tells it apart; `other` is raised again as it is.
pub data LibraryError : Type 0 where
  requests_timeout requests_connection authorization : String → LibraryError
  other : Error → LibraryError

pub data Reply (A : Type 0) : Type 0 where
  replied : A → Reply A
  failed : LibraryError → Reply A

pub data Mode : Type 0 where
  fritzconnection fritzboxvpn : Mode

-- `has_fc` and `has_fwg` say whether the objects are there.
pub record Adapter : Type 0 where
  pub host : String
  pub username : String
  pub password : String
  pub use_tls : Bool
  pub mode : Option Mode
  pub has_fc : Bool
  pub has_fwg : Bool
  pub fallback_session : Option Session

unfoldable pub init : String → String → String → Bool → Adapter
init host username password use_tls = record {
  host = host;
  username = username;
  password = password;
  use_tls = use_tls;
  mode = none;
  has_fc = false;
  has_fwg = false;
  fallback_session = none;
}

-- The library and the network behind it: whether its WireGuard module is missing, and its two
-- constructors, the first with `use_tls`.
pub record Library : Type 1 where
  pub World : Type 0
  pub wireguard_missing : Bool
  pub connect : Bool → World → Reply (Unit {0}) × World
  pub wireguard : World → Reply (Unit {0}) × World

unfoldable pub invalidate_session : Adapter → Adapter
invalidate_session a = record a {
  fallback_session = map_option invalidate_fallback a.fallback_session;
  has_fc = false;
  has_fwg = false;
  use_tls = true;
}

unfoldable pub close_sync : Adapter → Adapter
close_sync a = if a.has_fc then record a { has_fc = false; has_fwg = false } else a

abbrev pub is_mode : Option Mode → Mode → Bool
is_mode (some fritzconnection) fritzconnection = true
is_mode (some fritzboxvpn) fritzboxvpn = true
is_mode _ _ = false

abbrev pub is_ready : Adapter → Bool
is_ready a =
    (is_mode a.mode fritzconnection && (a.has_fc && a.has_fwg))
    || (is_mode a.mode fritzboxvpn && is_some a.fallback_session)

-- How a call ends: with a value, or with one of the errors that it raises. A refused login is a
-- `ValueError` for the listing and a `ConnectionError` for the toggle.
pub data End (A : Type 0) : Type 0 where
  returned : A → End A
  timed_out : String → End A
  unreachable : String → End A
  login_failed : String → End A
  raised_again : Error → End A

-- Without the module the integration's own session takes over.
abbrev pub with_fallback : Adapter → Adapter
with_fallback a = record a {
  fallback_session =
      some (session_init a.host a.username a.password (if a.use_tls then "https" else "http"));
  mode = some fritzboxvpn;
}

unfoldable pub async_close : Adapter → Adapter
unfolding close_sync
async_close a = elim a.fallback_session [
  | some s ↦ record a { fallback_session = some (close_fallback s) }
  | none ↦ close_sync a
]

module _ (l : Library) where
  abbrev pub have_wireguard :
      Adapter → Reply (Unit {0}) × l.World → Reply (Unit {0}) × (Adapter × l.World)
  have_wireguard a (failed e, w) = (failed e, (a, w))
  have_wireguard a (replied u, w) =
      (replied u, (record a { has_fwg = true; mode = some fritzconnection }, w))

  abbrev pub have_client :
      Adapter → Reply (Unit {0}) × l.World → Reply (Unit {0}) × (Adapter × l.World)
  have_client a (failed e, w) = (failed e, (a, w))
  have_client a (replied u, w) = have_wireguard (record a { has_fc = true }) (l.wireguard w)

  unfoldable pub ensure_client : Adapter → l.World → Reply (Unit {0}) × (Adapter × l.World)
  ensure_client a w =
      if is_ready a
      then (replied tt, (a, w))
      else if l.wireguard_missing
      then (replied tt, (with_fallback a, w))
      else have_client a (l.connect a.use_tls w)

  -- `call` is the call of the library's object, `primary` the one of the fallback session, `unexpected` the
  -- text of the error in another mode.
  module _ {A : Type 0} (call : l.World → Reply A × l.World)
      (primary : Session → l.World → Reply A × (Session × l.World)) (unexpected : String) where
    abbrev with_adapter : Adapter → Reply A × l.World → Reply A × (Adapter × l.World)
    with_adapter a (r, w) = (r, (a, w))

    abbrev pub then_call : Reply (Unit {0}) × (Adapter × l.World) → Reply A × (Adapter × l.World)
    then_call (failed e, (a, w)) = (failed e, (a, w))
    then_call (replied u, (a, w)) =
        if is_mode a.mode fritzconnection
        then with_adapter a (call w)
        else (failed (other (other_error unexpected)), (a, w))

    -- `_get_vpn_connections_sync` and `_toggle_vpn_sync`
    unfoldable pub sync_call : Adapter × l.World → Reply A × (Adapter × l.World)
    unfolding ensure_client
    sync_call (a, w) = then_call (ensure_client a w)

    abbrev with_session : Adapter → Reply A × (Session × l.World) → Reply A × (Adapter × l.World)
    with_session a (r, (s, w)) = (r, (record a { fallback_session = some s }, w))

    -- `assert self._fallback_session is not None`
    abbrev pub fallback_primary : Option Session → Adapter → l.World → Reply A × (Adapter × l.World)
    fallback_primary none a w = (failed (other (other_error "")), (a, w))
    fallback_primary (some s) a w = with_session a (primary s w)

    abbrev pub first_try : Reply (Unit {0}) × (Adapter × l.World) → Reply A × (Adapter × l.World)
    first_try (failed e, (a, w)) = (failed e, (a, w))
    first_try (replied u, (a, w)) =
        if is_mode a.mode fritzboxvpn
        then fallback_primary a.fallback_session a w
        else sync_call (a, w)

    -- After the call over HTTP.
    abbrev pub end_retry : String → Reply A × (Adapter × l.World) → End A × (Adapter × l.World)
    end_retry fail_message (replied x, (a, w)) = (returned x, (a, w))
    end_retry fail_message (failed (requests_timeout m), (a, w)) =
        (timed_out m, (invalidate_session a, w))
    end_retry fail_message (failed (requests_connection m), (a, w)) =
        (unreachable (fail_message ⊕ ": " ⊕ m), (invalidate_session a, w))
    end_retry fail_message (failed (authorization m), (a, w)) =
        (login_failed ("Login failed: " ⊕ m), (a, w))
    end_retry fail_message (failed (other e), (a, w)) = (raised_again e, (a, w))

    abbrev pub end_first : String → Reply A × (Adapter × l.World) → End A × (Adapter × l.World)
    end_first fail_message (replied x, (a, w)) = (returned x, (a, w))
    end_first fail_message (failed (requests_timeout m), (a, w)) =
        (timed_out m, (invalidate_session a, w))
    end_first fail_message (failed (requests_connection m), (a, w)) =
        if a.use_tls
        then end_retry fail_message (sync_call (close_sync (record a { use_tls = false }), w))
        else (unreachable (fail_message ⊕ ": " ⊕ m), (invalidate_session a, w))
    end_first fail_message (failed (authorization m), (a, w)) =
        (login_failed ("Login failed: " ⊕ m), (a, w))
    end_first fail_message (failed (other e), (a, w)) = (raised_again e, (a, w))

    unfoldable pub with_https_http_fallback :
        String → Adapter × l.World → End A × (Adapter × l.World)
    unfolding ensure_client sync_call close_sync invalidate_session
    with_https_http_fallback fail_message (a, w) =
        end_first fail_message (first_try (ensure_client a w))
