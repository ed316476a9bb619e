-- ===== src/Adapter/Tests.antt =====
-- Runs of the adapter over a network that fails.
use fritzbox_vpn.Base.{◌≡◌, refl, Bool, true, false, ℕ, suc, Option, some}
use fritzbox_vpn.Session.State.{Session}
use fritzbox_vpn.Adapter.{
  Adapter, Library, Reply, replied, failed, requests_timeout, requests_connection, timed_out, init,
  with_https_http_fallback, fritzconnection, fritzboxvpn,
}
use fritzbox_vpn.Session.Tests.{played, known_session}
use fritzbox_vpn.Adapter.Origin.{EndIsSound, call-IsSound}

abbrev refuse : Bool → ℕ → Reply (Unit {0}) × ℕ
refuse true w = (failed (requests_connection "refused"), w)
refuse false w = (replied tt, suc w)

-- The world counts the clients; none of them can be made with TLS.
abbrev no_tls : Library
no_tls = record {
  World = ℕ;
  wireguard_missing = false;
  connect = λ use_tls w. refuse use_tls w;
  wireguard = λ w. (replied tt, w);
}

abbrev silent : ℕ → Reply ℕ × ℕ
silent w = (failed (requests_timeout "no answer"), w)

abbrev own_silent : Session → ℕ → Reply ℕ × (Session × ℕ)
own_silent s w = (failed (requests_timeout "no answer"), (s, w))

abbrev after_failure : Adapter
after_failure = record (init "fritz.box" "u" "p" true) { mode = Option.some fritzconnection }

-- Over HTTPS the client is refused; over HTTP there is one, which gets no answer.
silent_call :
    with_https_http_fallback no_tls silent own_silent "Unexpected mode for sync VPN fetch"
      "failed to get login page"
      (init "fritz.box" "u" "p" true, 0)
    ≡ (timed_out "no answer", (after_failure, 1))
unfolding with_https_http_fallback init
silent_call = refl

call-IsSound_example :
    EndIsSound no_tls silent own_silent "Unexpected mode for sync VPN fetch"
      "failed to get login page"
      (with_https_http_fallback no_tls silent own_silent "Unexpected mode for sync VPN fetch"
        "failed to get login page"
        (init "fritz.box" "u" "p" true, 0))
call-IsSound_example =
    call-IsSound no_tls silent own_silent "Unexpected mode for sync VPN fetch"
      "failed to get login page" (init "fritz.box" "u" "p" true, 0)

-- A library without its WireGuard module, so that the adapter runs in its fallback mode.
abbrev pub no_connect : Bool → played.World → Reply (Unit {0}) × played.World
no_connect use_tls w = (replied tt, w)

abbrev pub no_wireguard : played.World → Reply (Unit {0}) × played.World
no_wireguard w = (replied tt, w)

abbrev pub fallen_back : Adapter
fallen_back = record {
  host = "fritz.box";
  username = "u";
  password = "p";
  use_tls = true;
  mode = some fritzboxvpn;
  has_fc = false;
  has_fwg = false;
  fallback_session = some known_session;
}
