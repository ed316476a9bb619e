-- ===== src/Session/Login/Fallback.antt =====
-- The fallback of the login page from HTTPS to HTTP (_fetch_login_page of session.py).
use fritzbox_vpn.Base.{◌≡◌, false, [], String, nat_eq}
use fritzbox_vpn.Outcome.{ok}
use fritzbox_vpn.Session.State.{Transport, Session, Request, Response, get, no_body, gets, request}
use fritzbox_vpn.Session.Login.Format.{url_path, url_query}
use fritzbox_vpn.Session.Login.{fetch_login_page, get_login_page_http, https_fallback_status}

abbrev pub page_request : String → Request
page_request url = record { method = get; url = url; body = no_body; headers = [] }

module _ (t : Transport) where
  -- With HTTPS, an answer whose status is neither 200 nor one of `HTTPS_FALLBACK_STATUS_CODES` leads
  -- to the request over HTTP all the same: the `ConnectionError` that is raised for it is an `OSError`,
  -- and the `except` clause that wraps the request takes it for a failed connection.
  pub fallback_on_any_status :
      (url : String) (s : Session) (w w' : t.World) (response : Response)
      → s.protocol ≡ "https"
      → t.send (page_request url) w ≡ (ok response, w')
      → nat_eq response.status 200 ≡ false
      → https_fallback_status t response.status ≡ false
      → fetch_login_page t url (s, w) ≡ get_login_page_http t (url_path url) (url_query url) (s, w')
  unfolding fetch_login_page gets request
  fallback_on_any_status url s w w' response p sent bad other = rw (sent, bad, other, p)
