-- ===== src/Adapter/Reset.antt =====
-- custom_components/fritzbox_vpn/fritzconnection_session.py: the adapter after a call that failed.
use fritzbox_vpn.Base.{◌≡◌, refl, Bool, true, false}
use fritzbox_vpn.Adapter.{
  Adapter, End, returned, timed_out, unreachable, login_failed, raised_again, invalidate_session,
}

abbrev pub is_outage : {A : Type 0} → End A → Bool
is_outage (timed_out m) = true
is_outage (unreachable m) = true
is_outage (returned x) = false
is_outage (login_failed m) = false
is_outage (raised_again e) = false

-- HTTPS is tried first again, with a new client.
pub record IsFresh (a : Adapter) : Type 0 where
  pub with_tls : a.use_tls ≡ true
  pub no_client : a.has_fc ≡ false
  pub no_wireguard : a.has_fwg ≡ false

pub invalidate-IsFresh : (a : Adapter) → IsFresh (invalidate_session a)
unfolding invalidate_session
invalidate-IsFresh a = record { with_tls = refl; no_client = refl; no_wireguard = refl }
