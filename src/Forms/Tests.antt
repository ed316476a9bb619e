-- ===== src/Forms/Tests.antt =====
-- Hosts and submitted values.
use fritzbox_vpn.Base.{
  ◌≡◌, refl, ◌↔◌, ◌⊎◌, Bool, true, false, is_some, Char, [], ◌∷◌, ℕ, suc, some, lookup, put,
  ends_with, contains_any, lower,
}
use fritzbox_vpn.Value.{str, Payload, truthy, to_str}
use fritzbox_vpn.Adapter.{Library, replied, failed, authorization, with_https_http_fallback, init}
use fritzbox_vpn.Forms.Address.{ip_address}
use fritzbox_vpn.Forms.Host.{valid, validate_host}
use fritzbox_vpn.Forms.Named.{is_name, validate_host_iff}
use fritzbox_vpn.Forms.Validation.{Box, Submitted, async_validate_configure_input}
use fritzbox_vpn.Forms.Judged.{IsJudged, async_validate-AreJudged}

abbrev no_wide : Char → Bool
no_wide c = false

validate_host_iff_example : (validate_host no_wide (str "my-box.lan") ≡ valid "my-box.lan") ↔ (
    (str "my-box.lan" ≡ str "my-box.lan")
    × ((is_some (ip_address "my-box.lan") ≡ true) ⊎ (is_name no_wide "my-box.lan" ≡ true)))
validate_host_iff_example = validate_host_iff no_wide (str "my-box.lan") "my-box.lan"

-- A box that refuses the login.
abbrev closed : Library
closed = record {
  World = ℕ;
  wireguard_missing = false;
  connect = λ use_tls w. (failed (authorization "401"), suc w);
  wireguard = λ w. (replied tt, w);
}

abbrev closed_box : Box
closed_box = record {
  library = closed;
  call = λ w. (replied [], w);
  primary = λ s w. (replied [], (s, w));
}

abbrev typed : Payload
typed = ("host", str "fritz.box") ∷ ("username", str "u") ∷ ("password", str "p") ∷ []

abbrev refused_form : Submitted closed_box
refused_form = async_validate_configure_input closed_box no_wide typed [] [] 0

is_refused : refused_form.done ≡ false
unfolding async_validate_configure_input validate_host to_str lookup truthy ip_address ends_with
    with_https_http_fallback init contains_any lower
is_refused = refl

wrong_password : refused_form.errors ≡ ("base", "invalid_auth") ∷ []
unfolding async_validate_configure_input validate_host to_str lookup truthy ip_address ends_with
    with_https_http_fallback init contains_any lower put
wrong_password = refl

host_there : lookup "host" typed ≡ some (str "fritz.box")
unfolding lookup
host_there = refl

username_there : lookup "username" typed ≡ some (str "u")
unfolding lookup
username_there = refl

async_validate-AreJudged_example : IsJudged refused_form.errors
async_validate-AreJudged_example =
    async_validate-AreJudged closed_box no_wide typed [] (str "fritz.box") (str "u") 0 host_there
      username_there is_refused
