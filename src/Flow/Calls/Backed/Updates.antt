-- ===== src/Flow/Calls/Backed/Updates.antt =====
-- custom_components/fritzbox_vpn/config_flow.py: the test behind an updated entry.
use fritzbox_vpn.Base.{
  Bool, true, false, Option, none, some, [], ◌∷◌, Char, String, ◌≡◌, refl, sym, ◌∙◌, lookup, put,
  lookup-put,
}
use fritzbox_vpn.Value.{Value, Payload}
use fritzbox_vpn.Config.{host_from_config}
use fritzbox_vpn.Adapter.{Adapter}
use fritzbox_vpn.Discovery.{Parsers}
use fritzbox_vpn.Forms.Submit.{data_of, with_options, config_and_options_from_configure_input}
use fritzbox_vpn.Forms.Validation.{
  Box, Validated, accepted, refused, validate_input, Submitted, async_validate_configure_input,
}
use fritzbox_vpn.Forms.Tested.{IsTested, DoneIsTested, async_validate-Tested}
use fritzbox_vpn.Flow.State.{ConfigEntry}
use fritzbox_vpn.Flow.Steps.{
  credentials, on_reauth, reauth_with, async_step_reauth_confirm, updated_entry, on_submitted,
  async_step_reconfigure,
}
use fritzbox_vpn.Flow.Calls.Backed.{ResultIsBacked}

module _ (box : Box) (is_wide : Char → Bool) (parsers : Parsers)
    (unique_id_refused : String → Option String) where
  on_reauth-Backed :
      (entry : ConfigEntry) (username password : Value) (w : box.library.World)
      (r : Validated × (Option Adapter × box.library.World))
      → validate_input box
          (credentials box is_wide parsers unique_id_refused
            (host_from_config entry.config)
            username
            password)
          w
        ≡ r
      → ResultIsBacked box
          (on_reauth box is_wide parsers unique_id_refused entry username password r).0
  unfolding lookup
  on_reauth-Backed entry username password w (refused failure, after) h = tt
  on_reauth-Backed entry username password w (accepted title, after) h =
      let host = host_from_config entry.config in
      let with_host = put "host" host entry.config in
      let with_name = put "username" username with_host in
      record {
        tested = credentials box is_wide parsers unique_id_refused host username password;
        test = record { title = title; before = w; after = after; answered = h };
        same_host =
            lookup-put "password" "host" password with_name
            ∙ lookup-put "username" "host" username with_host
            ∙ lookup-put "host" "host" host entry.config;
        same_username =
            lookup-put "password" "username" password with_name
            ∙ lookup-put "username" "username" username with_host;
        same_password = lookup-put "password" "password" password with_name;
      }

  reauth_with-Backed :
      (entry : ConfigEntry) (username password : Option Value) (w : box.library.World)
      → ResultIsBacked box
          (reauth_with box is_wide parsers unique_id_refused entry username password w).0
  reauth_with-Backed entry none password w = tt
  reauth_with-Backed entry (some username) none w = tt
  reauth_with-Backed entry (some username) (some password) w =
      on_reauth-Backed entry username password w _ refl

  pub reauth-Backed :
      (entry : ConfigEntry) (input : Option Payload) (w : box.library.World)
      → ResultIsBacked box
          (async_step_reauth_confirm box is_wide parsers unique_id_refused entry input w).0
  unfolding async_step_reauth_confirm
  reauth-Backed entry none w = tt
  reauth-Backed entry (some input) w =
      reauth_with-Backed entry (lookup "username" input) (lookup "password" input) w

  updated-Backed :
      (input : Payload) (host username password : Option Value)
      → lookup "host" input ≡ host
      → lookup "username" input ≡ username
      → lookup "password" input ≡ password
      → IsTested box input
      → (o : Payload)
      → ResultIsBacked box (
          updated_entry box is_wide parsers unique_id_refused
            (with_options (data_of host username password) o))
  unfolding lookup
  updated-Backed input none username password p q r t o = tt
  updated-Backed input (some h) none password p q r t o = tt
  updated-Backed input (some h) (some u) none p q r t o = tt
  updated-Backed input (some h) (some u) (some k) p q r t o = record {
    tested = input;
    test = t;
    same_host = sym p;
    same_username = sym q;
    same_password = sym r;
  }

  submitted-Backed :
      (submitted : Submitted box) (done : Bool)
      → submitted.done ≡ done
      → DoneIsTested box submitted
      → ResultIsBacked box (on_submitted box is_wide parsers unique_id_refused submitted done).0
  unfolding config_and_options_from_configure_input
  submitted-Backed submitted false e t = tt
  submitted-Backed submitted true e t =
      updated-Backed submitted.user_input _ _ _ refl refl refl (t e) _

  pub reconfigure-Backed :
      (entry : ConfigEntry) (input : Option Payload) (w : box.library.World)
      → ResultIsBacked box
          (async_step_reconfigure box is_wide parsers unique_id_refused entry input w).0
  unfolding async_step_reconfigure
  reconfigure-Backed entry none w = tt
  reconfigure-Backed entry (some input) w =
      let submitted =
        async_validate_configure_input box is_wide input [] (some entry.config ∷ []) w in
      submitted-Backed submitted submitted.done refl
        (async_validate-Tested box is_wide input [] (some entry.config ∷ []) w)
