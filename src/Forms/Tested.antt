-- ===== src/Forms/Tested.antt =====
-- custom_components/fritzbox_vpn/flow_forms.py: the test that lies behind accepted values.
use fritzbox_vpn.Base.{Bool, true, false, Option, List, Char, String, ◌≡◌, refl}
use fritzbox_vpn.Value.{Payload}
use fritzbox_vpn.Adapter.{Adapter}
use fritzbox_vpn.Forms.Submit.{Errors, fill_password_if_missing, validate_host_on_submit}
use fritzbox_vpn.Forms.Validation.{
  Box, Validated, accepted, refused, validate_input, Submitted, on_host, on_validated,
  async_validate_configure_input,
}

module _ (box : Box) where
  -- The box has answered a listing with the host, name and password of the data, at some time.
  pub record IsTested (input : Payload) : Type 0 where
    pub title : String
    pub before : box.library.World
    pub after : Option Adapter × box.library.World
    pub answered : validate_input box input before ≡ (accepted title, after)

  abbrev pub DoneIsTested : Submitted box → Type 0
  DoneIsTested submitted = submitted.done ≡ true → IsTested submitted.user_input

  on_validated-Tested :
      (input : Payload) (errors : Errors) (w : box.library.World)
      (r : Validated × (Option Adapter × box.library.World))
      → validate_input box input w ≡ r
      → DoneIsTested (on_validated box input errors r)
  on_validated-Tested input errors w (accepted title, after) h d = record {
    title = title;
    before = w;
    after = after;
    answered = h;
  }
  on_validated-Tested input errors w (refused failure, after) h d = cc

  on_host-Tested :
      (input : Payload) (r : Bool × Errors) (w : box.library.World)
      → DoneIsTested (on_host box input r w)
  on_host-Tested input (false, errors) w d = cc
  on_host-Tested input (true, errors) w d =
      on_validated-Tested input errors w (validate_input box input w) refl d

  pub async_validate-Tested :
      (is_wide : Char → Bool) (input : Payload) (errors : Errors) (sources : List (Option Payload))
      (w : box.library.World)
      → DoneIsTested (async_validate_configure_input box is_wide input errors sources w)
  unfolding async_validate_configure_input
  async_validate-Tested is_wide input errors sources w =
      let filled = fill_password_if_missing input sources in
      on_host-Tested filled (validate_host_on_submit is_wide filled errors) w
