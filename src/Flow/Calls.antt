-- ===== src/Flow/Calls.antt =====
-- custom_components/fritzbox_vpn/config_flow.py: the calls that Home Assistant makes of a flow, one after
-- the other.
pub mod Backed
pub mod Found
use fritzbox_vpn.Base.{Bool, Option, Char, String}
use fritzbox_vpn.Value.{Payload}
use fritzbox_vpn.Discovery.{ServiceInfo, Parsers}
use fritzbox_vpn.Forms.Validation.{Box}
use fritzbox_vpn.Flow.State.{FlowResult, Flow, ConfigEntry, init}
use fritzbox_vpn.Flow.Steps.{
  OtherEntries, async_step_user, async_step_ssdp, async_step_confirm, async_step_reauth_confirm,
  async_step_reconfigure,
}

-- With what Home Assistant holds at that time: the entries of other integrations, or the entry of the
-- flow.
pub data FlowCall : Type 0 where
  user : OtherEntries → Option Payload → FlowCall
  ssdp : ServiceInfo → OtherEntries → OtherEntries → FlowCall
  confirm : Option Payload → FlowCall
  reauth : ConfigEntry → Option Payload → FlowCall
  reconfigure : ConfigEntry → Option Payload → FlowCall

module _ (box : Box) (is_wide : Char → Bool) (parsers : Parsers) where
  abbrev pub keeping :
      Flow → FlowResult × box.library.World → FlowResult × (Flow × box.library.World)
  keeping flow (result, w) = (result, (flow, w))

  -- `unique_id_refused` are the unique ids that Home Assistant refuses at the time.
  unfoldable pub step :
      (String → Option String)
      → FlowCall
      → Flow
      → box.library.World
      → FlowResult × (Flow × box.library.World)
  unfolding async_step_user async_step_ssdp async_step_confirm async_step_reauth_confirm
      async_step_reconfigure
  step unique_id_refused (user others input) flow w =
      async_step_user box is_wide parsers unique_id_refused others input flow w
  step unique_id_refused (ssdp info others later) flow w =
      async_step_ssdp box is_wide parsers unique_id_refused info others later flow w
  step unique_id_refused (confirm input) flow w =
      async_step_confirm box is_wide parsers unique_id_refused input flow w
  step unique_id_refused (reauth entry input) flow w =
      keeping flow (async_step_reauth_confirm box is_wide parsers unique_id_refused entry input w)
  step unique_id_refused (reconfigure entry input) flow w =
      keeping flow (async_step_reconfigure box is_wide parsers unique_id_refused entry input w)

  -- Between two calls the network may change at will.
  pub data Reachable : Flow → Type 0 where
    start : Reachable init
    next :
        {flow : Flow} (unique_id_refused : String → Option String) (call : FlowCall)
        (w : box.library.World)
        → Reachable flow
        → Reachable (step unique_id_refused call flow w).1.0
