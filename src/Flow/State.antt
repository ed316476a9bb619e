-- ===== src/Flow/State.antt =====
-- custom_components/fritzbox_vpn/config_flow.py: the results of a step, and what a flow remembers.
use fritzbox_vpn.Base.{ℕ, Option, none, String, Dict}
use fritzbox_vpn.Value.{Payload}
use fritzbox_vpn.Forms.Schema.{Schema}
use fritzbox_vpn.Forms.Submit.{Errors}

-- `update_and_abort` is `async_update_reload_and_abort` with new data, new options if any, and the
-- reason. `failed` is an exception that leaves the step.
pub data FlowResult : Type 0 where
  show_form : String → Schema → Errors → Dict String → FlowResult
  abort : String → FlowResult
  create_entry : String → Payload → FlowResult
  update_and_abort : Payload → Option Payload → String → FlowResult
  failed : String → FlowResult

pub record Flow : Type 0 where
  pub discovered_host : Option String
  pub discovered_unique_id : Option String
  pub existing_config : Option Payload
  pub title_host : Option String

unfoldable pub init : Flow
init = record {
  discovered_host = none;
  discovered_unique_id = none;
  existing_config = none;
  title_host = none;
}

-- What a step reads of a config entry of this integration.
pub record ConfigEntry : Type 0 where
  pub entry_id : String
  pub version : ℕ
  pub config : Payload
  pub options : Payload
