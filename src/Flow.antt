-- ===== src/Flow.antt =====
-- custom_components/fritzbox_vpn/config_flow.py. State: results and the flow's fields; Steps: the steps
-- of `ConfigFlow`; Calls: any of them; Options: `OptionsFlowHandler`; the others: proofs.
pub mod State
pub mod Steps
pub mod Calls
pub mod Options
pub mod Tests
