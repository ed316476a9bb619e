-- ===== src/Forms.antt =====
-- custom_components/fritzbox_vpn/flow_forms.py: the forms of the config flow. Host: `validate_host`;
-- Schema: the schemas with their defaults; Submit: what is done with submitted values; Validation:
-- the test of the credentials and the kinds of its failures; the others: proofs.
pub mod Address
pub mod Host
pub mod Schema
pub mod Submit
pub mod Validation
pub mod Tested
pub mod Named
pub mod Judged
pub mod Tests
