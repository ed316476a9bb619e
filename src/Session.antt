-- ===== src/Session.antt =====
-- fritzboxvpn/fritzboxvpn/session.py, by method.
pub mod State
pub mod Login
pub mod Listing
pub mod Toggle
pub mod Logic
pub mod Normal
pub mod Valid
pub mod Tests
