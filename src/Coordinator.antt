-- ===== src/Coordinator.antt =====
-- custom_components/fritzbox_vpn/coordinator.py: the poll of the box, by concern.
pub mod Interval
pub mod State
pub mod Recovery
pub mod Uids
pub mod Published
pub mod Poll
pub mod Reach
pub mod Window
pub mod Orphans
pub mod Resolve
pub mod Outages
pub mod Reauth
pub mod Answers
pub mod Tests
