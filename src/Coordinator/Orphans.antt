-- ===== src/Coordinator/Orphans.antt =====
-- custom_components/fritzbox_vpn/coordinator.py: the counting of missing uids, in steps.
pub mod Counting
pub mod Tracked
pub mod Runs
pub mod Confirmed
