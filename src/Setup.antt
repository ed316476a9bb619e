-- ===== src/Setup.antt =====
-- custom_components/fritzbox_vpn/__init__.py: services, set-up, unloading and migration. The calls of
-- Home Assistant are parameters.
pub mod Services
pub mod Entry
pub mod Handlers
pub mod Tests
