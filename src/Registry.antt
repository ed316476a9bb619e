-- ===== src/Registry.antt =====
-- custom_components/fritzbox_vpn/entity_registry.py: the entities and devices of the connections.
pub mod State
pub mod Ids
pub mod Remap
pub mod EntityIds
pub mod Repairs
pub mod Merges
pub mod Sample
pub mod Tests
pub mod Home
pub mod Carried
pub mod Removal
