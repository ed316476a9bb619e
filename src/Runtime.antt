-- ===== src/Runtime.antt =====
-- custom_components/fritzbox_vpn/models.py: which connections each platform has entities for. The
-- coordinator of the same object is modelled in Coordinator; a lock is named by its platform.
pub mod Renaming
pub mod Replay
pub mod Tests
use fritzbox_vpn.Base.{
  Bool, List, [], ◌∷◌, String, Dict, elem, add, discard, difference, is_empty, if◌then◌else◌,
}

pub data Platform : Type 0 where
  switch sensor binary_sensor : Platform

pub record Runtime : Type 0 where
  pub known_uids_switch : List String
  pub known_uids_sensor : List String
  pub known_uids_binary_sensor : List String

unfoldable pub platform_tracking : Runtime → Platform → List String × Platform
platform_tracking r switch = (r.known_uids_switch, switch)
platform_tracking r sensor = (r.known_uids_sensor, sensor)
platform_tracking r binary_sensor = (r.known_uids_binary_sensor, binary_sensor)

unfoldable pub clear_known_uids : List String → Runtime → Runtime
clear_known_uids uids r = if is_empty uids then r else (record {
  known_uids_switch = difference r.known_uids_switch uids;
  known_uids_sensor = difference r.known_uids_sensor uids;
  known_uids_binary_sensor = difference r.known_uids_binary_sensor uids;
})

-- The inner loop, on one of the sets.
unfoldable pub remap_set : Dict String → List String → List String
remap_set [] known = known
remap_set ((old_uid, new_uid) ∷ old_to_new) known =
    remap_set old_to_new (if elem old_uid known then add new_uid (discard old_uid known) else known)

unfoldable pub remap_known_uids : Dict String → Runtime → Runtime
unfolding remap_set
remap_known_uids old_to_new r = if is_empty old_to_new then r else (record {
  known_uids_switch = remap_set old_to_new r.known_uids_switch;
  known_uids_sensor = remap_set old_to_new r.known_uids_sensor;
  known_uids_binary_sensor = remap_set old_to_new r.known_uids_binary_sensor;
})
