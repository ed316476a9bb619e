-- ===== src/Runtime/Tests.antt =====
-- Runs of models.py.
use fritzbox_vpn.Base.{
  ◌≡◌, refl, true, List, [], ◌∷◌, String, Dict, lookup, elem, difference, add, discard,
}
use fritzbox_vpn.Runtime.{Runtime, platform_tracking, switch, sensor}
use fritzbox_vpn.Runtime.Renaming.{is_renaming, known_uids}
use fritzbox_vpn.Runtime.Replay.{
  Op, track, clear, remap, all_renamings, run, replay, view, run-replay,
}

abbrev tracked : Runtime
tracked = record {
  known_uids_switch = "a" ∷ "b" ∷ [];
  known_uids_sensor = "b" ∷ [];
  known_uids_binary_sensor = [];
}

abbrev moves : Dict String
moves = ("a", "c") ∷ ("b", "d") ∷ []

-- The sensors find c, then b goes, then the switches' a becomes c.
abbrev history : List Op
history = track sensor ("c" ∷ []) ∷ clear ("b" ∷ []) ∷ remap moves ∷ []

known_then : known_uids switch (run history tracked) ≡ "c" ∷ []
unfolding run platform_tracking elem difference add discard
known_then = refl

history-AreRenamings : all_renamings history ≡ true
unfolding all_renamings is_renaming lookup
history-AreRenamings = refl

run-replay_example : view (run history tracked) ≡ replay history (view tracked)
run-replay_example = run-replay history tracked history-AreRenamings
