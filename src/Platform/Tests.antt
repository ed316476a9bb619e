-- ===== src/Platform/Tests.antt =====
-- Runs of entity.py with the entities that the platforms make.
use fritzbox_vpn.Base.{
  ◌≡◌, refl, Bool, String, none, true, false, some, [], ◌∷◌, lookup, Everywhere,
}
use fritzbox_vpn.Value.{bool, str, null, truthy}
use fritzbox_vpn.Runtime.{sensor, switch}
use fritzbox_vpn.Coordinator.State.{Connections, Coordinator, init}
use fritzbox_vpn.Platform.{setup_vpn_platform, updates}
use fritzbox_vpn.Platform.Once.{times}
use fritzbox_vpn.Platform.Exactly.{once_if, listed_in, added_exactly_once}
use fritzbox_vpn.Platform.Data.{IsCoherent, entities-AreCoherent}
use fritzbox_vpn.Platform.Entities.{
  new_switch, new_uid_sensor, entities_of, uid_of, suggested_object_id, vpn_switch_attributes,
  vpn_entities_for_uids,
}
use fritzbox_vpn.Outcome.{ok}
use fritzbox_vpn.Adapter.{Reply, replied}
use fritzbox_vpn.Adapter.Tests.{no_connect, no_wireguard, fallen_back}
use fritzbox_vpn.Session.Tests.{played, known_session, answer, toggle_answers}
use fritzbox_vpn.Coordinator.Poll.{toggle_vpn}
use fritzbox_vpn.Coordinator.Uids.{resolve_connection_uid}
use fritzbox_vpn.Platform.Data.{async_toggle_connection}
use fritzbox_vpn.Platform.Switched.{turn, IsDone, adapter_toggle-answer, turn-IsVerified}
use fritzbox_vpn.Platform.Entities.Ours.{IsOurs, entities_of-IsFactory, added-AreOurs}

abbrev both : Connections
both = ("a", ("active", bool true) ∷ []) ∷ ("b", []) ∷ []

abbrev one : Connections
one = ("b", []) ∷ []

added_exactly_once_example :
    times
      (entities_of sensor "entry")
      uid_of
      "a"
      (updates (entities_of sensor "entry") uid_of ([] ∷ both ∷ one ∷ both ∷ []) (
        setup_vpn_platform
          (entities_of sensor "entry")
          uid_of
          one
          (record { known_uids = []; batches = [] }))).batches
    ≡ once_if (listed_in "a" (one ∷ [] ∷ both ∷ one ∷ both ∷ []))
added_exactly_once_example =
    added_exactly_once (entities_of sensor "entry") uid_of (entities_of-IsFactory sensor "entry")
      one ([] ∷ both ∷ one ∷ both ∷ []) "a"

listed_test : once_if (listed_in "a" (one ∷ [] ∷ both ∷ one ∷ both ∷ [])) ≡ 1
unfolding lookup
listed_test = refl

added-AreOurs_example :
    Everywhere
      (Everywhere (IsOurs "entry" (one ∷ both ∷ one ∷ [])))
      (updates (entities_of switch "entry") uid_of (both ∷ one ∷ []) (
        setup_vpn_platform
          (entities_of switch "entry")
          uid_of
          one
          (record { known_uids = []; batches = [] }))).batches
added-AreOurs_example = added-AreOurs switch "entry" one (both ∷ one ∷ [])

abbrev listing : Coordinator
listing = record (init 30 (some "entry") true) { last_data = some both }

entities-AreCoherent_example : IsCoherent listing "a"
entities-AreCoherent_example = entities-AreCoherent listing "a"

-- The switch is named as its device, the others have their suffix.
object_id_test :
    (suggested_object_id (some "home") (new_switch "entry" "a" []) ≡ some "home")
    × (suggested_object_id (some "home") (new_uid_sensor "entry" "a" []) ≡ some "uid")
unfolding suggested_object_id new_switch new_uid_sensor
object_id_test = (refl, refl)

attributes_test :
    vpn_switch_attributes listing "a"
    ≡ ("name", null)
      ∷ ("uid", str "a")
      ∷ ("vpn_uid", null)
      ∷ ("active", bool true)
      ∷ ("connected", bool false)
      ∷ ("status", str "enabled")
      ∷ []
unfolding vpn_switch_attributes lookup init truthy
attributes_test = refl

uids_test :
    vpn_entities_for_uids new_switch "entry" both ("a" ∷ "c" ∷ [])
    ≡ new_switch "entry" "a" (("active", bool true) ∷ []) ∷ []
unfolding vpn_entities_for_uids lookup
uids_test = refl

abbrev no_toggle : String → Bool → played.World → Reply Bool × played.World
no_toggle uid enable w = (replied false, w)

abbrev answers : played.World
answers = answer 200 "off" ∷ answer 200 "" ∷ answer 200 "on" ∷ []

no_error :
    (turn played true no_connect no_wireguard no_toggle true true "a" listing
      (fallen_back, answers)).toggle_end.failed_with
    ≡ none
unfolding turn toggle_vpn async_toggle_connection resolve_connection_uid init lookup
no_error =
    rw
      (adapter_toggle-answer played true no_connect no_wireguard no_toggle "a" true fallen_back
        known_session known_session answers [] (ok true) refl refl toggle_answers)
      refl

turn-IsVerified_example : IsDone played true no_connect no_wireguard no_toggle true "a" listing (
    turn played true no_connect no_wireguard no_toggle true true "a" listing (fallen_back, answers))
turn-IsVerified_example =
    turn-IsVerified played true no_connect no_wireguard no_toggle true true "a" listing
      (fallen_back, answers) no_error
