-- ===== src/Platform.antt =====
-- custom_components/fritzbox_vpn/entity.py: entities for the connections that the coordinator lists.
pub mod Data
pub mod Once
pub mod Exactly
pub mod Entities
pub mod Switched
pub mod Tests
use fritzbox_vpn.Base.{
  Bool, true, false, not, ◌&&◌, ◌||◌, Option, none, some, List, [], ◌∷◌, ◌++◌, String, Dict, ◌==◌,
  lookup, keys, elem, add, union, difference, intersection, is_empty, if◌then◌else◌,
}
use fritzbox_vpn.Value.{Payload}
use fritzbox_vpn.Coordinator.State.{Connections}

-- `create` makes the entities of one connection, and `uid_of` is their field `_connection_uid`, if it is
-- a text: the classes of the platforms, by their constructors.
module _ {E : Type 0} (create : String → Payload → List E) (uid_of : E → Option String) where
  abbrev pub created : String → Option Payload → List E
  created uid none = []
  created uid (some payload) = create uid payload

  -- The loop over the uids; a uid without data is skipped.
  unfoldable pub vpn_entities_for_connections : Connections → List String → List E
  vpn_entities_for_connections connections [] = []
  vpn_entities_for_connections connections (uid ∷ uids) =
      created uid (lookup uid connections) ++ vpn_entities_for_connections connections uids

  -- The known uids of the platform and the lists that were given to `async_add_entities`, the newest first.
  pub record Tracking : Type 0 where
    pub known_uids : List String
    pub batches : List (List E)

  abbrev pub with_uid : Option String → List String → List String
  with_uid none uids = uids
  with_uid (some uid) uids = add uid uids

  unfoldable pub uids_of : List E → List String
  uids_of [] = []
  uids_of (entity ∷ entities) = with_uid (uid_of entity) (uids_of entities)

  -- The start of `setup_vpn_platform`.
  unfoldable pub setup_vpn_platform : Connections → Tracking → Tracking
  unfolding vpn_entities_for_connections
  setup_vpn_platform connections t = record {
    known_uids = union t.known_uids (keys connections);
    batches = vpn_entities_for_connections connections (keys connections) ∷ t.batches;
  }

  -- `if not added_uids: added_uids = …`
  abbrev pub or_listed : List String → List String → Connections → List String
  or_listed added_uids new_uids connections =
      if is_empty added_uids then intersection new_uids (keys connections) else added_uids

  abbrev pub track_added : List E → List String → Tracking → Tracking
  track_added new_entities added_uids t =
      if is_empty new_entities || is_empty added_uids then t else (record {
        known_uids = union t.known_uids added_uids;
        batches = new_entities ∷ t.batches;
      })

  -- One update of the coordinator, under the lock; without new uids there is nothing to create.
  unfoldable pub add_new_entities : Connections → Tracking → Tracking
  unfolding vpn_entities_for_connections uids_of
  add_new_entities connections t =
      let new_uids = difference (keys connections) t.known_uids in
      let new_entities = vpn_entities_for_connections connections new_uids in
      track_added new_entities (or_listed (uids_of new_entities) new_uids connections) t

  unfoldable pub updates : List Connections → Tracking → Tracking
  unfolding add_new_entities
  updates [] t = t
  updates (connections ∷ rest) t = updates rest (add_new_entities connections t)
