-- ===== src/Platform/Entities/Ours.antt =====
-- custom_components/fritzbox_vpn/entity.py with the platforms and entity_registry.py: the entities that
-- are added, as the registry helpers read them.
use fritzbox_vpn.Base.{
  ◌≡◌, refl, subst, ◌⊎◌, inl, inr, true, ◌&&◌, ◌||◌, Option, none, some, is_some, List, [], ◌∷◌,
  String, ◌==◌, lookup, keys, elem, difference, is_empty, ends_with, Everywhere, Among,
  Everywhere-append, Everywhere-of-Among, Bool-cases, Option-cases, arith,
}
use fritzbox_vpn.Value.{Payload}
use fritzbox_vpn.UidIdentity.{entity_unique_id}
use fritzbox_vpn.Runtime.{Platform, switch, sensor, binary_sensor}
use fritzbox_vpn.Registry.State.{identifier}
use fritzbox_vpn.Registry.Ids.{unique_id_suffixes, connection_uid_from_entity_unique_id}
use fritzbox_vpn.Registry.Ids.RoundTrip.{connection_uid-entity_unique_id}
use fritzbox_vpn.Registry.Repairs.Kept.{ours-IsSome}
use fritzbox_vpn.Coordinator.State.{Connections}
use fritzbox_vpn.Platform.{
  created, vpn_entities_for_connections, Tracking, uids_of, setup_vpn_platform, or_listed,
  track_added, add_new_entities, updates,
}
use fritzbox_vpn.Platform.Once.{IsFactory}
use fritzbox_vpn.Platform.Exactly.{listed_in}
use fritzbox_vpn.Platform.Entities.{
  EntityClass, vpn_switch, status_sensor, uid_sensor, vpn_uid_sensor, connected_sensor, VpnEntity,
  suffix_of, vpn_entity, entities_of, uid_of,
}

-- What holds of the entities that are made of the connections of a listing holds of all that are added.
module _ {E : Type 0} (create : String → Payload → List E) (uid_of : E → Option String)
    (P : E → Type 0) where
  abbrev Makes : Connections → Type 0
  Makes connections =
      (uid : String) (payload : Payload)
      → lookup uid connections ≡ some payload
      → Everywhere P (create uid payload)

  created-Each :
      (connections : Connections) (uid : String)
      → Makes connections
      → Everywhere P (created create uid_of uid (lookup uid connections))
  created-Each connections uid m = elim (Option-cases (lookup uid connections)) [
    | inl e ↦ rw e tt
    | inr (payload, e) ↦ rw e (m uid payload e)
  ]

  entities-Each :
      (connections : Connections) (uids : List String)
      → Makes connections
      → Everywhere P (vpn_entities_for_connections create uid_of connections uids)
  unfolding vpn_entities_for_connections
  entities-Each connections [] m = tt
  entities-Each connections (uid ∷ uids) m =
      Everywhere-append P (created create uid_of uid (lookup uid connections))
        (vpn_entities_for_connections create uid_of connections uids)
        (created-Each connections uid m) (entities-Each connections uids m)

  abbrev Each : Tracking create uid_of → Type 0
  Each t = Everywhere (Everywhere P) t.batches

  track_added-Each :
      (entities : List E) (added : List String) (t : Tracking create uid_of)
      → Everywhere P entities
      → Each t
      → Each (track_added create uid_of entities added t)
  track_added-Each entities added t h v = elim (Bool-cases (is_empty entities || is_empty added)) [
    | inl e ↦ rw e v
    | inr e ↦ rw e (h, v)
  ]

  updates-Each :
      (rest : List Connections) (t : Tracking create uid_of)
      → Everywhere Makes rest
      → Each t
      → Each (updates create uid_of rest t)
  unfolding updates add_new_entities
  updates-Each [] t m v = v
  updates-Each (connections ∷ rest) t (m, ms) v =
      let entities =
        vpn_entities_for_connections create uid_of connections
          (difference (keys connections) t.known_uids) in
      updates-Each rest (add_new_entities create uid_of connections t) ms (
        track_added-Each entities
          (or_listed create uid_of (uids_of create uid_of entities)
            (difference (keys connections) t.known_uids) connections)
          t (entities-Each connections (difference (keys connections) t.known_uids) m) v)

  run-Each :
      (connections : Connections) (rest : List Connections)
      → Everywhere Makes (connections ∷ rest)
      → Each (
          updates create uid_of rest (
            setup_vpn_platform create uid_of connections
              (record { known_uids = []; batches = [] })))
  unfolding setup_vpn_platform
  run-Each connections rest (m, ms) =
      updates-Each rest
        (setup_vpn_platform create uid_of connections (record { known_uids = []; batches = [] })) ms
        (entities-Each connections (keys connections) m, tt)

-- The three platforms make the entities of each connection, and one at least.
pub entities_of-IsFactory :
    (p : Platform) (entry_id : String) → IsFactory (entities_of p entry_id) uid_of
unfolding entities_of
entities_of-IsFactory switch entry_id = record {
  of_uid = λ uid payload. (refl, tt);
  some_entity = λ uid payload. refl;
}
entities_of-IsFactory sensor entry_id = record {
  of_uid = λ uid payload. (refl, (refl, (refl, tt)));
  some_entity = λ uid payload. refl;
}
entities_of-IsFactory binary_sensor entry_id = record {
  of_uid = λ uid payload. (refl, tt);
  some_entity = λ uid payload. refl;
}

-- An entity of a connection that one of the listings has, on the device of that connection, with a unique
-- id that is read as one of the connection: unless it shows the uid of a connection `x_vpn`, and then the
-- id is still read as one of some connection.
pub record IsOurs (entry_id : String) (listings : List Connections) (e : VpnEntity) : Type 0 where
  pub listed : listed_in e.connection_uid listings ≡ true
  pub on_device : e.device_info.identifiers ≡ identifier entry_id e.connection_uid ∷ []
  pub is_read : is_some (connection_uid_from_entity_unique_id e.unique_id) ≡ true
  pub read_back :
      (connection_uid_from_entity_unique_id e.unique_id ≡ some e.connection_uid)
      ⊎ ((suffix_of e.entity_class == "uid" && ends_with e.connection_uid "_vpn") ≡ true)

suffix_listed : (c : EntityClass) → elem (suffix_of c) unique_id_suffixes ≡ true
unfolding elem
suffix_listed vpn_switch = refl
suffix_listed status_sensor = refl
suffix_listed uid_sensor = refl
suffix_listed vpn_uid_sensor = refl
suffix_listed connected_sensor = refl

read_back_or :
    (uid suffix : String)
    → elem suffix unique_id_suffixes ≡ true
    → (connection_uid_from_entity_unique_id (entity_unique_id uid suffix) ≡ some uid)
      ⊎ ((suffix == "uid" && ends_with uid "_vpn") ≡ true)
read_back_or uid suffix k = elim (Bool-cases (suffix == "uid" && ends_with uid "_vpn")) [
  | inl e ↦ inr e
  | inr e ↦ inl (connection_uid-entity_unique_id uid suffix k e).1
]

vpn_entity-IsOurs :
    (c : EntityClass) (key : Option String) (entry_id : String) (listings : List Connections)
    (uid : String) (payload : Payload)
    → listed_in uid listings ≡ true
    → IsOurs entry_id listings (vpn_entity c (suffix_of c) key none entry_id uid payload)
unfolding vpn_entity
vpn_entity-IsOurs c key entry_id listings uid payload l = record {
  listed = l;
  on_device = refl;
  is_read = ours-IsSome uid (suffix_of c) (suffix_listed c);
  read_back = read_back_or uid (suffix_of c) (suffix_listed c);
}

entities_of-AreOurs :
    (p : Platform) (entry_id : String) (listings : List Connections) (uid : String)
    (payload : Payload)
    → listed_in uid listings ≡ true
    → Everywhere (IsOurs entry_id listings) (entities_of p entry_id uid payload)
unfolding entities_of
entities_of-AreOurs switch entry_id listings uid payload l =
    (vpn_entity-IsOurs vpn_switch none entry_id listings uid payload l, tt)
entities_of-AreOurs sensor entry_id listings uid payload l = (
  vpn_entity-IsOurs status_sensor (some "status") entry_id listings uid payload l,
  (
    vpn_entity-IsOurs uid_sensor (some "connection_uid") entry_id listings uid payload l,
    (vpn_entity-IsOurs vpn_uid_sensor (some "vpn_uid") entry_id listings uid payload l, tt),
  ),
)
entities_of-AreOurs binary_sensor entry_id listings uid payload l =
    (vpn_entity-IsOurs connected_sensor (some "connected") entry_id listings uid payload l, tt)

listed_in-Among :
    (x : String) (connections : Connections) (payload : Payload) (listings : List Connections)
    → lookup x connections ≡ some payload
    → Among connections listings
    → listed_in x listings ≡ true
listed_in-Among x connections payload [] h m = elim m [ ]
listed_in-Among x connections payload (c ∷ listings) h (inl e) =
    let there : lookup x c ≡ some payload = subst (λ d. lookup x d ≡ some payload) e h in
    rw there refl
listed_in-Among x connections payload (c ∷ listings) h (inr m) =
    ground (arith, listed_in-Among x connections payload listings h m)

-- Whatever the coordinator lists at the set-up of a platform and at the updates that follow, every entity
-- that the platform gives to `async_add_entities` belongs to a connection that one of these listings has
-- and to the device of that connection, and the registry helpers read a connection from its unique id, so
-- that the clean-up of broken entities keeps it. They read its own connection, unless it is the
-- sensor for the uid of a connection whose uid ends with `_vpn`.
pub added-AreOurs :
    (p : Platform) (entry_id : String) (connections : Connections) (rest : List Connections)
    → Everywhere
        (Everywhere (IsOurs entry_id (connections ∷ rest)))
        (updates (entities_of p entry_id) uid_of rest (
          setup_vpn_platform
            (entities_of p entry_id)
            uid_of
            connections
            (record { known_uids = []; batches = [] }))).batches
added-AreOurs p entry_id connections rest =
    run-Each (entities_of p entry_id) uid_of (IsOurs entry_id (connections ∷ rest)) connections rest
      (Everywhere-of-Among
        (Makes (entities_of p entry_id) uid_of (IsOurs entry_id (connections ∷ rest)))
        (connections ∷ rest)
        (λ c m uid payload h.
          entities_of-AreOurs p entry_id (connections ∷ rest) uid payload
            (listed_in-Among uid c payload (connections ∷ rest) h m)))
