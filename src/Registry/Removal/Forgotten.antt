-- ===== src/Registry/Removal/Forgotten.antt =====
-- custom_components/fritzbox_vpn/entity_registry.py: what a removal leaves.
use fritzbox_vpn.Base.{
  Bool, true, false, not, ◌&&◌, ◌||◌, ◌==◌, elem, elem-add, arith, Option, none, some, map_option,
  List, [], ◌∷◌, String, ◌≡◌, refl, sym, ap, ◌∙◌,
}
use fritzbox_vpn.Outcome.{Outcome, ok, raised, continue}
use fritzbox_vpn.Session.Listing.{Connections}
use fritzbox_vpn.Runtime.{Runtime, Platform, clear_known_uids}
use fritzbox_vpn.Runtime.Renaming.{known_uids, elem-clear_known_uids}
use fritzbox_vpn.Registry.Ids.{connection_uid_from_entity_unique_id}
use fritzbox_vpn.Registry.State.{Entity, Device, identifier, or_empty}
use fritzbox_vpn.Registry.Repairs.{add_uid, uid_of, uids_from_entity_entries}
use fritzbox_vpn.Registry.Home.{Home, runtime_from_hass}
use fritzbox_vpn.Registry.Removal.{
  device_ids_of, remove_all, remove_found, remove_connection_devices, remove_unused,
  remove_unused_devices, forget_in, forget_uids, tidy, after_removal, remove_orphaned_entities,
}

abbrev pub Tracked : Type 0
Tracked = Option (Runtime × Option Connections)

abbrev is_of : String → Option String → Bool
is_of uid none = false
is_of uid (some y) = y == uid

abbrev forget : List String → Runtime × Option Connections → Runtime × Option Connections
forget uids (r, connections) = (clear_known_uids uids r, connections)

-- Tracked after a removal that ended so, with the code's own forgetting.
abbrev tracked_after : Outcome (Unit {0}) → List Entity → Tracked → Tracked
tracked_after (ok u) entries o = map_option (forget (uids_from_entity_entries entries [])) o
tracked_after (raised e) entries o = o

-- The unique id of one of the entities is read back as one of this connection.
unfoldable pub is_removed : String → List Entity → Bool
is_removed uid [] = false
is_removed uid (entry ∷ entries) =
    is_of uid (connection_uid_from_entity_unique_id (or_empty entry.unique_id))
    || is_removed uid entries

-- What a platform knows afterwards: what it knew, without the connections of removed entities.
abbrev pub IsWithout : List Entity → Runtime → Runtime → Type 0
IsWithout entries r r' =
    (p : Platform) (uid : String)
    → elem uid (known_uids p r') ≡ (elem uid (known_uids p r) && not (is_removed uid entries))

-- The runtime data after the removal of the entities, from that before it.
abbrev pub IsForgotten : Outcome (Unit {0}) → List Entity → Tracked → Tracked → Type 0
IsForgotten (raised e) entries o o' = o' ≡ o
IsForgotten (ok u) entries none o' = o' ≡ none
IsForgotten (ok u) entries (some (r, connections)) o' =
    (r' : Runtime) × ((o' ≡ some (r', connections)) × IsWithout entries r r')

or_assoc : (a b c : Bool) → ((a || b) || c) ≡ (a || (b || c))
or_assoc a b c = ground arith

or_false : (a : Bool) → (a || false) ≡ a
or_false a = ground arith

elem-add_uid :
    (x : String) (o : Option String) (uids : List String)
    → elem x (add_uid o uids) ≡ (elem x uids || is_of x o)
elem-add_uid x none uids = sym (or_false (elem x uids))
elem-add_uid x (some uid) uids = elem-add x uid uids

elem-uids_from_entity_entries :
    (x : String) (entries : List Entity) (uids : List String)
    → elem x (uids_from_entity_entries entries uids) ≡ (elem x uids || is_removed x entries)
unfolding uids_from_entity_entries is_removed
elem-uids_from_entity_entries x [] uids = sym (or_false (elem x uids))
elem-uids_from_entity_entries x (entry ∷ entries) uids =
    elem-uids_from_entity_entries x entries (add_uid (uid_of entry) uids)
    ∙ ap (λ b. b || is_removed x entries) (elem-add_uid x (uid_of entry) uids)
    ∙ or_assoc (elem x uids) (is_of x (uid_of entry)) (is_removed x entries)

forgotten-IsWithout :
    (entries : List Entity) (r : Runtime)
    → IsWithout entries r (clear_known_uids (uids_from_entity_entries entries []) r)
unfolding elem
forgotten-IsWithout entries r p x =
    elem-clear_known_uids (uids_from_entity_entries entries []) r p x
    ∙ ap (λ b. elem x (known_uids p r) && not b) (elem-uids_from_entity_entries x entries [])

tracked_after-IsForgotten :
    (end : Outcome (Unit {0})) (entries : List Entity) (o o' : Tracked)
    → o' ≡ tracked_after end entries o
    → IsForgotten end entries o o'
tracked_after-IsForgotten (raised e) entries o o' h = h
tracked_after-IsForgotten (ok u) entries none o' h = h
tracked_after-IsForgotten (ok u) entries (some (r, connections)) o' h =
    (clear_known_uids (uids_from_entity_entries entries []) r, (h, forgotten-IsWithout entries r))

forget_nothing : (o : Tracked) → map_option (forget []) o ≡ o
unfolding clear_known_uids
forget_nothing none = refl
forget_nothing (some (r, connections)) = refl

-- The registries and the runtime data do not touch each other, and an assignment is read back.
pub record IsApart (home : Home) (entry_id : String) : Type 0 where
  pub removed :
      (id : String) (w : home.World)
      → runtime_from_hass home (home.remove id w).1 entry_id ≡ runtime_from_hass home w entry_id
  pub device_removed :
      (id : String) (w : home.World)
      → runtime_from_hass home (home.remove_device id w) entry_id
        ≡ runtime_from_hass home w entry_id
  pub assigned :
      (r old : Runtime) (connections : Option Connections) (w : home.World)
      → runtime_from_hass home w entry_id ≡ some (old, connections)
      → runtime_from_hass home (home.set_runtime entry_id r w) entry_id ≡ some (r, connections)

module _ (home : Home) (entry_id : String) (apart : IsApart home entry_id) where
  abbrev tracked : home.World → Tracked
  tracked w = runtime_from_hass home w entry_id

  next-tracked :
      (f : home.World → Outcome (Unit {0}) × home.World) (r : Outcome (Unit {0}) × home.World)
      → ((v : home.World) → tracked (f v).1 ≡ tracked v)
      → tracked (continue (λ u. f) r).1 ≡ tracked r.1
  next-tracked f (ok u, v) rest = rest v
  next-tracked f (raised e, v) rest = refl

  remove_all-tracked :
      (entries : List Entity) (w : home.World) → tracked (remove_all home entries w).1 ≡ tracked w
  unfolding remove_all
  remove_all-tracked [] w = refl
  remove_all-tracked (entry ∷ entries) w =
      next-tracked (remove_all home entries) (home.remove entry.entity_id w)
        (remove_all-tracked entries)
      ∙ apart.removed entry.entity_id w

  found-tracked :
      (o : Option Device) (done : List String × home.World)
      → tracked (remove_found home o done).1 ≡ tracked done.1
  found-tracked none done = refl
  found-tracked (some device) (ids, w) = apart.device_removed device.id w

  connection_devices-tracked :
      (uids : List String) (done : List String × home.World)
      → tracked (remove_connection_devices home entry_id uids done).1 ≡ tracked done.1
  unfolding remove_connection_devices
  connection_devices-tracked [] done = refl
  connection_devices-tracked (uid ∷ uids) done =
      let o = (home.registries done.1).device_with (identifier entry_id uid) in
      connection_devices-tracked uids (remove_found home o done) ∙ found-tracked o done

  unused-tracked :
      (o : Option Device) (entries : List Entity) (w : home.World)
      → tracked (remove_unused home o entries w) ≡ tracked w
  unused-tracked none entries w = refl
  unused-tracked (some device) [] w = apart.device_removed device.id w
  unused-tracked (some device) (entry ∷ entries) w = refl

  unused_devices-tracked :
      (ids : List String) (w : home.World) → tracked (remove_unused_devices home ids w) ≡ tracked w
  unfolding remove_unused_devices
  unused_devices-tracked [] w = refl
  unused_devices-tracked (id ∷ ids) w =
      let o = (home.registries w).device id in
      let entries = home.device_entities w id in
      unused_devices-tracked ids (remove_unused home o entries w) ∙ unused-tracked o entries w

  forget_in-tracked :
      (uids : List String) (o : Tracked) (w : home.World)
      → tracked w ≡ o
      → tracked (forget_in home entry_id uids o w) ≡ map_option (forget uids) o
  forget_in-tracked uids none w e = e
  forget_in-tracked uids (some (r, connections)) w e =
      apart.assigned (clear_known_uids uids r) r connections w e

  forget_uids-tracked :
      (uids : List String) (w : home.World)
      → tracked (forget_uids home entry_id uids w) ≡ map_option (forget uids) (tracked w)
  unfolding forget_uids
  forget_uids-tracked [] w = sym (forget_nothing (tracked w))
  forget_uids-tracked (uid ∷ uids) w = forget_in-tracked (uid ∷ uids) (tracked w) w refl

  tidy-tracked :
      (uids ids : List String) (w : home.World)
      → tracked (tidy home entry_id uids ids w) ≡ map_option (forget uids) (tracked w)
  tidy-tracked uids ids w =
      let (left, w') = remove_connection_devices home entry_id uids (ids, w) in
      forget_uids-tracked uids (remove_unused_devices home left w')
      ∙ ap (map_option (forget uids))
          (unused_devices-tracked left w' ∙ connection_devices-tracked uids (ids, w))

  after_removal-tracked :
      (entries : List Entity) (r : Outcome (Unit {0}) × home.World) (w : home.World)
      → tracked r.1 ≡ tracked w
      → let (end, w') = after_removal home entry_id entries r in
        tracked w' ≡ tracked_after end entries (tracked w)
  after_removal-tracked entries (raised e, v) w h = h
  after_removal-tracked entries (ok u, v) w h =
      tidy-tracked (uids_from_entity_entries entries []) (device_ids_of entries []) v
      ∙ ap (map_option (forget (uids_from_entity_entries entries []))) h

  removal-tracked :
      (entries : List Entity) (w : home.World)
      → let (end, w') = remove_orphaned_entities home entry_id entries true w in
        tracked w' ≡ tracked_after end entries (tracked w)
  unfolding remove_orphaned_entities
  removal-tracked [] w = sym (unfold uids_from_entity_entries in forget_nothing (tracked w))
  removal-tracked (entry ∷ entries) w =
      after_removal-tracked (entry ∷ entries) (remove_all home (entry ∷ entries) w) w
        (remove_all-tracked (entry ∷ entries) w)

  -- When a removal of entities returns, each platform of the loaded entry knows exactly the uids it
  -- knew before but those that the unique id of one of the removed entities names, whose entities it
  -- may then add again; the coordinator's data stays. When a removal raises, the runtime data is as
  -- before.
  pub remove_orphaned_entities-IsForgotten :
      (entries : List Entity) (w : home.World)
      → let (end, w') = remove_orphaned_entities home entry_id entries true w in
        IsForgotten end entries
          (runtime_from_hass home w entry_id)
          (runtime_from_hass home w' entry_id)
  remove_orphaned_entities-IsForgotten entries w =
      let (end, w') = remove_orphaned_entities home entry_id entries true w in
      tracked_after-IsForgotten end entries (tracked w) (tracked w') (removal-tracked entries w)
