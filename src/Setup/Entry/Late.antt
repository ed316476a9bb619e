-- ===== src/Setup/Entry/Late.antt =====
-- custom_components/fritzbox_vpn/__init__.py: what the set-up of an entry does to the registries while
-- the state of the entry is not loaded.
use fritzbox_vpn.Base.{
  ℕ, ◌≡◌, refl, sym, subst, inl, inr, Bool, true, false, not, Option, none, some, is_some, List, [],
  ◌∷◌, String, Bool-cases, Everywhere, Among, starts_with, arith,
}
use fritzbox_vpn.Outcome.{Outcome, ok, raised, continue}
use fritzbox_vpn.Session.Listing.{Connections}
use fritzbox_vpn.Registry.State.{Entity, Device, or_empty, identifier}
use fritzbox_vpn.Registry.Repairs.{
  uid_of, is_unexpected, unexpected_entries, uids_from_entity_entries,
}
use fritzbox_vpn.Registry.Home.{
  Home, HassEntry, runtime_of_loaded, runtime_from_hass, resolve_current_uids,
}
use fritzbox_vpn.Registry.Carried.{
  count_both, then_suffixes, repair_orphan_base_suffix_merges, repair_entity_id_suffixes,
  repair_entity_ids_before_platform_setup,
}
use fritzbox_vpn.Registry.Carried.Keeps.{suffixes-Keeps}
use fritzbox_vpn.Registry.Removal.{
  device_ids_of, remove_all, remove_found, remove_connection_devices, remove_unused,
  remove_unused_devices, forget_in, forget_uids, after_removal, remove_orphaned_entities, counted,
  remove_unexpected_entity_entries, any_connection_identifier, cleaned, clean_one, clean_devices,
  cleanup_empty_connection_devices,
}
use fritzbox_vpn.Flow.State.{ConfigEntry}
use fritzbox_vpn.Setup.Entry.{remove_shadows, on_forwarded, async_setup_entry}

-- An entity that the registry lists for the config entry, with the prefix of the integration and without
-- the suffix of one of its entities.
pub record IsShadow (home : Home) (entry_id : String) (seen : home.World) (entity : Entity)
    : Type 0 where
  pub listed : Among entity ((home.registries seen).entries entry_id)
  pub prefixed : starts_with (or_empty entity.unique_id) "fritzbox_vpn_" ≡ true
  pub nameless : uid_of entity ≡ none

abbrev pub is_loaded : Option HassEntry → Bool
is_loaded none = false
is_loaded (some entry) = entry.is_loaded

unloaded-runtime : (o : Option HassEntry) → is_loaded o ≡ false → runtime_of_loaded o ≡ none
unloaded-runtime none h = refl
unloaded-runtime (some entry) h = rw h refl

abbrev Unexpected : Entity → Type 0
Unexpected entity = is_unexpected entity ≡ true

nothing_there : {A : Type 0} (o : Option A) → not (is_some o) ≡ true → o ≡ none
nothing_there none h = refl
nothing_there (some x) h = cc h

module _ (home : Home) (entry_id : String) where
  no_merges :
      (w : home.World)
      → runtime_from_hass home w entry_id ≡ none
      → repair_orphan_base_suffix_merges home entry_id w ≡ ([], w)
  unfolding repair_orphan_base_suffix_merges resolve_current_uids
  no_merges w h = rw h refl

  shadow :
      (seen : home.World) (entity : Entity)
      → Among entity ((home.registries seen).entries entry_id)
      → Unexpected entity
      → IsShadow home entry_id seen entity
  shadow seen entity m u = record {
    listed = m;
    prefixed = ground (arith, u);
    nameless = nothing_there (uid_of entity) (ground (arith, u));
  }

  all-IsShadow :
      (seen : home.World) (entities : List Entity)
      → ((e : Entity) → Among e entities → Among e ((home.registries seen).entries entry_id))
      → Everywhere (IsShadow home entry_id seen) (unexpected_entries entities)
  unfolding unexpected_entries
  all-IsShadow seen [] among = tt
  all-IsShadow seen (entity ∷ entities) among =
      let rest = all-IsShadow seen entities (λ e m. among e (inr m)) in
      elim (Bool-cases (is_unexpected entity)) [
        | inl u ↦ rw u (shadow seen entity (among entity (inl refl)) u, rest)
        | inr u ↦ rw u rest
      ]

module _ (home : Home) (attach : String → Option Connections → home.World → home.World)
    (add_parent_device : String → String → home.World → home.World)
    (forward : String → home.World → Outcome (Unit {0}) × home.World) (entry : ConfigEntry)
    (P : home.World → Type 0)
    (late : (w : home.World) → P w → is_loaded (home.entry w entry.entry_id) ≡ false)
    (attaches : (found : Option Connections) (w : home.World)
      → P w
      → P (attach entry.entry_id found w))
    (parents : (url : String) (w : home.World) → P w → P (add_parent_device entry.entry_id url w))
    (forwards : (w : home.World) → P w → P (forward entry.entry_id w).1)
    (renames : (from to : String) (w : home.World) → P w → P (home.rename from to w).1)
    (devices : (id : String) (w : home.World) → P w → P (home.remove_device id w))
    (shadows : (seen w : home.World) (entity : Entity)
      → IsShadow home entry.entry_id seen entity
      → P w
      → P (home.remove entity.entity_id w).1) where
  not_there : (w : home.World) → P w → runtime_from_hass home w entry.entry_id ≡ none
  not_there w h = unloaded-runtime (home.entry w entry.entry_id) (late w h)

  then_all-Keeps :
      (f : home.World → Outcome (Unit {0}) × home.World) (r : Outcome (Unit {0}) × home.World)
      → ((v : home.World) → P v → P (f v).1)
      → P r.1
      → P (continue (λ u. f) r).1
  then_all-Keeps f (ok u, v) rest h = rest v h
  then_all-Keeps f (raised e, v) rest h = h

  remove_all-Keeps :
      (seen : home.World) (entities : List Entity) (w : home.World)
      → Everywhere (IsShadow home entry.entry_id seen) entities
      → P w
      → P (remove_all home entities w).1
  unfolding remove_all
  remove_all-Keeps seen [] w s h = h
  remove_all-Keeps seen (entity ∷ entities) w (s, k) h =
      then_all-Keeps (remove_all home entities) (home.remove entity.entity_id w)
        (λ v. remove_all-Keeps seen entities v k) (shadows seen w entity s h)

  found-Keeps :
      (o : Option Device) (done : List String × home.World)
      → P done.1
      → P (remove_found home o done).1
  found-Keeps none done h = h
  found-Keeps (some device) (ids, w) h = devices device.id w h

  connection_devices-Keeps :
      (uids : List String) (done : List String × home.World)
      → P done.1
      → P (remove_connection_devices home entry.entry_id uids done).1
  unfolding remove_connection_devices
  connection_devices-Keeps [] done h = h
  connection_devices-Keeps (uid ∷ uids) done h =
      let o = (home.registries done.1).device_with (identifier entry.entry_id uid) in
      connection_devices-Keeps uids (remove_found home o done) (found-Keeps o done h)

  unused-Keeps :
      (o : Option Device) (entities : List Entity) (w : home.World)
      → P w
      → P (remove_unused home o entities w)
  unused-Keeps none entities w h = h
  unused-Keeps (some device) [] w h = devices device.id w h
  unused-Keeps (some device) (entity ∷ entities) w h = h

  unused_devices-Keeps :
      (ids : List String) (w : home.World) → P w → P (remove_unused_devices home ids w)
  unfolding remove_unused_devices
  unused_devices-Keeps [] w h = h
  unused_devices-Keeps (id ∷ ids) w h =
      let o = (home.registries w).device id in
      let entities = home.device_entities w id in
      unused_devices-Keeps ids (remove_unused home o entities w) (unused-Keeps o entities w h)

  -- Without runtime data there is nothing to forget.
  forget_uids-Keeps :
      (uids : List String) (w : home.World) → P w → P (forget_uids home entry.entry_id uids w)
  unfolding forget_uids
  forget_uids-Keeps [] w h = h
  forget_uids-Keeps (uid ∷ uids) w h =
      subst (λ o. P (forget_in home entry.entry_id (uid ∷ uids) o w)) (sym (not_there w h)) h

  after_removal-Keeps :
      (entities : List Entity) (r : Outcome (Unit {0}) × home.World)
      → P r.1
      → P (after_removal home entry.entry_id entities r).1
  after_removal-Keeps entities (raised e, w) h = h
  after_removal-Keeps entities (ok u, w) h =
      let uids = uids_from_entity_entries entities [] in
      let ids = device_ids_of entities [] in
      let (left, w') = remove_connection_devices home entry.entry_id uids (ids, w) in
      forget_uids-Keeps uids (remove_unused_devices home left w')
        (unused_devices-Keeps left w' (connection_devices-Keeps uids (ids, w) h))

  remove_orphaned-Keeps :
      (seen : home.World) (entities : List Entity) (w : home.World)
      → Everywhere (IsShadow home entry.entry_id seen) entities
      → P w
      → P (remove_orphaned_entities home entry.entry_id entities true w).1
  unfolding remove_orphaned_entities
  remove_orphaned-Keeps seen [] w s h = h
  remove_orphaned-Keeps seen (entity ∷ entities) w s h =
      after_removal-Keeps (entity ∷ entities) (remove_all home (entity ∷ entities) w)
        (remove_all-Keeps seen (entity ∷ entities) w s h)

  counted-Keeps : (n : ℕ) (r : Outcome (Unit {0}) × home.World) → P r.1 → P (counted home n r).1
  counted-Keeps n (ok u, w) h = h
  counted-Keeps n (raised e, w) h = h

  remove_shadows-Keeps :
      (found : Option Connections) (w : home.World)
      → P w
      → P (remove_shadows home attach add_parent_device forward entry.entry_id found w)
  unfolding remove_unexpected_entity_entries
  remove_shadows-Keeps none w h = h
  remove_shadows-Keeps (some []) w h = h
  remove_shadows-Keeps (some (c ∷ cs)) w h =
      let entities = unexpected_entries ((home.registries w).entries entry.entry_id) in
      counted-Keeps _ (remove_orphaned_entities home entry.entry_id entities true w) (
        remove_orphaned-Keeps w entities w
          (all-IsShadow home entry.entry_id w ((home.registries w).entries entry.entry_id)
            (λ e m. m))
          h)

  suffixes_left :
      (done : List String × home.World) (n : ℕ) → P done.1 → P (count_both home n done).1
  suffixes_left (messages, w) n h = h

  before_setup-Keeps :
      (w : home.World) → P w → P (repair_entity_ids_before_platform_setup home entry.entry_id w).1
  unfolding repair_entity_ids_before_platform_setup
  before_setup-Keeps w h =
      subst (λ r. P (then_suffixes home entry.entry_id r).1)
        (sym (no_merges home entry.entry_id w (not_there w h)))
        (suffixes_left (repair_entity_id_suffixes home entry.entry_id false w) 0
          (suffixes-Keeps home P renames entry.entry_id w h))

  cleaned-Keeps :
      (device : Device) (entities : List Entity) (done : ℕ × home.World)
      → P done.1
      → P (cleaned home device entities done).1
  cleaned-Keeps device [] (n, w) h = devices device.id w h
  cleaned-Keeps device (entity ∷ entities) done h = h

  clean_devices-Keeps :
      (found : List Device) (done : ℕ × home.World)
      → P done.1
      → P (clean_devices home entry.entry_id found done).1
  unfolding clean_devices
  clean_devices-Keeps [] done h = h
  clean_devices-Keeps (device ∷ found) done h =
      clean_devices-Keeps found (clean_one home entry.entry_id device done)
        (elim (Bool-cases (any_connection_identifier home entry.entry_id device.identifiers)) [
          | inl e ↦ rw e (cleaned-Keeps device (home.device_entities done.1 device.id) done h)
          | inr e ↦ rw e h
        ])

  on_forwarded-Keeps :
      (r : Outcome (Unit {0}) × home.World)
      → P r.1
      → P (on_forwarded home attach add_parent_device forward entry.entry_id r).1
  unfolding cleanup_empty_connection_devices
  on_forwarded-Keeps (raised e, w) h = h
  on_forwarded-Keeps (ok u, w) h = clean_devices-Keeps (home.devices w entry.entry_id) (0, w) h

  -- A set-up during which the state of the entry is not loaded removes shadow entities at most, and so
  -- merges no orphaned entity away, however its refresh and its changes end: what holds only while the
  -- state is not loaded, and survives the new runtime data, the parent device, the set-up of the
  -- platforms, every change of an entity id, the removal of a device and the removal of a shadow
  -- entity, holds after the set-up if it held before.
  pub async_setup_entry-Keeps :
      (refresh : Outcome (Option Connections)) (w : home.World)
      → P w
      → P (async_setup_entry home attach add_parent_device forward entry refresh w).1
  unfolding async_setup_entry
  async_setup_entry-Keeps (raised err) w h = h
  async_setup_entry-Keeps (ok found) w h = on_forwarded-Keeps _ (
      forwards _ (
        before_setup-Keeps _ (
          parents _ _
            (remove_shadows-Keeps found (attach entry.entry_id found w) (attaches found w h)))))
