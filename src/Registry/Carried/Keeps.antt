-- ===== src/Registry/Carried/Keeps.antt =====
-- custom_components/fritzbox_vpn/entity_registry.py: what the repairs leave as it is.
use fritzbox_vpn.Base.{
  Bool, true, false, Option, none, some, List, [], ◌∷◌, String, ◌≡◌, refl, Everywhere, Among,
  Everywhere-of-Among, if◌then◌else◌, arith,
}
use fritzbox_vpn.Outcome.{Outcome, ok, raised, continue}
use fritzbox_vpn.Registry.State.{Entity, Device, identifier}
use fritzbox_vpn.Registry.Repairs.{
  Repair, uid_of, is_missing, get_legacy_entity_object_id_repairs, get_entity_id_suffix_repairs,
}
use fritzbox_vpn.Registry.Repairs.Safe.{IsSafe, get_entity_id_suffix_repairs-IsSafe}
use fritzbox_vpn.Registry.Merges.{Merge, is_of_entry, are_eligible, get_orphan_base_suffix_merges}
use fritzbox_vpn.Registry.Merges.Eligible.{IsEligible, get_orphan_base_suffix_merges-AreEligible}
use fritzbox_vpn.Registry.Home.{Home, Current, current, unknown, resolve_current_uids}
use fritzbox_vpn.Registry.Carried.{
  carried, rename_all, repair_legacy_entity_object_ids, replace_all, repair_entity_id_suffixes,
  merge, merge_all, remove_if_empty, remove_empty, remove_empty_devices, merges_for, carry_merges,
  orphan_uids, repair_orphan_base_suffix_merges, repair_entity_ids,
}

-- An entity that the registry lists for the config entry, and whose connection is not among those
-- that the box lists.
pub record IsOrphan (home : Home) (entry_id : String) (seen : home.World) (entry : Entity)
    : Type 0 where
  pub listed : Among entry ((home.registries seen).entries entry_id)
  pub uids : List String
  pub known : resolve_current_uids home entry_id seen ≡ current uids
  pub own : is_of_entry entry.config_entry_id entry_id ≡ true
  pub missing : is_missing (uid_of entry) uids ≡ true

eligible-missing :
    (base live : Option String) (uids : List String)
    → are_eligible base live uids ≡ true
    → is_missing base uids ≡ true
eligible-missing none live uids h = cc
eligible-missing (some b) none uids h = cc
eligible-missing (some b) (some l) uids h = ground arith

module _ (home : Home) (P : home.World → Type 0)
    (renames : (from to : String) (w : home.World) → P w → P (home.rename from to w).1) where
  carried-Keeps :
      (message : String) (r : Outcome (Unit {0}) × home.World)
      → P r.1
      → P (carried home message r).1
  carried-Keeps message (ok u, w) h = h
  carried-Keeps message (raised e, w) h = h

  rename_all-Keeps :
      (repairs : List (Entity × String)) (w : home.World) → P w → P (rename_all home repairs w).1
  unfolding rename_all
  rename_all-Keeps [] w h = h
  rename_all-Keeps ((entry, target) ∷ repairs) w h =
      rename_all-Keeps repairs _ (
        carried-Keeps _ (home.rename entry.entity_id target w) (renames entry.entity_id target w h))

  pub legacy-Keeps :
      (entry_id : String) (w : home.World)
      → P w
      → P (repair_legacy_entity_object_ids home entry_id w).1
  unfolding repair_legacy_entity_object_ids
  legacy-Keeps entry_id w h =
      rename_all-Keeps (get_legacy_entity_object_id_repairs (home.registries w) entry_id) w h

  abbrev OnlyRenames : Repair → Type 0
  OnlyRenames r = r.2 ≡ false

  safe-OnlyRenames : (r : Repair) (b : Bool) → (if r.2 then false else b) ≡ true → OnlyRenames r
  safe-OnlyRenames (entry, base, true) b h = cc
  safe-OnlyRenames (entry, base, false) b h = refl

  replace_all-Keeps :
      (repairs : List Repair) (w : home.World)
      → Everywhere OnlyRenames repairs
      → P w
      → P (replace_all home repairs w).1
  unfolding replace_all
  replace_all-Keeps [] w s h = h
  replace_all-Keeps ((entry, base, true) ∷ repairs) w (s, k) h = cc s
  replace_all-Keeps ((entry, base, false) ∷ repairs) w (s, k) h =
      replace_all-Keeps repairs _ k
        (carried-Keeps _ (home.rename entry.entity_id base w) (renames entry.entity_id base w h))

  all-OnlyRenames :
      (w : home.World) (repairs : List Repair)
      → Everywhere (IsSafe (home.registries w) false) repairs
      → Everywhere OnlyRenames repairs
  all-OnlyRenames w [] h = tt
  all-OnlyRenames w (r ∷ repairs) (s, h) =
      (safe-OnlyRenames r _ s.free_or_allowed, all-OnlyRenames w repairs h)

  pub suffixes-Keeps :
      (entry_id : String) (w : home.World)
      → P w
      → P (repair_entity_id_suffixes home entry_id false w).1
  unfolding repair_entity_id_suffixes
  suffixes-Keeps entry_id w h =
      replace_all-Keeps (get_entity_id_suffix_repairs (home.registries w) entry_id false) w
        (all-OnlyRenames w (get_entity_id_suffix_repairs (home.registries w) entry_id false)
          (get_entity_id_suffix_repairs-IsSafe (home.registries w) entry_id false))
        h

  module _ (entry_id : String)
      (orphans : (seen w : home.World) (entry : Entity)
        → IsOrphan home entry_id seen entry
        → P w
        → P (home.remove entry.entity_id w).1)
      (empties : (w : home.World) (device : Device)
        → home.device_entities w device.id ≡ []
        → P w
        → P (home.remove_device device.id w)) where
    abbrev Listed : home.World → Entity → Type 0
    Listed seen entry = Among entry ((home.registries seen).entries entry_id)

    all-Listed : (w : home.World) → Everywhere (Listed w) ((home.registries w).entries entry_id)
    all-Listed w = Everywhere-of-Among (Listed w) ((home.registries w).entries entry_id) (λ e m. m)

    then_rename-Keeps :
        (from to : String) (r : Outcome (Unit {0}) × home.World)
        → P r.1
        → P (continue (λ u. home.rename from to) r).1
    then_rename-Keeps from to (ok u, w) h = renames from to w h
    then_rename-Keeps from to (raised e, w) h = h

    merge_all-Keeps :
        (seen : home.World) (uids : List String) (merges : List Merge) (w : home.World)
        → resolve_current_uids home entry_id seen ≡ current uids
        → Everywhere (IsEligible (Listed seen) entry_id uids) merges
        → P w
        → P (merge_all home merges w).1
    unfolding merge_all
    merge_all-Keeps seen uids [] w c e h = h
    merge_all-Keeps seen uids ((base_entry, entry, base) ∷ merges) w c (e, k) h =
        merge_all-Keeps seen uids merges _ c k (
          carried-Keeps _ (merge home (base_entry, entry, base) w) (
            then_rename-Keeps entry.entity_id base (home.remove base_entry.entity_id w) (
              orphans seen w base_entry
                (record {
                  listed = e.base_has;
                  uids = uids;
                  known = c;
                  own = e.is_own;
                  missing = eligible-missing _ _ uids e.eligible;
                })
                h)))

    empty-Keeps :
        (device : Device) (entries : List Entity) (w : home.World)
        → home.device_entities w device.id ≡ entries
        → P w
        → P (remove_if_empty home device entries w)
    empty-Keeps device [] w e h = empties w device e h
    empty-Keeps device (entry ∷ entries) w e h = h

    remove_empty-Keeps : (o : Option Device) (w : home.World) → P w → P (remove_empty home o w)
    remove_empty-Keeps none w h = h
    remove_empty-Keeps (some device) w h =
        empty-Keeps device (home.device_entities w device.id) w refl h

    remove_empty_devices-Keeps :
        (uids : List String) (w : home.World) → P w → P (remove_empty_devices home entry_id uids w)
    unfolding remove_empty_devices
    remove_empty_devices-Keeps [] w h = h
    remove_empty_devices-Keeps (uid ∷ uids) w h =
        remove_empty_devices-Keeps uids _
          (remove_empty-Keeps ((home.registries w).device_with (identifier entry_id uid)) w h)

    carry_merges-Keeps :
        (c : Current) (w : home.World)
        → resolve_current_uids home entry_id w ≡ c
        → P w
        → P (carry_merges home entry_id (merges_for home c entry_id w) w).1
    carry_merges-Keeps (unknown key) w e h =
        remove_empty_devices-Keeps (orphan_uids [] []) _ (unfold merge_all in h)
    carry_merges-Keeps (current uids) w e h =
        let merges = get_orphan_base_suffix_merges (home.registries w) entry_id uids in
        remove_empty_devices-Keeps (orphan_uids merges []) _ (
          merge_all-Keeps w uids merges w e
            (get_orphan_base_suffix_merges-AreEligible (Listed w) entry_id uids (home.registries w)
              (all-Listed w))
            h)

    pub merges-Keeps :
        (w : home.World) → P w → P (repair_orphan_base_suffix_merges home entry_id w).1
    unfolding repair_orphan_base_suffix_merges
    merges-Keeps w h = carry_merges-Keeps (resolve_current_uids home entry_id w) w refl h

    -- What survives every change of an entity id, the removal of an entity that the registry lists
    -- for the entry and whose connection the box does not list, and the removal of a device without entities, survives the
    -- repair of entity ids as a whole, however its changes succeed or fail.
    pub repair_entity_ids-Keeps : (w : home.World) → P w → P (repair_entity_ids home entry_id w).1
    unfolding repair_entity_ids
    repair_entity_ids-Keeps w h =
        suffixes-Keeps entry_id _ (merges-Keeps _ (legacy-Keeps entry_id w h))
