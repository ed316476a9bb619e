-- ===== src/Registry/Remap/Renamed.antt =====
-- custom_components/fritzbox_vpn/entity_registry.py: the entities and the device that are planned for a
-- connection that moves.
use mathlib.Core.Option.{some-injective}
use mathlib.Core.List.{append_assoc, append-nil}
use fritzbox_vpn.Base.{
  ◌≡◌, refl, sym, ap, ◌∙◌, inl, inr, Bool, true, false, not, ◌&&◌, ◌||◌, Option, none, some, get_or,
  List, [], ◌∷◌, ◌++◌, String, Dict, ◌==◌, eq_iff, eq_refl, lookup, keys, elem, lookup-put,
  elem-keys, distinct, Bool-cases, if◌then◌else◌, arith,
}
use fritzbox_vpn.UidIdentity.{entity_unique_id}
use fritzbox_vpn.Registry.State.{
  Entity, Device, Registries, Change, update_unique_id, or_empty, is_text,
}
use fritzbox_vpn.Registry.Ids.{
  unique_id_suffix_from_entity_unique_id, connection_uid_from_entity_unique_id,
}
use fritzbox_vpn.Registry.Remap.{
  Plan, move_to, new_uid_of, move_of, plan_move, plan_entities, is_other, plan_device, plan_devices,
  entity_changes,
}
use fritzbox_vpn.Registry.Remap.Planned.{
  is_blocked, any_blocked, is_device_free, device_of, of_pair,
}

-- The entity gets a unique id of the new uid if it is one of the old uid.
abbrev pub rename_of : String → String → Entity → Option String → Option String → List Change
rename_of old new entry (some uid) (some suffix) =
    if uid == old then update_unique_id entry.entity_id (entity_unique_id new suffix) ∷ [] else []
rename_of old new entry _ _ = []

-- One change for each entity of the old uid, in the order of the registry.
unfoldable pub renames : String → String → List Entity → List Change
renames old new [] = []
renames old new (entry ∷ entries) =
    let unique_id = or_empty entry.unique_id in
    rename_of old new entry (connection_uid_from_entity_unique_id unique_id)
      (unique_id_suffix_from_entity_unique_id unique_id)
    ++ renames old new entries

or_false_both : (a b : Bool) → (a || b) ≡ false → (a ≡ false) × (b ≡ false)
or_false_both a b h = (ground arith, ground arith)

changes-append :
    (xs ys : List (Entity × String))
    → entity_changes (xs ++ ys) ≡ entity_changes xs ++ entity_changes ys
unfolding entity_changes
changes-append [] ys = refl
changes-append ((entry, id) ∷ xs) ys =
    ap (λ l. update_unique_id entry.entity_id id ∷ l) (changes-append xs ys)

module _ (regs : Registries) where
  abbrev pub free_of : String → Entity → Option (String × String) → List (Entity × String)
  free_of old entry none = []
  free_of old entry (some (uid, id)) =
      if uid == old && not (is_text (regs.entity_id_of entry.domain id))
      then (entry, id) ∷ []
      else []

  unfoldable pub free_moves : Dict String → String → List Entity → List (Entity × String)
  free_moves m old [] = []
  free_moves m old (entry ∷ entries) =
      free_of old entry (move_of m entry) ++ free_moves m old entries

  abbrev pub planned : Dict (List (Entity × String)) → String → List (Entity × String)
  planned d old = get_or (lookup old d) []

  plan_move-list :
      (old : String) (entry : Entity) (o : Option (String × String)) (plan : Plan)
      → planned (plan_move regs entry o plan).planned_entities old
        ≡ planned plan.planned_entities old ++ free_of old entry o
  plan_move-list old entry none plan = sym (append-nil (planned plan.planned_entities old))
  plan_move-list old entry (some (uid, id)) plan =
      elim (Bool-cases (is_text (regs.entity_id_of entry.domain id))) [
        | inl e ↦ elim (Bool-cases (uid == old)) [
          | inl f ↦ rw (e, f) (sym (append-nil (planned plan.planned_entities old)))
          | inr f ↦ rw (e, f) (sym (append-nil (planned plan.planned_entities old)))
        ]
        | inr e ↦ elim (Bool-cases (uid == old)) [
          | inl f ↦ let same : uid ≡ old = (eq_iff uid old).0 f in rw (e, lookup-put, f, same) refl
          | inr f ↦ rw (e, lookup-put, f) (sym (append-nil (planned plan.planned_entities old)))
        ]
      ]

  pub plan_entities-list :
      (m : Dict String) (old : String) (entries : List Entity) (plan : Plan)
      → planned (plan_entities regs m entries plan).planned_entities old
        ≡ planned plan.planned_entities old ++ free_moves m old entries
  unfolding plan_entities free_moves
  plan_entities-list m old [] plan = sym (append-nil (planned plan.planned_entities old))
  plan_entities-list m old (entry ∷ entries) plan =
      plan_entities-list m old entries (plan_move regs entry (move_of m entry) plan)
      ∙ ap (λ l. l ++ free_moves m old entries) (plan_move-list old entry (move_of m entry) plan)
      ∙ append_assoc (planned plan.planned_entities old) (free_of old entry (move_of m entry))
          (free_moves m old entries)

  of_uid :
      (old new uid suffix : String) (entry : Entity) (o : Option String)
      → o ≡ some new
      → (uid == old) ≡ true
      → is_blocked regs old entry (move_to (some uid) (some suffix) o) ≡ false
      → entity_changes (free_of old entry (move_to (some uid) (some suffix) o))
        ≡ rename_of old new entry (some uid) (some suffix)
  unfolding entity_changes
  of_uid old new uid suffix entry none k e b = cc k
  of_uid old new uid suffix entry (some n) k e b =
      let free : is_text (regs.entity_id_of entry.domain (entity_unique_id n suffix)) ≡ false =
        ground (arith, e, b) in
      let same : n ≡ new = some-injective n new k in rw (e, free, sym same) refl

  of_another :
      (old uid suffix : String) (entry : Entity) (o : Option String)
      → (uid == old) ≡ false
      → entity_changes (free_of old entry (move_to (some uid) (some suffix) o)) ≡ []
  unfolding entity_changes
  of_another old uid suffix entry none e = refl
  of_another old uid suffix entry (some n) e = rw e refl

  -- Of an entity whose new unique id is not taken, the change is planned.
  one_rename :
      (m : Dict String) (old new : String) (entry : Entity) (uid suffix : Option String)
      → lookup old m ≡ some new
      → is_blocked regs old entry (move_to uid suffix (new_uid_of m uid)) ≡ false
      → entity_changes (free_of old entry (move_to uid suffix (new_uid_of m uid)))
        ≡ rename_of old new entry uid suffix
  unfolding entity_changes
  one_rename m old new entry none suffix h b = refl
  one_rename m old new entry (some uid) none h b = refl
  one_rename m old new entry (some uid) (some suffix) h b = elim (Bool-cases (uid == old)) [
    | inl e ↦
        let there : lookup uid m ≡ some new = ap (λ u. lookup u m) ((eq_iff uid old).0 e) ∙ h in
        of_uid old new uid suffix entry (lookup uid m) there e b
    | inr e ↦ rw e (of_another old uid suffix entry (lookup uid m) e)
  ]

  pub free_moves-renames :
      (m : Dict String) (old new : String) (entries : List Entity)
      → lookup old m ≡ some new
      → any_blocked regs m old entries ≡ false
      → entity_changes (free_moves m old entries) ≡ renames old new entries
  unfolding free_moves renames any_blocked move_of entity_changes
  free_moves-renames m old new [] h b = refl
  free_moves-renames m old new (entry ∷ entries) h b =
      let unique_id = or_empty entry.unique_id in
      let uid = connection_uid_from_entity_unique_id unique_id in
      let suffix = unique_id_suffix_from_entity_unique_id unique_id in
      let (first, rest) =
        or_false_both (is_blocked regs old entry (move_to uid suffix (new_uid_of m uid)))
          (any_blocked regs m old entries) b in
      changes-append (free_of old entry (move_to uid suffix (new_uid_of m uid)))
        (free_moves m old entries)
      ∙ ap (λ l. l ++ entity_changes (free_moves m old entries))
          (one_rename m old new entry uid suffix h first)
      ∙ ap (λ l. rename_of old new entry uid suffix ++ l)
          (free_moves-renames m old new entries h rest)

  module _ (entry_id : String) where
    plan_device-lookup :
        (old uid : String) (device existing_new : Option Device) (plan : Plan)
        → lookup old (plan_device uid device existing_new plan).planned_devices ≡ (
            if uid == old && is_device_free device existing_new
            then device
            else lookup old plan.planned_devices)
    plan_device-lookup old uid none existing_new plan = elim (Bool-cases (uid == old)) [
      | inl f ↦ rw f refl
      | inr f ↦ rw f refl
    ]
    plan_device-lookup old uid (some device) existing_new plan =
        elim (Bool-cases (is_other existing_new device)) [
          | inl e ↦ elim (Bool-cases (uid == old)) [
            | inl f ↦ rw (e, f) refl
            | inr f ↦ rw (e, f) refl
          ]
          | inr e ↦
              rw (e, lookup-put)
                (elim (Bool-cases (uid == old)) [ inl f ↦ rw f refl | inr f ↦ rw f refl ])
        ]

    -- The first pair of the loop, and what the rest of it sees.
    one_device :
        (m : Dict String) (uid new old : String) (before : Option Device)
        → elem uid (keys m) ≡ false
        → (if of_pair regs entry_id is_device_free (lookup old m) old
            then device_of regs entry_id old
            else (if uid == old
                  && is_device_free (device_of regs entry_id uid) (device_of regs entry_id new)
                then device_of regs entry_id uid
                else before))
          ≡ (if of_pair regs entry_id is_device_free (lookup old ((uid, new) ∷ m)) old
              then device_of regs entry_id old
              else before)
    unfolding lookup
    one_device m uid new old before h = elim (Bool-cases (uid == old)) [
      | inr e ↦ rw e refl
      | inl e ↦
          let same : old ≡ uid = sym ((eq_iff uid old).0 e) in
          let gone : lookup uid m ≡ none = ground (arith, elem-keys uid m) in
          rw (same, eq_refl uid, gone) refl
    ]

    pub plan_devices-lookup :
        (m : Dict String) (old : String) (plan : Plan)
        → distinct (keys m) ≡ true
        → lookup old (plan_devices regs entry_id m plan).planned_devices ≡ (
            if of_pair regs entry_id is_device_free (lookup old m) old
            then device_of regs entry_id old
            else lookup old plan.planned_devices)
    unfolding plan_devices keys distinct
    plan_devices-lookup [] old plan d = unfold lookup in refl
    plan_devices-lookup ((uid, new) ∷ m) old plan d =
        let o = device_of regs entry_id uid in
        let o' = device_of regs entry_id new in
        plan_devices-lookup m old (plan_device uid o o' plan) (ground arith)
        ∙ ap
            (λ l.
              if of_pair regs entry_id is_device_free (lookup old m) old
              then device_of regs entry_id old
              else l)
            (plan_device-lookup old uid o o' plan)
        ∙ one_device m uid new old (lookup old plan.planned_devices) (ground arith)
