-- ===== src/Registry/Remap/Planned.antt =====
-- custom_components/fritzbox_vpn/entity_registry.py: what the plan of a remap holds.
use fritzbox_vpn.Base.{
  ◌≡◌, refl, sym, ap, ◌∙◌, inl, inr, Bool, true, false, not, ◌&&◌, ◌||◌, Option, none, some,
  is_some, get_or, List, [], ◌∷◌, ◌++◌, String, Dict, ◌==◌, eq_iff, eq_refl, lookup, keys, elem,
  is_empty, lookup-put, elem-add, elem-keys, distinct, Bool-cases, arith,
}
use fritzbox_vpn.Registry.State.{Entity, Device, Registries, identifier, is_text}
use fritzbox_vpn.Registry.Remap.{
  Plan, move_of, plan_move, plan_entities, is_other, plan_device, plan_devices,
}

-- The entity is of `old`, and its new unique id is taken, or free.
abbrev pub is_blocked : Registries → String → Entity → Option (String × String) → Bool
is_blocked regs old entry none = false
is_blocked regs old entry (some (uid, new_unique_id)) =
    uid == old && is_text (regs.entity_id_of entry.domain new_unique_id)

abbrev pub is_free : Registries → String → Entity → Option (String × String) → Bool
is_free regs old entry none = false
is_free regs old entry (some (uid, new_unique_id)) =
    uid == old && not (is_text (regs.entity_id_of entry.domain new_unique_id))

unfoldable pub any_blocked : Registries → Dict String → String → List Entity → Bool
any_blocked regs m old [] = false
any_blocked regs m old (entry ∷ entries) =
    is_blocked regs old entry (move_of m entry) || any_blocked regs m old entries

unfoldable pub any_free : Registries → Dict String → String → List Entity → Bool
any_free regs m old [] = false
any_free regs m old (entry ∷ entries) =
    is_free regs old entry (move_of m entry) || any_free regs m old entries

-- The device of `old` is there, and the one of its new uid is another one, or not.
abbrev pub is_device_blocked : Option Device → Option Device → Bool
is_device_blocked none existing_new = false
is_device_blocked (some device) existing_new = is_other existing_new device

abbrev pub is_device_free : Option Device → Option Device → Bool
is_device_free none existing_new = false
is_device_free (some device) existing_new = not (is_other existing_new device)

module _ (regs : Registries) where
  conflicted-move :
      (old : String) (entry : Entity) (o : Option (String × String)) (plan : Plan)
      → elem old (plan_move regs entry o plan).conflicted
        ≡ (elem old plan.conflicted || is_blocked regs old entry o)
  conflicted-move old entry none plan = ground arith
  conflicted-move old entry (some (uid, new_unique_id)) plan =
      elim (Bool-cases (is_text (regs.entity_id_of entry.domain new_unique_id))) [
        | inl e ↦ rw (e, elem-add old uid plan.conflicted) (ground arith)
        | inr e ↦ rw e (ground arith)
      ]

  append-full {ℓ} : {A : Type ℓ} (xs : List A) (x : A) → is_empty (xs ++ x ∷ []) ≡ false
  append-full [] x = refl
  append-full (y ∷ xs) x = refl

  planned-move :
      (old : String) (entry : Entity) (o : Option (String × String)) (plan : Plan)
      → is_empty (get_or (lookup old (plan_move regs entry o plan).planned_entities) []) ≡ (
          is_empty (get_or (lookup old plan.planned_entities) []) && not (is_free regs old entry o))
  planned-move old entry none plan = ground arith
  planned-move old entry (some (uid, new_unique_id)) plan =
      elim (Bool-cases (is_text (regs.entity_id_of entry.domain new_unique_id))) [
        | inl e ↦ rw e (ground arith)
        | inr e ↦ rw e (elim (Bool-cases (uid == old)) [
          | inl f ↦ rw (lookup-put, f, append-full) (ground arith)
          | inr f ↦ rw (lookup-put, f) (ground arith)
        ])
      ]

  devices-move :
      (entry : Entity) (o : Option (String × String)) (plan : Plan)
      → (plan_move regs entry o plan).planned_devices ≡ plan.planned_devices
  devices-move entry none plan = refl
  devices-move entry (some (uid, new_unique_id)) plan = ground arith

  or_assoc : (a b c : Bool) → ((a || b) || c) ≡ (a || (b || c))
  or_assoc a b c = ground arith

  pub conflicted-entities :
      (m : Dict String) (old : String) (entries : List Entity) (plan : Plan)
      → elem old (plan_entities regs m entries plan).conflicted
        ≡ (elem old plan.conflicted || any_blocked regs m old entries)
  unfolding plan_entities any_blocked
  conflicted-entities m old [] plan = ground arith
  conflicted-entities m old (entry ∷ entries) plan =
      conflicted-entities m old entries (plan_move regs entry (move_of m entry) plan)
      ∙ rw (conflicted-move old entry (move_of m entry) plan) (
          or_assoc (elem old plan.conflicted) (is_blocked regs old entry (move_of m entry))
            (any_blocked regs m old entries))

  pub planned-entities :
      (m : Dict String) (old : String) (entries : List Entity) (plan : Plan)
      → is_empty (get_or (lookup old (plan_entities regs m entries plan).planned_entities) []) ≡ (
          is_empty (get_or (lookup old plan.planned_entities) [])
          && not (any_free regs m old entries))
  unfolding plan_entities any_free
  planned-entities m old [] plan = ground arith
  planned-entities m old (entry ∷ entries) plan =
      planned-entities m old entries (plan_move regs entry (move_of m entry) plan)
      ∙ rw (planned-move old entry (move_of m entry) plan) (
          and_not (is_empty (get_or (lookup old plan.planned_entities) []))
            (is_free regs old entry (move_of m entry)) (any_free regs m old entries))
    where
      and_not : (a b c : Bool) → ((a && not b) && not c) ≡ (a && not (b || c))
      and_not a b c = ground arith

  pub devices-entities :
      (m : Dict String) (entries : List Entity) (plan : Plan)
      → (plan_entities regs m entries plan).planned_devices ≡ plan.planned_devices
  unfolding plan_entities
  devices-entities m [] plan = refl
  devices-entities m (entry ∷ entries) plan =
      devices-entities m entries (plan_move regs entry (move_of m entry) plan)
      ∙ devices-move entry (move_of m entry) plan

  module _ (entry_id : String) where
    abbrev pub device_of : String → Option Device
    device_of uid = regs.device_with (identifier entry_id uid)

    -- A test on the devices of the old and the new uid, where the remap has the old one.
    abbrev pub of_pair : (Option Device → Option Device → Bool) → Option String → String → Bool
    of_pair f none old = false
    of_pair f (some new) old = f (device_of old) (device_of new)

    of_pair-cons :
        (f : Option Device → Option Device → Bool) (m : Dict String) (uid new old : String)
        → elem uid (keys m) ≡ false
        → ((uid == old && f (device_of uid) (device_of new)) || of_pair f (lookup old m) old)
          ≡ of_pair f (lookup old ((uid, new) ∷ m)) old
    unfolding lookup
    of_pair-cons f m uid new old h = elim (Bool-cases (uid == old)) [
      | inr e ↦ rw e (ground arith)
      | inl e ↦
          let same : old ≡ uid = sym ((eq_iff uid old).0 e) in
          let gone : lookup uid m ≡ none = ground (arith, elem-keys uid m) in
          rw (same, eq_refl uid, gone) (or_false (f (device_of uid) (device_of new)))
    ]
      where
        or_false : (b : Bool) → (b || false) ≡ b
        or_false b = ground arith

    conflicted-device :
        (old uid : String) (device existing_new : Option Device) (plan : Plan)
        → elem old (plan_device uid device existing_new plan).conflicted
          ≡ (elem old plan.conflicted || (uid == old && is_device_blocked device existing_new))
    conflicted-device old uid none existing_new plan = ground arith
    conflicted-device old uid (some device) existing_new plan =
        elim (Bool-cases (is_other existing_new device)) [
          | inl e ↦ rw (e, elem-add old uid plan.conflicted) (ground arith)
          | inr e ↦ rw e (ground arith)
        ]

    planned-device :
        (old uid : String) (device existing_new : Option Device) (plan : Plan)
        → is_some (lookup old (plan_device uid device existing_new plan).planned_devices) ≡ (
            is_some (lookup old plan.planned_devices)
            || (uid == old && is_device_free device existing_new))
    planned-device old uid none existing_new plan = ground arith
    planned-device old uid (some device) existing_new plan =
        elim (Bool-cases (is_other existing_new device)) [
          | inl e ↦ rw e (ground arith)
          | inr e ↦ rw (e, lookup-put) (ground arith)
        ]

    entities-device :
        (uid : String) (device existing_new : Option Device) (plan : Plan)
        → (plan_device uid device existing_new plan).planned_entities ≡ plan.planned_entities
    entities-device uid none existing_new plan = refl
    entities-device uid (some device) existing_new plan = ground arith

    pub entities-devices :
        (m : Dict String) (plan : Plan)
        → (plan_devices regs entry_id m plan).planned_entities ≡ plan.planned_entities
    unfolding plan_devices
    entities-devices [] plan = refl
    entities-devices ((uid, new) ∷ m) plan =
        entities-devices m (plan_device uid (device_of uid) (device_of new) plan)
        ∙ entities-device uid (device_of uid) (device_of new) plan

    pub conflicted-devices :
        (m : Dict String) (old : String) (plan : Plan)
        → distinct (keys m) ≡ true
        → elem old (plan_devices regs entry_id m plan).conflicted
          ≡ (elem old plan.conflicted || of_pair is_device_blocked (lookup old m) old)
    unfolding plan_devices keys distinct
    conflicted-devices [] old plan d = unfold lookup in ground arith
    conflicted-devices ((uid, new) ∷ m) old plan d =
        conflicted-devices m old (plan_device uid (device_of uid) (device_of new) plan)
          (ground arith)
        ∙ rw (conflicted-device old uid (device_of uid) (device_of new) plan, or_assoc)
            (ap (λ b. elem old plan.conflicted || b)
              (of_pair-cons is_device_blocked m uid new old (ground arith)))

    pub planned-devices :
        (m : Dict String) (old : String) (plan : Plan)
        → distinct (keys m) ≡ true
        → is_some (lookup old (plan_devices regs entry_id m plan).planned_devices)
          ≡ (is_some (lookup old plan.planned_devices) || of_pair is_device_free (lookup old m) old)
    unfolding plan_devices keys distinct
    planned-devices [] old plan d = unfold lookup in ground arith
    planned-devices ((uid, new) ∷ m) old plan d =
        planned-devices m old (plan_device uid (device_of uid) (device_of new) plan) (ground arith)
        ∙ rw (planned-device old uid (device_of uid) (device_of new) plan, or_assoc)
            (ap (λ b. is_some (lookup old plan.planned_devices) || b)
              (of_pair-cons is_device_free m uid new old (ground arith)))
