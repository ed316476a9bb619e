-- ===== src/Registry/Remap/Moved.antt =====
-- custom_components/fritzbox_vpn/entity_registry.py: the changes that a remap makes.
use mathlib.Core.List.{append_assoc, append-nil}
use fritzbox_vpn.Base.{
  ◌≡◌, refl, sym, subst, ap, ◌∙◌, inl, inr, Bool, true, false, not, ◌&&◌, ◌||◌, Option, none, some,
  get_or, List, [], ◌∷◌, ◌++◌, String, Dict, ◌==◌, eq_iff, eq_refl, lookup, keys, elem, is_empty,
  distinct, Bool-cases, Everywhere, if◌then◌else◌, arith,
}
use fritzbox_vpn.Registry.State.{
  Entity, Device, Registries, Change, update_identifiers, remap_known_uids, identifier,
}
use fritzbox_vpn.Registry.Remap.{
  Plan, plan_entities, discard_identifier, add_identifier, entity_changes, device_changes, can_move,
  move_pair, apply_plan, plan_remap, remap_connection_uids,
}
use fritzbox_vpn.Registry.Remap.Planned.{
  any_blocked, is_device_blocked, is_device_free, of_pair, device_of, devices-entities,
  entities-devices,
}
use fritzbox_vpn.Registry.Remap.Applied.{
  is_movable, can_move-IsMovable, lookup-remap_connection_uids,
}
use fritzbox_vpn.Registry.Remap.Identifiers.{IsExchanged, identifiers-IsExchanged}
use fritzbox_vpn.Registry.Remap.Renamed.{
  renames, free_moves, free_moves-renames, plan_entities-list, plan_devices-lookup,
}

-- Every pair of the rest of the remap is one of the whole.
abbrev ArePairs : Dict String → Dict String → Type 0
ArePairs whole m = Everywhere (λ pair. lookup pair.0 whole ≡ some pair.1) m

not_head : (uid old : String) (b : Bool) → (old == uid || b) ≡ false → (uid == old) ≡ false
not_head uid old b h = elim (Bool-cases (uid == old)) [
  | inl e ↦ cc (eq_refl old, (eq_iff uid old).0 e, head_apart (old == uid) b h)
  | inr e ↦ e
]
  where
    head_apart : (a b : Bool) → (a || b) ≡ false → a ≡ false
    head_apart a b h = ground arith

pairs-put :
    (uid new : String) (whole m : Dict String)
    → elem uid (keys m) ≡ false
    → ArePairs whole m
    → ArePairs ((uid, new) ∷ whole) m
unfolding keys elem lookup
pairs-put uid new whole [] h k = tt
pairs-put uid new whole ((old, n) ∷ m) h (e, k) =
    let apart : (uid == old) ≡ false = not_head uid old (elem uid (keys m)) h in
    (rw apart e, pairs-put uid new whole m (ground (arith, h)) k)

all-ArePairs : (m : Dict String) → distinct (keys m) ≡ true → ArePairs m m
unfolding distinct keys lookup
all-ArePairs [] d = tt
all-ArePairs ((uid, new) ∷ m) d = (
  rw (eq_refl uid) refl,
  pairs-put uid new m m (ground (arith, d)) (all-ArePairs m (ground (arith, d))),
)

unblocked :
    (o o' : Option Device)
    → is_device_blocked o o' ≡ false
    → (if is_device_free o o' then o else none) ≡ o
unblocked none o' h = refl
unblocked (some device) o' h = rw h refl

module _ (regs : Registries) (entry_id : String) where
  -- The change of the device of the old uid: its identifier of the old uid becomes that of the new one.
  abbrev pub IsDeviceMove : String → String → Option Device → List Change → Type 0
  IsDeviceMove old new none changes = changes ≡ []
  IsDeviceMove old new (some device) changes =
      (identifiers : List (List String)) × ((changes
          ≡ update_identifiers device.id identifiers ∷ [])
        × IsExchanged (identifier entry_id old) (identifier entry_id new) device.identifiers
            identifiers)

  -- The changes of the registries, pair by pair: of one that can be moved whole every entity and the
  -- device, of another one none.
  pub data Moves (whole : Dict String) : Dict String → List Change → Type 0 where
    none_left : Moves whole [] []
    moved :
        {m : Dict String} {rest : List Change} (old new : String) (device : List Change)
        → is_movable regs entry_id whole old ≡ true
        → IsDeviceMove old new (regs.device_with (identifier entry_id old)) device
        → Moves whole m rest
        → Moves whole ((old, new) ∷ m) (renames old new (regs.entries entry_id) ++ device ++ rest)
    left :
        {m : Dict String} {rest : List Change} (old new : String)
        → is_movable regs entry_id whole old ≡ false
        → Moves whole m rest
        → Moves whole ((old, new) ∷ m) rest

  device_changes-IsDeviceMove :
      (old new : String) (o : Option Device)
      → IsDeviceMove old new o (device_changes entry_id old new o)
  device_changes-IsDeviceMove old new none = refl
  device_changes-IsDeviceMove old new (some device) = (
    add_identifier (identifier entry_id new)
        (discard_identifier (identifier entry_id old) device.identifiers),
    (
      refl,
      identifiers-IsExchanged (identifier entry_id old) (identifier entry_id new)
          device.identifiers,
    ),
  )

  abbrev start : Plan
  start = record { planned_entities = []; planned_devices = []; conflicted = [] }

  module _ (whole : Dict String) (d : distinct (keys whole) ≡ true) where
    abbrev plan : Plan
    plan = plan_remap regs entry_id whole

    nothing_planned :
        (old : String) (moves : List (Entity × String))
        → get_or (lookup {V = List (Entity × String)} old []) [] ++ moves ≡ moves
    unfolding lookup
    nothing_planned old moves = refl

    planned-renames :
        (old new : String)
        → lookup old whole ≡ some new
        → is_movable regs entry_id whole old ≡ true
        → entity_changes (get_or (lookup old plan.planned_entities) [])
          ≡ renames old new (regs.entries entry_id)
    unfolding plan_remap
    planned-renames old new h b =
        let entities = plan_entities regs whole (regs.entries entry_id) start in
        let clear : any_blocked regs whole old (regs.entries entry_id) ≡ false =
          ground (arith, b) in
        ap (λ p. entity_changes (get_or (lookup old p) []))
          (entities-devices regs entry_id whole entities)
        ∙ ap entity_changes (
            plan_entities-list regs whole old (regs.entries entry_id) start
            ∙ nothing_planned old (free_moves regs whole old (regs.entries entry_id)))
        ∙ free_moves-renames regs whole old new (regs.entries entry_id) h clear

    planned-device_of :
        (old new : String)
        → lookup old whole ≡ some new
        → is_movable regs entry_id whole old ≡ true
        → lookup old plan.planned_devices ≡ regs.device_with (identifier entry_id old)
    unfolding plan_remap
    planned-device_of old new h b =
        let entities = plan_entities regs whole (regs.entries entry_id) start in
        let o = device_of regs entry_id old in
        let clear : of_pair regs entry_id is_device_blocked (lookup old whole) old ≡ false =
          ground (arith, b) in
        plan_devices-lookup regs entry_id whole old entities d
        ∙ rw (devices-entities regs whole (regs.entries entry_id) start, h)
            (unfold lookup in unblocked o (device_of regs entry_id new) (rw h at clear))

    -- What one pair adds to the changes.
    abbrev pair_changes : String → String → List Change
    pair_changes old new =
        entity_changes (get_or (lookup old plan.planned_entities) [])
        ++ device_changes entry_id old new (lookup old plan.planned_devices)

    apply_moved :
        (old new : String) (m : Dict String) (rest : List Change)
        → lookup old whole ≡ some new
        → is_movable regs entry_id whole old ≡ true
        → Moves whole m rest
        → Moves whole ((old, new) ∷ m) (pair_changes old new ++ rest)
    apply_moved old new m rest h b k =
        let o = regs.device_with (identifier entry_id old) in
        let device = device_changes entry_id old new o in
        subst (Moves whole ((old, new) ∷ m))
          (sym (
            ap (λ l. l ++ rest)
              (rw (planned-renames old new h b, planned-device_of old new h b) refl)))
          (moved old new device b (device_changes-IsDeviceMove old new o) k)

    abbrev IsApplied : Dict String → Dict String × List Change → Type 0
    IsApplied m done =
        (changes : List Change) × (Moves whole m changes
          × ((apply_plan entry_id plan m done).1 ≡ done.1 ++ changes))

    move_pair-true :
        (old new : String) (done : Dict String × List Change) (b : Bool)
        → b ≡ true
        → (move_pair entry_id plan old new b done).1 ≡ done.1 ++ pair_changes old new
    unfolding entity_changes
    move_pair-true old new done true h =
        append_assoc done.1 (entity_changes (get_or (lookup old plan.planned_entities) []))
          (device_changes entry_id old new (lookup old plan.planned_devices))
    move_pair-true old new done false h = cc h

    move_pair-false :
        (old new : String) (done : Dict String × List Change) (b : Bool)
        → b ≡ false
        → (move_pair entry_id plan old new b done).1 ≡ done.1
    unfolding entity_changes
    move_pair-false old new done true h = cc h
    move_pair-false old new done false h = refl

    apply_plan-IsApplied :
        (m : Dict String) (done : Dict String × List Change) → ArePairs whole m → IsApplied m done
    unfolding apply_plan
    apply_plan-IsApplied [] done p = ([], (none_left, sym (append-nil done.1)))
    apply_plan-IsApplied ((old, new) ∷ m) done (h, p) =
        let b = can_move plan old in
        let movable : b ≡ is_movable regs entry_id whole old =
          can_move-IsMovable regs entry_id whole old d in
        let (rest, (k, e)) = apply_plan-IsApplied m (move_pair entry_id plan old new b done) p in
        elim (Bool-cases (is_movable regs entry_id whole old)) [
          | inl f ↦ (
            pair_changes old new ++ rest,
            (
              apply_moved old new m rest h f k,
              e
                  ∙ ap (λ l. l ++ rest) (move_pair-true old new done b (movable ∙ f))
                  ∙ append_assoc done.1 (pair_changes old new) rest,
            ),
          )
          | inr f ↦ (
            rest,
            (
              left old new f k,
              e ∙ ap (λ l. l ++ rest) (move_pair-false old new done b (movable ∙ f)),
            ),
          )
        ]

  -- The answer of a remap: what it reports, and what it changes.
  abbrev pub IsRemapped : Bool → Dict String → Dict String × List Change → Type 0
  IsRemapped loaded m (applied, changes) =
      ((old : String)
        → lookup old applied ≡ (if is_movable regs entry_id m old then lookup old m else none))
      × ((moves : List Change) × (Moves m m moves
            × (changes ≡ (
                if loaded && not (is_empty applied)
                then moves ++ remap_known_uids applied ∷ []
                else moves))))

  applied-changes :
      (loaded : Bool) (m : Dict String)
      → distinct (keys m) ≡ true
      → let (applied, changes) = remap_connection_uids regs entry_id loaded m in
        (moves : List Change) × (Moves m m moves
          × (changes ≡ (
              if loaded && not (is_empty applied)
              then moves ++ remap_known_uids applied ∷ []
              else moves)))
  unfolding remap_connection_uids
  applied-changes loaded [] d = ([], (none_left, ground arith))
  applied-changes loaded (x ∷ m) d =
      let (moves, (k, e)) =
        apply_plan-IsApplied (x ∷ m) d (x ∷ m) ([], []) (all-ArePairs (x ∷ m) d) in
      let applied = (apply_plan entry_id (plan_remap regs entry_id (x ∷ m)) (x ∷ m) ([], [])).0 in
      (
        moves,
        (
          k,
          ap
              (λ l.
                if loaded && not (is_empty applied) then l ++ remap_known_uids applied ∷ [] else l)
              e,
        ),
      )

  -- A remap whose old uids are different moves a connection exactly where it can be moved whole: it is
  -- one of the pairs, none of its entities' new unique ids is taken and no other device has the new
  -- identifier, and it has at least one entity or a device. It is then reported with the uid of its
  -- pair; every entity of its uid, and no other, gets the unique id of the new uid with its own suffix, and in the
  -- identifiers of its device the new uid takes the place of the old one. Of the others none is
  -- reported and nothing is changed. The runtime data of a loaded entry follows at last, if a
  -- connection was moved.
  pub remap_connection_uids-IsRemapped :
      (loaded : Bool) (m : Dict String)
      → distinct (keys m) ≡ true
      → IsRemapped loaded m (remap_connection_uids regs entry_id loaded m)
  remap_connection_uids-IsRemapped loaded m d =
      (λ old. lookup-remap_connection_uids regs entry_id loaded m old d, applied-changes loaded m d)
