-- ===== src/Registry/Remap/Applied.antt =====
-- custom_components/fritzbox_vpn/entity_registry.py: which connections a remap moves.
use fritzbox_vpn.Base.{
  ◌≡◌, refl, sym, ◌∙◌, inl, inr, Bool, true, false, not, ◌&&◌, ◌||◌, none, is_some, List, [], ◌∷◌,
  String, Dict, ◌==◌, eq_iff, eq_refl, lookup, put, keys, elem, lookup-put, elem-keys, distinct,
  if◌then◌else◌, Bool-cases, arith,
}
use fritzbox_vpn.Registry.State.{Registries, Change}
use fritzbox_vpn.Registry.Remap.{
  Plan, plan_entities, can_move, move_pair, entity_changes, apply_plan, plan_remap,
  remap_connection_uids,
}
use fritzbox_vpn.Registry.Remap.Planned.{
  any_blocked, any_free, is_device_blocked, is_device_free, of_pair, conflicted-entities,
  planned-entities, devices-entities, conflicted-devices, planned-devices, entities-devices,
}

module _ (regs : Registries) where
  -- `old` may move: nothing of it is in the way, and there is something of it.
  abbrev pub is_movable : String → Dict String → String → Bool
  is_movable entry_id m old =
      let entries = regs.entries entry_id in
      not (
        any_blocked regs m old entries
        || of_pair regs entry_id is_device_blocked (lookup old m) old)
      && (any_free regs m old entries || of_pair regs entry_id is_device_free (lookup old m) old)

  pub can_move-IsMovable :
      (entry_id : String) (m : Dict String) (old : String)
      → distinct (keys m) ≡ true
      → can_move (plan_remap regs entry_id m) old ≡ is_movable entry_id m old
  unfolding can_move plan_remap
  can_move-IsMovable entry_id m old d =
      let start : Plan = record { planned_entities = []; planned_devices = []; conflicted = [] } in
      let plan = plan_entities regs m (regs.entries entry_id) start in
      rw
        (
          conflicted-devices regs entry_id m old plan d,
          planned-devices regs entry_id m old plan d,
          entities-devices regs entry_id m plan,
          conflicted-entities regs m old (regs.entries entry_id) start,
          planned-entities regs m old (regs.entries entry_id) start,
          devices-entities regs m (regs.entries entry_id) start,
        )
        (unfold lookup elem in ground arith)

  absent : (uid : String) (m : Dict String) → elem uid (keys m) ≡ false → lookup uid m ≡ none
  absent uid m h = ground (arith, elem-keys uid m)

  -- The first pair of the loop, and what the rest of it sees.
  one_pair :
      (uid new old : String) (m applied : Dict String) (movable : String → Bool)
      → elem uid (keys m) ≡ false
      → (if movable old && is_some (lookup old m)
          then lookup old m
          else lookup old (if movable uid then put uid new applied else applied))
        ≡ (if movable old && is_some (lookup old ((uid, new) ∷ m))
            then lookup old ((uid, new) ∷ m)
            else lookup old applied)
  unfolding lookup
  one_pair uid new old m applied movable h = elim (Bool-cases (uid == old)) [
    | inl e ↦
        let same : old ≡ uid = sym ((eq_iff uid old).0 e) in
        elim (Bool-cases (movable uid)) [
          | inl f ↦ rw (same, absent uid m h, eq_refl uid, f, lookup-put, eq_refl uid) refl
          | inr f ↦ rw (same, absent uid m h, eq_refl uid, f) refl
        ]
    | inr e ↦ elim (Bool-cases (movable uid)) [
      | inl f ↦ rw (e, f, lookup-put, e) refl
      | inr f ↦ rw (e, f) refl
    ]
  ]

  lookup-move_pair :
      (entry_id : String) (plan : Plan) (uid new : String) (b : Bool)
      (done : Dict String × List Change) (old : String)
      → lookup old (move_pair entry_id plan uid new b done).0
        ≡ lookup old (if b then put uid new done.0 else done.0)
  unfolding entity_changes
  lookup-move_pair entry_id plan uid new true done old = refl
  lookup-move_pair entry_id plan uid new false done old = refl

  lookup-apply_plan :
      (entry_id : String) (plan : Plan) (m : Dict String) (old : String)
      (done : Dict String × List Change)
      → distinct (keys m) ≡ true
      → lookup old (apply_plan entry_id plan m done).0
        ≡ (if can_move plan old && is_some (lookup old m) then lookup old m else lookup old done.0)
  unfolding apply_plan keys distinct
  lookup-apply_plan entry_id plan [] old done d = unfold lookup in ground arith
  lookup-apply_plan entry_id plan ((uid, new) ∷ m) old done d =
      lookup-apply_plan entry_id plan m old
        (move_pair entry_id plan uid new (can_move plan uid) done) (ground arith)
      ∙ rw (lookup-move_pair entry_id plan uid new (can_move plan uid) done old)
          (one_pair uid new old m done.0 (can_move plan) (ground arith))

  -- Of different old uids, what is reported of each.
  pub lookup-remap_connection_uids :
      (entry_id : String) (loaded : Bool) (m : Dict String) (old : String)
      → distinct (keys m) ≡ true
      → lookup old (remap_connection_uids regs entry_id loaded m).0
        ≡ (if is_movable entry_id m old then lookup old m else none)
  unfolding remap_connection_uids
  lookup-remap_connection_uids entry_id loaded [] old d = unfold lookup in ground arith
  lookup-remap_connection_uids entry_id loaded (x ∷ m) old d =
      lookup-apply_plan entry_id (plan_remap regs entry_id (x ∷ m)) (x ∷ m) old ([], []) d
      ∙ rw (can_move-IsMovable entry_id (x ∷ m) old d) (unfold lookup in ground arith)
