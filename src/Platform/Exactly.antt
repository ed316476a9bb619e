-- ===== src/Platform/Exactly.antt =====
-- custom_components/fritzbox_vpn/entity.py: which connections have their entities after a run.
use fritzbox_vpn.Base.{
  ℕ, ◌+◌, ◌≤◌, ◌≡◌, refl, ◌∙◌, subst, inl, inr, Bool, true, false, not, ◌&&◌, ◌||◌, is_some, List,
  [], ◌∷◌, String, Option, lookup, keys, elem, is_empty, elem-union, elem-difference,
  elem-intersection, elem-keys, if◌then◌else◌, Bool-cases, arith,
}
use fritzbox_vpn.Value.{Payload}
use fritzbox_vpn.Coordinator.State.{Connections}
use fritzbox_vpn.Platform.{
  vpn_entities_for_connections, Tracking, uids_of, setup_vpn_platform, or_listed, track_added,
  add_new_entities, updates,
}
use fritzbox_vpn.Platform.Once.{
  has_uid, times, IsFactory, elem-uids_of, new_of, has_uid-entities, has_uid-new, has_not_empty,
  not_empty,
}

abbrev pub once_if : Bool → ℕ
once_if b = if b then 1 else 0

-- One of the listings has the connection.
abbrev pub listed_in : String → List Connections → Bool
listed_in x [] = false
listed_in x (connections ∷ rest) = is_some (lookup x connections) || listed_in x rest

module _ {E : Type 0} (create : String → Payload → List E) (uid_of : E → Option String) where
  times-batch :
      (x : String) (batch : List E) (batches : List (List E))
      → times create uid_of x (batch ∷ batches)
        ≡ times create uid_of x batches + once_if (has_uid create uid_of x batch)
  unfolding times
  times-batch x batch batches = elim (Bool-cases (has_uid create uid_of x batch)) [
    | inl e ↦ rw e (omega arith)
    | inr e ↦ rw e (omega arith)
  ]

  counted :
      (there listed : Bool)
      → once_if listed + once_if (there && not listed) ≡ once_if (there || listed)
  counted true true = refl
  counted true false = refl
  counted false true = refl
  counted false false = refl

  -- What a uid's tracking says: the batches that have entities of it are as many as `listed` says.
  pub record Tracks (x : String) (listed : Bool) (t : Tracking create uid_of) : Type 0 where
    pub tracked : elem x t.known_uids ≡ listed
    pub batched : times create uid_of x t.batches ≡ once_if listed

  module _ (factory : IsFactory create uid_of) where
    abbrev entities_for : Connections → Tracking create uid_of → List E
    entities_for connections t =
        vpn_entities_for_connections create uid_of connections
          (new_of create uid_of factory connections t)

    abbrev added_for : Connections → Tracking create uid_of → List String
    added_for connections t =
        or_listed create uid_of (uids_of create uid_of (entities_for connections t))
          (new_of create uid_of factory connections t) connections

    -- The uids that are added are those of the new entities.
    elem-added_for :
        (x : String) (connections : Connections) (t : Tracking create uid_of)
        → elem x (added_for connections t) ≡ has_uid create uid_of x (entities_for connections t)
    elem-added_for x connections t =
        elim (Bool-cases (is_empty (uids_of create uid_of (entities_for connections t)))) [
          | inr e ↦ rw e (elem-uids_of create uid_of x (entities_for connections t))
          | inl e ↦ rw e (
              ground (
                arith,
                elem-intersection x (new_of create uid_of factory connections t) (keys connections),
                elem-difference x (keys connections) t.known_uids,
                elem-keys x connections,
                has_uid-new create uid_of factory x connections t,
              ))
        ]

    -- Where nothing is added, nothing was to be.
    has_uid-none :
        (x : String) (entities : List E) (added : List String)
        → (is_empty entities || is_empty added) ≡ true
        → elem x added ≡ has_uid create uid_of x entities
        → has_uid create uid_of x entities ≡ false
    has_uid-none x entities added e a = ground (
      arith,
      e,
      a,
      not_empty create uid_of factory x added,
      has_not_empty create uid_of factory x entities,
    )

    track-known :
        (x : String) (there : Bool) (entities : List E) (added : List String)
        (t : Tracking create uid_of)
        → elem x added ≡ has_uid create uid_of x entities
        → has_uid create uid_of x entities ≡ (there && not (elem x t.known_uids))
        → elem x (track_added create uid_of entities added t).known_uids
          ≡ (there || elem x t.known_uids)
    track-known x there entities added t a h =
        elim (Bool-cases (is_empty entities || is_empty added)) [
          | inl e ↦ rw e (ground (arith, h, has_uid-none x entities added e a))
          | inr e ↦ rw e (elem-union x t.known_uids added ∙ ground (arith, a, h))
        ]

    track-batched :
        (x : String) (listed there : Bool) (entities : List E) (added : List String)
        (t : Tracking create uid_of)
        → elem x added ≡ has_uid create uid_of x entities
        → has_uid create uid_of x entities ≡ (there && not (elem x t.known_uids))
        → Tracks x listed t
        → times create uid_of x (track_added create uid_of entities added t).batches
          ≡ once_if (there || listed)
    track-batched x listed there entities added t a h v =
        elim (Bool-cases (is_empty entities || is_empty added)) [
          | inl e ↦ rw e (
              let same : listed ≡ (there || listed) =
                ground (arith, has_uid-none x entities added e a, h, v.tracked) in
              subst (λ b. times create uid_of x t.batches ≡ once_if b) same v.batched)
          | inr e ↦ rw e (
              times-batch x entities t.batches
              ∙ rw (v.batched, h, v.tracked) (counted there listed))
        ]

    known_after :
        (x : String) (connections : Connections) (t : Tracking create uid_of)
        → elem x (add_new_entities create uid_of connections t).known_uids
          ≡ (is_some (lookup x connections) || elem x t.known_uids)
    unfolding add_new_entities
    known_after x connections t =
        track-known x (is_some (lookup x connections)) (entities_for connections t)
          (added_for connections t) t (elem-added_for x connections t)
          (has_uid-new create uid_of factory x connections t)

    -- With such a factory, after an update every connection that the coordinator lists is known.
    pub all_known :
        (connections : Connections) (t : Tracking create uid_of) (x : String)
        → is_some (lookup x connections) ≡ true
        → elem x (add_new_entities create uid_of connections t).known_uids ≡ true
    all_known connections t x h = known_after x connections t ∙ rw h refl

    add-Tracks :
        (x : String) (listed : Bool) (connections : Connections) (t : Tracking create uid_of)
        → Tracks x listed t
        → Tracks x
            (is_some (lookup x connections) || listed)
            (add_new_entities create uid_of connections t)
    unfolding add_new_entities
    add-Tracks x listed connections t v =
        let new = has_uid-new create uid_of factory x connections t in
        record {
          tracked = known_after x connections t ∙ rw v.tracked refl;
          batched =
              track-batched x listed (is_some (lookup x connections)) (entities_for connections t)
                (added_for connections t) t (elem-added_for x connections t) new v;
        }

    has_uid-all :
        (x : String) (connections : Connections)
        → has_uid create uid_of x
            (vpn_entities_for_connections create uid_of connections (keys connections))
          ≡ is_some (lookup x connections)
    has_uid-all x connections =
        has_uid-entities create uid_of factory x connections (keys connections)
        ∙ ground (arith, elem-keys x connections)

    setup-Tracks :
        (x : String) (connections : Connections)
        → Tracks x (is_some (lookup x connections)) (
            setup_vpn_platform create uid_of connections (record { known_uids = []; batches = [] }))
    unfolding setup_vpn_platform times elem
    setup-Tracks x connections = record {
      tracked = elem-union x [] (keys connections) ∙ elem-keys x connections;
      batched = rw (has_uid-all x connections) refl;
    }

    updates-Tracks :
        (x : String) (rest : List Connections) (listed : Bool) (t : Tracking create uid_of)
        → Tracks x listed t
        → Tracks x (listed || listed_in x rest) (updates create uid_of rest t)
    unfolding updates
    updates-Tracks x [] listed t v = subst (λ b. Tracks x b t) (ground arith) v
    updates-Tracks x (connections ∷ rest) listed t v =
        let there = is_some (lookup x connections) in
        let swap : ((there || listed) || listed_in x rest)
            ≡ (listed || (there || listed_in x rest)) =
          ground arith in
        subst (λ b. Tracks x b (updates create uid_of (connections ∷ rest) t)) swap
          (updates-Tracks x rest (there || listed) (add_new_entities create uid_of connections t)
            (add-Tracks x listed connections t v))

    -- With a factory that makes the entities of each connection, and one at least, exactly one call of
    -- `async_add_entities` has entities of a connection if one of the listings that a platform met had
    -- it, the one at its set-up or one of the updates that followed, and otherwise none, however often the
    -- connection goes and comes back.
    pub added_exactly_once :
        (connections : Connections) (rest : List Connections) (x : String)
        → times create uid_of x
            (updates create uid_of rest (
              setup_vpn_platform create uid_of connections
                (record { known_uids = []; batches = [] }))).batches
          ≡ once_if (listed_in x (connections ∷ rest))
    added_exactly_once connections rest x =
        (updates-Tracks x rest (is_some (lookup x connections))
          (setup_vpn_platform create uid_of connections (record { known_uids = []; batches = [] }))
          (setup-Tracks x connections)).batched

    -- No connection is given to `async_add_entities` twice.
    pub added_once :
        (connections : Connections) (rest : List Connections) (x : String)
        → times create uid_of x
            (updates create uid_of rest (
              setup_vpn_platform create uid_of connections
                (record { known_uids = []; batches = [] }))).batches
          ≤ 1
    added_once connections rest x = rw (added_exactly_once connections rest x) (ground arith)
