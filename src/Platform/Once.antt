-- ===== src/Platform/Once.antt =====
-- custom_components/fritzbox_vpn/entity.py: the entities of a connection in what a platform adds.
use fritzbox_vpn.Base.{
  ℕ, suc, ◌≡◌, refl, sym, ◌∙◌, inl, inr, Bool, true, false, not, ◌&&◌, ◌||◌, Option, none, some,
  is_some, List, [], ◌∷◌, ◌++◌, String, ◌==◌, eq_iff, lookup, keys, elem, difference, is_empty,
  elem-add, elem-difference, elem-keys, if◌then◌else◌, Bool-cases, arith, Everywhere,
}
use fritzbox_vpn.Value.{Payload}
use fritzbox_vpn.Coordinator.State.{Connections}
use fritzbox_vpn.Platform.{created, vpn_entities_for_connections, Tracking, with_uid, uids_of}

abbrev is_uid : Option String → String → Bool
is_uid none x = false
is_uid (some uid) x = uid == x

module _ {E : Type 0} (create : String → Payload → List E) (uid_of : E → Option String) where
  unfoldable pub has_uid : String → List E → Bool
  has_uid x [] = false
  has_uid x (entity ∷ entities) = is_uid (uid_of entity) x || has_uid x entities

  -- In how many batches there is an entity of `x`.
  unfoldable pub times : String → List (List E) → ℕ
  unfolding has_uid
  times x [] = 0
  times x (batch ∷ batches) =
      let rest = times x batches in if has_uid x batch then suc rest else rest

  -- The entities that are created for a uid are of that uid, and there is one at least.
  pub record IsFactory : Type 0 where
    pub of_uid :
        (uid : String) (payload : Payload)
        → Everywhere (λ entity. uid_of entity ≡ some uid) (create uid payload)
    pub some_entity : (uid : String) (payload : Payload) → is_empty (create uid payload) ≡ false

  elem-with_uid :
      (x : String) (o : Option String) (uids : List String)
      → elem x (with_uid create uid_of o uids) ≡ (is_uid o x || elem x uids)
  elem-with_uid x none uids = refl
  elem-with_uid x (some uid) uids = elem-add x uid uids ∙ ground arith

  pub elem-uids_of :
      (x : String) (entities : List E)
      → elem x (uids_of create uid_of entities) ≡ has_uid x entities
  unfolding uids_of elem has_uid
  elem-uids_of x [] = refl
  elem-uids_of x (entity ∷ entities) =
      elem-with_uid x (uid_of entity) (uids_of create uid_of entities)
      ∙ rw (elem-uids_of x entities) refl

  has_uid-append : (x : String) (a b : List E) → has_uid x (a ++ b) ≡ (has_uid x a || has_uid x b)
  unfolding has_uid
  has_uid-append x [] b = refl
  has_uid-append x (entity ∷ a) b = rw (has_uid-append x a b) (ground arith)

  has_uid-all :
      (x uid : String) (entities : List E)
      → Everywhere (λ entity. uid_of entity ≡ some uid) entities
      → has_uid x entities ≡ (uid == x && not (is_empty entities))
  unfolding has_uid
  has_uid-all x uid [] h = ground arith
  has_uid-all x uid (entity ∷ entities) (p, h) = rw (p, has_uid-all x uid entities h) (ground arith)

  module _ (factory : IsFactory) where
    has_uid-created :
        (x uid : String) (o : Option Payload)
        → has_uid x (created create uid_of uid o) ≡ (uid == x && is_some o)
    unfolding has_uid
    has_uid-created x uid none = ground arith
    has_uid-created x uid (some payload) =
        has_uid-all x uid (create uid payload) (factory.of_uid uid payload)
        ∙ rw (factory.some_entity uid payload) (ground arith)

    pub has_uid-entities :
        (x : String) (connections : Connections) (uids : List String)
        → has_uid x (vpn_entities_for_connections create uid_of connections uids)
          ≡ (elem x uids && is_some (lookup x connections))
    unfolding vpn_entities_for_connections elem has_uid
    has_uid-entities x connections [] = refl
    has_uid-entities x connections (uid ∷ uids) =
        has_uid-append x (created create uid_of uid (lookup uid connections))
          (vpn_entities_for_connections create uid_of connections uids)
        ∙ rw (has_uid-created x uid (lookup uid connections), has_uid-entities x connections uids)
            (elim (Bool-cases (uid == x)) [
              | inl e ↦ rw (e, (eq_iff uid x).0 e) (ground arith)
              | inr e ↦ rw e (ground arith)
            ])

    abbrev pub new_of : Connections → Tracking create uid_of → List String
    new_of connections t = difference (keys connections) t.known_uids

    pub has_uid-new :
        (x : String) (connections : Connections) (t : Tracking create uid_of)
        → has_uid x (vpn_entities_for_connections create uid_of connections (new_of connections t))
          ≡ (is_some (lookup x connections) && not (elem x t.known_uids))
    has_uid-new x connections t =
        has_uid-entities x connections (new_of connections t)
        ∙ rw (elem-difference x (keys connections) t.known_uids, elem-keys x connections)
            (ground arith)

    pub not_empty : (x : String) (s : List String) → elem x s ≡ true → is_empty s ≡ false
    unfolding elem
    not_empty x [] h = sym h
    not_empty x (y ∷ s) h = refl

    pub has_not_empty :
        (x : String) (entities : List E) → has_uid x entities ≡ true → is_empty entities ≡ false
    unfolding has_uid
    has_not_empty x [] h = sym h
    has_not_empty x (entity ∷ entities) h = refl
