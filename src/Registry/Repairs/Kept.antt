-- ===== src/Registry/Repairs/Kept.antt =====
-- custom_components/fritzbox_vpn/entity_registry.py: the clean-up and the entities of this program.
use fritzbox_vpn.Base.{
  ◌≡◌, ◌≢◌, refl, subst, inl, inr, true, false, ◌&&◌, some, is_some, List, [], ◌∷◌, String, ◌==◌,
  eq_iff, elem, ends_with, ends_with-cases, Bool-cases, and-true, arith, Everywhere,
}
use fritzbox_vpn.UidIdentity.{entity_unique_id}
use fritzbox_vpn.Registry.State.{Entity, or_empty}
use fritzbox_vpn.Registry.Ids.{unique_id_suffixes, connection_uid_from_entity_unique_id}
use fritzbox_vpn.Registry.Ids.RoundTrip.{connection_uid-entity_unique_id, unique_ids_collide}
use fritzbox_vpn.Registry.Repairs.{is_unexpected, unexpected_entries}

pub ours-IsSome :
    (uid suffix : String)
    → elem suffix unique_id_suffixes ≡ true
    → is_some (connection_uid_from_entity_unique_id (entity_unique_id uid suffix)) ≡ true
ours-IsSome uid suffix k = elim (Bool-cases (suffix == "uid" && ends_with uid "_vpn")) [
  | inr e ↦ rw ((connection_uid-entity_unique_id uid suffix k e).1) refl
  | inl e ↦
      let (s, v) = and-true (suffix == "uid") (ends_with uid "_vpn") e in
      elim (ends_with-cases uid "_vpn") [
        | inr f ↦ cc (v, f)
        | inl (_, (p, f)) ↦ rw ((eq_iff suffix "uid").0 s, f, (unique_ids_collide p).1) refl
      ]
]

IsKept :
    (entry : Entity) (unique_id : String)
    → is_some (connection_uid_from_entity_unique_id unique_id) ≡ true
    → is_unexpected entry ≡ true
    → entry.unique_id ≢ some unique_id
IsKept entry unique_id h u e = ground (
  arith,
  h,
  subst (λ o. is_some (connection_uid_from_entity_unique_id (or_empty o)) ≡ false) e
      (ground (arith, u)),
)

-- The clean-up of broken entities never takes an entity whose unique id this program makes: for no uid
-- of a connection and none of the five suffixes is it among those that are removed, whether or not the
-- box lists the connection.
pub unexpected_entries-AreNotOurs :
    (uid suffix : String) (entries : List Entity)
    → elem suffix unique_id_suffixes ≡ true
    → Everywhere
        (λ entry. entry.unique_id ≢ some (entity_unique_id uid suffix))
        (unexpected_entries entries)
unfolding unexpected_entries
unexpected_entries-AreNotOurs uid suffix [] k = tt
unexpected_entries-AreNotOurs uid suffix (entry ∷ entries) k =
    elim (Bool-cases (is_unexpected entry)) [
      | inr e ↦ rw e (unexpected_entries-AreNotOurs uid suffix entries k)
      | inl e ↦ rw e (
        IsKept entry (entity_unique_id uid suffix) (ours-IsSome uid suffix k) e,
        unexpected_entries-AreNotOurs uid suffix entries k,
      )
    ]
