-- ===== src/UidIdentity.antt =====
-- custom_components/fritzbox_vpn/uid_identity.py: entity ids, and the remap of connection uids by name.
pub mod Names
pub mod Bijection
pub mod Tests
use fritzbox_vpn.Base.{
  ◌≡◌, refl, Bool, true, false, not, ◌&&◌, ◌||◌, Option, none, some, is_some, List, [], ◌∷◌, String,
  Dict, ◌==◌, ◌⊕◌, strip, lookup, put, keys, elem, intersection, is_empty, if◌then◌else◌,
}
use fritzbox_vpn.Value.{Value, null, Payload, or_null, to_str, is_null}

abbrev pub unique_id_prefix : String
unique_id_prefix = "fritzbox_vpn_"

unfoldable pub entity_unique_id : String → String → String
entity_unique_id connection_uid suffix = unique_id_prefix ⊕ connection_uid ⊕ "_" ⊕ suffix

-- A name, stripped, unless it is blank.
abbrev stripped : String → Option String
stripped name = if strip name == "" then none else some (strip name)

unfoldable pub old_name : Dict String → String → Option String
old_name names uid = elim (lookup uid names) [ none ↦ none | some name ↦ stripped name ]

abbrev name_field : Payload → Option String
name_field payload =
    let name = or_null (lookup "name" payload) in
    if is_null name then none else stripped (to_str name)

unfoldable pub new_name : Dict Payload → String → Option String
new_name payloads uid = elim (lookup uid payloads) [
  | none ↦ none
  | some payload ↦ name_field payload
]

pub data Remap : Type 0 where
  mapping : Dict String → Remap
  refused : String → Remap

-- One loop: the uids by their names, refused where a name is missing or stands for two uids.
unfoldable pub by_name :
    (String → Option String) → String → String → List String → Dict String → Remap
by_name name_of missing duplicate [] found = mapping found
by_name name_of missing duplicate (uid ∷ uids) found = elim (name_of uid) [
  | none ↦ refused missing
  | some name ↦
      let rest = by_name name_of missing duplicate uids (put name uid found) in
      if is_some (lookup name found) then refused duplicate else rest
]

unfoldable pub subset : List String → List String → Bool
subset [] t = true
subset (x ∷ xs) t = elem x t && subset xs t

abbrev put_pair : Option String → Option String → Dict String → Dict String
put_pair (some old) (some new) m = put old new m
put_pair _ _ m = m

-- `{old[name]: new[name] for name in old}`; both have the names.
unfoldable pub pair_up : List String → Dict String → Dict String → Dict String → Dict String
pair_up [] old new m = m
pair_up (name ∷ names) old new m =
    pair_up names old new (put_pair (lookup name old) (lookup name new) m)

abbrev pub paired : Dict String → Remap → Remap
paired old (refused reason) = refused reason
paired old (mapping new) =
    if not (subset (keys old) (keys new) && subset (keys new) (keys old))
    then refused "name_sets_differ"
    else mapping (pair_up (keys old) old new [])

abbrev pub then_new : Remap → Remap → Remap
then_new (refused reason) new = refused reason
then_new (mapping old) new = paired old new

-- The old uids to the new ones, or the reason for the refusal.
unfoldable pub name_bijection_uid_remap :
    List String → List String → Dict String → Dict Payload → Remap
name_bijection_uid_remap old_uids new_uids old_names new_payloads =
    if is_empty old_uids || is_empty new_uids || not (is_empty (intersection old_uids new_uids))
    then refused "sets_overlap_or_empty"
    else then_new (by_name (old_name old_names) "missing_old_name" "duplicate_old_name" old_uids [])
        (by_name (new_name new_payloads) "missing_new_name" "duplicate_new_name" new_uids [])
