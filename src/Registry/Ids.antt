-- ===== src/Registry/Ids.antt =====
-- custom_components/fritzbox_vpn/entity_registry.py: what an entity's unique id says.
pub mod RoundTrip
use text.Mathlib.TextLemmas.{
  append_assoc, append_cancel_right, append_cancel_left, head-eq_of_cons-eq, tail-eq_of_cons-eq,
}
use fritzbox_vpn.Base.{
  ℕ, ◌≡◌, refl, sym, ap, ◌∙◌, ◌⊎◌, inl, inr, Bool, true, false, not, ◌&&◌, ◌||◌, Option, none, some,
  is_some, List, [], ◌∷◌, String, ◌==◌, ◌⊕◌, eq_iff, elem, drop_prefix?, drop_suffix?, starts_with,
  ends_with, reverse, reverse-append, drop_suffix-append, drop_prefix-append, same_head,
  ends_with-cases, ends_with-append, if◌then◌else◌, Bool-cases, arith,
}
use fritzbox_vpn.UidIdentity.{unique_id_prefix, entity_unique_id}

abbrev pub unique_id_suffixes : List String
unique_id_suffixes = "vpn_uid" ∷ "connected" ∷ "status" ∷ "switch" ∷ "uid" ∷ []

-- The loop over the suffixes.
unfoldable pub first_suffix : List String → String → Option String
first_suffix [] rest = none
first_suffix (suffix ∷ suffixes) rest =
    let later = first_suffix suffixes rest in
    if ends_with rest ("_" ⊕ suffix) then some suffix else later

abbrev pub suffix_of_rest : Option String → Option String
suffix_of_rest none = none
suffix_of_rest (some rest) = first_suffix unique_id_suffixes rest

-- A text that is empty does not start with the prefix.
unfoldable pub unique_id_suffix_from_entity_unique_id : String → Option String
unfolding drop_prefix?
unique_id_suffix_from_entity_unique_id unique_id =
    suffix_of_rest (drop_prefix? unique_id unique_id_prefix)

-- `rest[: -len(suffix) - 1]`, where `rest` ends with the suffix
abbrev pub uid_before : Option String → Option String → Option String
uid_before (some rest) (some suffix) = drop_suffix? rest ("_" ⊕ suffix)
uid_before _ _ = none

unfoldable pub connection_uid_from_entity_unique_id : String → Option String
unfolding drop_prefix? drop_suffix?
connection_uid_from_entity_unique_id unique_id =
    uid_before (drop_prefix? unique_id unique_id_prefix)
      (unique_id_suffix_from_entity_unique_id unique_id)
