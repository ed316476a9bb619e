-- ===== src/Registry/EntityIds.antt =====
-- custom_components/fritzbox_vpn/entity_registry.py: entity ids, those expected and those with a number.
-- Entity ids are ASCII, so `\d` is a digit of ASCII and `.` is any character.
use fritzbox_vpn.Base.{
  ℕ, ◌≡◌, refl, Bool, true, not, ◌&&◌, Option, none, some, or_else, String, Char, code, ◌==◌, ◌⊕◌,
  leb, nat_eq, if◌then◌else◌,
}
use fritzbox_vpn.Value.Numeral.{parse_nat}
use fritzbox_vpn.Registry.State.{Entity, Device, Registries, or_empty, is_text}
use fritzbox_vpn.Registry.Ids.{unique_id_suffix_from_entity_unique_id}

unfoldable pub expected_object_id_for_device_suffix : Registries → String → String → String
expected_object_id_for_device_suffix regs device_name unique_id_suffix =
    if unique_id_suffix == "switch"
    then regs.slugify device_name
    else regs.slugify (device_name ⊕ " " ⊕ unique_id_suffix)

-- `device.name_by_user or device.name`
abbrev pub device_name : Device → String
device_name device =
    if is_text device.name_by_user then or_empty device.name_by_user else or_empty device.name

abbrev named_entity_id : Registries → Entity → String → Device → Option String
named_entity_id regs entry suffix device =
    if device_name device == ""
    then none
    else some
        (entry.domain ⊕ "." ⊕ expected_object_id_for_device_suffix regs (device_name device) suffix)

abbrev for_device : Registries → Entity → String → Option Device → Option String
for_device regs entry suffix none = none
for_device regs entry suffix (some device) = named_entity_id regs entry suffix device

abbrev for_suffix : Registries → Entity → Option String → Option String
for_suffix regs entry none = none
for_suffix regs entry (some suffix) =
    if is_text entry.device_id
    then for_device regs entry suffix (regs.device (or_empty entry.device_id))
    else none

unfoldable pub expected_entity_id_for_registry_entry : Registries → Entity → Option String
unfolding expected_object_id_for_device_suffix
expected_entity_id_for_registry_entry regs entry =
    for_suffix regs entry (unique_id_suffix_from_entity_unique_id (or_empty entry.unique_id))

abbrev longer_first : Char → Option (String × String) → Option (String × String)
longer_first c none = none
longer_first c (some (s, t)) = some (String.◌∷◌ c s, t)

-- `entity_id.split(".", 1)`, where there is a dot
unfoldable pub split_dot : String → Option (String × String)
split_dot String.[] = none
split_dot (String.◌∷◌ c s) =
    let rest = longer_first c (split_dot s) in
    if nat_eq (code c) b'.' then some (String.[], s) else rest

abbrev pub is_digit : Char → Bool
is_digit c = leb 48 (code c) && leb (code c) 57

unfoldable pub all_digits : String → Bool
all_digits String.[] = true
all_digits (String.◌∷◌ c s) = let rest = all_digits s in is_digit c && rest

-- `_` and the digits to the end, of which there is one at least
abbrev digits_after : String → Option String
digits_after String.[] = none
digits_after (String.◌∷◌ c s) =
    if nat_eq (code c) b'_' && (not (s == "") && all_digits s) then some s else none

abbrev single : Char → Option String → Option (String × String)
single c none = none
single c (some digits) = some (String.◌∷◌ c String.[], digits)

-- The groups of `^(.+)_(\d+)$`; the first one is as long as can be.
unfoldable pub numbered_parts : String → Option (String × String)
unfolding all_digits
numbered_parts String.[] = none
numbered_parts (String.◌∷◌ c s) =
    or_else (longer_first c (numbered_parts s)) (single c (digits_after s))

abbrev base_of : String → Option (String × String) → Option String
base_of domain none = none
base_of domain (some (base, digits)) = some (domain ⊕ "." ⊕ base)

abbrev base_of_split : Option (String × String) → Option String
base_of_split none = none
base_of_split (some (domain, object_id)) = base_of domain (numbered_parts object_id)

unfoldable pub entity_id_base : String → Option String
unfolding split_dot numbered_parts
entity_id_base entity_id = base_of_split (split_dot entity_id)

abbrev number_of : Option (String × String) → Option ℕ
number_of none = none
number_of (some (base, digits)) = parse_nat digits

abbrev number_of_split : Option (String × String) → Option ℕ
number_of_split none = none
number_of_split (some (domain, object_id)) = number_of (numbered_parts object_id)

unfoldable pub entity_id_suffix_number : String → Option ℕ
unfolding split_dot numbered_parts
entity_id_suffix_number entity_id = number_of_split (split_dot entity_id)

base_tests :
    (entity_id_base "switch.home_2" ≡ some "switch.home")
    × (entity_id_base "switch.home_2_x" ≡ none)
    × (entity_id_base "switch._2" ≡ none)
    × (entity_id_base "switch.a_1_22" ≡ some "switch.a_1")
    × (entity_id_suffix_number "switch.a_1_22" ≡ some 22)
unfolding entity_id_base entity_id_suffix_number numbered_parts parse_nat
base_tests = (refl, refl, refl, refl, refl)
