-- ===== src/Source/Tests.antt =====
-- Configurations taken from other integrations.
use fritzbox_vpn.Base.{
  ◌≡◌, refl, Option, none, some, List, [], ◌∷◌, String, ◌==◌, if◌then◌else◌, lookup, lower,
  contains_any,
}
use fritzbox_vpn.Value.{str, Payload, truthy, to_str}
use fritzbox_vpn.Config.{password_from_sources}
use fritzbox_vpn.Source.{FritzEntry, usable, get_existing_fritz_config}
use fritzbox_vpn.Source.Chosen.{Origin, get_existing_fritz_config-Origin}

abbrev entry_of : String → String → Payload → FritzEntry
entry_of id title config = record {
  entry_id = id;
  title = some title;
  state = usable;
  config = config;
  options = [];
}

-- A repeater with credentials, a box without any, and a box with a name.
abbrev repeater : FritzEntry
repeater =
    entry_of "1" "FRITZ!Repeater 1200" (("host", str "192.168.178.2") ∷ ("username", str "r") ∷ [])

abbrev bare : FritzEntry
bare = entry_of "2" "Box" (("host", str "192.168.178.3") ∷ [])

abbrev named : FritzEntry
named =
    entry_of "3" "Box"
      (("host", str "fritz.box") ∷ ("username", str "u") ∷ ("password", str "p") ∷ [])

abbrev found : Payload
found = ("host", str "fritz.box") ∷ ("username", str "u") ∷ ("password", str "p") ∷ []

abbrev others : String → Option (List FritzEntry)
others domain = if domain == "fritzbox" then some (repeater ∷ bare ∷ named ∷ []) else none

found_named : get_existing_fritz_config others ≡ some found
unfolding get_existing_fritz_config lookup truthy lower contains_any password_from_sources to_str
found_named = refl

get_existing_fritz_config-Origin_example : Origin others found
get_existing_fritz_config-Origin_example = get_existing_fritz_config-Origin others found found_named
