-- ===== src/Discovery.antt =====
-- custom_components/fritzbox_vpn/ssdp_unique_id.py: the unique id and the host of a box that SSDP finds.
pub mod Embedded
pub mod Tests
use Prim.Native.String.{count}
use fritzbox_vpn.Base.{
  ℕ, zero, suc, Bool, true, false, not, ◌&&◌, ◌||◌, Option, none, some, is_some, get_or, or_else,
  List, [], ◌∷◌, Char, code, String, Dict, ◌==◌, ◌⊕◌, lookup, strip, lower, starts_with,
  drop_prefix?, contains, contains_any, nat_eq, is_empty, if◌then◌else◌,
}
use fritzbox_vpn.Value.{Value, str, Payload, to_str}
use fritzbox_vpn.Config.{fritzbox_ssdp_indicators, repeater_indicators}
use fritzbox_vpn.Forms.Address.{Address, ip_address, is_link_local}

abbrev pub fritz_box_host : String
fritz_box_host = "fritz.box"

-- What a device has announced.
pub record ServiceInfo : Type 0 where
  pub ssdp_usn : Option String
  pub ssdp_st : Option String
  pub ssdp_server : Option String
  pub ssdp_location : Option String
  pub ssdp_headers : Payload
  pub upnp : Dict String

-- `str(UUID(text))` and `urlparse(url).hostname` of the standard library; `none` also for `ValueError`.
pub record Parsers : Type 0 where
  pub uuid : String → Option String
  pub hostname : String → Option String

-- `s.removeprefix(p)`
abbrev remove_prefix : String → String → String
remove_prefix s p = get_or (drop_prefix? s p) s

-- `s.split("::", 1)[0]`
unfoldable pub before_colons : String → String
unfolding starts_with
before_colons String.[] = String.[]
before_colons (String.◌∷◌ c s) =
    let rest = before_colons s in
    if starts_with (String.◌∷◌ c s) "::" then String.[] else String.◌∷◌ c rest

-- `x` where it is a text that is not empty
abbrev pub text? : Option String → Option String
text? none = none
text? (some s) = if s == "" then none else some s

-- Blanks end a fragment, and so do two colons after its first character.
unfoldable pub fragment : Bool → String → String
unfolding starts_with
fragment at_start String.[] = String.[]
fragment at_start (String.◌∷◌ c s) =
    let rest = fragment false s in
    let n = code c in
    if nat_eq n 32 || nat_eq n 9 || nat_eq n 13 || nat_eq n 10
    then String.[]
    else if not at_start && starts_with (String.◌∷◌ c s) "::"
    then String.[]
    else String.◌∷◌ c rest

-- What follows the first `://`.
unfoldable pub after_scheme : String → Option String
unfolding drop_prefix?
after_scheme String.[] = none
after_scheme (String.◌∷◌ c s) = or_else (drop_prefix? (String.◌∷◌ c s) "://") (after_scheme s)

module _ (parsers : Parsers) where
  unfoldable pub parse_device_uuid : String → Option String
  parse_device_uuid value =
      let value' = strip value in if value' == "" then none else parsers.uuid value'

  unfoldable pub uuid_from_upnp_udn : String → Option String
  unfolding parse_device_uuid
  uuid_from_upnp_udn raw_udn = parse_device_uuid (remove_prefix raw_udn "uuid:")

  unfoldable pub uuid_from_ssdp_usn : String → Option String
  unfolding uuid_from_upnp_udn before_colons
  uuid_from_ssdp_usn usn =
      if starts_with usn "uuid:" then uuid_from_upnp_udn (before_colons usn) else none

  abbrev by_text : (String → Option String) → Option String → Option String
  by_text f none = none
  by_text f (some s) = text? (f s)

  unfoldable pub uuid_from_discovery : ServiceInfo → Option String
  unfolding uuid_from_upnp_udn uuid_from_ssdp_usn
  uuid_from_discovery info =
      or_else (by_text uuid_from_upnp_udn (text? (lookup "UDN" info.upnp)))
        (by_text uuid_from_ssdp_usn (text? info.ssdp_usn))

  unfoldable pub unique_id_for_discovery : ServiceInfo → String → String
  unfolding uuid_from_discovery
  unique_id_for_discovery info host = get_or (uuid_from_discovery info) host

  -- The text after `://` begins with the host fritz.box.
  abbrev pub is_fritz_box : Option String → Bool
  is_fritz_box none = false
  is_fritz_box (some hostname) = lower hostname == fritz_box_host

  unfoldable pub names_fritz_box : String → Bool
  names_fritz_box after =
      is_fritz_box (text? (parsers.hostname ("http:" ⊕ fragment true ("//" ⊕ after))))

  abbrev pub on_named : (String → Option (Option String)) → String → Bool → Option (Option String)
  on_named continue after true = some (some fritz_box_host)
  on_named continue after false = continue after

  abbrev pub on_scheme : (String → Option (Option String)) → Option String → Option (Option String)
  on_scheme continue none = some none
  on_scheme continue (some after) = on_named continue after (names_fritz_box after)

  -- The loop, on the text from `search_start`; `none` means that the fuel ran out.
  unfoldable pub scan_usn : ℕ → String → Option (Option String)
  scan_usn zero rest = none
  scan_usn (suc fuel) rest = on_scheme (scan_usn fuel) (after_scheme rest)

  unfoldable pub host_from_ssdp_usn : String → Option String
  unfolding scan_usn
  host_from_ssdp_usn usn = get_or (scan_usn (suc (count usn)) usn) none

  abbrev header_text : Option Value → Option String
  header_text (some (str s)) = some s
  header_text _ = none

  unfoldable pub host_from_ssdp : ServiceInfo → Option String
  unfolding host_from_ssdp_usn
  host_from_ssdp info = or_else (by_text parsers.hostname (text? info.ssdp_location)) (
      or_else (by_text parsers.hostname (header_text (lookup "location" info.ssdp_headers)))
        (elim (text? info.ssdp_usn) [ none ↦ none | some usn ↦ host_from_ssdp_usn usn ]))

abbrev address_local : Option Address → Bool
address_local none = false
address_local (some a) = is_link_local a

unfoldable pub is_link_local_host : String → Bool
unfolding ip_address is_link_local
is_link_local_host host = address_local (ip_address host)

-- `" ".join(str(v) for v in d.values())`
unfoldable pub joined : Payload → String
unfolding to_str
joined [] = ""
joined ((k, v) ∷ []) = to_str v
joined ((k, v) ∷ (j, w) ∷ m) = to_str v ⊕ " " ⊕ joined ((j, w) ∷ m)

unfoldable pub combined_text : ServiceInfo → String
unfolding joined
combined_text info =
    let text = lower (
      get_or info.ssdp_st ""
      ⊕ " "
      ⊕ get_or info.ssdp_usn ""
      ⊕ " "
      ⊕ get_or info.ssdp_server ""
      ⊕ " "
      ⊕ get_or info.ssdp_location "") in
    if is_empty info.ssdp_headers then text else text ⊕ " " ⊕ lower (joined info.ssdp_headers)

unfoldable pub is_router_text : String → Bool
is_router_text combined =
    if not (contains_any combined fritzbox_ssdp_indicators)
    then false
    else if contains_any combined repeater_indicators
    then false
    else if contains combined "internetgatewaydevice" || contains combined "igd"
    then true
    else contains combined "fritz!box"

unfoldable pub is_fritzbox_router_discovery : ServiceInfo → Bool
unfolding combined_text is_router_text
is_fritzbox_router_discovery info = is_router_text (combined_text info)
