-- ===== src/Source.antt =====
-- custom_components/fritzbox_vpn/fritz_config_source.py: host, name and password from the entries of
-- other integrations for the box.
pub mod Chosen
pub mod Tests
use fritzbox_vpn.Base.{
  Bool, true, false, not, ◌&&◌, ◌||◌, Option, none, some, get_or, List, [], ◌∷◌, String, Dict, ◌==◌,
  lookup, lower, contains_any, if◌then◌else◌,
}
use fritzbox_vpn.Value.{
  Value, Items, null, list, nil, cons, str, Payload, truthy, value_or, as_dict,
}
use fritzbox_vpn.Config.{get, password_from_sources, fritz_integration_domains, repeater_indicators}

-- The states that the code tells apart.
pub data EntryState : Type 0 where
  failed_unload setup_in_progress usable : EntryState

-- An entry of another integration; its data and options are there, maybe empty.
pub record FritzEntry : Type 0 where
  pub entry_id : String
  pub title : Option String
  pub state : EntryState
  pub config : Payload
  pub options : Payload

unfoldable pub entry_has_credentials : FritzEntry → Bool
unfolding truthy password_from_sources
entry_has_credentials entry =
    truthy (
      value_or (value_or (get "username" entry.config) (get "username" entry.config))
        (get "user" entry.config))
    || truthy (
        value_or (value_or (get "username" entry.options) (get "username" entry.options))
          (get "user" entry.options))
    || not (password_from_sources (some entry.config ∷ some entry.options ∷ []) == "")

-- `hosts[0]` where `hosts` is a list that is not empty
abbrev first_host : Value → Value
first_host (list (cons v vs)) = v
first_host _ = null

abbrev pub host_of : FritzEntry → Value
host_of entry =
    value_or
      (value_or
        (value_or
          (value_or
            (value_or (value_or (get "host" entry.config) (get "host" entry.config))
              (first_host (get "hosts" entry.config)))
            (get "hostname" entry.config))
          (get "ip_address" entry.config))
        (get "host" entry.options))
      (get "host" entry.options)

abbrev pub username_of : FritzEntry → Value
username_of entry =
    value_or
      (value_or
        (value_or
          (value_or (value_or (get "username" entry.config) (get "username" entry.config))
            (get "user" entry.config))
          (get "username" entry.options))
        (get "username" entry.options))
      (get "user" entry.options)

abbrev pub password_of : FritzEntry → String
password_of entry = password_from_sources (some entry.config ∷ some entry.options ∷ [])

abbrev pub credentials : Value → Value → String → Option Payload
credentials host username password =
    if truthy host
    then some (
        ("host", host) ∷ ("username", value_or username (str "")) ∷ ("password", str password) ∷ [])
    else none

-- With what stands below `data`, where there is no host.
abbrev pub with_nested : Value → Value → String → Option Payload → Option Payload
with_nested host username password none = credentials host username password
with_nested host username password (some nested) =
    if truthy host
    then credentials host username password
    else credentials (value_or (value_or host (get "host" nested)) (get "host" nested))
        (value_or (value_or username (get "username" nested)) (get "username" nested))
        (if password == "" then password_from_sources (some nested ∷ []) else password)

unfoldable pub host_username_password_from_entry : FritzEntry → Option Payload
unfolding truthy password_from_sources
host_username_password_from_entry entry =
    with_nested (host_of entry) (username_of entry) (password_of entry)
      (as_dict (get "data" entry.config))

abbrev pub is_excluded : EntryState → Bool
is_excluded failed_unload = true
is_excluded setup_in_progress = true
is_excluded usable = false

abbrev pub is_router : FritzEntry → Bool
is_router entry = not (contains_any (lower (get_or entry.title "")) repeater_indicators)

unfoldable pub select {ℓ} : {A : Type ℓ} → (A → Bool) → List A → List A
select p [] = []
select p (x ∷ xs) = let rest = select p xs in if p x then x ∷ rest else rest

unfoldable pub router_entries : List FritzEntry → List FritzEntry
unfolding select
router_entries all_entries = select is_router (select (λ e. not (is_excluded e.state)) all_entries)

-- `xs[0] if xs else ys[0]`
abbrev pub first_of : List FritzEntry → List FritzEntry → Option FritzEntry
first_of (x ∷ xs) ys = some x
first_of [] (y ∷ ys) = some y
first_of [] [] = none

unfoldable pub chosen_entry : List FritzEntry → Option FritzEntry
unfolding router_entries entry_has_credentials
chosen_entry all_entries =
    let routers = router_entries all_entries in
    first_of (select entry_has_credentials routers) routers

abbrev pub config_of : Option FritzEntry → Option Payload
config_of none = none
config_of (some entry) = host_username_password_from_entry entry

-- `None` for `KeyError`.
abbrev pub entries_or_none : Option (List FritzEntry) → Option FritzEntry
entries_or_none none = none
entries_or_none (some all_entries) = chosen_entry all_entries

abbrev pub or_next : Option Payload → Option Payload → Option Payload
or_next none next = next
or_next (some config) next = some config

unfoldable pub search_domains : (String → Option (List FritzEntry)) → List String → Option Payload
unfolding chosen_entry host_username_password_from_entry
search_domains async_entries [] = none
search_domains async_entries (domain ∷ domains) =
    or_next (config_of (entries_or_none (async_entries domain)))
      (search_domains async_entries domains)

unfoldable pub get_existing_fritz_config : (String → Option (List FritzEntry)) → Option Payload
unfolding search_domains
get_existing_fritz_config async_entries = search_domains async_entries fritz_integration_domains
