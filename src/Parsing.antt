-- ===== src/Parsing.antt =====
-- fritzboxvpn/fritzboxvpn/parsing.py: what the box answers, brought into one shape. A connection is
-- a dictionary by type, `logging` has no effect.
pub mod Uids
pub mod Latest
pub mod Extract
pub mod Tests
use fritzbox_vpn.Base.{
  Bool, true, false, not, ◌&&◌, ◌||◌, Option, none, some, List, [], ◌∷◌, ◌++◌, String, Dict, ◌==◌,
  strip, lower, elem, lookup, put, if◌then◌else◌, get_or,
}
use fritzbox_vpn.Value.{
  Value, null, bool, num, float, str, list, dict, Payload, to_list, to_dict, as_dict, is_null,
  or_null, to_str, to_int, nonzero,
}

abbrev pub active_state_strings_true : List String
active_state_strings_true = "1" ∷ "true" ∷ "yes" ∷ "on" ∷ []

abbrev active_of_raw : Value → Bool
active_of_raw (bool b) = b
active_of_raw (num n) = nonzero n
active_of_raw (str s) = elem (lower (strip s)) active_state_strings_true
active_of_raw _ = false

unfoldable pub connection_active_from_api : Payload → Bool
unfolding elem
connection_active_from_api conn =
    let raw = or_null (lookup "active" conn) in
    let raw' = if is_null raw then or_null (lookup "activated" conn) else raw in active_of_raw raw'

unfoldable pub normalize_connection_uid : Value → Option String
normalize_connection_uid raw =
    if is_null raw
    then none
    else let uid = strip (to_str raw) in if uid == "" then none else some uid

-- `raw_uid is None or (isinstance(raw_uid, str) and not raw_uid.strip())`
abbrev pub is_blank : Value → Bool
is_blank null = true
is_blank (str s) = strip s == ""
is_blank _ = false

-- The uid of one item: the dictionary's key stands in for a blank `uid` field.
unfoldable pub raw_uid : Option String → Payload → Value
raw_uid none c = or_null (lookup "uid" c)
raw_uid (some key) c = let raw = or_null (lookup "uid" c) in if is_blank raw then str key else raw

unfoldable pub item_uid : Option String → Payload → Option String
unfolding raw_uid normalize_connection_uid
item_uid key c = normalize_connection_uid (raw_uid key c)

unfoldable pub normalized_entry : String → Payload → Payload
unfolding put
normalized_entry uid c = put "active" (bool (connection_active_from_api c)) (put "uid" (str uid) c)

-- A key, if the payload is a dictionary, and the item, if it is one.
abbrev pub Item : Type 0
Item = Option String × Option Payload

abbrev pub keyed_items : Dict Value → List Item
keyed_items [] = []
keyed_items ((k, v) ∷ m) = (some k, as_dict v) ∷ keyed_items m

abbrev pub listed_items : List Value → List Item
listed_items [] = []
listed_items (v ∷ vs) = (none, as_dict v) ∷ listed_items vs

-- The items of a list of dictionaries.
abbrev pub entry_items : List Payload → List Item
entry_items [] = []
entry_items (c ∷ cs) = (none, some c) ∷ entry_items cs

abbrev pub items_with_keys : Value → List Item
items_with_keys (dict fs) = keyed_items (to_dict fs)
items_with_keys (list vs) = listed_items (to_list vs)
items_with_keys _ = []

-- `result[uid] = entry`, unless the item has no uid
abbrev pub store : Option String → Payload → Dict Payload → Dict Payload
store none c result = result
store (some uid) c result = put uid (normalized_entry uid c) result

abbrev pub store_item : Option String → Option Payload → Dict Payload → Dict Payload
store_item key none result = result
store_item key (some c) result = store (item_uid key c) c result

-- The loop over the items.
unfoldable pub normalize_items : List Item → Dict Payload → Dict Payload
normalize_items [] result = result
normalize_items ((key, c) ∷ items) result = normalize_items items (store_item key c result)

unfoldable pub normalize_box_connections : Value → Dict Payload
normalize_box_connections box = normalize_items (items_with_keys box) []

-- The same call on the list of entries that the REST listing gives.
unfoldable pub normalize_entries : List Payload → Dict Payload
normalize_entries entries = normalize_items (entry_items entries) []

-- `d.get(k)`, `None` where `d` is no dictionary
abbrev pub field_of : Option Payload → String → Value
field_of none k = null
field_of (some d) k = or_null (lookup k d)

-- The first of two values that is not `None`.
abbrev pub present_or : Value → Value → Value
present_or x y = if is_null x then y else x

-- `boxConnections` of a dictionary, or of its entry for the page.
abbrev pub box_at : Payload → String → Value
box_at d page =
    present_or (or_null (lookup "boxConnections" d))
      (field_of (as_dict (or_null (lookup page d))) "boxConnections")

abbrev pub from_inner : Option Payload → Payload → String → Value
from_inner none inner page = box_at inner page
from_inner (some init) inner page = present_or (box_at init page) (box_at inner page)

abbrev pub from_data : Option Payload → String → Value
from_data none page = null
from_data (some inner) page = from_inner (as_dict (or_null (lookup "init" inner))) inner page

abbrev pub from_answer : Option Payload → String → Value
from_answer none page = null
from_answer (some d) page = from_data (as_dict (or_null (lookup "data" d))) page

-- The payload of the page in the answer of `data.lua`; `null` where there is none.
unfoldable pub extract_box_connections_from_data : Value → String → Value
unfolding lookup
extract_box_connections_from_data answer page = from_answer (as_dict answer) page

abbrev state_is_ready : Value → Bool
state_is_ready (str s) = strip s == "ready"
state_is_ready _ = false

unfoldable pub connection_connected_from_rest : Payload → Bool
unfolding lookup
connection_connected_from_rest conn =
    if state_is_ready (or_null (lookup "state" conn))
    then true
    else elim (to_int (or_null (lookup "connected_since" conn))) [
      | none ↦ false
      | some n ↦ nonzero n
    ]

unfoldable pub rest_wireguard_entry : Payload → Option Payload
unfolding lookup
rest_wireguard_entry conn =
    if strip (to_str (or_null (lookup "access_type" conn))) == "4"
    then (let uid = or_null (lookup "uid" conn) in
        let uid' = if is_null uid then or_null (lookup "UID" conn) else uid in
        let activated = or_null (lookup "activated" conn) in
        some (
          ("uid", uid')
          ∷ ("name", or_null (lookup "name" conn))
          ∷ ("activated", activated)
          ∷ ("active", get_or (lookup "active" conn) activated)
          ∷ ("connected", bool (connection_connected_from_rest conn))
          ∷ []))
    else none

abbrev append_entry : Option Payload → List Payload → List Payload
append_entry none rest = rest
append_entry (some e) rest = e ∷ rest

abbrev rest_entry : Option Payload → Option Payload
rest_entry none = none
rest_entry (some conn) = rest_wireguard_entry conn

unfoldable pub rest_entries : List Value → List Payload
rest_entries [] = []
rest_entries (v ∷ vs) = append_entry (rest_entry (as_dict v)) (rest_entries vs)

abbrev listed : Value → Option (List Payload)
listed (list vs) = some (rest_entries (to_list vs))
listed _ = none

-- `none` where the listing contract is absent.
unfoldable pub extract_wireguard_connections_from_rest : Value → Option (List Payload)
unfolding lookup
extract_wireguard_connections_from_rest data_ = elim (as_dict data_) [
  | none ↦ none
  | some d ↦ listed (or_null (lookup "connection" d))
]
