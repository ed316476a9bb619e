-- ===== src/Parsing/Tests.antt =====
-- Runs of parsing.py's functions, after tests/test_coordinator_parsing.py.
use fritzbox_vpn.Base.{◌≡◌, refl, [], ◌∷◌, lookup, elem, keys, strip, lower}
use fritzbox_vpn.Value.{Value, null, num, pos, str, dict, end, field, to_str, to_dict}
use fritzbox_vpn.Parsing.{
  normalize_box_connections, connection_active_from_api, item_uid, normalized_entry,
  normalize_items, items_with_keys, extract_box_connections_from_data,
}
use fritzbox_vpn.Parsing.Latest.{latest_entry, lookup-normalize_box_connections}

-- A padded uid, a blank uid under a key, and an item that is no dictionary.
abbrev pub sample_box : Value
sample_box = dict (
    field "k1" (dict (field "uid" (str " a ") (field "active" (str "Yes") end))) (
      field "k2" (dict (field "uid" (str " ") (field "activated" (num (pos 0)) end)))
        (field "k3" null end)))

sample_keys : keys (normalize_box_connections sample_box) ≡ "a" ∷ "k2" ∷ []
unfolding normalize_box_connections normalize_items item_uid normalized_entry
    connection_active_from_api to_dict to_str keys strip lookup lower elem
sample_keys = refl

sample_extract :
    extract_box_connections_from_data
      (dict
        (field "data" (dict (field "init" (dict end) (field "boxConnections" sample_box end))) end))
      "shareWireguard"
    ≡ sample_box
unfolding extract_box_connections_from_data to_dict
sample_extract = refl

lookup-normalize_box_connections_example :
    lookup "k2" (normalize_box_connections sample_box)
    ≡ latest_entry "k2" (items_with_keys sample_box)
lookup-normalize_box_connections_example = lookup-normalize_box_connections "k2" sample_box

-- The payload stands under the page.
abbrev paged : Value
paged = dict (
    field "data" (dict (field "shareWireguard" (dict (field "boxConnections" sample_box end)) end))
      end)

paged_test : extract_box_connections_from_data paged "shareWireguard" ≡ sample_box
unfolding extract_box_connections_from_data lookup to_dict
paged_test = refl
