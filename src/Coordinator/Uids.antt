-- ===== src/Coordinator/Uids.antt =====
-- custom_components/fritzbox_vpn/coordinator.py: the uids that were seen, that are missing and that
-- were remapped.
use fritzbox_vpn.Base.{
  ℕ, zero, suc, false, not, ◌&&◌, ◌||◌, Option, none, some, is_some, get_or, List, [], ◌∷◌, String,
  Dict, lookup, put, pop, keys, elem, add, discard, union, difference, is_empty, leb, if◌then◌else◌,
}
use fritzbox_vpn.Value.{Payload, or_null, truthy, to_str, bool}
use fritzbox_vpn.UidIdentity.{Remap, mapping, refused, name_bijection_uid_remap}
use fritzbox_vpn.Coordinator.State.{
  Coordinator, Connections, remap_connection_uids, present_entry, known_data, call,
}
use fritzbox_vpn.Coordinator.Recovery.{in_recovery, remember_data}

abbrev pub orphan_confirm_polls : ℕ
orphan_confirm_polls = 3

-- `self._uid_remap[uid]`, where it is there
abbrev pub step_of : Option String → String → String
step_of none uid = uid
step_of (some next) uid = next

-- The loop `while uid in self._uid_remap and uid not in seen`; each round adds a key to `seen`.
unfoldable pub resolve_loop : ℕ → Dict String → List String → String → String
resolve_loop zero remap seen uid = uid
resolve_loop (suc fuel) remap seen uid =
    let next = lookup uid remap in
    let rest = resolve_loop fuel remap (add uid seen) (step_of next uid) in
    if is_some next && not (elem uid seen) then rest else uid

unfoldable pub length : Dict String → ℕ
length [] = 0
length (x ∷ xs) = suc (length xs)

unfoldable pub resolve_connection_uid : Coordinator → String → String
unfolding resolve_loop length
resolve_connection_uid c uid = resolve_loop (suc (length c.uid_remap)) c.uid_remap [] uid

pub data Status : Type 0 where
  connected enabled disabled unknown : Status

abbrev pub status_of : Option Payload → Status
status_of none = unknown
status_of (some conn) =
    if not (truthy (get_or (lookup "active" conn) (bool false)))
    then disabled
    else if truthy (get_or (lookup "connected" conn) (bool false))
    then connected
    else enabled

unfoldable pub get_vpn_status : Coordinator → String → Status
get_vpn_status c uid = status_of (lookup (resolve_connection_uid c uid) (known_data c))

abbrev name_of_payload : Option Payload → Option String
name_of_payload none = none
name_of_payload (some payload) =
    let name = or_null (lookup "name" payload) in if truthy name then some (to_str name) else none

abbrev put_name : String → Option String → Dict String → Dict String
put_name uid none names = names
put_name uid (some name) names = put uid name names

-- The name moves with the uid; without one it is taken from the connection.
abbrev move_name : String → String → Option String → Connections → Dict String → Dict String
move_name old new (some name) connections names = put new name (pop old names)
move_name old new none connections names =
    put_name new (name_of_payload (lookup new connections)) (pop old names)

unfoldable pub apply_one : Connections → String → String → Coordinator → Coordinator
apply_one connections old new c = record c {
  uid_remap = put old new c.uid_remap;
  seen_uids = add new (discard old c.seen_uids);
  uid_names = move_name old new (lookup old c.uid_names) connections c.uid_names;
  missing_uid_counts = pop old c.missing_uid_counts;
  confirmed_orphan_uids = discard old c.confirmed_orphan_uids;
}

unfoldable pub apply_remap : Connections → Dict String → Coordinator → Coordinator
apply_remap connections [] c = c
apply_remap connections ((old, new) ∷ applied) c =
    apply_remap connections applied (apply_one connections old new c)

abbrev pub remap_by :
    (Dict String → Dict String) → String → Connections → Remap → Coordinator → Coordinator
remap_by answer entry_id connections (refused reason) c = c
remap_by answer entry_id connections (mapping m) c =
    apply_remap connections (answer m) (call (remap_connection_uids entry_id m) c)

abbrev pub remap_for :
    (Dict String → Dict String) → Option String → Connections → Coordinator → Coordinator
remap_for answer none connections c = c
remap_for answer (some entry_id) connections c =
    let current_uids = keys connections in
    let removed = difference c.seen_uids current_uids in
    let added = difference current_uids c.seen_uids in
    if is_empty removed || is_empty added
    then c
    else remap_by answer entry_id connections
        (name_bijection_uid_remap removed added c.uid_names connections) c

-- Only in recovery, and only with connections.
unfoldable pub apply_uid_remap_if_needed :
    (Dict String → Dict String) → Connections → Coordinator → Coordinator
unfolding call
apply_uid_remap_if_needed answer connections c =
    if not (in_recovery c) || is_empty connections
    then c
    else remap_for answer (present_entry c.entry_id) connections c

-- The uids that are back.
unfoldable pub forget_misses : List String → Coordinator → Coordinator
forget_misses [] c = c
forget_misses (uid ∷ uids) c = forget_misses uids (record c {
  missing_uid_counts = pop uid c.missing_uid_counts;
  confirmed_orphan_uids = discard uid c.confirmed_orphan_uids;
})

-- The uids that are missing once more, with those that are newly confirmed.
unfoldable pub count_misses : List String → Coordinator → List String → Coordinator × List String
count_misses [] c newly = (c, newly)
count_misses (uid ∷ uids) c newly =
    let count = suc (get_or (lookup uid c.missing_uid_counts) 0) in
    let confirm = leb orphan_confirm_polls count && not (elem uid c.confirmed_orphan_uids) in
    count_misses uids
      (record c {
        missing_uid_counts = put uid count c.missing_uid_counts;
        confirmed_orphan_uids =
            if confirm then add uid c.confirmed_orphan_uids else c.confirmed_orphan_uids;
      })
      (if confirm then add uid newly else newly)

unfoldable pub note_seen : List String → Coordinator → Coordinator
note_seen current_uids c =
    let c' = remember_data c in record c' { seen_uids = union c'.seen_uids current_uids }

unfoldable pub track_missing_uids : List String → Coordinator → Coordinator × List String
track_missing_uids current_uids c =
    let c' = forget_misses current_uids (note_seen current_uids c) in
    count_misses (difference c'.seen_uids current_uids) c' []
