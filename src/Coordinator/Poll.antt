-- ===== src/Coordinator/Poll.antt =====
-- custom_components/fritzbox_vpn/coordinator.py: one update of the coordinator's data.
use fritzbox_vpn.Base.{
  Bool, false, not, ◌&&◌, ◌||◌, Option, none, some, List, [], String, ◌⊕◌, keys, union, is_empty,
  if◌then◌else◌,
}
use fritzbox_vpn.Outcome.{Error, Outcome, ok, raised, timeout_error, message}
use fritzbox_vpn.Coordinator.Interval.{retry_after_seconds}
use fritzbox_vpn.Coordinator.State.{
  Coordinator, Connections, orphaned_removed, Event, PollResult, updated, update_failed, known_data,
  present_entry, call, is_auth_error,
}
use fritzbox_vpn.Coordinator.Recovery.{
  prepare_session_for_retry, schedule_reauth, remember_connection_names, reset_orphan_miss_streaks,
  in_recovery, arm_recovery, clear_recovery, recovery_max_elapsed, note_successful_poll,
}
use fritzbox_vpn.Coordinator.Uids.{
  resolve_connection_uid, apply_uid_remap_if_needed, track_missing_uids,
}

-- An empty list in recovery although connections were known.
abbrev pub suspicious : Connections → Coordinator → Bool
suspicious connections c =
    is_empty connections
    && in_recovery c
    && (not (is_empty c.seen_uids) || not (is_empty (known_data c)))

abbrev pub report : Option String → List String → List String → Coordinator → Coordinator
report none current newly c = c
report (some entry_id) current newly c =
    if c.reports_orphans && not (is_empty newly)
    then call (orphaned_removed entry_id current) c
    else c

-- In recovery nothing counts as missing.
unfoldable pub pause_tracking : List String → Coordinator → Coordinator
unfolding reset_orphan_miss_streaks
pause_tracking current c = record (reset_orphan_miss_streaks c) {
  seen_uids = union (union c.seen_uids (keys (known_data c))) current;
}

abbrev pub track : List String → Coordinator → Coordinator × List String
track current c =
    if in_recovery c then (pause_tracking current c, []) else track_missing_uids current c

unfoldable pub accept : Event → Connections → Coordinator → PollResult × Coordinator
unfolding call
accept e connections c =
    let current = keys connections in
    let c' =
      apply_uid_remap_if_needed e.remap_answer connections
        (remember_connection_names connections c) in
    let (c₁, newly) = track current c' in
    let c₂ = report (present_entry c₁.entry_id) current newly c₁ in
    (
      updated connections,
      record (note_successful_poll e.second_time connections c₂) { reauth_scheduled = false },
    )

unfoldable pub refuse_empty : Coordinator → PollResult × Coordinator
refuse_empty c = (
  update_failed (some retry_after_seconds)
      "VPN list empty while recovering after connectivity outage",
  record (reset_orphan_miss_streaks c) { recovery_stable_polls = 0 },
)

unfoldable pub on_listing : Event → Connections → Coordinator → PollResult × Coordinator
on_listing e connections c =
    if suspicious connections c
    then if recovery_max_elapsed e.first_time c
      then accept e connections (clear_recovery c)
      else refuse_empty c
    else accept e connections c

-- `ConnectionError`, `ValueError` and whatever is no `TimeoutError`.
abbrev pub on_failure : Event → Error → String → Coordinator → PollResult × Coordinator
on_failure e err prefix c =
    let c' = prepare_session_for_retry err c in
    if is_auth_error err
    then (update_failed none (prefix ⊕ message err), schedule_reauth e.entry_loaded c')
    else (
      update_failed (some retry_after_seconds) (prefix ⊕ message err),
      arm_recovery e.first_time e.second_time c',
    )

unfoldable pub on_error : Event → Error → Coordinator → PollResult × Coordinator
on_error e (timeout_error m) c = (
  update_failed (some retry_after_seconds) ("Error fetching VPN data: " ⊕ m),
  prepare_session_for_retry (timeout_error m) (arm_recovery e.first_time e.second_time c),
)
on_error e (Error.connection_error m) c =
    on_failure e (Error.connection_error m) "Error fetching VPN data: " c
on_error e (Error.value_error m) c =
    on_failure e (Error.value_error m) "Error fetching VPN data: " c
on_error e err c = on_failure e err "Unexpected error fetching VPN data: " c

abbrev pub on_outcome : Outcome Connections → Event → Coordinator → PollResult × Coordinator
on_outcome (ok connections) e c = on_listing e connections c
on_outcome (raised err) e c = on_error e err c

unfoldable pub async_update_data : Event → Coordinator → PollResult × Coordinator
unfolding on_listing on_error
async_update_data e c = on_outcome e.listing e c

abbrev pub on_toggled : Outcome Bool → Bool → Coordinator → Outcome Bool × Coordinator
on_toggled (ok b) loaded c = (ok b, c)
on_toggled (raised err) loaded c =
    (raised err, if is_auth_error err then schedule_reauth loaded c else c)

-- The function stands for `fritz_session.async_toggle_vpn`.
unfoldable pub toggle_vpn :
    (String → Bool → Outcome Bool) → Bool → String → Bool → Coordinator → Outcome Bool × Coordinator
toggle_vpn async_toggle_vpn loaded uid enable c =
    on_toggled (async_toggle_vpn (resolve_connection_uid c uid) enable) loaded c
