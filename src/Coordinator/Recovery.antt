-- ===== src/Coordinator/Recovery.antt =====
-- custom_components/fritzbox_vpn/coordinator.py: errors, reauthentication and the recovery window.
use fritzbox_vpn.Base.{
  ℕ, suc, ◌+◌, ◌*◌, Bool, true, false, ◌||◌, Option, none, some, is_some, [], ◌∷◌, String, Dict,
  lookup, put, keys, union, is_empty, ltb, leb, if◌then◌else◌,
}
use fritzbox_vpn.Value.{or_null, truthy, to_str}
use fritzbox_vpn.Outcome.{Error}
use fritzbox_vpn.Coordinator.Interval.{recovery_window_seconds, recovery_max_seconds}
use fritzbox_vpn.Coordinator.State.{
  Coordinator, Connections, invalidate_session, start_reauth, known_data, present_entry, call,
  is_auth_error,
}

-- Nanoseconds in a second.
abbrev pub second : ℕ
second = 1000000000

abbrev pub recovery_stable_polls_needed : ℕ
recovery_stable_polls_needed = 2

unfoldable pub prepare_session_for_retry : Error → Coordinator → Coordinator
unfolding call
prepare_session_for_retry err c = if is_auth_error err then c else call invalidate_session c

abbrev pub start_for : Option String → Bool → Coordinator → Coordinator
start_for none loaded c = c
start_for (some entry_id) loaded c =
    if loaded then call (start_reauth entry_id) (record c { reauth_scheduled = true }) else c

-- With whether it was already asked for.
abbrev pub schedule_once : Bool → Bool → Coordinator → Coordinator
schedule_once true loaded c = c
schedule_once false loaded c = start_for (present_entry c.entry_id) loaded c

unfoldable pub schedule_reauth : Bool → Coordinator → Coordinator
unfolding call
schedule_reauth loaded c = schedule_once c.reauth_scheduled loaded c

-- The names of the connections that have one.
unfoldable pub remember_names : Connections → Dict String → Dict String
remember_names [] names = names
remember_names ((uid, payload) ∷ rest) names =
    let name = or_null (lookup "name" payload) in
    remember_names rest (if truthy name then put uid (to_str name) names else names)

unfoldable pub remember_connection_names : Connections → Coordinator → Coordinator
unfolding remember_names
remember_connection_names connections c = record c {
  uid_names = remember_names connections c.uid_names;
}

unfoldable pub reset_orphan_miss_streaks : Coordinator → Coordinator
reset_orphan_miss_streaks c = record c { missing_uid_counts = [] }

abbrev pub in_recovery : Coordinator → Bool
in_recovery c = is_some c.recovering_until

-- `if self.data: self._seen_uids |= …; self._remember_connection_names(self.data)`
unfoldable pub remember_data : Coordinator → Coordinator
unfolding remember_connection_names
remember_data c =
    let d = known_data c in
    if is_empty d
    then c
    else remember_connection_names d (record c { seen_uids = union c.seen_uids (keys d) })

abbrev pub later_of : Option ℕ → ℕ → Option ℕ
later_of none until = some until
later_of (some u) until = if ltb u until then some until else some u

abbrev pub first_of_times : Option ℕ → ℕ → Option ℕ
first_of_times none now = some now
first_of_times (some s) now = some s

-- The deadline is taken from the first reading of the clock, the start from the second.
unfoldable pub arm_recovery : ℕ → ℕ → Coordinator → Coordinator
unfolding remember_data reset_orphan_miss_streaks
arm_recovery now now' c =
    let c' = remember_data c in
    let until = now + recovery_window_seconds c.update_interval_seconds * second in
    reset_orphan_miss_streaks (record c' {
      recovery_started_at = first_of_times c'.recovery_started_at now';
      recovering_until = later_of c'.recovering_until until;
      recovery_stable_polls = 0;
    })

unfoldable pub clear_recovery : Coordinator → Coordinator
clear_recovery c = record c {
  recovering_until = none;
  recovery_started_at = none;
  recovery_stable_polls = 0;
}

unfoldable pub recovery_max_elapsed : ℕ → Coordinator → Bool
recovery_max_elapsed now c = elim c.recovery_started_at [
  | none ↦ false
  | some started ↦ leb (started + recovery_max_seconds c.update_interval_seconds * second) now
]

abbrev count_stable : Coordinator → Coordinator
count_stable c =
    let polls = suc c.recovery_stable_polls in
    if leb recovery_stable_polls_needed polls
    then clear_recovery c
    else record c { recovery_stable_polls = polls }

-- With the end of the window, if there is a window.
abbrev pub note_poll : Option ℕ → ℕ → Connections → Coordinator → Coordinator
note_poll none now connections c = c
note_poll (some until) now connections c =
    if is_empty connections || ltb now until
    then record c { recovery_stable_polls = 0 }
    else count_stable c

unfoldable pub note_successful_poll : ℕ → Connections → Coordinator → Coordinator
unfolding clear_recovery
note_successful_poll now connections c = note_poll c.recovering_until now connections c
