-- ===== src/Coordinator/Window/Polls.antt =====
-- custom_components/fritzbox_vpn/coordinator.py: the recovery window through polls and toggles.
use fritzbox_vpn.Base.{
  ℕ, refl, inl, inr, Bool, true, false, Option, none, some, String, keys, Bool-cases, arith,
}
use fritzbox_vpn.Outcome.{
  Error, Outcome, ok, raised, timeout_error, connection_error, value_error, os_error, other_error,
}
use fritzbox_vpn.Coordinator.State.{
  Coordinator, Connections, Event, present_entry, call, is_auth_error, init,
}
use fritzbox_vpn.Coordinator.Recovery.{
  prepare_session_for_retry, schedule_reauth, remember_connection_names, reset_orphan_miss_streaks,
  remember_data, arm_recovery, clear_recovery, recovery_max_elapsed, start_for, schedule_once,
}
use fritzbox_vpn.Coordinator.Uids.{resolve_connection_uid, apply_uid_remap_if_needed}
use fritzbox_vpn.Coordinator.Poll.{
  suspicious, report, track, accept, refuse_empty, on_listing, on_failure, on_error, on_outcome,
  on_toggled, async_update_data, toggle_vpn,
}
use fritzbox_vpn.Coordinator.Reach.{History, Reachable, initial, polled, toggled, stored}
use fritzbox_vpn.Coordinator.Window.{
  IsWindow, IsConsistent, IsWindow-same, window-remap, track-IsConsistent, report-IsConsistent,
  note-IsConsistent,
}

accept-IsConsistent :
    (e : Event) (connections : Connections) (c : Coordinator)
    → IsWindow c
    → IsConsistent (accept e connections c).1
unfolding accept remember_connection_names
accept-IsConsistent e connections c v =
    let c' = remember_connection_names connections c in
    let c₀ = apply_uid_remap_if_needed e.remap_answer connections c' in
    let r = track (keys connections) c₀ in
    note-IsConsistent e.second_time connections
      (report (present_entry r.0.entry_id) (keys connections) r.1 r.0)
      (report-IsConsistent (present_entry r.0.entry_id) (keys connections) r.1 r.0 (
        track-IsConsistent (keys connections) c₀
          (IsWindow-same c c₀ (window-remap e.remap_answer connections c') v)))

on_listing-IsConsistent :
    (e : Event) (connections : Connections) (c : Coordinator)
    → IsConsistent c
    → IsConsistent (on_listing e connections c).1
unfolding on_listing refuse_empty reset_orphan_miss_streaks clear_recovery
on_listing-IsConsistent e connections c v = elim (Bool-cases (suspicious connections c)) [
  | inr f ↦ rw f (accept-IsConsistent e connections c v.is_window)
  | inl f ↦ rw f (elim (Bool-cases (recovery_max_elapsed e.first_time c)) [
    | inl g ↦ rw g (
        accept-IsConsistent e connections (clear_recovery c)
          (record { paired = refl; bounded = omega arith; idle = λ _. refl }))
    | inr g ↦ rw g (record {
      is_window = record { paired = v.is_window.paired; bounded = omega arith; idle = λ _. refl };
      paused = λ _. refl;
    })
  ])
]

arm-IsConsistent : (now now' : ℕ) (c : Coordinator) → IsConsistent (arm_recovery now now' c)
unfolding arm_recovery reset_orphan_miss_streaks
arm-IsConsistent now now' c =
    let c' = remember_data c in
    record {
      is_window = record { paired = ground arith; bounded = omega arith; idle = λ _. refl };
      paused = λ _. refl;
    }

prepare-IsConsistent :
    (err : Error) (c : Coordinator)
    → IsConsistent c
    → IsConsistent (prepare_session_for_retry err c)
unfolding prepare_session_for_retry call
prepare-IsConsistent err c v = elim (Bool-cases (is_auth_error err)) [
  | inl e ↦ rw e v
  | inr e ↦ rw e (record {
    is_window = record {
      paired = v.is_window.paired;
      bounded = v.is_window.bounded;
      idle = v.is_window.idle;
    };
    paused = v.paused;
  })
]

start_for-IsConsistent :
    (o : Option String) (loaded : Bool) (c : Coordinator)
    → IsConsistent c
    → IsConsistent (start_for o loaded c)
unfolding call
start_for-IsConsistent none loaded c v = v
start_for-IsConsistent (some x) false c v = v
start_for-IsConsistent (some x) true c v = record {
  is_window = record {
    paired = v.is_window.paired;
    bounded = v.is_window.bounded;
    idle = v.is_window.idle;
  };
  paused = v.paused;
}

schedule_once-IsConsistent :
    (b : Bool) (loaded : Bool) (c : Coordinator)
    → IsConsistent c
    → IsConsistent (schedule_once b loaded c)
schedule_once-IsConsistent true loaded c v = v
schedule_once-IsConsistent false loaded c v =
    start_for-IsConsistent (present_entry c.entry_id) loaded c v

schedule-IsConsistent :
    (loaded : Bool) (c : Coordinator) → IsConsistent c → IsConsistent (schedule_reauth loaded c)
unfolding schedule_reauth
schedule-IsConsistent loaded c v = schedule_once-IsConsistent c.reauth_scheduled loaded c v

on_failure-IsConsistent :
    (e : Event) (err : Error) (prefix : String) (c : Coordinator)
    → IsConsistent c
    → IsConsistent (on_failure e err prefix c).1
on_failure-IsConsistent e err prefix c v =
    let c' = prepare_session_for_retry err c in
    elim (Bool-cases (is_auth_error err)) [
      | inl f ↦ rw f (schedule-IsConsistent e.entry_loaded c' (prepare-IsConsistent err c v))
      | inr f ↦ rw f (arm-IsConsistent e.first_time e.second_time c')
    ]

on_error-IsConsistent :
    (e : Event) (err : Error) (c : Coordinator) → IsConsistent c → IsConsistent (on_error e err c).1
unfolding on_error
on_error-IsConsistent e (timeout_error m) c v =
    prepare-IsConsistent (timeout_error m) (arm_recovery e.first_time e.second_time c)
      (arm-IsConsistent e.first_time e.second_time c)
on_error-IsConsistent e (connection_error m) c v =
    on_failure-IsConsistent e (connection_error m) _ c v
on_error-IsConsistent e (value_error m) c v = on_failure-IsConsistent e (value_error m) _ c v
on_error-IsConsistent e (os_error m) c v = on_failure-IsConsistent e (os_error m) _ c v
on_error-IsConsistent e (other_error m) c v = on_failure-IsConsistent e (other_error m) _ c v

on_outcome-IsConsistent :
    (o : Outcome Connections) (e : Event) (c : Coordinator)
    → IsConsistent c
    → IsConsistent (on_outcome o e c).1
on_outcome-IsConsistent (ok connections) e c v = on_listing-IsConsistent e connections c v
on_outcome-IsConsistent (raised err) e c v = on_error-IsConsistent e err c v

on_toggled-IsConsistent :
    (o : Outcome Bool) (loaded : Bool) (c : Coordinator)
    → IsConsistent c
    → IsConsistent (on_toggled o loaded c).1
on_toggled-IsConsistent (ok b) loaded c v = v
on_toggled-IsConsistent (raised err) loaded c v = elim (Bool-cases (is_auth_error err)) [
  | inl g ↦ rw g (schedule-IsConsistent loaded c v)
  | inr g ↦ rw g v
]

-- Whatever the polls and toggles meet and in whatever order they come, the window of recovery has a
-- start exactly when it has an end, counts fewer stable polls than end it and none outside it, and
-- inside it no connection is counted as missing.
pub Reachable-IsConsistent : (h : History) (c : Coordinator) → Reachable h c → IsConsistent c
unfolding init async_update_data toggle_vpn
Reachable-IsConsistent _ _ (initial seconds entry_id reports) = record {
  is_window = record { paired = refl; bounded = omega arith; idle = λ _. refl };
  paused = λ h. refl;
}
Reachable-IsConsistent _ _ (polled {h} {c} e r) =
    on_outcome-IsConsistent e.listing e c (Reachable-IsConsistent h c r)
Reachable-IsConsistent _ _ (toggled {h} {c} answer loaded uid enable r) =
    on_toggled-IsConsistent (answer (resolve_connection_uid c uid) enable) loaded c
      (Reachable-IsConsistent h c r)
Reachable-IsConsistent _ _ (stored {h} {c} d r) =
    let v = Reachable-IsConsistent h c r in
    record {
      is_window = record {
        paired = v.is_window.paired;
        bounded = v.is_window.bounded;
        idle = v.is_window.idle;
      };
      paused = v.paused;
    }
