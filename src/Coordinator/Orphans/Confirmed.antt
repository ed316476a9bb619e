-- ===== src/Coordinator/Orphans/Confirmed.antt =====
-- custom_components/fritzbox_vpn/coordinator.py: what it takes for a uid to be confirmed as removed.
use fritzbox_vpn.Base.{
  ℕ, ◌≤◌, ◌≡◌, refl, ◌⊎◌, inl, inr, Bool, true, false, Option, none, some, List, ◌∷◌, String,
  lookup, keys, Bool-cases, arith, distinct, distinct-union,
}
use fritzbox_vpn.Outcome.{
  Error, Outcome, ok, raised, timeout_error, connection_error, value_error, os_error, other_error,
}
use fritzbox_vpn.Coordinator.State.{
  Coordinator, Connections, Event, known_data, present_entry, call, is_auth_error, init,
}
use fritzbox_vpn.Coordinator.Recovery.{
  prepare_session_for_retry, schedule_reauth, schedule_once, start_for, remember_connection_names,
  reset_orphan_miss_streaks, remember_data, arm_recovery, clear_recovery, recovery_max_elapsed,
  note_poll, note_successful_poll,
}
use fritzbox_vpn.Coordinator.Uids.{apply_uid_remap_if_needed, resolve_connection_uid}
use fritzbox_vpn.Coordinator.Poll.{
  suspicious, report, track, accept, refuse_empty, on_listing, on_failure, on_error, on_outcome,
  on_toggled, async_update_data, toggle_vpn,
}
use fritzbox_vpn.Coordinator.Reach.{
  History, streak, heard, heard_of, Reachable, initial, polled, toggled, stored,
}
use fritzbox_vpn.Coordinator.Orphans.Counting.{is_confirmed}
use fritzbox_vpn.Coordinator.Orphans.Runs.{
  tally, IsKept, IsTallied, IsTallied-same, IsKept-Tallied, remap-IsKept, track-IsTallied,
}

tally-report :
    (o : Option String) (current newly : List String) (c : Coordinator)
    → tally (report o current newly c) ≡ tally c
unfolding call
tally-report none current newly c = refl
tally-report (some x) current newly c = ground arith

tally-note :
    (o : Option ℕ) (now : ℕ) (connections : Connections) (c : Coordinator)
    → tally (record (note_poll o now connections c) { reauth_scheduled = false }) ≡ tally c
unfolding clear_recovery
tally-note none now connections c = refl
tally-note (some until) now connections c = ground arith

tally-start_for :
    (o : Option String) (loaded : Bool) (c : Coordinator) → tally (start_for o loaded c) ≡ tally c
unfolding call
tally-start_for none loaded c = refl
tally-start_for (some x) loaded c = ground arith

tally-schedule_once :
    (b loaded : Bool) (c : Coordinator) → tally (schedule_once b loaded c) ≡ tally c
tally-schedule_once true loaded c = refl
tally-schedule_once false loaded c = tally-start_for (present_entry c.entry_id) loaded c

tally-schedule : (loaded : Bool) (c : Coordinator) → tally (schedule_reauth loaded c) ≡ tally c
unfolding schedule_reauth
tally-schedule loaded c = tally-schedule_once c.reauth_scheduled loaded c

tally-prepare : (err : Error) (c : Coordinator) → tally (prepare_session_for_retry err c) ≡ tally c
unfolding prepare_session_for_retry call
tally-prepare err c = ground arith

module _ (h : History) (before : List String) where
  accept-IsTallied :
      (e : Event) (connections : Connections) (c : Coordinator)
      → IsKept h before c
      → IsTallied (keys connections ∷ h) before (accept e connections c).1
  unfolding accept remember_connection_names note_successful_poll
  accept-IsTallied e connections c v =
      let current = keys connections in
      let c' = remember_connection_names connections c in
      let c₀ = apply_uid_remap_if_needed e.remap_answer connections c' in
      let r = track current c₀ in
      let c₂ = report (present_entry r.0.entry_id) current r.1 r.0 in
      IsTallied-same (current ∷ h) before c₂ _
        (tally-note c₂.recovering_until e.second_time connections c₂)
        (IsTallied-same (current ∷ h) before r.0 c₂
          (tally-report (present_entry r.0.entry_id) current r.1 r.0)
          (track-IsTallied h before current c₀ (
            remap-IsKept h before e.remap_answer connections c'
              (record { is_distinct = v.is_distinct; counted = v.counted; kept = v.kept }))))

  on_listing-IsTallied :
      (e : Event) (connections : Connections) (c : Coordinator)
      → IsKept h before c
      → IsTallied (keys connections ∷ h) before (on_listing e connections c).1
  unfolding on_listing refuse_empty reset_orphan_miss_streaks clear_recovery lookup
  on_listing-IsTallied e connections c v = elim (Bool-cases (suspicious connections c)) [
    | inr f ↦ rw f (accept-IsTallied e connections c v)
    | inl f ↦ rw f (elim (Bool-cases (recovery_max_elapsed e.first_time c)) [
      | inl g ↦ rw g (
          accept-IsTallied e connections (clear_recovery c)
            (record { is_distinct = v.is_distinct; counted = v.counted; kept = v.kept }))
      | inr g ↦ rw g (record {
        is_distinct = v.is_distinct;
        counted = λ x. ground arith;
        justified = λ x i. ground (arith, v.kept x);
      })
    ])
  ]

  arm-IsTallied :
      (now now' : ℕ) (c : Coordinator)
      → IsTallied h before c
      → IsTallied h before (arm_recovery now now' c)
  unfolding arm_recovery remember_data remember_connection_names reset_orphan_miss_streaks lookup
  arm-IsTallied now now' c v = record {
    is_distinct =
        ground
          (arith, v.is_distinct, distinct-union c.seen_uids (keys (known_data c)) v.is_distinct);
    counted = λ x. ground arith;
    justified = λ x i. ground (arith, v.justified x);
  }

  prepare-IsTallied :
      (err : Error) (c : Coordinator)
      → IsTallied h before c
      → IsTallied h before (prepare_session_for_retry err c)
  prepare-IsTallied err c =
      IsTallied-same h before c (prepare_session_for_retry err c) (tally-prepare err c)

  schedule-IsTallied :
      (loaded : Bool) (c : Coordinator)
      → IsTallied h before c
      → IsTallied h before (schedule_reauth loaded c)
  schedule-IsTallied loaded c =
      IsTallied-same h before c (schedule_reauth loaded c) (tally-schedule loaded c)

  on_failure-IsTallied :
      (e : Event) (err : Error) (prefix : String) (c : Coordinator)
      → IsTallied h before c
      → IsTallied h before (on_failure e err prefix c).1
  on_failure-IsTallied e err prefix c v =
      let c' = prepare_session_for_retry err c in
      elim (Bool-cases (is_auth_error err)) [
        | inl f ↦ rw f (schedule-IsTallied e.entry_loaded c' (prepare-IsTallied err c v))
        | inr f ↦ rw f (arm-IsTallied e.first_time e.second_time c' (prepare-IsTallied err c v))
      ]

  on_error-IsTallied :
      (e : Event) (err : Error) (c : Coordinator)
      → IsTallied h before c
      → IsTallied h before (on_error e err c).1
  unfolding on_error
  on_error-IsTallied e (timeout_error m) c v =
      prepare-IsTallied (timeout_error m) (arm_recovery e.first_time e.second_time c)
        (arm-IsTallied e.first_time e.second_time c v)
  on_error-IsTallied e (connection_error m) c v = on_failure-IsTallied e (connection_error m) _ c v
  on_error-IsTallied e (value_error m) c v = on_failure-IsTallied e (value_error m) _ c v
  on_error-IsTallied e (os_error m) c v = on_failure-IsTallied e (os_error m) _ c v
  on_error-IsTallied e (other_error m) c v = on_failure-IsTallied e (other_error m) _ c v

on_outcome-IsTallied :
    (h : History) (before : List String) (o : Outcome Connections) (e : Event) (c : Coordinator)
    → IsKept h before c
    → IsTallied (heard_of o h) before (on_outcome o e c).1
on_outcome-IsTallied h before (ok connections) e c v =
    on_listing-IsTallied h before e connections c v
on_outcome-IsTallied h before (raised err) e c v =
    on_error-IsTallied h before e err c (IsKept-Tallied h before c v)

tally-on_toggled :
    (o : Outcome Bool) (loaded : Bool) (c : Coordinator) → tally (on_toggled o loaded c).1 ≡ tally c
tally-on_toggled (ok b) loaded c = refl
tally-on_toggled (raised err) loaded c = ground (arith, tally-schedule loaded c)

-- With the uids that are confirmed now.
Reachable-IsKept :
    (h : History) (c : Coordinator) → Reachable h c → IsKept h c.confirmed_orphan_uids c
unfolding init async_update_data toggle_vpn lookup distinct streak
Reachable-IsKept _ _ (initial seconds entry_id reports) = record {
  is_distinct = refl;
  counted = λ x. ground arith;
  kept = λ x i. i;
}
Reachable-IsKept _ _ (polled {h} {c} e r) =
    let v = on_outcome-IsTallied h c.confirmed_orphan_uids e.listing e c (Reachable-IsKept h c r) in
    record { is_distinct = v.is_distinct; counted = v.counted; kept = λ x i. i }
Reachable-IsKept _ _ (toggled {h} {c} answer loaded uid enable r) =
    let v = Reachable-IsKept h c r in
    let w =
      IsTallied-same h c.confirmed_orphan_uids c (toggle_vpn answer loaded uid enable c).1
        (tally-on_toggled (answer (resolve_connection_uid c uid) enable) loaded c)
        (IsKept-Tallied h c.confirmed_orphan_uids c v) in
    record { is_distinct = w.is_distinct; counted = w.counted; kept = λ x i. i }
Reachable-IsKept _ _ (stored {h} {c} d r) =
    let v = Reachable-IsKept h c r in
    record { is_distinct = v.is_distinct; counted = v.counted; kept = λ x i. i }

-- In every run, a uid that a poll confirms as removed was confirmed before the poll, or stands on
-- none of the three lists that were fetched last; a poll that fails in between does not count.
pub Reachable-confirmed :
    (h : History) (c : Coordinator) (e : Event) (uid : String)
    → Reachable h c
    → is_confirmed uid (async_update_data e c).1 ≡ true
    → (is_confirmed uid c ≡ true) ⊎ (3 ≤ streak uid (heard e h))
unfolding async_update_data
Reachable-confirmed h c e uid r i =
    let v = on_outcome-IsTallied h c.confirmed_orphan_uids e.listing e c (Reachable-IsKept h c r) in
    ground (arith, v.justified uid)
