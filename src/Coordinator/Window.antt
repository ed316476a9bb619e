-- ===== src/Coordinator/Window.antt =====
-- custom_components/fritzbox_vpn/coordinator.py: the recovery window and what changes it.
use fritzbox_vpn.Base.{
  ℕ, suc, ◌<◌, ◌≡◌, refl, sym, ap, ◌∙◌, inl, inr, Bool, true, false, not, ◌&&◌, ◌||◌, Option, none,
  some, is_some, List, [], ◌∷◌, String, Dict, is_empty, ltb, leb, if◌then◌else◌, keys, difference,
  Bool-cases, Option-cases, arith,
}
use fritzbox_vpn.Outcome.{
  Error, Outcome, ok, raised, timeout_error, connection_error, value_error, os_error, other_error,
}
use fritzbox_vpn.UidIdentity.{Remap, mapping, refused, name_bijection_uid_remap}
use fritzbox_vpn.Coordinator.State.{
  remap_connection_uids, Coordinator, Connections, Event, PollResult, call, known_data,
  present_entry, is_auth_error, init,
}
use fritzbox_vpn.Coordinator.Recovery.{
  prepare_session_for_retry, schedule_reauth, remember_connection_names, reset_orphan_miss_streaks,
  remember_data, in_recovery, arm_recovery, clear_recovery, recovery_max_elapsed, note_poll,
  note_successful_poll, recovery_stable_polls_needed,
}
use fritzbox_vpn.Coordinator.Uids.{
  apply_one, apply_remap, apply_uid_remap_if_needed, forget_misses, count_misses, note_seen,
  remap_by, remap_for, track_missing_uids,
}
use fritzbox_vpn.Coordinator.Poll.{
  suspicious, report, pause_tracking, track, accept, refuse_empty, on_listing, on_failure, on_error,
  async_update_data,
}
pub mod Polls

-- What a window of recovery is made of.
abbrev pub window : Coordinator → Option ℕ × Option ℕ × ℕ
window c = (c.recovering_until, c.recovery_started_at, c.recovery_stable_polls)

pub record IsWindow (c : Coordinator) : Type 0 where
  pub paired : is_some c.recovering_until ≡ is_some c.recovery_started_at
  pub bounded : c.recovery_stable_polls < recovery_stable_polls_needed
  pub idle : is_some c.recovering_until ≡ false → c.recovery_stable_polls ≡ 0

-- The window has a start exactly when it has an end, fewer stable polls are counted than end it and
-- none outside it, and no miss is counted inside it.
pub record IsConsistent (c : Coordinator) : Type 0 where
  pub is_window : IsWindow c
  pub paused : is_some c.recovering_until ≡ true → c.missing_uid_counts ≡ []

pub IsWindow-same : (c d : Coordinator) → window d ≡ window c → IsWindow c → IsWindow d
IsWindow-same c d e v = ground (arith, v.idle)

pub window-remember_data : (c : Coordinator) → window (remember_data c) ≡ window c
unfolding remember_data
window-remember_data c = ground arith

pub missing-remember_data :
    (c : Coordinator) → (remember_data c).missing_uid_counts ≡ c.missing_uid_counts
unfolding remember_data
missing-remember_data c = ground arith

window-apply_remap :
    (connections : Connections) (applied : Dict String) (c : Coordinator)
    → window (apply_remap connections applied c) ≡ window c
unfolding apply_remap apply_one
window-apply_remap connections [] c = refl
window-apply_remap connections ((old, new) ∷ applied) c =
    window-apply_remap connections applied (apply_one connections old new c)

window-forget_misses :
    (uids : List String) (c : Coordinator) → window (forget_misses uids c) ≡ window c
unfolding forget_misses
window-forget_misses [] c = refl
window-forget_misses (uid ∷ uids) c = window-forget_misses uids _

window-count_misses :
    (uids : List String) (c : Coordinator) (newly : List String)
    → window (count_misses uids c newly).0 ≡ window c
unfolding count_misses
window-count_misses [] c newly = refl
window-count_misses (uid ∷ uids) c newly = window-count_misses uids _ _

window-note_seen :
    (current : List String) (c : Coordinator) → window (note_seen current c) ≡ window c
unfolding note_seen
window-note_seen current c = window-remember_data c

pub window-track_missing_uids :
    (current : List String) (c : Coordinator) → window (track_missing_uids current c).0 ≡ window c
unfolding track_missing_uids
window-track_missing_uids current c =
    let c' = forget_misses current (note_seen current c) in
    window-count_misses (difference c'.seen_uids current) c' []
    ∙ window-forget_misses current (note_seen current c)
    ∙ window-note_seen current c

window-remap_by :
    (answer : Dict String → Dict String) (entry_id : String) (connections : Connections) (r : Remap)
    (c : Coordinator)
    → window (remap_by answer entry_id connections r c) ≡ window c
unfolding call
window-remap_by answer entry_id connections (refused reason) c = refl
window-remap_by answer entry_id connections (mapping m) c =
    window-apply_remap connections (answer m) (call (remap_connection_uids entry_id m) c)

window-remap_for :
    (answer : Dict String → Dict String) (entry_id : Option String) (connections : Connections)
    (c : Coordinator)
    → window (remap_for answer entry_id connections c) ≡ window c
window-remap_for answer none connections c = refl
window-remap_for answer (some entry_id) connections c =
    let removed = difference c.seen_uids (keys connections) in
    let added = difference (keys connections) c.seen_uids in
    elim (Bool-cases (is_empty removed || is_empty added)) [
      | inl e ↦ rw e
      | inr e ↦ rw e (
          window-remap_by answer entry_id connections
            (name_bijection_uid_remap removed added c.uid_names connections) c)
    ]

pub window-remap :
    (answer : Dict String → Dict String) (connections : Connections) (c : Coordinator)
    → window (apply_uid_remap_if_needed answer connections c) ≡ window c
unfolding apply_uid_remap_if_needed
window-remap answer connections c =
    elim (Bool-cases (not (in_recovery c) || is_empty connections)) [
      | inl e ↦ rw e
      | inr e ↦ rw e (window-remap_for answer (present_entry c.entry_id) connections c)
    ]

pub track-IsConsistent :
    (current : List String) (c : Coordinator) → IsWindow c → IsConsistent (track current c).0
unfolding pause_tracking reset_orphan_miss_streaks
track-IsConsistent current c v = elim (Bool-cases (in_recovery c)) [
  | inl e ↦ rw e (record {
    is_window = record { paired = v.paired; bounded = v.bounded; idle = v.idle };
    paused = λ _. refl;
  })
  | inr e ↦ rw e (record {
    is_window = IsWindow-same c _ (window-track_missing_uids current c) v;
    paused = λ h. ground (arith, window-track_missing_uids current c);
  })
]

pub report-IsConsistent :
    (entry_id : Option String) (current newly : List String) (c : Coordinator)
    → IsConsistent c
    → IsConsistent (report entry_id current newly c)
unfolding call
report-IsConsistent none current newly c v = v
report-IsConsistent (some x) current newly c v =
    elim (Bool-cases (c.reports_orphans && not (is_empty newly))) [
      | inl e ↦ rw e (record {
        is_window = record {
          paired = v.is_window.paired;
          bounded = v.is_window.bounded;
          idle = v.is_window.idle;
        };
        paused = v.paused;
      })
      | inr e ↦ rw e v
    ]

note_poll-IsConsistent :
    (o : Option ℕ) (now : ℕ) (connections : Connections) (c : Coordinator)
    → o ≡ c.recovering_until
    → IsConsistent c
    → IsConsistent (record (note_poll o now connections c) { reauth_scheduled = false })
unfolding clear_recovery
note_poll-IsConsistent none now connections c e v = record {
  is_window = record {
    paired = v.is_window.paired;
    bounded = v.is_window.bounded;
    idle = v.is_window.idle;
  };
  paused = v.paused;
}
note_poll-IsConsistent (some until) now connections c e v =
    elim (Bool-cases (is_empty connections || ltb now until)) [
      | inl f ↦ rw f (record {
        is_window = record { paired = v.is_window.paired; bounded = omega arith; idle = λ _. refl };
        paused = v.paused;
      })
      | inr f ↦
          rw f (elim (Bool-cases (leb recovery_stable_polls_needed (suc c.recovery_stable_polls))) [
            | inl g ↦ rw g (record {
              is_window = record { paired = refl; bounded = omega arith; idle = λ _. refl };
              paused = λ h. v.paused (ap is_some (sym e));
            })
            | inr g ↦ rw g (record {
              is_window = record {
                paired = v.is_window.paired;
                bounded = ground arith;
                idle = λ h. ground arith;
              };
              paused = v.paused;
            })
          ])
    ]

pub note-IsConsistent :
    (now : ℕ) (connections : Connections) (c : Coordinator)
    → IsConsistent c
    → IsConsistent (record (note_successful_poll now connections c) { reauth_scheduled = false })
unfolding note_successful_poll
note-IsConsistent now connections c v =
    note_poll-IsConsistent c.recovering_until now connections c refl v
