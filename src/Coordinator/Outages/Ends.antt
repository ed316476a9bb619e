-- ===== src/Coordinator/Outages/Ends.antt =====
-- custom_components/fritzbox_vpn/coordinator.py: the end of a recovery.
use fritzbox_vpn.Base.{
  ℕ, suc, ◌≤◌, ◌≡◌, refl, ap, ◌∙◌, inl, inr, false, Option, none, some, List, [], ◌∷◌, String, keys,
  is_empty, leb, if◌then◌else◌, Bool-cases, arith,
}
use fritzbox_vpn.Outcome.{Outcome, ok}
use fritzbox_vpn.Coordinator.State.{Coordinator, Connections, Event, present_entry, call}
use fritzbox_vpn.Coordinator.Recovery.{
  remember_connection_names, reset_orphan_miss_streaks, in_recovery, clear_recovery, note_poll,
  note_successful_poll,
}
use fritzbox_vpn.Coordinator.Uids.{apply_uid_remap_if_needed}
use fritzbox_vpn.Coordinator.Poll.{
  report, pause_tracking, track, accept, on_listing, on_outcome, async_update_data,
}
use fritzbox_vpn.Coordinator.Window.{window, window-remap, window-track_missing_uids, IsConsistent}
use fritzbox_vpn.Coordinator.Outages.{polls}

window-track : (current : List String) (c : Coordinator) → window (track current c).0 ≡ window c
unfolding pause_tracking reset_orphan_miss_streaks
window-track current c = elim (Bool-cases (in_recovery c)) [
  | inl e ↦ rw e refl
  | inr e ↦ rw e (window-track_missing_uids current c)
]

window-report :
    (o : Option String) (current newly : List String) (c : Coordinator)
    → window (report o current newly c) ≡ window c
unfolding call
window-report none current newly c = refl
window-report (some x) current newly c = ground arith

window-note :
    (o p : Option ℕ) (now : ℕ) (connections : Connections) (c d : Coordinator)
    → o ≡ p
    → window c ≡ window d
    → window (note_poll o now connections c) ≡ window (note_poll p now connections d)
unfolding clear_recovery
window-note none none now connections c d e w = w
window-note none (some u) now connections c d e w = ground arith
window-note (some u) none now connections c d e w = ground arith
window-note (some u) (some u') now connections c d e w = ground arith

-- Of the window, accepting a list does what counting the poll does.
pub window-accept :
    (e : Event) (connections : Connections) (c : Coordinator)
    → window (accept e connections c).1
      ≡ window (note_poll c.recovering_until e.second_time connections c)
unfolding accept remember_connection_names note_successful_poll
window-accept e connections c =
    let current = keys connections in
    let c' = remember_connection_names connections c in
    let c₀ = apply_uid_remap_if_needed e.remap_answer connections c' in
    let r = track current c₀ in
    let c₂ = report (present_entry r.0.entry_id) current r.1 r.0 in
    let w : window c₂ ≡ window c =
      window-report (present_entry r.0.entry_id) current r.1 r.0
      ∙ window-track current c₀
      ∙ window-remap e.remap_answer connections c' in
    window-note c₂.recovering_until c.recovering_until e.second_time connections c₂ c
      (ap (λ x. x.0) w) w

window-listing :
    (e : Event) (connections : Connections) (c : Coordinator)
    → is_empty connections ≡ false
    → window (on_listing e connections c).1
      ≡ window (note_poll c.recovering_until e.second_time connections c)
unfolding on_listing
window-listing e connections c h = rw h (window-accept e connections c)

window-polled :
    (o : Outcome Connections) (e : Event) (connections : Connections) (c : Coordinator)
    → o ≡ ok connections
    → is_empty connections ≡ false
    → window (on_outcome o e c).1
      ≡ window (note_poll c.recovering_until e.second_time connections c)
window-polled o e connections c h n = rw h (window-listing e connections c n)

stable_poll :
    (o : Option ℕ) (until now : ℕ) (connections : Connections) (c : Coordinator)
    → o ≡ some until
    → until ≤ now
    → is_empty connections ≡ false
    → window (note_poll o now connections c) ≡ (
        if leb 2 (suc c.recovery_stable_polls)
        then (none, none, 0)
        else (c.recovering_until, c.recovery_started_at, suc c.recovery_stable_polls))
unfolding clear_recovery
stable_poll none until now connections c h t n = ground arith
stable_poll (some u) until now connections c h t n = ground arith

no_window :
    (o : Option ℕ) (now : ℕ) (connections : Connections) (c : Coordinator)
    → o ≡ none
    → window (note_poll o now connections c) ≡ window c
no_window none now connections c h = refl
no_window (some u) now connections c h = ground arith

-- On a consistent coordinator in recovery, two polls in succession that fetch connections once the
-- deadline is over end the recovery: no deadline, no start and no stable poll is left.
pub recovery_ends :
    (c : Coordinator) (until : ℕ) (e e' : Event) (connections connections' : Connections)
    → IsConsistent c
    → c.recovering_until ≡ some until
    → until ≤ e.second_time
    → until ≤ e'.second_time
    → e.listing ≡ ok connections
    → e'.listing ≡ ok connections'
    → is_empty connections ≡ false
    → is_empty connections' ≡ false
    → window (polls (e ∷ e' ∷ []) c).1 ≡ (none, none, 0)
unfolding polls async_update_data clear_recovery
recovery_ends c until e e' connections connections' v u t t' l l' n n' =
    let c₁ = (on_outcome e.listing e c).1 in
    let first = window-polled e.listing e connections c l n in
    let again = window-polled e'.listing e' connections' c₁ l' n' in
    let step = stable_poll c.recovering_until until e.second_time connections c u t n in
    again ∙ elim (Bool-cases (leb 2 (suc c.recovery_stable_polls))) [
      | inl f ↦
          let w : window c₁ ≡ (none, none, 0) = ground (arith, first, step) in
          no_window c₁.recovering_until e'.second_time connections' c₁ (ap (λ x. x.0) w) ∙ w
      | inr f ↦
          let w : window c₁ ≡ (some until, c.recovery_started_at, 1) =
            ground (arith, first, step) in
          stable_poll c₁.recovering_until until e'.second_time connections' c₁ (ap (λ x. x.0) w) t'
            n'
          ∙ ground (arith, w)
    ]
