-- ===== src/Coordinator/Answers.antt =====
-- custom_components/fritzbox_vpn/coordinator.py: what a failed poll reports, and what it prepares.
use fritzbox_vpn.Base.{
  ℕ, suc, ◌+◌, ◌≡◌, refl, sym, subst, ap, ◌∙◌, inl, inr, Bool, true, false, not, ◌&&◌, Option, none,
  some, is_some, List, [], ◌∷◌, ◌++◌, String, if◌then◌else◌, Bool-cases, arith,
}
use fritzbox_vpn.Outcome.{
  Error, raised, timeout_error, connection_error, value_error, os_error, other_error,
}
use fritzbox_vpn.Coordinator.State.{
  Coordinator, Event, PollResult, updated, update_failed, Call, invalidate_session, start_reauth,
  remap_connection_uids, orphaned_removed, present_entry, call, is_auth_error,
}
use fritzbox_vpn.Coordinator.Recovery.{
  prepare_session_for_retry, schedule_reauth, schedule_once, start_for, remember_connection_names,
  reset_orphan_miss_streaks, remember_data, arm_recovery, first_of_times, later_of,
}
use fritzbox_vpn.Coordinator.Poll.{on_failure, on_error, on_outcome, async_update_data}

unfoldable pub invalidations : List Call → ℕ
invalidations [] = 0
invalidations (invalidate_session ∷ calls) = suc (invalidations calls)
invalidations (start_reauth entry_id ∷ calls) = invalidations calls
invalidations (remap_connection_uids entry_id m ∷ calls) = invalidations calls
invalidations (orphaned_removed entry_id current ∷ calls) = invalidations calls

invalidations-append :
    (calls : List Call) (x : Call)
    → invalidations (calls ++ x ∷ []) ≡ invalidations calls + invalidations (x ∷ [])
unfolding invalidations
invalidations-append [] x = omega arith
invalidations-append (invalidate_session ∷ calls) x = ground (arith, invalidations-append calls x)
invalidations-append (start_reauth entry_id ∷ calls) x = invalidations-append calls x
invalidations-append (remap_connection_uids entry_id m ∷ calls) x = invalidations-append calls x
invalidations-append (orphaned_removed entry_id current ∷ calls) x = invalidations-append calls x

abbrev pub is_timeout : Error → Bool
is_timeout (timeout_error m) = true
is_timeout (connection_error m) = false
is_timeout (value_error m) = false
is_timeout (os_error m) = false
is_timeout (other_error m) = false

abbrev pub retry_of : PollResult → Option ℕ
retry_of (updated connections) = none
retry_of (update_failed retry m) = retry

-- A refused login that did not time out.
abbrev pub wants_credentials : Error → Bool
wants_credentials err = is_auth_error err && not (is_timeout err)

-- The recovery after a refused login, and after any other failure.
abbrev pub IsRecovering : Bool → Coordinator → Coordinator → Type 0
IsRecovering true c c' =
    (c'.recovering_until ≡ c.recovering_until)
    × (c'.recovery_started_at ≡ c.recovery_started_at)
    × (c'.recovery_stable_polls ≡ c.recovery_stable_polls)
IsRecovering false c c' =
    (is_some c'.recovering_until ≡ true)
    × (is_some c'.recovery_started_at ≡ true)
    × (c'.recovery_stable_polls ≡ 0)

abbrev pub IsAnswered : Error → Coordinator → PollResult × Coordinator → Type 0
IsAnswered err c r =
    (retry_of r.0 ≡ (if wants_credentials err then none else some 60))
    × IsRecovering (wants_credentials err) c r.1
    × (invalidations r.1.calls ≡ invalidations c.calls + (if is_auth_error err then 0 else 1))

prepare-invalidations :
    (err : Error) (c : Coordinator)
    → invalidations (prepare_session_for_retry err c).calls
      ≡ invalidations c.calls + (if is_auth_error err then 0 else 1)
unfolding prepare_session_for_retry call invalidations
prepare-invalidations err c = ground (arith, invalidations-append c.calls invalidate_session)

arm-invalidations : (now now' : ℕ) (c : Coordinator) → (arm_recovery now now' c).calls ≡ c.calls
unfolding arm_recovery remember_data remember_connection_names reset_orphan_miss_streaks
arm-invalidations now now' c = ground arith

-- The window of a recovery that has just begun, or goes on.
abbrev IsArmed : Coordinator → Type 0
IsArmed c' =
    (is_some c'.recovering_until ≡ true)
    × (is_some c'.recovery_started_at ≡ true)
    × (c'.recovery_stable_polls ≡ 0)

-- The three fields of the window are as before.
abbrev IsSameWindow : Coordinator → Coordinator → Type 0
IsSameWindow c c' =
    (c'.recovering_until ≡ c.recovering_until)
    × (c'.recovery_started_at ≡ c.recovery_started_at)
    × (c'.recovery_stable_polls ≡ c.recovery_stable_polls)

same-IsSameWindow : (a b c : Coordinator) → IsSameWindow a b → IsSameWindow b c → IsSameWindow a c
same-IsSameWindow a b c (u, s, n) (u', s', n') = (u' ∙ u, s' ∙ s, n' ∙ n)

same-IsArmed : (a b : Coordinator) → IsArmed a → IsSameWindow a b → IsArmed b
same-IsArmed a b (u, s, n) (u', s', n') = (ap is_some u' ∙ u, ap is_some s' ∙ s, n' ∙ n)

started-is_some : (o : Option ℕ) (n : ℕ) → is_some (first_of_times o n) ≡ true
started-is_some none n = refl
started-is_some (some m) n = refl

deadline-is_some : (o : Option ℕ) (n : ℕ) → is_some (later_of o n) ≡ true
deadline-is_some none n = refl
deadline-is_some (some m) n = ground arith

arm-IsArmed : (now now' : ℕ) (c : Coordinator) → IsArmed (arm_recovery now now' c)
unfolding arm_recovery reset_orphan_miss_streaks
arm-IsArmed now now' c =
    let c' = remember_data c in
    (deadline-is_some c'.recovering_until _, started-is_some c'.recovery_started_at now', refl)

prepare-IsSameWindow :
    (err : Error) (c : Coordinator) → IsSameWindow c (prepare_session_for_retry err c)
unfolding prepare_session_for_retry call
prepare-IsSameWindow err c = elim (Bool-cases (is_auth_error err)) [
  | inl e ↦ rw e (refl, refl, refl)
  | inr e ↦ rw e (refl, refl, refl)
]

start-IsQuiet :
    (o : Option String) (loaded : Bool) (c : Coordinator)
    → IsSameWindow c (start_for o loaded c)
      × (invalidations (start_for o loaded c).calls ≡ invalidations c.calls)
unfolding call invalidations
start-IsQuiet none loaded c = ((refl, refl, refl), refl)
start-IsQuiet (some x) false c = ((refl, refl, refl), refl)
start-IsQuiet (some x) true c =
    ((refl, refl, refl), ground (arith, invalidations-append c.calls (start_reauth x)))

schedule_once-IsQuiet :
    (b loaded : Bool) (c : Coordinator)
    → IsSameWindow c (schedule_once b loaded c)
      × (invalidations (schedule_once b loaded c).calls ≡ invalidations c.calls)
schedule_once-IsQuiet true loaded c = ((refl, refl, refl), refl)
schedule_once-IsQuiet false loaded c = start-IsQuiet (present_entry c.entry_id) loaded c

failure-IsAnswered :
    (e : Event) (err : Error) (prefix : String) (c : Coordinator)
    → is_timeout err ≡ false
    → IsAnswered err c (on_failure e err prefix c)
unfolding schedule_reauth
failure-IsAnswered e err prefix c t =
    let c' = prepare_session_for_retry err c in
    elim (Bool-cases (is_auth_error err)) [
      | inl f ↦
          let (a, b) = schedule_once-IsQuiet c'.reauth_scheduled e.entry_loaded c' in
          (
            ground (arith, f, t),
            rw (f, t)
                (same-IsSameWindow c c' (schedule_once c'.reauth_scheduled e.entry_loaded c')
                  (prepare-IsSameWindow err c) a),
            ground (arith, f, t, b, prepare-invalidations err c),
          )
      | inr f ↦ (
        ground (arith, f, t),
        rw f (arm-IsArmed e.first_time e.second_time c'),
        ground (
          arith,
          f,
          t,
          arm-invalidations e.first_time e.second_time c',
          prepare-invalidations err c,
        ),
      )
    ]

timeout-IsAnswered :
    (e : Event) (m : String) (c : Coordinator)
    → IsAnswered (timeout_error m) c (on_error e (timeout_error m) c)
unfolding on_error
timeout-IsAnswered e m c =
    let c' = arm_recovery e.first_time e.second_time c in
    (
      ground arith,
      subst (λ b. IsRecovering b c (prepare_session_for_retry (timeout_error m) c'))
          (sym (unwanted (is_auth_error (timeout_error m))))
          (same-IsArmed c' (prepare_session_for_retry (timeout_error m) c')
            (arm-IsArmed e.first_time e.second_time c) (prepare-IsSameWindow (timeout_error m) c')),
      ground (
        arith,
        arm-invalidations e.first_time e.second_time c,
        prepare-invalidations (timeout_error m) c',
      ),
    )
  where
    unwanted : (b : Bool) → (b && false) ≡ false
    unwanted b = ground arith

error-IsAnswered : (e : Event) (err : Error) (c : Coordinator) → IsAnswered err c (on_error e err c)
unfolding on_error
error-IsAnswered e (timeout_error m) c = timeout-IsAnswered e m c
error-IsAnswered e (connection_error m) c = failure-IsAnswered e (connection_error m) _ c refl
error-IsAnswered e (value_error m) c = failure-IsAnswered e (value_error m) _ c refl
error-IsAnswered e (os_error m) c = failure-IsAnswered e (os_error m) _ c refl
error-IsAnswered e (other_error m) c = failure-IsAnswered e (other_error m) _ c refl

-- A poll whose listing raises asks for a retry after 60 seconds and leaves the coordinator in recovery,
-- with a deadline, a start and no stable poll counted, unless a login was refused and nothing timed
-- out: then it asks for no retry, and the deadline, the start and the count of stable polls are as
-- before. The session is invalidated once, unless the text of the error says that a login was refused.
pub poll-IsAnswered :
    (e : Event) (err : Error) (c : Coordinator)
    → e.listing ≡ raised err
    → IsAnswered err c (async_update_data e c)
unfolding async_update_data
poll-IsAnswered e err c h =
    subst (λ o. IsAnswered err c (on_outcome o e c)) (sym h) (error-IsAnswered e err c)
