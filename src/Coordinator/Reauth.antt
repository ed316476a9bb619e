-- ===== src/Coordinator/Reauth.antt =====
-- custom_components/fritzbox_vpn/coordinator.py: which errors ask for new credentials, and how often.
use fritzbox_vpn.Base.{
  ℕ, suc, ◌+◌, ◌≤◌, ◌≡◌, refl, ◌∙◌, inl, inr, Bool, true, false, Option, none, some, List, [], ◌∷◌,
  ◌++◌, String, if◌then◌else◌, Bool-cases, arith,
}
use fritzbox_vpn.Outcome.{
  Error, raised, timeout_error, connection_error, value_error, os_error, other_error,
}
use fritzbox_vpn.Coordinator.State.{
  Coordinator, Event, Call, invalidate_session, start_reauth, remap_connection_uids,
  orphaned_removed, present_entry, call, is_auth_error,
}
use fritzbox_vpn.Coordinator.Recovery.{
  prepare_session_for_retry, schedule_reauth, schedule_once, start_for, remember_connection_names,
  reset_orphan_miss_streaks, remember_data, arm_recovery,
}
use fritzbox_vpn.Coordinator.Poll.{on_failure, on_error, async_update_data, toggle_vpn}

unfoldable pub reauths : List Call → ℕ
reauths [] = 0
reauths (start_reauth entry_id ∷ calls) = suc (reauths calls)
reauths (invalidate_session ∷ calls) = reauths calls
reauths (remap_connection_uids entry_id m ∷ calls) = reauths calls
reauths (orphaned_removed entry_id current ∷ calls) = reauths calls

reauths-append :
    (calls : List Call) (x : Call) → reauths (calls ++ x ∷ []) ≡ reauths calls + reauths (x ∷ [])
unfolding reauths
reauths-append [] x = omega arith
reauths-append (start_reauth entry_id ∷ calls) x = ground (arith, reauths-append calls x)
reauths-append (invalidate_session ∷ calls) x = reauths-append calls x
reauths-append (remap_connection_uids entry_id m ∷ calls) x = reauths-append calls x
reauths-append (orphaned_removed entry_id current ∷ calls) x = reauths-append calls x

-- The reauthentications that were started and the one that may still be.
abbrev budget : Coordinator → ℕ
budget c = reauths c.calls + (if c.reauth_scheduled then 0 else 1)

budget-prepare :
    (err : Error) (c : Coordinator) → budget (prepare_session_for_retry err c) ≡ budget c
unfolding prepare_session_for_retry call reauths
budget-prepare err c = ground (arith, reauths-append c.calls invalidate_session)

budget-arm : (now now' : ℕ) (c : Coordinator) → budget (arm_recovery now now' c) ≡ budget c
unfolding arm_recovery remember_data remember_connection_names reset_orphan_miss_streaks
budget-arm now now' c = ground arith

budget-start :
    (o : Option String) (loaded : Bool) (c : Coordinator)
    → c.reauth_scheduled ≡ false
    → budget (start_for o loaded c) ≡ budget c
unfolding call reauths
budget-start none loaded c h = refl
budget-start (some x) false c h = refl
budget-start (some x) true c h = ground (arith, reauths-append c.calls (start_reauth x))

budget-schedule_once :
    (b loaded : Bool) (c : Coordinator)
    → c.reauth_scheduled ≡ b
    → budget (schedule_once b loaded c) ≡ budget c
budget-schedule_once true loaded c h = refl
budget-schedule_once false loaded c h = budget-start (present_entry c.entry_id) loaded c h

budget-schedule : (loaded : Bool) (c : Coordinator) → budget (schedule_reauth loaded c) ≡ budget c
unfolding schedule_reauth
budget-schedule loaded c = budget-schedule_once c.reauth_scheduled loaded c refl

budget-failure :
    (e : Event) (err : Error) (prefix : String) (c : Coordinator)
    → budget (on_failure e err prefix c).1 ≡ budget c
budget-failure e err prefix c =
    let c' = prepare_session_for_retry err c in
    elim (Bool-cases (is_auth_error err)) [
      | inl f ↦ rw f (budget-schedule e.entry_loaded c' ∙ budget-prepare err c)
      | inr f ↦ rw f (budget-arm e.first_time e.second_time c' ∙ budget-prepare err c)
    ]

budget-error : (e : Event) (err : Error) (c : Coordinator) → budget (on_error e err c).1 ≡ budget c
unfolding on_error
budget-error e (timeout_error m) c =
    budget-prepare (timeout_error m) (arm_recovery e.first_time e.second_time c)
    ∙ budget-arm e.first_time e.second_time c
budget-error e (connection_error m) c = budget-failure e (connection_error m) _ c
budget-error e (value_error m) c = budget-failure e (value_error m) _ c
budget-error e (os_error m) c = budget-failure e (os_error m) _ c
budget-error e (other_error m) c = budget-failure e (other_error m) _ c

-- Errors one after the other, of polls and of toggles.
pub data Failure : Type 0 where
  of_poll : Event → Error → Failure
  of_toggle : Bool → Error → Failure

abbrev pub fail_once : Failure → Coordinator → Coordinator
fail_once (of_poll e err) c = (async_update_data (record e { listing = raised err }) c).1
fail_once (of_toggle loaded err) c = (toggle_vpn (λ uid enable. raised err) loaded "" true c).1

unfoldable pub fail_all : List Failure → Coordinator → Coordinator
fail_all [] c = c
fail_all (f ∷ fs) c = fail_all fs (fail_once f c)

budget-once : (f : Failure) (c : Coordinator) → budget (fail_once f c) ≡ budget c
unfolding async_update_data toggle_vpn
budget-once (of_poll e err) c = budget-error (record e { listing = raised err }) err c
budget-once (of_toggle loaded err) c = elim (Bool-cases (is_auth_error err)) [
  | inl f ↦ rw f (budget-schedule loaded c)
  | inr f ↦ rw f refl
]

budget-all : (fs : List Failure) (c : Coordinator) → budget (fail_all fs c) ≡ budget c
unfolding fail_all
budget-all [] c = refl
budget-all (f ∷ fs) c = budget-all fs (fail_once f c) ∙ budget-once f c

-- However many polls and toggles fail one after the other, they start at most one reauthentication,
-- and none where one was started since the last poll that succeeded.
pub reauths-fail_all :
    (fs : List Failure) (c : Coordinator)
    → reauths (fail_all fs c).calls ≤ reauths c.calls + (if c.reauth_scheduled then 0 else 1)
reauths-fail_all fs c = ground (arith, budget-all fs c)
