-- ===== src/Coordinator/Outages.antt =====
-- custom_components/fritzbox_vpn/coordinator.py: a run of polls through an outage.
use fritzbox_vpn.Base.{
  ℕ, suc, ◌+◌, ◌*◌, ◌≤◌, ◌<◌, ◌≡◌, refl, sym, ◌∙◌, inl, inr, Bool, true, false, not, ◌&&◌, ◌||◌,
  Option, none, some, is_some, List, [], ◌∷◌, ◌++◌, String, keys, union, is_empty, ltb, leb,
  if◌then◌else◌, Bool-cases, arith,
}
use fritzbox_vpn.Outcome.{
  Error, Outcome, ok, raised, timeout_error, connection_error, value_error, os_error, other_error,
}
use fritzbox_vpn.Coordinator.Interval.{recovery_max_seconds}
use fritzbox_vpn.Coordinator.State.{
  Coordinator, Connections, Event, PollResult, updated, update_failed, known_data, present_entry,
  call, is_auth_error,
}
use fritzbox_vpn.Coordinator.Recovery.{
  second, prepare_session_for_retry, schedule_reauth, schedule_once, start_for,
  remember_connection_names, reset_orphan_miss_streaks, remember_data, arm_recovery,
  recovery_max_elapsed,
}
use fritzbox_vpn.Coordinator.Poll.{
  refuse_empty, on_listing, on_failure, on_error, on_outcome, async_update_data,
}
pub mod Ends

-- Polls one after the other, with their results.
unfoldable pub polls : List Event → Coordinator → List PollResult × Coordinator
polls [] c = ([], c)
polls (e ∷ es) c = let (r, c₁) = async_update_data e c in let (rs, c₂) = polls es c₁ in (r ∷ rs, c₂)

unfoldable pub all_failed : List PollResult → Bool
all_failed [] = true
all_failed (updated connections ∷ rs) = false
all_failed (update_failed retry m ∷ rs) = all_failed rs

abbrev pub is_outage_outcome : ℕ → ℕ → Outcome Connections → ℕ → Bool
is_outage_outcome started seconds (raised err) now = true
is_outage_outcome started seconds (ok connections) now =
    is_empty connections && ltb now (started + recovery_max_seconds seconds * second)

-- Polls that fail, or that fetch an empty list within the hard limit after `started`.
unfoldable pub is_outage : ℕ → ℕ → List Event → Bool
is_outage started seconds [] = true
is_outage started seconds (e ∷ es) =
    is_outage_outcome started seconds e.listing e.first_time && is_outage started seconds es

-- In recovery since `started`, with connections known from before.
pub record IsHeld (started seconds : ℕ) (c : Coordinator) : Type 0 where
  pub start : c.recovery_started_at ≡ some started
  pub interval : c.update_interval_seconds ≡ seconds
  pub recovering : is_some c.recovering_until ≡ true
  pub remembered : (is_empty c.seen_uids && is_empty (known_data c)) ≡ false

module _ (started seconds : ℕ) where
  IsHeld-arm :
      (now now' : ℕ) (c : Coordinator)
      → IsHeld started seconds c
      → IsHeld started seconds (arm_recovery now now' c)
  unfolding arm_recovery remember_data remember_connection_names reset_orphan_miss_streaks
  IsHeld-arm now now' c v = record {
    start = ground (arith, v.start);
    interval = ground (arith, v.interval);
    recovering = ground arith;
    remembered = ground (arith, v.remembered);
  }

  IsHeld-prepare :
      (err : Error) (c : Coordinator)
      → IsHeld started seconds c
      → IsHeld started seconds (prepare_session_for_retry err c)
  unfolding prepare_session_for_retry call
  IsHeld-prepare err c v = record {
    start = ground (arith, v.start);
    interval = ground (arith, v.interval);
    recovering = ground (arith, v.recovering);
    remembered = ground (arith, v.remembered);
  }

  IsHeld-start :
      (o : Option String) (loaded : Bool) (c : Coordinator)
      → IsHeld started seconds c
      → IsHeld started seconds (start_for o loaded c)
  unfolding call
  IsHeld-start none loaded c v = v
  IsHeld-start (some x) false c v = v
  IsHeld-start (some x) true c v = record {
    start = v.start;
    interval = v.interval;
    recovering = v.recovering;
    remembered = v.remembered;
  }

  IsHeld-schedule_once :
      (b loaded : Bool) (c : Coordinator)
      → IsHeld started seconds c
      → IsHeld started seconds (schedule_once b loaded c)
  IsHeld-schedule_once true loaded c v = v
  IsHeld-schedule_once false loaded c v = IsHeld-start (present_entry c.entry_id) loaded c v

  IsHeld-failure :
      (e : Event) (err : Error) (prefix : String) (c : Coordinator)
      → IsHeld started seconds c
      → IsHeld started seconds (on_failure e err prefix c).1
  unfolding schedule_reauth
  IsHeld-failure e err prefix c v =
      let c' = prepare_session_for_retry err c in
      elim (Bool-cases (is_auth_error err)) [
        | inl f ↦
            rw f
              (IsHeld-schedule_once c'.reauth_scheduled e.entry_loaded c' (IsHeld-prepare err c v))
        | inr f ↦ rw f (IsHeld-arm e.first_time e.second_time c' (IsHeld-prepare err c v))
      ]

  IsHeld-error :
      (e : Event) (err : Error) (c : Coordinator)
      → IsHeld started seconds c
      → IsHeld started seconds (on_error e err c).1
  unfolding on_error
  IsHeld-error e (timeout_error m) c v =
      IsHeld-prepare (timeout_error m) (arm_recovery e.first_time e.second_time c)
        (IsHeld-arm e.first_time e.second_time c v)
  IsHeld-error e (connection_error m) c v = IsHeld-failure e (connection_error m) _ c v
  IsHeld-error e (value_error m) c v = IsHeld-failure e (value_error m) _ c v
  IsHeld-error e (os_error m) c v = IsHeld-failure e (os_error m) _ c v
  IsHeld-error e (other_error m) c v = IsHeld-failure e (other_error m) _ c v

  fails-failure :
      (e : Event) (err : Error) (prefix : String) (c : Coordinator) (rs : List PollResult)
      → all_failed ((on_failure e err prefix c).0 ∷ rs) ≡ all_failed rs
  unfolding all_failed
  fails-failure e err prefix c rs = elim (Bool-cases (is_auth_error err)) [
    | inl f ↦ rw f refl
    | inr f ↦ rw f refl
  ]

  fails-error :
      (e : Event) (err : Error) (c : Coordinator) (rs : List PollResult)
      → all_failed ((on_error e err c).0 ∷ rs) ≡ all_failed rs
  unfolding on_error all_failed
  fails-error e (timeout_error m) c rs = refl
  fails-error e (connection_error m) c rs = fails-failure e (connection_error m) _ c rs
  fails-error e (value_error m) c rs = fails-failure e (value_error m) _ c rs
  fails-error e (os_error m) c rs = fails-failure e (os_error m) _ c rs
  fails-error e (other_error m) c rs = fails-failure e (other_error m) _ c rs

  refuses :
      (e : Event) (c : Coordinator)
      → IsHeld started seconds c
      → ltb e.first_time (started + recovery_max_seconds seconds * second) ≡ true
      → on_listing e [] c ≡ refuse_empty c
  unfolding on_listing recovery_max_elapsed
  refuses e c v h = ground (arith, v.start, v.interval, v.recovering, v.remembered)

  one_poll :
      (o : Outcome Connections) (e : Event) (c : Coordinator)
      → IsHeld started seconds c
      → is_outage_outcome started seconds o e.first_time ≡ true
      → ((rs : List PollResult) → all_failed ((on_outcome o e c).0 ∷ rs) ≡ all_failed rs)
        × IsHeld started seconds (on_outcome o e c).1
  unfolding refuse_empty all_failed reset_orphan_miss_streaks
  one_poll (raised err) e c v h = (fails-error e err c, IsHeld-error e err c v)
  one_poll (ok (x ∷ xs)) e c v h = ground arith
  one_poll (ok []) e c v h = rw (refuses e c v h) (
    (λ rs. refl),
    record {
      start = v.start;
      interval = v.interval;
      recovering = v.recovering;
      remembered = v.remembered;
    },
  )

  -- In recovery with connections known, an outage drops none of them: however many polls fail or fetch
  -- an empty list before the hard limit, each of them ends in an error and none in a new list, and
  -- afterwards the coordinator is in recovery since the same time, still with connections known.
  pub outage-IsHeld :
      (es : List Event) (c : Coordinator)
      → IsHeld started seconds c
      → is_outage started seconds es ≡ true
      → (all_failed (polls es c).0 ≡ true) × IsHeld started seconds (polls es c).1
  unfolding polls is_outage all_failed async_update_data
  outage-IsHeld [] c v h = (refl, v)
  outage-IsHeld (e ∷ es) c v h =
      let (f, w) = one_poll e.listing e c v (ground arith) in
      let (g, u) = outage-IsHeld es (async_update_data e c).1 w (ground arith) in
      (f (polls es (async_update_data e c).1).0 ∙ g, u)
