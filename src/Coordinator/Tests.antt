-- ===== src/Coordinator/Tests.antt =====
-- Runs of the coordinator over polls that are written out.
use fritzbox_vpn.Base.{
  ℕ, suc, ◌+◌, ◌≤◌, ◌≡◌, refl, sym, ap, ◌⊎◌, true, not, ◌&&◌, none, some, List, [], ◌∷◌, lookup,
  put, pop, keys, elem, add, discard, union, difference, distinct, leb, if◌then◌else◌, arith,
}
use fritzbox_vpn.Value.{str, bool}
use fritzbox_vpn.Outcome.{Error, Outcome, ok, raised, connection_error, timeout_error}
use fritzbox_vpn.Session.Tests.{played, answer, switched_on, listing_answers}
use fritzbox_vpn.Adapter.{Reply, replied, with_https_http_fallback, ensure_client}
use fritzbox_vpn.Adapter.Calls.{adapter_get_vpn_connections}
use fritzbox_vpn.Adapter.Tests.{no_connect, no_wireguard, fallen_back}
use fritzbox_vpn.Coordinator.Published.{IsAsListed, published-IsAsListed}
use fritzbox_vpn.Coordinator.Interval.{recovery_window_seconds, recovery_max_seconds}
use fritzbox_vpn.Coordinator.State.{Coordinator, Connections, Event, updated, call, init}
use fritzbox_vpn.Coordinator.Recovery.{
  remember_connection_names, remember_names, remember_data, note_successful_poll,
}
use fritzbox_vpn.Coordinator.Uids.{
  apply_uid_remap_if_needed, forget_misses, count_misses, note_seen, track_missing_uids,
  resolve_connection_uid,
}
use fritzbox_vpn.Coordinator.Poll.{accept, on_listing, async_update_data}
use fritzbox_vpn.Coordinator.Reach.{History, heard, streak, Reachable, initial, polled}
use fritzbox_vpn.Coordinator.Window.{window, IsConsistent}
use fritzbox_vpn.Coordinator.Window.Polls.{Reachable-IsConsistent}
use fritzbox_vpn.Coordinator.Orphans.Counting.{misses, is_confirmed}
use fritzbox_vpn.Coordinator.Orphans.Tracked.{known, elem-track_missing_uids}
use fritzbox_vpn.Coordinator.Orphans.Confirmed.{Reachable-confirmed}
use fritzbox_vpn.Coordinator.Resolve.{follow, IsEnd, resolve_connection_uid-IsEnd}
use fritzbox_vpn.Coordinator.Outages.{polls, all_failed, is_outage, IsHeld, outage-IsHeld}
use fritzbox_vpn.Coordinator.Outages.Ends.{recovery_ends}
use fritzbox_vpn.Coordinator.Reauth.{of_poll, of_toggle, fail_all, reauths, reauths-fail_all}
use fritzbox_vpn.Coordinator.Answers.{IsAnswered, poll-IsAnswered}

abbrev home : Connections
home = ("a", ("name", str "Home") ∷ ("active", bool true) ∷ []) ∷ []

-- A poll at a time in nanoseconds; the registries apply every remap.
abbrev poll : ℕ → Outcome Connections → Event
poll now o = record {
  listing = o;
  first_time = now;
  second_time = now;
  entry_loaded = true;
  remap_answer = λ m. m;
}

abbrev lost : Error
lost = connection_error "Cannot connect to fritz.box"

abbrev start : Coordinator
start = init 30 (some "entry") true

Reachable-IsConsistent_example :
    IsConsistent
      (async_update_data (poll 5 (raised lost)) (async_update_data (poll 1 (ok home)) start).1).1
Reachable-IsConsistent_example =
    Reachable-IsConsistent (heard (poll 5 (raised lost)) (heard (poll 1 (ok home)) []))
      (async_update_data (poll 5 (raised lost)) (async_update_data (poll 1 (ok home)) start).1).1
      (polled (poll 5 (raised lost)) (polled (poll 1 (ok home)) (initial 30 (some "entry") true)))

-- The connection is there once, then missing twice.
abbrev twice_missing : Coordinator
twice_missing =
    (async_update_data (poll 3 (ok []))
      (async_update_data (poll 2 (ok [])) (async_update_data (poll 1 (ok home)) start).1).1).1

abbrev twice_missing_history : History
twice_missing_history = [] ∷ [] ∷ ("a" ∷ []) ∷ []

twice_missing-Reachable : Reachable twice_missing_history twice_missing
unfolding keys
twice_missing-Reachable =
    polled (poll 3 (ok []))
      (polled (poll 2 (ok [])) (polled (poll 1 (ok home)) (initial 30 (some "entry") true)))

third_confirms : is_confirmed "a" (async_update_data (poll 4 (ok [])) twice_missing).1 ≡ true
unfolding async_update_data on_listing accept track_missing_uids note_seen remember_data
    remember_connection_names remember_names forget_misses count_misses apply_uid_remap_if_needed
    note_successful_poll init call lookup put pop keys elem add discard union difference
third_confirms = refl

Reachable-confirmed_example :
    (is_confirmed "a" twice_missing ≡ true) ⊎ (3 ≤ streak "a" ([] ∷ twice_missing_history))
unfolding keys
Reachable-confirmed_example =
    Reachable-confirmed twice_missing_history twice_missing (poll 4 (ok [])) "a"
      twice_missing-Reachable third_confirms

start-IsDistinct : distinct start.seen_uids ≡ true
unfolding init distinct
start-IsDistinct = refl

elem-track_missing_uids_example : elem "a" (track_missing_uids ("b" ∷ []) start).1 ≡ (
    elem "a" (known ("b" ∷ []) start)
    && (not (elem "a" ("b" ∷ []))
        && (leb 3 (suc (misses "a" start)) && not (is_confirmed "a" start))))
elem-track_missing_uids_example = elem-track_missing_uids "a" ("b" ∷ []) start start-IsDistinct

-- `a` was remapped to `b` and back, `c` to `d`.
abbrev remapped : Coordinator
remapped = record start { uid_remap = ("a", "b") ∷ ("b", "a") ∷ ("c", "d") ∷ [] }

resolve_connection_uid-IsEnd_example :
    ((n : ℕ) × (resolve_connection_uid remapped "c" ≡ follow n remapped.uid_remap "c"))
    × IsEnd remapped.uid_remap (resolve_connection_uid remapped "c")
resolve_connection_uid-IsEnd_example = resolve_connection_uid-IsEnd remapped "c"

-- In recovery since time 5, with a connection known.
abbrev recovering : Coordinator
recovering = record start {
  seen_uids = "a" ∷ [];
  recovering_until = some 180000000005;
  recovery_started_at = some 5;
}

recovering-IsHeld : IsHeld 5 30 recovering
unfolding init
recovering-IsHeld = record { start = refl; interval = refl; recovering = refl; remembered = refl }

abbrev outage : List Event
outage = poll 6 (raised lost) ∷ poll 7 (ok []) ∷ poll 8 (raised (timeout_error "")) ∷ []

outage-IsOutage : is_outage 5 30 outage ≡ true
unfolding is_outage recovery_max_seconds recovery_window_seconds
outage-IsOutage = refl

outage-IsHeld_example :
    (all_failed (polls outage recovering).0 ≡ true) × IsHeld 5 30 (polls outage recovering).1
outage-IsHeld_example = outage-IsHeld 5 30 outage recovering recovering-IsHeld outage-IsOutage

recovering-IsConsistent : IsConsistent recovering
unfolding init
recovering-IsConsistent = record {
  is_window = record { paired = refl; bounded = omega arith; idle = λ _. refl };
  paused = λ _. refl;
}

recovery_ends_example :
    window (polls (poll 180000000005 (ok home) ∷ poll 210000000005 (ok home) ∷ []) recovering).1
    ≡ (none, none, 0)
recovery_ends_example =
    recovery_ends recovering 180000000005 (poll 180000000005 (ok home))
      (poll 210000000005 (ok home)) home home recovering-IsConsistent refl (omega arith)
      (omega arith) refl refl refl refl

abbrev refused_login : Error
refused_login = connection_error "Login failed: 401"

reauths-fail_all_example :
    reauths
      (fail_all
        (of_poll (poll 1 (ok [])) refused_login ∷ of_toggle true refused_login ∷ [])
        start).calls
    ≤ reauths start.calls + (if start.reauth_scheduled then 0 else 1)
reauths-fail_all_example =
    reauths-fail_all (of_poll (poll 1 (ok [])) refused_login ∷ of_toggle true refused_login ∷ [])
      start

poll-IsAnswered_example :
    IsAnswered refused_login start (async_update_data (poll 1 (raised refused_login)) start)
poll-IsAnswered_example = poll-IsAnswered (poll 1 (raised refused_login)) refused_login start refl

-- A poll over the adapter in its fallback mode, with one answer of the box.
abbrev no_list : played.World → Reply Connections × played.World
no_list w = (replied [], w)

adapter_listing :
    adapter_get_vpn_connections played true no_connect no_wireguard no_list
      (fallen_back, answer 200 "on" ∷ [])
    ≡ (ok switched_on, (fallen_back, []))
unfolding adapter_get_vpn_connections with_https_http_fallback ensure_client
adapter_listing = rw listing_answers refl

abbrev over_adapter : Event
over_adapter = record {
  listing = ok switched_on;
  first_time = 0;
  second_time = 0;
  entry_loaded = true;
  remap_answer = λ m. [];
}

over_adapter-publishes :
    (async_update_data over_adapter (init 30 (some "entry") true)).0 ≡ updated switched_on
unfolding async_update_data on_listing accept
over_adapter-publishes = refl

published-IsAsListed_example :
    IsAsListed played true no_connect no_wireguard no_list
      (fallen_back, answer 200 "on" ∷ [])
      switched_on
published-IsAsListed_example =
    published-IsAsListed played true no_connect no_wireguard no_list over_adapter
      (init 30 (some "entry") true) (fallen_back, answer 200 "on" ∷ []) switched_on
      (sym (ap (λ r. r.0) adapter_listing)) over_adapter-publishes
