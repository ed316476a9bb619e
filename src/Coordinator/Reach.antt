-- ===== src/Coordinator/Reach.antt =====
-- custom_components/fritzbox_vpn/coordinator.py: the coordinators that a program run reaches.
use fritzbox_vpn.Base.{ℕ, suc, Bool, Option, List, [], ◌∷◌, String, keys, elem, if◌then◌else◌}
use fritzbox_vpn.Outcome.{Outcome, ok, raised}
use fritzbox_vpn.Coordinator.State.{Coordinator, Connections, Event, init}
use fritzbox_vpn.Coordinator.Poll.{async_update_data, toggle_vpn}

-- The uids of each list that was fetched, the newest first.
abbrev pub History : Type 0
History = List (List String)

abbrev pub heard_of : Outcome Connections → History → History
heard_of (ok connections) h = keys connections ∷ h
heard_of (raised err) h = h

abbrev pub heard : Event → History → History
heard e h = heard_of e.listing h

-- In how many of the newest lists running `uid` is missing.
unfoldable pub streak : String → History → ℕ
streak uid [] = 0
streak uid (current ∷ h) = let rest = streak uid h in if elem uid current then 0 else suc rest

-- Polls and toggles in any order. The base class may set `data` between them, to anything.
pub data Reachable : History → Coordinator → Type 0 where
  initial :
      (seconds : ℕ) (entry_id : Option String) (reports : Bool)
      → Reachable [] (init seconds entry_id reports)
  polled :
      {h : History} {c : Coordinator} (e : Event)
      → Reachable h c
      → Reachable (heard e h) (async_update_data e c).1
  toggled :
      {h : History} {c : Coordinator} (answer : String → Bool → Outcome Bool) (loaded : Bool)
      (uid : String) (enable : Bool)
      → Reachable h c
      → Reachable h (toggle_vpn answer loaded uid enable c).1
  stored :
      {h : History} {c : Coordinator} (d : Option Connections)
      → Reachable h c
      → Reachable h (record c { last_data = d })
