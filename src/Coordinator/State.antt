-- ===== src/Coordinator/State.antt =====
-- custom_components/fritzbox_vpn/coordinator.py: the coordinator's fields, and what it asks of others.
use fritzbox_vpn.Base.{
  ℕ, Bool, false, Option, none, some, List, [], ◌∷◌, ◌++◌, String, Dict, ◌==◌, lower, contains_any,
  if◌then◌else◌,
}
use fritzbox_vpn.Value.{Payload}
use fritzbox_vpn.Outcome.{Error, Outcome, message}

abbrev pub Connections : Type 0
Connections = Dict Payload

-- The calls that the coordinator makes to its session, to Home Assistant, to the registries and to
-- the callback of its owner.
pub data Call : Type 0 where
  invalidate_session : Call
  start_reauth : String → Call
  remap_connection_uids : String → Dict String → Call
  orphaned_removed : String → List String → Call

-- `last_data` is the field `data` of the base class; a time is a reading of `time.monotonic` in nanoseconds.
pub record Coordinator : Type 0 where
  pub update_interval_seconds : ℕ
  pub entry_id : Option String
  pub reports_orphans : Bool
  pub last_data : Option Connections
  pub reauth_scheduled : Bool
  pub seen_uids : List String
  pub missing_uid_counts : Dict ℕ
  pub confirmed_orphan_uids : List String
  pub uid_names : Dict String
  pub uid_remap : Dict String
  pub recovering_until : Option ℕ
  pub recovery_started_at : Option ℕ
  pub recovery_stable_polls : ℕ
  pub calls : List Call

unfoldable pub init : ℕ → Option String → Bool → Coordinator
init seconds entry_id reports_orphans = record {
  update_interval_seconds = seconds;
  entry_id = entry_id;
  reports_orphans = reports_orphans;
  last_data = none;
  reauth_scheduled = false;
  seen_uids = [];
  missing_uid_counts = [];
  confirmed_orphan_uids = [];
  uid_names = [];
  uid_remap = [];
  recovering_until = none;
  recovery_started_at = none;
  recovery_stable_polls = 0;
  calls = [];
}

-- `self.data or {}`
abbrev pub known_data : Coordinator → Connections
known_data c = elim c.last_data [ none ↦ [] | some d ↦ d ]

-- `self.entry_id`, if it is there and not empty
abbrev pub present_entry : Option String → Option String
present_entry none = none
present_entry (some x) = if x == "" then none else some x

unfoldable pub call : Call → Coordinator → Coordinator
call x c = record c { calls = c.calls ++ x ∷ [] }

abbrev pub auth_indicators : List String
auth_indicators =
    "login failed" ∷ "authentication failed" ∷ "invalid credentials" ∷ "unauthorized"
    ∷ "access denied" ∷ []

unfoldable pub is_auth_error : Error → Bool
is_auth_error err = contains_any (lower (message err)) auth_indicators

-- What one poll meets: the listing's outcome, two readings of the clock, whether the config entry is
-- loaded, and the registries' answer to a remap.
pub record Event : Type 0 where
  pub listing : Outcome Connections
  pub first_time : ℕ
  pub second_time : ℕ
  pub entry_loaded : Bool
  pub remap_answer : Dict String → Dict String

pub data PollResult : Type 0 where
  updated : Connections → PollResult
  update_failed : Option ℕ → String → PollResult
