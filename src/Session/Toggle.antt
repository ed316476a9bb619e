-- ===== src/Session/Toggle.antt =====
-- fritzboxvpn/fritzboxvpn/session.py: switching a connection on or off.
pub mod Verified
use fritzbox_vpn.Base.{
  ℕ, Bool, true, false, not, Option, none, some, List, [], ◌∷◌, String, Dict, ◌==◌, ◌⊕◌, lookup,
  nat_eq, if◌then◌else◌, get_or,
}
use fritzbox_vpn.Value.{Value, bool, num, float, pos, Payload, or_null, truthy, to_str}
use fritzbox_vpn.Outcome.{Error, Outcome, ok, return, raise, lift, attempt, ◌>>=◌, ◌>>◌}
use fritzbox_vpn.Session.State.{
  Transport, Session, Action, Request, Response, put_method, json, gets, modify, request, wait,
  base_url, rest_headers, invalidate_session,
}
use fritzbox_vpn.Session.Login.{async_get_session}
use fritzbox_vpn.Session.Listing.{Connections, async_get_vpn_connections}

abbrev bool_eq : Bool → Bool → Bool
bool_eq true b = b
bool_eq false b = not b

-- `v == b`: `True` and `False` are the numbers 1 and 0.
abbrev pub equals_bool : Value → Bool → Bool
equals_bool (bool a) b = bool_eq a b
equals_bool (num (pos n)) b = if b then nat_eq n 1 else nat_eq n 0
equals_bool (float _ s) b = if b then s == "1.0" else (if s == "0.0" then true else s == "-0.0")
equals_bool _ b = false

-- `conn.get("active", False)`
abbrev pub active_value : Payload → Value
active_value conn = get_or (lookup "active" conn) (bool false)

unfoldable pub put_request : Session → String → Value → Bool → Request
put_request s sid vpn_uid enable = record {
  method = put_method;
  url = base_url s ⊕ "/api/v0/generic/vpn/connection/" ⊕ to_str vpn_uid;
  body = json (("activated", num (pos (if enable then 1 else 0))) ∷ []);
  headers = rest_headers s sid true;
}

module _ (t : Transport) where
  -- The check after the PUT.
  abbrev pub verified : Option Payload → Bool → Bool
  verified none enable = false
  verified (some conn) enable = equals_bool (active_value conn) enable

  abbrev pub after_put : Option (Action t Bool) → String → Bool → Response → Action t Bool
  after_put again uid enable response =
      let retry : Action t Bool = elim again [ none ↦ return false | some m ↦ m ] in
      let is_expired : Bool = elim again [ none ↦ false | some _ ↦ nat_eq response.status 403 ] in
      if is_expired
      then (do modify t invalidate_session; retry)
      else if not (nat_eq response.status 200)
      then (do lift response.body; return false)
      else (do
        wait t 1500
        connections ← async_get_vpn_connections t
        return (verified (lookup uid connections) enable))

  -- The PUT and its verification: whatever is raised there ends as `False`.
  unfoldable pub put_activated : Option (Action t Bool) → String → Value → Bool → Action t Bool
  unfolding gets modify request wait
  put_activated again uid vpn_uid enable = do
    sid ← async_get_session t
    put ← gets t (λ s. put_request s sid vpn_uid enable)
    attempt (do response ← request t put; after_put again uid enable response) (λ err. return false)

  abbrev pub switch_found : Option (Action t Bool) → String → Bool → Option Payload → Action t Bool
  switch_found again uid enable none = return false
  switch_found again uid enable (some conn) =
      let vpn_uid = or_null (lookup "uid" conn) in
      if not (truthy vpn_uid)
      then return false
      else if equals_bool (active_value conn) enable
      then return true
      else put_activated again uid vpn_uid enable

  -- `again` is the call to make after a 403, if one may be made.
  unfoldable pub toggle_with : Option (Action t Bool) → String → Bool → Action t Bool
  toggle_with again uid enable = do
    connections ← async_get_vpn_connections t
    switch_found again uid enable (lookup uid connections)

  -- The last argument is `_sid_retry`.
  unfoldable pub async_toggle_vpn : String → Bool → Bool → Action t Bool
  unfolding toggle_with
  async_toggle_vpn uid enable false = toggle_with none uid enable
  async_toggle_vpn uid enable true = toggle_with (some (toggle_with none uid enable)) uid enable
