-- ===== src/Flow/Calls/Backed/All.antt =====
-- custom_components/fritzbox_vpn/config_flow.py: the test behind any step.
use fritzbox_vpn.Base.{Bool, Option, none, some, Char, String, inl, inr, ◌==◌, ◌||◌, Bool-cases}
use fritzbox_vpn.Value.{Payload}
use fritzbox_vpn.Source.{get_existing_fritz_config}
use fritzbox_vpn.Discovery.{
  ServiceInfo, Parsers, is_fritzbox_router_discovery, host_from_ssdp, unique_id_for_discovery,
  is_link_local_host,
}
use fritzbox_vpn.Forms.Validation.{Box}
use fritzbox_vpn.Flow.State.{Flow}
use fritzbox_vpn.Flow.Steps.{
  OtherEntries, async_step_confirm, discovered, with_host, unless_found, async_step_ssdp,
}
use fritzbox_vpn.Flow.Calls.{FlowCall, user, ssdp, confirm, reauth, reconfigure, step}
use fritzbox_vpn.Flow.Calls.Backed.{ResultIsBacked, user-Backed, confirm-Backed}
use fritzbox_vpn.Flow.Calls.Backed.Updates.{reauth-Backed, reconfigure-Backed}

module _ (box : Box) (is_wide : Char → Bool) (parsers : Parsers)
    (unique_id_refused : String → Option String) where
  discovered-Backed :
      (later : OtherEntries) (host unique_id : String) (o : Option String) (flow : Flow)
      (w : box.library.World)
      → ResultIsBacked box
          (discovered box is_wide parsers unique_id_refused later host unique_id o flow w).0
  unfolding async_step_confirm
  discovered-Backed later host unique_id none flow w = tt
  discovered-Backed later host unique_id (some reason) flow w = tt

  with_host-Backed :
      (info : ServiceInfo) (later : OtherEntries) (o : Option String) (flow : Flow)
      (w : box.library.World)
      → ResultIsBacked box (with_host box is_wide parsers unique_id_refused info later o flow w).0
  with_host-Backed info later none flow w = tt
  with_host-Backed info later (some host) flow w =
      elim (Bool-cases (host == "" || is_link_local_host host)) [
        | inl e ↦ rw e tt
        | inr e ↦
            let unique_id = unique_id_for_discovery parsers info host in
            rw e (discovered-Backed later host unique_id (unique_id_refused unique_id) flow w)
      ]

  unless_found-Backed :
      (info : ServiceInfo) (later : OtherEntries) (o : Option Payload) (flow : Flow)
      (w : box.library.World)
      → ResultIsBacked box
          (unless_found box is_wide parsers unique_id_refused info later o flow w).0
  unless_found-Backed info later (some config) flow w = tt
  unless_found-Backed info later none flow w =
      elim (Bool-cases (is_fritzbox_router_discovery info)) [
        | inl e ↦ rw e (with_host-Backed info later (host_from_ssdp parsers info) flow w)
        | inr e ↦ rw e tt
      ]

  -- Whatever call is made of a flow, and however the box and Home Assistant answer: the entry that
  -- it adds has just the data with which the box has answered a listing, and an entry that it
  -- updates keeps or gets the host, name and password of such data.
  pub step-IsBacked :
      (call : FlowCall) (flow : Flow) (w : box.library.World)
      → ResultIsBacked box (step box is_wide parsers unique_id_refused call flow w).0
  unfolding step async_step_ssdp
  step-IsBacked (user others input) flow w =
      user-Backed box is_wide parsers unique_id_refused others input flow w
  step-IsBacked (ssdp info others later) flow w =
      unless_found-Backed info later (get_existing_fritz_config others) flow w
  step-IsBacked (confirm input) flow w =
      confirm-Backed box is_wide parsers unique_id_refused input flow w
  step-IsBacked (reauth entry input) flow w =
      reauth-Backed box is_wide parsers unique_id_refused entry input w
  step-IsBacked (reconfigure entry input) flow w =
      reconfigure-Backed box is_wide parsers unique_id_refused entry input w
