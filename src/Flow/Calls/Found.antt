-- ===== src/Flow/Calls/Found.antt =====
-- custom_components/fritzbox_vpn/config_flow.py: what a flow has found.
use fritzbox_vpn.Base.{
  Bool, true, false, Option, none, some, [], ◌∷◌, Char, String, ◌≡◌, refl, ◌||◌, ◌==◌, ◌⊎◌, inl,
  inr, Bool-cases,
}
use fritzbox_vpn.Value.{Payload}
use fritzbox_vpn.Source.{get_existing_fritz_config}
use fritzbox_vpn.Discovery.{
  ServiceInfo, Parsers, is_fritzbox_router_discovery, host_from_ssdp, unique_id_for_discovery,
  is_link_local_host,
}
use fritzbox_vpn.Forms.Validation.{Box}
use fritzbox_vpn.Flow.State.{FlowResult, Flow, init}
use fritzbox_vpn.Flow.Steps.{
  OtherEntries, Attempt, or_form, again_user, again_confirm, try_create_entry_from_credentials,
  async_step_user, async_step_confirm, discovered, with_host, unless_found, async_step_ssdp,
}
use fritzbox_vpn.Flow.Calls.{
  FlowCall, user, ssdp, confirm, reauth, reconfigure, step, Reachable, start, next,
}

module _ (parsers : Parsers) where
  -- A router that was announced, with a host that is neither empty nor link-local.
  pub record IsDiscovered (host unique_id : Option String) : Type 0 where
    pub info : ServiceInfo
    pub address : String
    pub is_host : host ≡ some address
    pub router : is_fritzbox_router_discovery info ≡ true
    pub announced : host_from_ssdp parsers info ≡ some address
    pub usable : (address == "" || is_link_local_host address) ≡ false
    pub identified : unique_id ≡ some (unique_id_for_discovery parsers info address)

  -- Nothing is found, or a router.
  abbrev pub IsFound : Flow → Type 0
  IsFound flow =
      ((flow.discovered_host ≡ none) × (flow.discovered_unique_id ≡ none))
      ⊎ IsDiscovered flow.discovered_host flow.discovered_unique_id

  module _ (box : Box) (is_wide : Char → Bool) (unique_id_refused : String → Option String) where
    or_form-Found :
        (form : Attempt box is_wide parsers unique_id_refused → FlowResult) (flow : Flow)
        (attempt : Attempt box is_wide parsers unique_id_refused) (o : Option FlowResult)
        → IsFound flow
        → IsFound (or_form box is_wide parsers unique_id_refused form flow attempt o).1.0
    or_form-Found form flow attempt none h = h
    or_form-Found form flow attempt (some result) h = h

    user-Found :
        (others : OtherEntries) (input : Option Payload) (flow : Flow) (w : box.library.World)
        → IsFound flow
        → IsFound (async_step_user box is_wide parsers unique_id_refused others input flow w).1.0
    unfolding async_step_user
    user-Found others none flow w h = h
    user-Found others (some input) flow w h =
        let attempt =
          try_create_entry_from_credentials box is_wide parsers unique_id_refused input []
            (flow.existing_config ∷ []) none w in
        or_form-Found (again_user box is_wide parsers unique_id_refused) flow attempt attempt.result
          h

    confirm-Found :
        (input : Option Payload) (flow : Flow) (w : box.library.World)
        → IsFound flow
        → IsFound (async_step_confirm box is_wide parsers unique_id_refused input flow w).1.0
    unfolding async_step_confirm
    confirm-Found none flow w h = h
    confirm-Found (some input) flow w h =
        let attempt =
          try_create_entry_from_credentials box is_wide parsers unique_id_refused input []
            (flow.existing_config ∷ []) flow.discovered_unique_id w in
        or_form-Found (again_confirm box is_wide parsers unique_id_refused flow) flow attempt
          attempt.result h

    discovered-Found :
        (later : OtherEntries) (host unique_id : String) (o : Option String) (flow : Flow)
        (w : box.library.World)
        → IsDiscovered (some host) (some unique_id)
        → IsFound flow
        → IsFound
            (discovered box is_wide parsers unique_id_refused later host unique_id o flow w).1.0
    unfolding async_step_confirm
    discovered-Found later host unique_id none flow w d h = inr d
    discovered-Found later host unique_id (some reason) flow w d h = h

    with_host-Found :
        (info : ServiceInfo) (later : OtherEntries) (o : Option String) (flow : Flow)
        (w : box.library.World)
        → is_fritzbox_router_discovery info ≡ true
        → host_from_ssdp parsers info ≡ o
        → IsFound flow
        → IsFound (with_host box is_wide parsers unique_id_refused info later o flow w).1.0
    with_host-Found info later none flow w r a h = h
    with_host-Found info later (some host) flow w r a h =
        elim (Bool-cases (host == "" || is_link_local_host host)) [
          | inl e ↦ rw e h
          | inr e ↦
              let unique_id = unique_id_for_discovery parsers info host in
              rw e (
                discovered-Found later host unique_id (unique_id_refused unique_id) flow w
                  (record {
                    info = info;
                    address = host;
                    is_host = refl;
                    router = r;
                    announced = a;
                    usable = e;
                    identified = refl;
                  })
                  h)
        ]

    unless_found-Found :
        (info : ServiceInfo) (later : OtherEntries) (o : Option Payload) (flow : Flow)
        (w : box.library.World)
        → IsFound flow
        → IsFound (unless_found box is_wide parsers unique_id_refused info later o flow w).1.0
    unless_found-Found info later (some config) flow w h = h
    unless_found-Found info later none flow w h =
        elim (Bool-cases (is_fritzbox_router_discovery info)) [
          | inl e ↦ rw e (with_host-Found info later (host_from_ssdp parsers info) flow w e refl h)
          | inr e ↦ rw e h
        ]

    step-Found :
        (call : FlowCall) (flow : Flow) (w : box.library.World)
        → IsFound flow
        → IsFound (step box is_wide parsers unique_id_refused call flow w).1.0
    unfolding step async_step_ssdp
    step-Found (user others input) flow w h = user-Found others input flow w h
    step-Found (ssdp info others later) flow w h =
        unless_found-Found info later (get_existing_fritz_config others) flow w h
    step-Found (confirm input) flow w h = confirm-Found input flow w h
    step-Found (reauth entry input) flow w h = h
    step-Found (reconfigure entry input) flow w h = h

  -- In every run of a flow: a host and a unique id are remembered together or not at all. If they
  -- are, a device has announced that host, its texts pass as a router's and not a repeater's, the
  -- host is neither empty nor link-local, and the unique id is the device's.
  pub Reachable-IsFound :
      (box : Box) (is_wide : Char → Bool) {flow : Flow}
      → Reachable box is_wide parsers flow
      → IsFound flow
  unfolding init
  Reachable-IsFound box is_wide start = inl (refl, refl)
  Reachable-IsFound box is_wide (next {flow} refused call w r) =
      step-Found box is_wide refused call flow w (Reachable-IsFound box is_wide r)
