-- ===== src/Flow/Tests.antt =====
-- Runs of the config flow and the options flow.
use fritzbox_vpn.Base.{
  ℕ, ◌≡◌, refl, ◌⊎◌, Bool, false, Option, none, some, [], ◌∷◌, Char, String, lookup, ends_with,
  contains_any, lower,
}
use fritzbox_vpn.Value.{str, bool, num, pos, Payload, truthy, to_str}
use fritzbox_vpn.Adapter.{Library, replied, with_https_http_fallback, init as adapter_init}
use fritzbox_vpn.Forms.Address.{ip_address}
use fritzbox_vpn.Forms.Host.{validate_host}
use fritzbox_vpn.Discovery.{
  ServiceInfo, Parsers, is_fritzbox_router_discovery, host_from_ssdp, is_link_local_host,
}
use fritzbox_vpn.Forms.Validation.{Box}
use fritzbox_vpn.Registry.Sample.{World, sample}
use fritzbox_vpn.Flow.State.{ConfigEntry, Flow, create_entry, init}
use fritzbox_vpn.Flow.Steps.{OtherEntries}
use fritzbox_vpn.Flow.Calls.{user, ssdp, step, start, next}
use fritzbox_vpn.Flow.Calls.Backed.{ResultIsBacked}
use fritzbox_vpn.Flow.Calls.Backed.All.{step-IsBacked}
use fritzbox_vpn.Flow.Calls.Found.{IsFound, Reachable-IsFound}
use fritzbox_vpn.Flow.Options.{is_confirmed}
use fritzbox_vpn.Flow.Options.Confirmed.{
  repair, configure, run, IsStored, run-Unconfirmed, configure-IsStored,
}

abbrev no_wide : Char → Bool
no_wide c = false

-- A box that answers every listing.
abbrev open_library : Library
open_library = record {
  World = ℕ;
  wireguard_missing = false;
  connect = λ use_tls w. (replied tt, w);
  wireguard = λ w. (replied tt, w);
}

abbrev open_box : Box
open_box = record {
  library = open_library;
  call = λ w. (replied [], w);
  primary = λ s w. (replied [], (s, w));
}

abbrev located : Parsers
located = record { uuid = λ value. none; hostname = λ url. some "192.168.178.1" }

abbrev nobody : OtherEntries
nobody domain = none

abbrev all_free : String → Option String
all_free unique_id = none

abbrev typed : Payload
typed = ("host", str "fritz.box") ∷ ("username", str "u") ∷ ("password", str "p") ∷ []

step-IsBacked_example :
    ResultIsBacked open_box
      (step open_box no_wide located all_free (user nobody (some typed)) init 0).0
step-IsBacked_example =
    step-IsBacked open_box no_wide located all_free (user nobody (some typed)) init 0

user_run :
    (step open_box no_wide located all_free (user nobody (some typed)) init 0).0
    ≡ create_entry "Fritz!Box VPN (fritz.box)" typed
unfolding step validate_host to_str lookup ip_address ends_with with_https_http_fallback
    adapter_init
user_run = refl

abbrev box_info : ServiceInfo
box_info = record {
  ssdp_usn = some "uuid:1::upnp:rootdevice";
  ssdp_st = some "urn:schemas-upnp-org:device:InternetGatewayDevice:1";
  ssdp_server = some "FRITZ!Box 7590 UPnP/1.0 AVM";
  ssdp_location = some "http://192.168.178.1:49000/igddesc.xml";
  ssdp_headers = [];
  upnp = [];
}

abbrev announced : Flow
announced = (step open_box no_wide located all_free (ssdp box_info nobody nobody) init 0).1.0

remembered : announced.discovered_host ≡ some "192.168.178.1"
unfolding step is_fritzbox_router_discovery contains_any lower host_from_ssdp is_link_local_host
remembered = refl

Reachable-IsFound_example : IsFound located announced
Reachable-IsFound_example =
    Reachable-IsFound located open_box no_wide (next all_free (ssdp box_info nobody nobody) 0 start)

abbrev entry : ConfigEntry
entry = record { entry_id = "entry"; version = 2; config = typed; options = [] }

abbrev empty : World
empty = record { entities = []; loaded = Bool.true; tracked = none; removed = [] }

abbrev reload : String → World → World
reload entry_id w = w

-- An update of the entry leaves its id among what was removed, so that it shows.
abbrev update_entry : String → Payload → Payload → World → World
update_entry entry_id config options w = record w { removed = entry_id ∷ w.removed }

not_ticked : is_confirmed (some (("confirm", bool false) ∷ [])) ≡ false
unfolding lookup truthy
not_ticked = refl

run-Unconfirmed_example :
    (run sample reload update_entry open_box no_wide
      (repair (some entry) (some (("confirm", bool false) ∷ [])))
      (empty, 0)).1.0
    ≡ empty
run-Unconfirmed_example =
    run-Unconfirmed sample reload update_entry open_box no_wide
      (repair (some entry) (some (("confirm", bool false) ∷ []))) empty 0 not_ticked

abbrev slower : Payload
slower = ("update_interval", num (pos 60)) ∷ typed

configure-IsStored_example :
    let w =
      (run sample reload update_entry open_box no_wide
        (configure (some entry) (some slower))
        (empty, 0)).1.0 in
    (w ≡ empty) ⊎ IsStored sample reload update_entry open_box no_wide entry empty w
configure-IsStored_example =
    configure-IsStored sample reload update_entry open_box no_wide entry slower empty 0
