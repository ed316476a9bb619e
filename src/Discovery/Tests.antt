-- ===== src/Discovery/Tests.antt =====
-- Announcements with a host at an odd place.
use Prim.Native.String.{count}
use fritzbox_vpn.Base.{
  ◌≡◌, ◌≢◌, refl, suc, some, none, String, ◌==◌, if◌then◌else◌, lower, contains_any, lookup, strip,
  [], true, false,
}
use fritzbox_vpn.Discovery.{
  Parsers, ServiceInfo, fritz_box_host, after_scheme, names_fritz_box, fragment, scan_usn,
  host_from_ssdp_usn, is_fritzbox_router_discovery, is_link_local_host, uuid_from_discovery,
}
use fritzbox_vpn.Discovery.Embedded.{embeds_fritz_box, host_from_ssdp_usn-finds}

-- As the library parses the texts below.
abbrev simple : Parsers
simple = record {
  uuid = λ value. some (lower value);
  hostname = λ url. if url == "http://Fritz.Box/igd.xml" then some "Fritz.Box" else none;
}

abbrev odd_usn : String
odd_usn = "uuid:1::http://other x://Fritz.Box/igd.xml::rest"

odd_host : host_from_ssdp_usn simple odd_usn ≡ some fritz_box_host
unfolding host_from_ssdp_usn after_scheme names_fritz_box fragment lower
odd_host = refl

host_from_ssdp_usn-finds_example :
    (scan_usn simple (suc (count odd_usn)) odd_usn ≢ none)
    × (host_from_ssdp_usn simple odd_usn
        ≡ (if embeds_fritz_box simple odd_usn then some fritz_box_host else none))
host_from_ssdp_usn-finds_example = host_from_ssdp_usn-finds simple odd_usn

abbrev box_info : ServiceInfo
box_info = record {
  ssdp_usn = some "uuid:ABC::upnp:rootdevice";
  ssdp_st = some "urn:schemas-upnp-org:device:InternetGatewayDevice:1";
  ssdp_server = some "FRITZ!Box 7590 UPnP/1.0 AVM";
  ssdp_location = some "http://192.168.178.1:49000/igddesc.xml";
  ssdp_headers = [];
  upnp = [];
}

box_tests :
    (is_fritzbox_router_discovery box_info ≡ true)
    × (is_fritzbox_router_discovery (record box_info { ssdp_server = some "FRITZ!Repeater AVM" })
        ≡ false)
    × (uuid_from_discovery simple box_info ≡ some "abc")
    × (is_link_local_host "169.254.1.1" ≡ true)
unfolding is_fritzbox_router_discovery uuid_from_discovery is_link_local_host contains_any lower
    lookup strip
box_tests = (refl, refl, refl, refl)
