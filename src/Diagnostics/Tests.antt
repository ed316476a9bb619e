-- ===== src/Diagnostics/Tests.antt =====
-- Runs of custom_components/fritzbox_vpn/diagnostics.py.
use fritzbox_vpn.Base.{◌≡◌, refl, true, Bool, Option, some, List, [], ◌∷◌, String, lookup}
use fritzbox_vpn.Value.{Payload, str, null, bool, num, pos, truthy, to_int}
use fritzbox_vpn.Coordinator.State.{Coordinator, init}
use fritzbox_vpn.Coordinator.Interval.{resolve_update_interval_seconds}
use fritzbox_vpn.Diagnostics.{async_get_config_entry_diagnostics, interval_shown}
use fritzbox_vpn.Diagnostics.Interval.{interval_shown-IsUsed}

abbrev drop_all : Payload → List String → Payload
drop_all as_dict keys = []

abbrev entry_data : Payload
entry_data = ("host", str "fritz.box") ∷ ("update_interval", num (pos 90)) ∷ []

abbrev zero_option : Option Payload
zero_option = some (("update_interval", num (pos 0)) ∷ [])

abbrev loaded : Option (Bool × Coordinator)
loaded = some (
  true,
  record (init 30 (some "entry") true) {
    last_data = some (("a", ("name", str "Home") ∷ ("active", bool true) ∷ []) ∷ []);
  },
)

interval_shown-IsUsed_example :
    (async_get_config_entry_diagnostics drop_all entry_data entry_data zero_option
      loaded).update_interval_seconds
    ≡ resolve_update_interval_seconds entry_data zero_option
unfolding truthy lookup
interval_shown-IsUsed_example =
    interval_shown-IsUsed drop_all entry_data entry_data zero_option loaded tt

shown_test :
    (async_get_config_entry_diagnostics drop_all entry_data entry_data zero_option
      loaded).vpn_connections
    ≡ (("connection_uid", str "a")
        ∷ ("name", str "Home")
        ∷ ("active", bool true)
        ∷ ("connected", null)
        ∷ [])
      ∷ []
unfolding async_get_config_entry_diagnostics lookup
shown_test = refl

interval_test : interval_shown entry_data zero_option ≡ 90
unfolding interval_shown to_int truthy lookup
interval_test = refl
