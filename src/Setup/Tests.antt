-- ===== src/Setup/Tests.antt =====
-- Runs of the set-up.
use fritzbox_vpn.Base.{
  ◌≡◌, refl, true, false, Option, none, some, List, [], ◌∷◌, String, Everywhere, is_empty, add,
  discard, elem,
}
use fritzbox_vpn.Registry.Sample.{World, sample, find, rename_or_raise}
use fritzbox_vpn.Setup.Services.Lost.{EntryEvent, setup, unload, run, started, IsOff, services_lost}
use fritzbox_vpn.Setup.Entry.Late.{IsShadow, async_setup_entry-Keeps}
use fritzbox_vpn.Setup.Entry.{async_setup_entry}
use fritzbox_vpn.Outcome.{Outcome, ok}
use fritzbox_vpn.Session.Listing.{Connections}
use fritzbox_vpn.Runtime.{Runtime}
use fritzbox_vpn.Flow.State.{ConfigEntry}
use fritzbox_vpn.Registry.State.{Entity}

abbrev one_entry : List EntryEvent
one_entry = setup "e" ∷ []

only_entry : is_empty (discard "e" (run one_entry started).loaded) ≡ true
unfolding run started add elem discard
only_entry = refl

-- A reload of the only entry.
services_lost_example : IsOff (run (unload "e" ∷ setup "e" ∷ []) (run one_entry started)).services
services_lost_example = services_lost one_entry (setup "e" ∷ []) "e" only_entry

abbrev base : Entity
base = record {
  id = "1";
  entity_id = "switch.home";
  unique_id = some "fritzbox_vpn_a_switch";
  domain = "switch";
  device_id = none;
  config_entry_id = some "e";
}

abbrev live : Entity
live = record {
  id = "2";
  entity_id = "switch.home_2";
  unique_id = some "fritzbox_vpn_b_switch";
  domain = "switch";
  device_id = none;
  config_entry_id = some "e";
}

-- The base entity is orphaned: the box lists b alone.
abbrev starting : World
starting = record { entities = base ∷ live ∷ []; loaded = false; tracked = none; removed = [] }

abbrev entry : ConfigEntry
entry = record { entry_id = "e"; version = 2; config = []; options = [] }

abbrev no_uids : Runtime
no_uids = record { known_uids_switch = []; known_uids_sensor = []; known_uids_binary_sensor = [] }

abbrev attach : String → Option Connections → World → World
attach entry_id found w = record w { tracked = some (no_uids, found) }

abbrev add_parent_device : String → String → World → World
add_parent_device entry_id url w = w

abbrev forward : String → World → Outcome (Unit {0}) × World
forward entry_id w = (ok tt, w)

-- What was removed had, at some time, the id of a shadow entity.
abbrev WasShadow : String → Type 0
WasShadow entity_id =
    (seen : World) × ((entity : Entity) × ((entity.entity_id ≡ entity_id)
        × IsShadow sample "e" seen entity))

abbrev OnlyShadows : World → Type 0
OnlyShadows w = (w.loaded ≡ false) × Everywhere WasShadow w.removed

rename-OnlyShadows :
    (o : Option Entity) (from to : String) (w : World)
    → OnlyShadows w
    → OnlyShadows (rename_or_raise o from to w).1
rename-OnlyShadows none from to w h = h
rename-OnlyShadows (some e) from to w h = h

async_setup_entry-Keeps_example :
    OnlyShadows
      (async_setup_entry sample attach add_parent_device forward entry
        (ok (some (("b", []) ∷ [])))
        starting).1
async_setup_entry-Keeps_example =
    async_setup_entry-Keeps sample attach add_parent_device forward entry OnlyShadows (λ w h. h.0)
      (λ found w h. h) (λ url w h. h) (λ w h. h)
      (λ from to w h. rename-OnlyShadows (find to w.entities) from to w h) (λ id w h. h)
      (λ seen w entity s h. (h.0, ((seen, (entity, (refl, s))), h.1))) (ok (some (("b", []) ∷ [])))
      starting (refl, tt)
