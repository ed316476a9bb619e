-- ===== src/Registry/Sample.antt =====
-- Registries as lists, to run the changes of custom_components/fritzbox_vpn/entity_registry.py on.
use fritzbox_vpn.Base.{Bool, Option, none, some, List, [], ◌∷◌, String, ◌==◌, if◌then◌else◌}
use fritzbox_vpn.Outcome.{Outcome, ok, raised, other_error}
use fritzbox_vpn.Session.Listing.{Connections}
use fritzbox_vpn.Runtime.{Runtime}
use fritzbox_vpn.Registry.State.{Entity, Registries}
use fritzbox_vpn.Registry.Home.{Home, RuntimeData, no_runtime_data, fritzbox_vpn_runtime_data}

abbrev pub Tracked : Type 0
Tracked = Option (Runtime × Option Connections)

-- `removed` lists the ids of what was removed, the last first.
pub record World : Type 0 where
  pub entities : List Entity
  pub loaded : Bool
  pub tracked : Tracked
  pub removed : List String

abbrev pub find : String → List Entity → Option Entity
find entity_id [] = none
find entity_id (e ∷ es) =
    let rest = find entity_id es in if e.entity_id == entity_id then some e else rest

abbrev pub rename_in : String → String → List Entity → List Entity
rename_in from to [] = []
rename_in from to (e ∷ es) =
    (if e.entity_id == from then (record e { entity_id = to }) else e) ∷ rename_in from to es

abbrev pub without : String → List Entity → List Entity
without entity_id [] = []
without entity_id (e ∷ es) =
    let rest = without entity_id es in if e.entity_id == entity_id then rest else e ∷ rest

abbrev pub data_of : Tracked → RuntimeData
data_of none = no_runtime_data
data_of (some (r, connections)) = fritzbox_vpn_runtime_data r connections

abbrev pub assign : Runtime → Tracked → Tracked
assign r none = none
assign r (some (old, connections)) = some (r, connections)

abbrev pub rename_or_raise : Option Entity → String → String → World → Outcome (Unit {0}) × World
rename_or_raise none from to w = (ok tt, record w { entities = rename_in from to w.entities })
rename_or_raise (some e) from to w = (raised (other_error "entity id in use"), w)

abbrev pub read : World → Registries
read w = record {
  entries = λ entry_id. w.entities;
  entity = λ entity_id. find entity_id w.entities;
  entity_id_of = λ domain unique_id. none;
  device = λ id. none;
  device_with = λ identifiers. none;
  slugify = λ name. name;
}

-- One config entry without devices; an id in use is refused.
abbrev pub sample : Home
sample = record {
  World = World;
  registries = read;
  devices = λ w entry_id. [];
  device_entities = λ w id. [];
  rename = λ from to w. rename_or_raise (find to w.entities) from to w;
  remove = λ entity_id w. (
    ok tt,
    record w { entities = without entity_id w.entities; removed = entity_id ∷ w.removed },
  );
  remove_device = λ id w. w;
  entry = λ w entry_id. some (record { is_loaded = w.loaded; runtime_data = data_of w.tracked });
  set_runtime = λ entry_id r w. record w { tracked = assign r w.tracked };
}
