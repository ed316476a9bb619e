-- ===== src/Flow/Options.antt =====
-- custom_components/fritzbox_vpn/config_flow.py: the steps of `OptionsFlowHandler`, over the registries.
pub mod Confirmed
use fritzbox_vpn.Base.{
  ℕ, Bool, true, false, not, ◌&&◌, ◌||◌, Option, none, some, List, [], ◌∷◌, ◌++◌, Char, String,
  Dict, ◌==◌, lookup, pop, ltb, is_empty, if◌then◌else◌,
}
use fritzbox_vpn.Value.{Value, str, Payload, truthy}
use fritzbox_vpn.Outcome.{Outcome, ok, raised, message}
use fritzbox_vpn.Config.{get}
use fritzbox_vpn.Registry.State.{Entity}
use fritzbox_vpn.Registry.Repairs.{
  Repair, get_orphaned_entity_entries, get_legacy_entity_object_id_repairs,
  get_entity_id_suffix_repairs,
}
use fritzbox_vpn.Registry.Home.{Home, Current, current, unknown, resolve_current_uids}
use fritzbox_vpn.Registry.Carried.{merges_for, repair_entity_ids, count_repairable_entity_issues}
use fritzbox_vpn.Registry.Removal.{remove_orphaned_entities}
use fritzbox_vpn.Forms.Schema.{
  Schema, Field, required_field, choice, configure_schema, configure_schema_for_resubmit,
  confirm_checkbox_schema,
}
use fritzbox_vpn.Forms.Submit.{config_and_options_from_configure_input}
use fritzbox_vpn.Forms.Validation.{Box, Submitted, async_validate_configure_input}
use fritzbox_vpn.Flow.State.{FlowResult, show_form, abort, create_entry, failed, ConfigEntry}

-- The orphaned entities, or an error key.
pub data Orphans : Type 0 where
  orphans : List Entity → Orphans
  no_orphans : String → Orphans

abbrev pub action_is : Payload → String → Bool
action_is input action = elim (get "action" input) [ str s ↦ s == action | _ ↦ false ]

abbrev pub actions : Bool → Bool → List String
actions has_cleanup has_repair =
    "configure" ∷ (if has_cleanup then "cleanup" ∷ [] else [])
    ++ (if has_repair then "repair_entity_ids" ∷ [] else [])

abbrev pub is_confirmed : Option Payload → Bool
is_confirmed none = false
is_confirmed (some input) = truthy (get "confirm" input)

abbrev pub unconfirmed : String → Payload → Option Payload → Bool → FlowResult
unconfirmed step_id options none true = show_form step_id confirm_checkbox_schema [] []
unconfirmed step_id options _ _ = create_entry "" options

-- `reload` and `update_entry` are `async_reload` and `async_update_entry` of Home Assistant.
module _ (home : Home) (reload : String → home.World → home.World)
    (update_entry : String → Payload → Payload → home.World → home.World) where
  abbrev pub orphans_for : Current → String → home.World → Orphans
  orphans_for (unknown key) entry_id w = no_orphans key
  orphans_for (current uids) entry_id w =
      orphans (get_orphaned_entity_entries (home.registries w) entry_id uids)

  abbrev pub has_orphans : Orphans → Bool
  has_orphans (no_orphans key) = false
  has_orphans (orphans entries) = not (is_empty entries)

  -- The reads do not raise.
  unfoldable pub get_available_actions : String → home.World → Bool × Bool × ℕ
  unfolding count_repairable_entity_issues
  get_available_actions entry_id w =
      let repair_count = count_repairable_entity_issues home entry_id w in
      (
        has_orphans (orphans_for (resolve_current_uids home entry_id w) entry_id w),
        ltb 0 repair_count,
        repair_count,
      )

  -- `on_confirm`, which may raise, is run where the box is ticked and something is pending.
  abbrev pub done_after : Payload → Outcome (Unit {0}) × home.World → FlowResult × home.World
  done_after options (ok u, w) = (create_entry "" options, w)
  done_after options (raised e, w) = (failed (message e), w)

  unfoldable pub confirm_options_action :
      String
      → ConfigEntry
      → Option Payload
      → Bool
      → (home.World → Outcome (Unit {0}) × home.World)
      → home.World
      → FlowResult × home.World
  unfolding truthy
  confirm_options_action step_id entry user_input pending on_confirm w =
      if is_confirmed user_input && pending
      then done_after entry.options (on_confirm w)
      else (unconfirmed step_id entry.options user_input pending, w)

  abbrev pub then_reload :
      String → Outcome (Unit {0}) × home.World → Outcome (Unit {0}) × home.World
  then_reload entry_id (ok u, w) = (ok u, reload entry_id w)
  then_reload entry_id (raised e, w) = (raised e, w)

  abbrev pub on_cleanup : String → List Entity → home.World → Outcome (Unit {0}) × home.World
  on_cleanup entry_id to_remove w =
      then_reload entry_id (remove_orphaned_entities home entry_id to_remove true w)

  abbrev pub cleanup_with :
      ConfigEntry → Option Payload → Orphans → home.World → FlowResult × home.World
  cleanup_with entry user_input (no_orphans key) w =
      (show_form "cleanup_confirm" [] (("base", key) ∷ []) [], w)
  cleanup_with entry user_input (orphans to_remove) w =
      confirm_options_action "cleanup_confirm" entry user_input (not (is_empty to_remove))
        (on_cleanup entry.entry_id to_remove) w

  -- The entry as Home Assistant has it now, if it is still there.
  unfoldable pub async_step_cleanup_confirm :
      Option ConfigEntry → Option Payload → home.World → FlowResult × home.World
  unfolding confirm_options_action remove_orphaned_entities
  async_step_cleanup_confirm none user_input w = (abort "config_entry_not_found", w)
  async_step_cleanup_confirm (some entry) user_input w =
      cleanup_with entry user_input
        (orphans_for (resolve_current_uids home entry.entry_id w) entry.entry_id w) w

  abbrev pub reload_if : String → List String × home.World → Outcome (Unit {0}) × home.World
  reload_if entry_id ([], w) = (ok tt, w)
  reload_if entry_id (m ∷ messages, w) = (ok tt, reload entry_id w)

  abbrev pub on_repair : String → home.World → Outcome (Unit {0}) × home.World
  on_repair entry_id w = reload_if entry_id (repair_entity_ids home entry_id w)

  abbrev pub has_repairs : String → home.World → Bool
  has_repairs entry_id w =
      not (is_empty (get_legacy_entity_object_id_repairs (home.registries w) entry_id))
      || not (is_empty (merges_for home (resolve_current_uids home entry_id w) entry_id w))
      || not (is_empty (get_entity_id_suffix_repairs (home.registries w) entry_id false))

  unfoldable pub async_step_repair_entity_ids_confirm :
      Option ConfigEntry → Option Payload → home.World → FlowResult × home.World
  unfolding confirm_options_action repair_entity_ids
  async_step_repair_entity_ids_confirm none user_input w = (abort "config_entry_not_found", w)
  async_step_repair_entity_ids_confirm (some entry) user_input w =
      confirm_options_action "repair_entity_ids_confirm" entry user_input
        (has_repairs entry.entry_id w) (on_repair entry.entry_id) w

  module _ (box : Box) (is_wide : Char → Bool) where
    abbrev pub Worlds : Type 0
    Worlds = home.World × box.library.World

    abbrev pub stored : ConfigEntry → Option (Payload × Payload) → Worlds → FlowResult × Worlds
    stored entry none worlds = (failed "KeyError", worlds)
    stored entry (some (config, options)) (w, b) = (
      create_entry "" options,
      (reload entry.entry_id (update_entry entry.entry_id config options w), b),
    )

    abbrev pub on_configured : ConfigEntry → Submitted box → Bool → home.World → FlowResult × Worlds
    on_configured entry submitted true w =
        stored entry (config_and_options_from_configure_input submitted.user_input)
          (w, submitted.world)
    on_configured entry submitted false w = (
      show_form "configure" (configure_schema_for_resubmit is_wide submitted.user_input)
          submitted.errors [],
      (w, submitted.world),
    )

    unfoldable pub async_step_configure :
        Option ConfigEntry → Option Payload → Worlds → FlowResult × Worlds
    unfolding async_validate_configure_input
    async_step_configure none user_input worlds = (abort "config_entry_not_found", worlds)
    async_step_configure (some entry) none worlds =
        (show_form "configure" (configure_schema is_wide entry.config entry.options) [] [], worlds)
    async_step_configure (some entry) (some user_input) (w, b) =
        let submitted =
          async_validate_configure_input box is_wide (pop "action" user_input) []
            (some entry.config ∷ []) b in
        on_configured entry submitted submitted.done w

    abbrev pub with_box : box.library.World → FlowResult × home.World → FlowResult × Worlds
    with_box b (result, w) = (result, (w, b))

    abbrev pub menu : Bool → Bool → FlowResult
    menu has_cleanup has_repair =
        show_form "init"
          (required_field "action" (str "configure") (choice (actions has_cleanup has_repair)) ∷ [])
          [] []

    abbrev pub choose : Option ConfigEntry → Payload → Worlds → FlowResult × Worlds
    choose entry input (w, b) =
        if action_is input "cleanup"
        then with_box b (async_step_cleanup_confirm entry none w)
        else if action_is input "repair_entity_ids"
        then with_box b (async_step_repair_entity_ids_confirm entry none w)
        else async_step_configure entry none (w, b)

    abbrev pub offer : Option ConfigEntry → Bool × Bool × ℕ → Worlds → FlowResult × Worlds
    offer entry (has_cleanup, has_repair, repair_count) worlds =
        if has_cleanup || has_repair
        then (menu has_cleanup has_repair, worlds)
        else async_step_configure entry none worlds

    -- `entry_id` is the id of the entry that the flow was opened for.
    unfoldable pub async_step_init :
        String → Option ConfigEntry → Option Payload → Worlds → FlowResult × Worlds
    unfolding get_available_actions async_step_configure async_step_cleanup_confirm
        async_step_repair_entity_ids_confirm
    async_step_init entry_id entry none (w, b) =
        offer entry (get_available_actions entry_id w) (w, b)
    async_step_init entry_id entry (some user_input) worlds = choose entry user_input worlds
