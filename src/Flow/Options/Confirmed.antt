-- ===== src/Flow/Options/Confirmed.antt =====
-- custom_components/fritzbox_vpn/config_flow.py: what an options flow changes.
use fritzbox_vpn.Base.{
  ℕ, ◌≤◌, Bool, true, false, not, Option, none, some, [], ◌∷◌, Char, String, ◌≡◌, refl, sym, ◌⊎◌,
  inl, inr, lookup, pop, is_empty, Bool-cases,
}
use fritzbox_vpn.Value.{Value, num, pos, Payload}
use fritzbox_vpn.Outcome.{Outcome}
use fritzbox_vpn.Coordinator.Interval.{
  normalize_update_interval, normalize_bounds, update_interval_min, update_interval_max,
}
use fritzbox_vpn.Registry.Home.{Home, resolve_current_uids}
use fritzbox_vpn.Forms.Submit.{data_of, with_options, config_and_options_from_configure_input}
use fritzbox_vpn.Forms.Validation.{Box, Submitted, async_validate_configure_input}
use fritzbox_vpn.Forms.Tested.{IsTested, DoneIsTested, async_validate-Tested}
use fritzbox_vpn.Flow.State.{FlowResult, ConfigEntry}
use fritzbox_vpn.Flow.Options.{
  Orphans, orphans, no_orphans, orphans_for, action_is, get_available_actions, is_confirmed,
  confirm_options_action, on_cleanup, cleanup_with, async_step_cleanup_confirm, on_repair,
  has_repairs, async_step_repair_entity_ids_confirm, Worlds, with_box, stored, on_configured,
  async_step_configure, choose, offer, async_step_init,
}

-- A call of the options flow, with the entry as Home Assistant has it at the time.
pub data OptionsCall : Type 0 where
  init : String → Option ConfigEntry → Option Payload → OptionsCall
  cleanup : Option ConfigEntry → Option Payload → OptionsCall
  repair : Option ConfigEntry → Option Payload → OptionsCall
  configure : Option ConfigEntry → Option Payload → OptionsCall

-- The calls that carry neither a ticked box nor new values.
abbrev pub IsUnconfirmed : OptionsCall → Type 0
IsUnconfirmed (init entry_id entry input) = Unit
IsUnconfirmed (cleanup entry input) = is_confirmed input ≡ false
IsUnconfirmed (repair entry input) = is_confirmed input ≡ false
IsUnconfirmed (configure entry input) = input ≡ none

module _ (home : Home) (reload : String → home.World → home.World)
    (update_entry : String → Payload → Payload → home.World → home.World) where
  unticked :
      (step_id : String) (entry : ConfigEntry) (input : Option Payload) (pending : Bool)
      (on_confirm : home.World → Outcome (Unit {0}) × home.World) (w : home.World)
      → is_confirmed input ≡ false
      → (confirm_options_action home reload update_entry step_id entry input pending on_confirm w).1
        ≡ w
  unfolding confirm_options_action
  unticked step_id entry input pending on_confirm w h = rw h refl

  cleanup_unticked :
      (entry : ConfigEntry) (input : Option Payload) (found : Orphans) (w : home.World)
      → is_confirmed input ≡ false
      → (cleanup_with home reload update_entry entry input found w).1 ≡ w
  cleanup_unticked entry input (no_orphans key) w h = refl
  cleanup_unticked entry input (orphans entries) w h =
      unticked "cleanup_confirm" entry input (not (is_empty entries))
        (on_cleanup home reload update_entry entry.entry_id entries) w h

  cleanup-unconfirmed :
      (entry : Option ConfigEntry) (input : Option Payload) (w : home.World)
      → is_confirmed input ≡ false
      → (async_step_cleanup_confirm home reload update_entry entry input w).1 ≡ w
  unfolding async_step_cleanup_confirm
  cleanup-unconfirmed none input w h = refl
  cleanup-unconfirmed (some entry) input w h =
      cleanup_unticked entry input
        (orphans_for home reload update_entry (resolve_current_uids home entry.entry_id w)
          entry.entry_id w)
        w h

  repair-unconfirmed :
      (entry : Option ConfigEntry) (input : Option Payload) (w : home.World)
      → is_confirmed input ≡ false
      → (async_step_repair_entity_ids_confirm home reload update_entry entry input w).1 ≡ w
  unfolding async_step_repair_entity_ids_confirm
  repair-unconfirmed none input w h = refl
  repair-unconfirmed (some entry) input w h =
      unticked "repair_entity_ids_confirm" entry input
        (has_repairs home reload update_entry entry.entry_id w)
        (on_repair home reload update_entry entry.entry_id) w h

  module _ (box : Box) (is_wide : Char → Bool) where
    unfoldable pub run :
        OptionsCall
        → Worlds home reload update_entry box is_wide
        → FlowResult × Worlds home reload update_entry box is_wide
    unfolding async_step_init async_step_configure async_step_cleanup_confirm
        async_step_repair_entity_ids_confirm
    run (init entry_id entry input) worlds =
        async_step_init home reload update_entry box is_wide entry_id entry input worlds
    run (cleanup entry input) (w, b) =
        with_box home reload update_entry box is_wide b
          (async_step_cleanup_confirm home reload update_entry entry input w)
    run (repair entry input) (w, b) =
        with_box home reload update_entry box is_wide b
          (async_step_repair_entity_ids_confirm home reload update_entry entry input w)
    run (configure entry input) worlds =
        async_step_configure home reload update_entry box is_wide entry input worlds

    configure_form :
        (entry : Option ConfigEntry) (w : home.World) (b : box.library.World)
        → (async_step_configure home reload update_entry box is_wide entry none (w, b)).1.0 ≡ w
    unfolding async_step_configure
    configure_form none w b = refl
    configure_form (some entry) w b = refl

    choose_unchanged :
        (entry : Option ConfigEntry) (input : Payload) (w : home.World) (b : box.library.World)
        → (choose home reload update_entry box is_wide entry input (w, b)).1.0 ≡ w
    choose_unchanged entry input w b = elim (Bool-cases (action_is input "cleanup")) [
      | inl e ↦ rw e (cleanup-unconfirmed entry none w refl)
      | inr e ↦ rw e (elim (Bool-cases (action_is input "repair_entity_ids")) [
        | inl f ↦ rw f (repair-unconfirmed entry none w refl)
        | inr f ↦ rw f (configure_form entry w b)
      ])
    ]

    offer_unchanged :
        (entry : Option ConfigEntry) (has : Bool × Bool × ℕ) (w : home.World)
        (b : box.library.World)
        → (offer home reload update_entry box is_wide entry has (w, b)).1.0 ≡ w
    offer_unchanged entry (true, has_repair, n) w b = refl
    offer_unchanged entry (false, true, n) w b = refl
    offer_unchanged entry (false, false, n) w b = configure_form entry w b

    -- An options flow changes neither the registries nor the entry before a box is ticked or values
    -- are submitted: the menu and whatever is chosen in it, each first form, and a confirmation
    -- without the tick leave them as they are, whatever is pending.
    pub run-Unconfirmed :
        (call : OptionsCall) (w : home.World) (b : box.library.World)
        → IsUnconfirmed call
        → (run call (w, b)).1.0 ≡ w
    unfolding run async_step_init
    run-Unconfirmed (init entry_id entry none) w b h =
        offer_unchanged entry (get_available_actions home reload update_entry entry_id w) w b
    run-Unconfirmed (init entry_id entry (some input)) w b h = choose_unchanged entry input w b
    run-Unconfirmed (cleanup entry input) w b h = cleanup-unconfirmed entry input w h
    run-Unconfirmed (repair entry input) w b h = repair-unconfirmed entry input w h
    run-Unconfirmed (configure entry none) w b h = configure_form entry w b
    run-Unconfirmed (configure entry (some input)) w b h = cc

    -- The entry is updated by values that the box has been tested with, and an interval in its bounds.
    pub record IsStored (entry : ConfigEntry) (w w' : home.World) : Type 0 where
      pub config : Payload
      pub options : Payload
      pub stores : w' ≡ reload entry.entry_id (update_entry entry.entry_id config options w)
      pub tested : Payload
      pub test : IsTested box tested
      pub same_host : lookup "host" config ≡ lookup "host" tested
      pub same_username : lookup "username" config ≡ lookup "username" tested
      pub same_password : lookup "password" config ≡ lookup "password" tested
      pub interval : ℕ
      pub has_interval : lookup "update_interval" options ≡ some (num (pos interval))
      pub above : update_interval_min ≤ interval
      pub below : interval ≤ update_interval_max

    stored-IsStored :
        (entry : ConfigEntry) (input : Payload) (interval : Value)
        (host username password : Option Value) (w : home.World) (b : box.library.World)
        → lookup "host" input ≡ host
        → lookup "username" input ≡ username
        → lookup "password" input ≡ password
        → IsTested box input
        → let options : Payload =
            ("update_interval", num (pos (normalize_update_interval interval))) ∷ [] in
          let w' =
            (stored home reload update_entry box is_wide entry
              (with_options (data_of host username password) options)
              (w, b)).1.0 in
          (w' ≡ w) ⊎ IsStored entry w w'
    unfolding lookup
    stored-IsStored entry input interval none username password w b p q r t = inl refl
    stored-IsStored entry input interval (some h) none password w b p q r t = inl refl
    stored-IsStored entry input interval (some h) (some u) none w b p q r t = inl refl
    stored-IsStored entry input interval (some h) (some u) (some k) w b p q r t =
        let (low, high) = normalize_bounds interval in
        inr (record {
          config = ("host", h) ∷ ("username", u) ∷ ("password", k) ∷ [];
          options = ("update_interval", num (pos (normalize_update_interval interval))) ∷ [];
          stores = refl;
          tested = input;
          test = t;
          same_host = sym p;
          same_username = sym q;
          same_password = sym r;
          interval = normalize_update_interval interval;
          has_interval = refl;
          above = low;
          below = high;
        })

    configured-IsStored :
        (entry : ConfigEntry) (submitted : Submitted box) (done : Bool) (w : home.World)
        → submitted.done ≡ done
        → DoneIsTested box submitted
        → let w' =
            (on_configured home reload update_entry box is_wide entry submitted done w).1.0 in
          (w' ≡ w) ⊎ IsStored entry w w'
    unfolding config_and_options_from_configure_input
    configured-IsStored entry submitted false w e t = inl refl
    configured-IsStored entry submitted true w e t =
        stored-IsStored entry submitted.user_input _ _ _ _ w submitted.world refl refl refl (t e)

    -- Submitted values of the configure step either change nothing, or update the entry once and
    -- reload it: with a host, name and password with which the box has answered a listing, and with
    -- an interval between 5 and 3600 seconds.
    pub configure-IsStored :
        (entry : ConfigEntry) (input : Payload) (w : home.World) (b : box.library.World)
        → let w' = (run (configure (some entry) (some input)) (w, b)).1.0 in
          (w' ≡ w) ⊎ IsStored entry w w'
    unfolding run async_step_configure
    configure-IsStored entry input w b =
        let submitted =
          async_validate_configure_input box is_wide (pop "action" input) []
            (some entry.config ∷ []) b in
        configured-IsStored entry submitted submitted.done w refl
          (async_validate-Tested box is_wide (pop "action" input) [] (some entry.config ∷ []) b)
