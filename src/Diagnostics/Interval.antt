-- ===== src/Diagnostics/Interval.antt =====
-- custom_components/fritzbox_vpn/diagnostics.py and coordinator.py: the interval that is shown and the
-- interval that is used.
use fritzbox_vpn.Base.{
  zero, suc, ◌≡◌, refl, inl, inr, none, some, Bool, true, false, List, ◌&&◌, ◌||◌, Option, String,
  ◌==◌, eq_iff, strip, lookup, Bool-cases, arith,
}
use fritzbox_vpn.Value.{
  Value, null, bool, num, float, str, list, dict, nil, cons, end, field, pos, negsuc, Payload,
  or_null, value_or, truthy, to_int, nonzero, parse_int,
}
use fritzbox_vpn.Coordinator.State.{Coordinator}
use fritzbox_vpn.Coordinator.Interval.{
  normalize_update_interval, resolve_update_interval_seconds, default_update_interval,
}
use fritzbox_vpn.Diagnostics.{options_or_empty, interval_shown, async_get_config_entry_diagnostics}

-- A float whose text is that of a zero is carried with the integer 0.
abbrev pub IsFloat : Value → Type 0
IsFloat (float n s) = (nonzero n && (s == "0.0" || s == "-0.0")) ≡ false
IsFloat _ = Unit

falsy_default :
    (v : Value)
    → IsFloat v
    → truthy v ≡ false
    → normalize_update_interval v ≡ default_update_interval
unfolding normalize_update_interval truthy to_int parse_int strip
falsy_default null f e = refl
falsy_default (bool false) f e = refl
falsy_default (bool true) f e = ground arith
falsy_default (num (pos zero)) f e = refl
falsy_default (num (pos (suc n))) f e = ground (arith, e)
falsy_default (num (negsuc n)) f e = refl
falsy_default (float (pos zero) s) f e = refl
falsy_default (float (pos (suc n)) s) f e = ground (arith, f, e)
falsy_default (float (negsuc n) s) f e = refl
falsy_default (str s) f e = elim (Bool-cases (s == "")) [
  | inl k ↦ rw ((eq_iff s "").0 k) refl
  | inr k ↦ ground (arith, e, k)
]
falsy_default (list nil) f e = refl
falsy_default (list (cons v vs)) f e = refl
falsy_default (dict end) f e = refl
falsy_default (dict (field k v fs)) f e = refl

-- The interval is read from the options, or else from the data of the entry: the value that both readers start with.
abbrev pub stored : Payload → Option Payload → Value
stored config options =
    value_or (or_null (lookup "update_interval" (options_or_empty options)))
      (or_null (lookup "update_interval" config))

default_or :
    (v : Value)
    → IsFloat v
    → normalize_update_interval v
      ≡ normalize_update_interval (value_or v (num (pos default_update_interval)))
unfolding normalize_update_interval to_int
default_or v f = elim (Bool-cases (truthy v)) [
  | inl e ↦ rw e refl
  | inr e ↦ rw e (falsy_default v f e)
]

-- The update interval in the diagnostics of an entry is the one its coordinator polls with, whatever stands in
-- the data and the options of the entry: also where they have no interval, or one that is zero or empty. A
-- float is taken to have the text of a zero only if it is zero.
pub interval_shown-IsUsed :
    (async_redact_data : Payload → List String → Payload) (as_dict config : Payload)
    (options : Option Payload) (runtime : Option (Bool × Coordinator))
    → IsFloat (stored config options)
    → (async_get_config_entry_diagnostics async_redact_data as_dict config options
        runtime).update_interval_seconds
      ≡ resolve_update_interval_seconds config options
unfolding async_get_config_entry_diagnostics interval_shown resolve_update_interval_seconds
interval_shown-IsUsed async_redact_data as_dict config none runtime f =
    default_or (stored config none) f
interval_shown-IsUsed async_redact_data as_dict config (some o) runtime f =
    default_or (stored config (some o)) f
