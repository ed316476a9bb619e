-- ===== src/Coordinator/Interval.antt =====
-- custom_components/fritzbox_vpn/coordinator.py: the update interval and the recovery windows.
use Prim.Native.Nat.{max}
use fritzbox_vpn.Base.{
  ℕ, ◌*◌, ◌≤◌, ◌&&◌, Option, none, some, [], lookup, leb, inl, inr, Option-cases, if◌then◌else◌,
  arith,
}
use fritzbox_vpn.Value.{Value, ℤ, pos, negsuc, num, Payload, or_null, value_or, to_int}

abbrev pub default_update_interval : ℕ
default_update_interval = 30

abbrev pub update_interval_min : ℕ
update_interval_min = 5

abbrev pub update_interval_max : ℕ
update_interval_max = 3600

abbrev pub retry_after_seconds : ℕ
retry_after_seconds = 60

unfoldable pub clamp : ℤ → ℕ
clamp (pos n) =
    if leb update_interval_min n && leb n update_interval_max then n else default_update_interval
clamp (negsuc n) = default_update_interval

abbrev clamp_or_default : Option ℤ → ℕ
clamp_or_default none = default_update_interval
clamp_or_default (some n) = clamp n

-- `None`, and what `int` refuses, give the default; `True` and `False` are integers.
unfoldable pub normalize_update_interval : Value → ℕ
unfolding clamp
normalize_update_interval value = clamp_or_default (to_int value)

unfoldable pub resolve_update_interval_seconds : Payload → Option Payload → ℕ
unfolding normalize_update_interval
resolve_update_interval_seconds config options =
    let options_dict : Payload = elim options [ none ↦ [] | some o ↦ o ] in
    normalize_update_interval (
      value_or
        (value_or (or_null (lookup "update_interval" options_dict))
          (or_null (lookup "update_interval" config)))
        (num (pos default_update_interval)))

unfoldable pub recovery_window_seconds : ℕ → ℕ
recovery_window_seconds seconds = max (3 * seconds) (3 * retry_after_seconds)

unfoldable pub recovery_max_seconds : ℕ → ℕ
unfolding recovery_window_seconds
recovery_max_seconds seconds = 2 * recovery_window_seconds seconds

clamp_bounds : (n : ℤ) → (update_interval_min ≤ clamp n) × (clamp n ≤ update_interval_max)
unfolding clamp
clamp_bounds (pos n) = ground arith
clamp_bounds (negsuc n) = ground arith

pub normalize_bounds :
    (value : Value)
    → (update_interval_min ≤ normalize_update_interval value)
      × (normalize_update_interval value ≤ update_interval_max)
unfolding normalize_update_interval
normalize_bounds value = elim (Option-cases (to_int value)) [
  | inl e ↦ rw e (omega arith)
  | inr (n, e) ↦ rw e (clamp_bounds n)
]

-- Whatever stands in the options and in the configuration, the interval lies between 5 and 3600
-- seconds.
pub resolve_update_interval_bounds :
    (config : Payload) (options : Option Payload)
    → (update_interval_min ≤ resolve_update_interval_seconds config options)
      × (resolve_update_interval_seconds config options ≤ update_interval_max)
resolve_update_interval_bounds config options =
    unfold resolve_update_interval_seconds in normalize_bounds _
