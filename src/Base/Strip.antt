-- ===== src/Base/Strip.antt =====
-- `strip` of a text that is stripped.
use text.Mathlib.TextLemmas.{cons-eq-cons}
use fritzbox_vpn.Base.Bools.{Bool-cases}
use fritzbox_vpn.Base.Text.{is_space, lstrip, rstrip, strip}
use Prim.Native.Char.{Char}
use Prim.Native.String.{String}
use mathlib.Core.Path.{◌≡◌, refl, ap, ◌∙◌}
use mathlib.Core.Bool.{◌&&◌}
use mathlib.Core.Logic.{inl, inr}
use text.Mathlib.Text.{◌==◌}

lstrip_idem : (s : String) → lstrip (lstrip s) ≡ lstrip s
unfolding lstrip
lstrip_idem String.[] = refl
lstrip_idem (String.◌∷◌ c s) = elim (Bool-cases (is_space c)) [
  | inl e ↦ rw e (lstrip_idem s)
  | inr e ↦ rw e (rw e)
]

rstrip_idem : (s : String) → rstrip (rstrip s) ≡ rstrip s
unfolding rstrip
rstrip_idem String.[] = refl
rstrip_idem (String.◌∷◌ c s) = elim (Bool-cases (is_space c && rstrip s == String.[])) [
  | inl e ↦ rw e
  | inr e ↦ rw e (rw (rstrip_idem s, e))
]

rstrip-tail : (c : Char) (s : String) → rstrip (String.◌∷◌ c s) ≡ String.◌∷◌ c s → rstrip s ≡ s
unfolding rstrip
rstrip-tail c s h = elim (Bool-cases (is_space c && rstrip s == String.[])) [
  | inl e ↦ cc (rw e at h)
  | inr e ↦ (cons-eq-cons.0 (rw e at h)).1
]

rstrip-lstrip : (s : String) → rstrip s ≡ s → rstrip (lstrip s) ≡ lstrip s
unfolding lstrip
rstrip-lstrip String.[] h = h
rstrip-lstrip (String.◌∷◌ c s) h = elim (Bool-cases (is_space c)) [
  | inl e ↦ rw e (rstrip-lstrip s (rstrip-tail c s h))
  | inr e ↦ rw e h
]

pub strip_idem : (s : String) → strip (strip s) ≡ strip s
unfolding strip
strip_idem s = ap lstrip (rstrip-lstrip (rstrip s) (rstrip_idem s)) ∙ lstrip_idem (rstrip s)
