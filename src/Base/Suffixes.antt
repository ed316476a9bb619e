-- ===== src/Base/Suffixes.antt =====
-- Ends of texts: `drop_suffix?` finds the text before an end, and texts with two ends agree from behind.
use Prim.Native.Char.{Char, code}
use Prim.Native.Nat.{ℕ}
use native.Mathlib.Omega.{arith}
use Prim.Native.String.{String}
use text.Mathlib.TextLemmas.{
  append_cancel_right, append_assoc, append-nil, nil-append, cons-append, cons≢nil,
  head-eq_of_cons-eq, tail-eq_of_cons-eq,
}
use mathlib.Core.Path.{◌≡◌, refl, sym, ap, ◌∙◌}
use mathlib.Core.Logic.{◌⊎◌, inl, inr}
use mathlib.Core.Bool.{true, false}
use mathlib.Core.Option.{Option, none, some}
use text.Mathlib.Text.{◌==◌}
use text.Mathlib.TextEquality.{eq_iff}
use text.Mathlib.TextPositions.{eq_refl}
use fritzbox_vpn.Base.Bools.{Bool-cases, Option-cases, nat_eq}
use fritzbox_vpn.Base.Text.{◌⊕◌, drop_prefix?, drop_suffix?, ends_with, push}

unfoldable pub reverse : String → String
reverse String.[] = String.[]
reverse (String.◌∷◌ c s) = reverse s ⊕ String.◌∷◌ c String.[]

pub reverse-append : (s t : String) → reverse (s ⊕ t) ≡ reverse t ⊕ reverse s
unfolding reverse
reverse-append String.[] t = ap reverse (nil-append t) ∙ sym (append-nil (reverse t))
reverse-append (String.◌∷◌ c s) t =
    ap reverse (cons-append c s t)
    ∙ ap (λ x. x ⊕ String.◌∷◌ c String.[]) (reverse-append s t)
    ∙ append_assoc (reverse t) (reverse s) (String.◌∷◌ c String.[])

push-inv :
    (c : Char) (o : Option String) (p : String)
    → push c o ≡ some p
    → (q : String) × (o ≡ some q) × (p ≡ String.◌∷◌ c q)
push-inv c none p h = cc
push-inv c (some q) p h = (q, refl, cc)

some_inj : (a b : String) → some a ≡ some b → a ≡ b
some_inj a b h = cc h

whole : (s t p : String) → (s == t) ≡ true → some String.[] ≡ some p → s ≡ p ⊕ t
whole s t p e h = (eq_iff s t).0 e ∙ sym (nil-append t) ∙ ap (λ x. x ⊕ t) (some_inj String.[] p h)

pub drop_suffix-some : (s t p : String) → drop_suffix? s t ≡ some p → s ≡ p ⊕ t
unfolding drop_suffix?
drop_suffix-some String.[] t p h = elim (Bool-cases (String.[] == t)) [
  | inl e ↦ whole String.[] t p e (rw e at h)
  | inr e ↦ cc (rw e at h)
]
drop_suffix-some (String.◌∷◌ c s) t p h = elim (Bool-cases (String.◌∷◌ c s == t)) [
  | inl e ↦ whole (String.◌∷◌ c s) t p e (rw e at h)
  | inr e ↦
      let (q, f, g) = push-inv c (drop_suffix? s t) p (rw e at h) in
      ap (String.◌∷◌ c) (drop_suffix-some s t q f)
      ∙ sym (cons-append c q t)
      ∙ ap (λ x. x ⊕ t) (sym g)
]

drop_suffix_whole : (t : String) → drop_suffix? t t ≡ some String.[]
unfolding drop_suffix?
drop_suffix_whole String.[] = refl
drop_suffix_whole (String.◌∷◌ c s) = rw (eq_refl (String.◌∷◌ c s)) refl

pub drop_suffix-append : (p t : String) → drop_suffix? (p ⊕ t) t ≡ some p
unfolding drop_suffix?
drop_suffix-append String.[] t = ap (λ x. drop_suffix? x t) (nil-append t) ∙ drop_suffix_whole t
drop_suffix-append (String.◌∷◌ c p) t =
    ap (λ x. drop_suffix? x t) (cons-append c p t) ∙ elim (Bool-cases (String.◌∷◌ c (p ⊕ t) == t)) [
      | inl e ↦ absurd (
          cons≢nil (
            append_cancel_right (String.◌∷◌ c p) String.[] t
              (cons-append c p t ∙ (eq_iff (String.◌∷◌ c (p ⊕ t)) t).0 e ∙ sym (nil-append t))))
      | inr e ↦ rw (e, drop_suffix-append p t) refl
    ]

-- `s.endswith(t)` finds a text before the end, and only then.
pub ends_with-cases :
    (s t : String)
    → ((ends_with s t ≡ true) × ((p : String) × (s ≡ p ⊕ t))) ⊎ (ends_with s t ≡ false)
unfolding ends_with
ends_with-cases s t = elim (Option-cases (drop_suffix? s t)) [
  | inl e ↦ inr (rw e refl)
  | inr (p, e) ↦ inl (rw e refl, (p, drop_suffix-some s t p e))
]

pub ends_with-append : (p t : String) → ends_with (p ⊕ t) t ≡ true
unfolding ends_with
ends_with-append p t = rw (drop_suffix-append p t) refl

nat_eq_refl : (n : ℕ) → nat_eq n n ≡ true
nat_eq_refl n = ground arith

pub drop_prefix-append : (p s : String) → drop_prefix? (p ⊕ s) p ≡ some s
unfolding drop_prefix?
drop_prefix-append String.[] s = nil_dropped (String.[] ⊕ s) ∙ ap some (nil-append s)
  where
    nil_dropped : (x : String) → drop_prefix? x String.[] ≡ some x
    nil_dropped String.[] = refl
    nil_dropped (String.◌∷◌ c x) = refl
drop_prefix-append (String.◌∷◌ c p) s =
    ap (λ x. drop_prefix? x (String.◌∷◌ c p)) (cons-append c p s)
    ∙ rw (nat_eq_refl (code c)) (drop_prefix-append p s)

-- Two texts that are the same begin with the same character.
pub same_head :
    (c d : Char) (s t p q : String)
    → String.◌∷◌ c s ⊕ p ≡ String.◌∷◌ d t ⊕ q
    → (code c ≡ code d) × (s ⊕ p ≡ t ⊕ q)
same_head c d s t p q h =
    let e = sym (cons-append c s p) ∙ h ∙ cons-append d t q in
    (ap code (head-eq_of_cons-eq e), tail-eq_of_cons-eq e)
