-- ===== src/Forms/Named.antt =====
-- custom_components/fritzbox_vpn/flow_forms.py: the hosts that are accepted.
use Prim.Native.Nat.{Ordering, compare as compare_ℕ}
use Prim.Native.String.{count}
use Prim.Native.String
use Prim.Native.String.compare
use text.Mathlib.Text.{is_eq}
use fritzbox_vpn.Base.{
  Bool, true, false, not, ◌&&◌, ◌||◌, Option, none, some, is_some, Char, code, String, ◌≡◌, ◌↔◌,
  ◌⊎◌, refl, sym, ap, ◌∙◌, inl, inr, ◌==◌, starts_with, ends_with, drop_prefix?, drop_suffix?, push,
  nat_eq, leb, if◌then◌else◌, arith, Bool-cases, and-true, subst,
}
use fritzbox_vpn.Value.{Value, null, bool, num, float, str, list, dict}
use fritzbox_vpn.Forms.Address.{ip_address}
use fritzbox_vpn.Forms.Host.{
  valid, invalid, is_alnum, is_host_char, all_host_chars, validate_name, validate_text,
  validate_host,
}

abbrev pub last_of : Char → String → Char
last_of c String.[] = c
last_of c (String.◌∷◌ d s) = last_of d s

then_eq : (o : Ordering) → is_eq (String.then o Ordering.eq) ≡ is_eq o
then_eq Ordering.lt = refl
then_eq Ordering.eq = refl
then_eq Ordering.gt = refl

then_gt : (o : Ordering) → is_eq (String.then o Ordering.gt) ≡ false
then_gt Ordering.lt = refl
then_gt Ordering.eq = refl
then_gt Ordering.gt = refl

one_char :
    (c d : Char) → (String.◌∷◌ c String.[] == String.◌∷◌ d String.[]) ≡ nat_eq (code c) (code d)
one_char c d =
    ap is_eq (compare.cons-cons c d String.[] String.[]) ∙ then_eq (compare_ℕ (code c) (code d))

two_chars :
    (c d e : Char) (s : String) → (String.◌∷◌ c (String.◌∷◌ e s) == String.◌∷◌ d String.[]) ≡ false
two_chars c d e s =
    ap is_eq (compare.cons-cons c d (String.◌∷◌ e s) String.[])
    ∙ ap (λ o. is_eq (String.then (compare_ℕ (code c) (code d)) o)) (compare.cons-nil e s)
    ∙ then_gt (compare_ℕ (code c) (code d))

is_pushed : (c : Char) (o : Option String) → is_some (push c o) ≡ is_some o
is_pushed c none = refl
is_pushed c (some s) = refl

one_or_none :
    (b : Bool) (c d : Char)
    → is_some
        (if b then some String.[] else push c (drop_suffix? String.[] (String.◌∷◌ d String.[])))
      ≡ b
unfolding drop_suffix?
one_or_none true c d = refl
one_or_none false c d = rw (compare.nil-cons d String.[]) refl

ends_one :
    (c d : Char) (s : String)
    → ends_with (String.◌∷◌ c s) (String.◌∷◌ d String.[]) ≡ nat_eq (code (last_of c s)) (code d)
unfolding ends_with drop_suffix?
ends_one c d String.[] =
    one_or_none (String.◌∷◌ c String.[] == String.◌∷◌ d String.[]) c d ∙ one_char c d
ends_one c d (String.◌∷◌ e s) =
    rw (two_chars c d e s)
      (is_pushed c (drop_suffix? (String.◌∷◌ e s) (String.◌∷◌ d String.[])) ∙ ends_one e d s)

nil_dropped : (s : String) → is_some (drop_prefix? s String.[]) ≡ true
unfolding drop_prefix?
nil_dropped String.[] = refl
nil_dropped (String.◌∷◌ c s) = refl

starts_one :
    (c d : Char) (s : String)
    → starts_with (String.◌∷◌ c s) (String.◌∷◌ d String.[]) ≡ nat_eq (code c) (code d)
unfolding starts_with drop_prefix?
starts_one c d s = elim (Bool-cases (nat_eq (code c) (code d))) [
  | inl e ↦ rw e (nil_dropped s)
  | inr e ↦ rw e refl
]

neither : (a b c d : Bool) → not (a || b || c || d) ≡ (not (a || c) && not (b || d))
neither true b c d = refl
neither false true true d = refl
neither false true false d = refl
neither false false true d = refl
neither false false false d = refl

-- The three tests one after the other.
by_tests :
    (a b c : Bool) (host h : String)
    → ((if not a
          then invalid "Hostname too long (max 253 characters)"
          else if not b
          then invalid "Invalid hostname format"
          else if c
          then invalid "Hostname cannot start or end with dot or hyphen"
          else valid host)
        ≡ valid h)
      ↔ ((host ≡ h) × ((a && b && not c) ≡ true))
by_tests false b c host h = (λ e. cc e, λ p. cc p.1)
by_tests true false c host h = (λ e. cc e, λ p. cc p.1)
by_tests true true true host h = (λ e. cc e, λ p. cc p.1)
by_tests true true false host h = (λ e. (cc e, refl), λ p. ap valid p.0)

no_address : is_some (ip_address "") ≡ false
unfolding ip_address
no_address = refl

module _ (is_wide : Char → Bool) where
  -- Letters, digits, dots and hyphens, 253 at most, the first and the last a letter or digit.
  unfoldable pub is_name : String → Bool
  unfolding all_host_chars
  is_name String.[] = false
  is_name (String.◌∷◌ c s) =
      leb (count (String.◌∷◌ c s)) 253
      && all_host_chars is_wide (String.◌∷◌ c s)
      && is_alnum is_wide c
      && is_alnum is_wide (last_of c s)

  inner_char :
      (c : Char)
      → is_host_char is_wide c ≡ true
      → is_alnum is_wide c ≡ not (nat_eq (code c) b'.' || nat_eq (code c) b'-')
  inner_char c h = ground arith

  last-host_char :
      (c : Char) (s : String)
      → all_host_chars is_wide (String.◌∷◌ c s) ≡ true
      → is_host_char is_wide (last_of c s) ≡ true
  unfolding all_host_chars
  last-host_char c String.[] h = ground arith
  last-host_char c (String.◌∷◌ d s) h = last-host_char d s (ground arith)

  abbrev has_bad_end : String → Bool
  has_bad_end host =
      starts_with host "." || ends_with host "." || starts_with host "-" || ends_with host "-"

  ends_good :
      (c : Char) (s : String)
      → all_host_chars is_wide (String.◌∷◌ c s) ≡ true
      → not (has_bad_end (String.◌∷◌ c s)) ≡ (is_alnum is_wide c && is_alnum is_wide (last_of c s))
  unfolding all_host_chars
  ends_good c s h =
      rw
        (
          starts_one c "." s,
          ends_one c "." s,
          starts_one c "-" s,
          ends_one c "-" s,
          inner_char c (and-true _ _ h).0,
          inner_char (last_of c s) (last-host_char c s h),
        )
        (neither (nat_eq (code c) b'.') (nat_eq (code (last_of c s)) b'.') (nat_eq (code c) b'-')
          (nat_eq (code (last_of c s)) b'-'))

  tests_good :
      (b all : Bool) (c : Char) (s : String)
      → all_host_chars is_wide (String.◌∷◌ c s) ≡ all
      → (b && all && not (has_bad_end (String.◌∷◌ c s)))
        ≡ (b && all && is_alnum is_wide c && is_alnum is_wide (last_of c s))
  tests_good false all c s h = refl
  tests_good true false c s h = refl
  tests_good true true c s h = ends_good c s h

  name_valid :
      (c : Char) (s h : String)
      → (validate_name is_wide (String.◌∷◌ c s) ≡ valid h)
        ↔ ((String.◌∷◌ c s ≡ h) × (is_name (String.◌∷◌ c s) ≡ true))
  unfolding validate_name is_name
  name_valid c s h =
      let host = String.◌∷◌ c s in
      subst (λ b. (validate_name is_wide host ≡ valid h) ↔ ((host ≡ h) × (b ≡ true)))
        (tests_good (leb (count host) 253) (all_host_chars is_wide host) c s refl)
        (by_tests (leb (count host) 253) (all_host_chars is_wide host) (has_bad_end host) host h)

  abbrev IsAccepted : String → Type 0
  IsAccepted h = (is_some (ip_address h) ≡ true) ⊎ (is_name h ≡ true)

  valid_inj : (a b : String) → valid a ≡ valid b → a ≡ b
  valid_inj a b e = cc e

  -- An address, or else a name.
  by_address :
      (ip : Bool) (c : Char) (s h : String)
      → is_some (ip_address (String.◌∷◌ c s)) ≡ ip
      → ((if ip then valid (String.◌∷◌ c s) else validate_name is_wide (String.◌∷◌ c s)) ≡ valid h)
        ↔ ((String.◌∷◌ c s ≡ h) × IsAccepted (String.◌∷◌ c s))
  by_address true c s h i = (λ e. (valid_inj (String.◌∷◌ c s) h e, inl i), λ p. ap valid p.0)
  by_address false c s h i = (
    λ e. let (q, n) = (name_valid c s h).0 e in (q, inr n),
    λ p. (name_valid c s h).1 (p.0, name_of p.1),
  )
    where
      name_of : IsAccepted (String.◌∷◌ c s) → is_name (String.◌∷◌ c s) ≡ true
      name_of (inl j) = cc (i, j)
      name_of (inr n) = n

  text_valid :
      (host h : String) → (validate_text is_wide host ≡ valid h) ↔ ((host ≡ h) × IsAccepted host)
  unfolding validate_text is_name
  text_valid String.[] h = (λ e. cc e, λ p. nothing p.1)
    where
      nothing : IsAccepted String.[] → invalid "Host must be a non-empty string" ≡ valid h
      nothing (inl j) = cc (no_address, j)
      nothing (inr n) = cc n
  text_valid (String.◌∷◌ c s) h =
      rw (compare.cons-nil c s) (by_address (is_some (ip_address (String.◌∷◌ c s))) c s h refl)

  str_inj : (a b : String) → str a ≡ str b → a ≡ b
  str_inj a b e = cc e

  text_case :
      (host h : String)
      → (validate_text is_wide host ≡ valid h) ↔ ((str host ≡ str h) × IsAccepted h)
  text_case host h = (
    λ e. let (q, a) = (text_valid host h).0 e in (ap str q, subst IsAccepted q a),
    λ p. let q = str_inj host h p.0 in (text_valid host h).1 (q, subst IsAccepted (sym q) p.1),
  )

  -- A host is accepted exactly when it is a text that is an IP address, or one of letters, digits,
  -- dots and hyphens, of 253 characters at most, whose first and last character is a letter or a
  -- digit; and then it is accepted as it is.
  pub validate_host_iff :
      (value : Value) (h : String)
      → (validate_host is_wide value ≡ valid h)
        ↔ ((value ≡ str h) × ((is_some (ip_address h) ≡ true) ⊎ (is_name h ≡ true)))
  unfolding validate_host
  validate_host_iff (str host) h = text_case host h
  validate_host_iff null h = (λ e. cc e, λ p. cc p.0)
  validate_host_iff (bool b) h = (λ e. cc e, λ p. cc p.0)
  validate_host_iff (num n) h = (λ e. cc e, λ p. cc p.0)
  validate_host_iff (float n s) h = (λ e. cc e, λ p. cc p.0)
  validate_host_iff (list vs) h = (λ e. cc e, λ p. cc p.0)
  validate_host_iff (dict fs) h = (λ e. cc e, λ p. cc p.0)
