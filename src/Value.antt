-- ===== src/Value.antt =====
-- The values of type `Any` in payloads and configurations: what `json.loads` returns. A float is
-- carried as what the program can read of it, `int(f)` and `str(f)`; it is finite.
pub mod Numeral
use fritzbox_vpn.Base.{
  zero, ◌≡◌, refl, Bool, true, false, not, ◌||◌, Option, none, some, List, [], ◌∷◌, String, Char,
  Dict, ◌==◌, ◌⊕◌, is_empty, nat_eq, code, if◌then◌else◌,
}
pub use Numeral.{ℤ, pos, negsuc}
unfoldable pub use Numeral.{show_nat, show_int, parse_int}

mutual
  pub data Value : Type 0 where
    null : Value
    bool : Bool → Value
    num : ℤ → Value
    float : ℤ → String → Value
    str : String → Value
    list : Items → Value
    dict : Fields → Value

  pub data Items : Type 0 where
    nil : Items
    cons : Value → Items → Items

  pub data Fields : Type 0 where
    end : Fields
    field : String → Value → Fields → Fields

unfoldable pub to_list : Items → List Value
to_list nil = []
to_list (cons v vs) = v ∷ to_list vs

unfoldable pub to_dict : Fields → Dict Value
to_dict end = []
to_dict (field k v fs) = (k, v) ∷ to_dict fs

-- A dictionary whose values are any.
abbrev pub Payload : Type 0
Payload = Dict Value

abbrev pub is_null : Value → Bool
is_null null = true
is_null _ = false

-- `isinstance(v, dict)`, with the dictionary.
abbrev pub as_dict : Value → Option Payload
as_dict (dict fs) = some (to_dict fs)
as_dict _ = none

-- `d.get(k)`: `None` where the key is missing.
abbrev pub or_null : Option Value → Value
or_null none = null
or_null (some v) = v

-- `bool(v)`
unfoldable pub truthy : Value → Bool
truthy null = false
truthy (bool b) = b
truthy (num (pos n)) = not (nat_eq n 0)
truthy (num (negsuc n)) = true
truthy (float _ s) = not (s == "0.0" || s == "-0.0")
truthy (str s) = not (s == "")
truthy (list nil) = false
truthy (list (cons _ _)) = true
truthy (dict end) = false
truthy (dict (field _ _ _)) = true

-- `a or b`
abbrev pub value_or : Value → Value → Value
value_or a b = if truthy a then a else b

-- One character of `repr` of a text in single quotes; other control characters are not escaped.
unfoldable pub escape : Char → String
escape c =
    let n = code c in
    if nat_eq n b'\\'
    then "\\\\"
    else if nat_eq n b'\''
    then "\\'"
    else if nat_eq n 10
    then "\\n"
    else if nat_eq n 13
    then "\\r"
    else if nat_eq n 9
    then "\\t"
    else String.◌∷◌ c String.[]

unfoldable pub quote_rest : String → String
unfolding escape
quote_rest String.[] = "'"
quote_rest (String.◌∷◌ c s) = escape c ⊕ quote_rest s

unfoldable mutual
  -- `repr(v)`
  pub repr : Value → String
  repr null = "None"
  repr (bool true) = "True"
  repr (bool false) = "False"
  repr (num n) = show_int n
  repr (float _ s) = s
  repr (str s) = "'" ⊕ quote_rest s
  repr (list vs) = "[" ⊕ repr_items vs
  repr (dict fs) = "{" ⊕ repr_fields fs

  pub repr_items : Items → String
  repr_items nil = "]"
  repr_items (cons v nil) = repr v ⊕ "]"
  repr_items (cons v (cons w vs)) = repr v ⊕ ", " ⊕ repr_items (cons w vs)

  pub repr_fields : Fields → String
  repr_fields end = "}"
  repr_fields (field k v end) = "'" ⊕ quote_rest k ⊕ ": " ⊕ repr v ⊕ "}"
  repr_fields (field k v (field l w fs)) =
      "'" ⊕ quote_rest k ⊕ ": " ⊕ repr v ⊕ ", " ⊕ repr_fields (field l w fs)

-- `str(v)`
unfoldable pub to_str : Value → String
to_str (str s) = s
to_str v = repr v

repr_test :
    repr (list (cons (str "a'b") (cons (dict (field "k" null end)) nil))) ≡ "['a\\'b', {'k': None}]"
unfolding repr quote_rest
repr_test = refl

-- `int(v)`, `none` for `ValueError` and `TypeError`.
unfoldable pub to_int : Value → Option ℤ
to_int (bool true) = some (pos 1)
to_int (bool false) = some (pos 0)
to_int (num n) = some n
to_int (float n _) = some n
to_int (str s) = parse_int s
to_int _ = none

abbrev pub nonzero : ℤ → Bool
nonzero (pos zero) = false
nonzero _ = true
