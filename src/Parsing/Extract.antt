-- ===== src/Parsing/Extract.antt =====
-- extract_box_connections_from_data of parsing.py against the places where a payload may stand.
use fritzbox_vpn.Base.{◌≡◌, refl, Option, none, some, List, [], ◌∷◌, String, lookup}
use fritzbox_vpn.Value.{Value, null, Payload, as_dict, or_null}
use fritzbox_vpn.Parsing.{
  field_of, present_or, from_inner, from_data, from_answer, extract_box_connections_from_data,
}

-- The value at a path of keys, `null` where a step is missing or is no dictionary.
pub at_path : Value → List String → Value
at_path v [] = v
at_path v (k ∷ ks) = at_path (field_of (as_dict v) k) ks

-- Where the payload of a page may stand, the preferred place first.
abbrev pub places : String → List (List String)
places page =
    ("data" ∷ "init" ∷ "boxConnections" ∷ [])
    ∷ ("data" ∷ "init" ∷ page ∷ "boxConnections" ∷ [])
    ∷ ("data" ∷ "boxConnections" ∷ [])
    ∷ ("data" ∷ page ∷ "boxConnections" ∷ [])
    ∷ []

pub first_present : Value → List (List String) → Value
first_present v [] = null
first_present v (p ∷ ps) = present_or (at_path v p) (first_present v ps)

or-null : (x : Value) → present_or x null ≡ x
or-null null = refl
or-null (Value.bool b) = refl
or-null _ = refl

present_or_assoc : (a b c : Value) → present_or (present_or a b) c ≡ present_or a (present_or b c)
present_or_assoc null b c = refl
present_or_assoc (Value.bool _) b c = refl
present_or_assoc _ b c = refl

module _ (page : String) where
  from_inner_lem :
      (init : Option Payload) (inner : Payload)
      → from_inner init inner page
        ≡ present_or (field_of init "boxConnections") (
            present_or (field_of (as_dict (field_of init page)) "boxConnections") (
              present_or (or_null (lookup "boxConnections" inner)) (
                present_or
                  (field_of (as_dict (or_null (lookup page inner))) "boxConnections")
                  null)))
  from_inner_lem none inner = rw or-null
  from_inner_lem (some init) inner = rw (or-null, present_or_assoc)

  from_data_lem :
      (inner : Option Payload)
      → from_data inner page ≡ (
          let init = field_of inner "init" in
          present_or (field_of (as_dict init) "boxConnections") (
            present_or (field_of (as_dict (field_of (as_dict init) page)) "boxConnections") (
              present_or
                (field_of inner "boxConnections")
                (present_or (field_of (as_dict (field_of inner page)) "boxConnections") null))))
  from_data_lem none = refl
  from_data_lem (some inner) = from_inner_lem (as_dict (or_null (lookup "init" inner))) inner

  from_answer_lem :
      (d : Option Payload)
      → from_answer d page ≡ (
          let inner = field_of d "data" in
          let init = field_of (as_dict inner) "init" in
          present_or (field_of (as_dict init) "boxConnections") (
            present_or (field_of (as_dict (field_of (as_dict init) page)) "boxConnections") (
              present_or (field_of (as_dict inner) "boxConnections") (
                present_or
                  (field_of (as_dict (field_of (as_dict inner) page)) "boxConnections")
                  null))))
  from_answer_lem none = refl
  from_answer_lem (some d) = from_data_lem (as_dict (or_null (lookup "data" d)))

-- The extraction takes the first of the four places at which the answer holds a payload, and gives
-- `None` exactly where none of them does, for every shape of the answer.
pub extract-first_present :
    (answer : Value) (page : String)
    → extract_box_connections_from_data answer page ≡ first_present answer (places page)
unfolding extract_box_connections_from_data first_present at_path
extract-first_present answer page = from_answer_lem page (as_dict answer)
