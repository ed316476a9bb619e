-- ===== src/Parsing/Latest.antt =====
-- normalize_box_connections of parsing.py: which item a uid stands for.
use fritzbox_vpn.Base.{
  ◌≡◌, refl, ◌∙◌, ap, inl, inr, Option, none, some, List, [], ◌∷◌, String, Dict, ◌==◌, lookup,
  lookup-put, or_else, Option-cases, if◌then◌else◌, arith,
}
use fritzbox_vpn.Value.{Value, Payload}
use fritzbox_vpn.Parsing.{
  Item, item_uid, normalized_entry, store_item, normalize_items, normalize_box_connections,
  items_with_keys,
}

-- The entry of one item, if its uid is `uid`.
abbrev entry_for : String → Option String → Payload → Option Payload
entry_for uid none c = none
entry_for uid (some j) c = if j == uid then some (normalized_entry j c) else none

abbrev pub entry_of : String → Item → Option Payload
entry_of uid (key, none) = none
entry_of uid (key, some c) = entry_for uid (item_uid key c) c

-- The last item with the uid decides.
pub latest_entry : String → List Item → Option Payload
latest_entry uid [] = none
latest_entry uid (item ∷ items) = or_else (latest_entry uid items) (entry_of uid item)

lookup-store_item :
    (uid : String) (key : Option String) (c : Option Payload) (result : Dict Payload)
    → lookup uid (store_item key c result) ≡ or_else (entry_of uid (key, c)) (lookup uid result)
lookup-store_item uid key none result = refl
lookup-store_item uid key (some c) result = elim (Option-cases (item_uid key c)) [
  | inl e ↦ rw e
  | inr (j, e) ↦ rw (e, lookup-put) (ground arith)
]

or_else_assoc {ℓ} :
    {A : Type ℓ} (a b c : Option A) → or_else a (or_else b c) ≡ or_else (or_else a b) c
or_else_assoc none b c = refl
or_else_assoc (some x) b c = refl

lookup-normalize_items :
    (uid : String) (items : List Item) (result : Dict Payload)
    → lookup uid (normalize_items items result)
      ≡ or_else (latest_entry uid items) (lookup uid result)
unfolding normalize_items latest_entry
lookup-normalize_items uid [] result = refl
lookup-normalize_items uid ((key, c) ∷ items) result =
    lookup-normalize_items uid items (store_item key c result)
    ∙ ap (or_else (latest_entry uid items)) (lookup-store_item uid key c result)
    ∙ or_else_assoc (latest_entry uid items) (entry_of uid (key, c)) (lookup uid result)

or_else-none {ℓ} : {A : Type ℓ} (a : Option A) → or_else a none ≡ a
or_else-none none = refl
or_else-none (some x) = refl

-- For every uid the result holds the entry of the last item in the payload whose normalised uid it
-- is, and nothing where there is no such item: no connection is lost or made up, and the latest wins.
pub lookup-normalize_box_connections :
    (uid : String) (box : Value)
    → lookup uid (normalize_box_connections box) ≡ latest_entry uid (items_with_keys box)
lookup-normalize_box_connections uid box =
    unfold normalize_box_connections lookup in
    (lookup-normalize_items uid (items_with_keys box) []
      ∙ or_else-none (latest_entry uid (items_with_keys box)))
