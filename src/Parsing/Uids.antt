-- ===== src/Parsing/Uids.antt =====
-- normalize_box_connections of parsing.py: what every entry of the result looks like.
use fritzbox_vpn.Base.{
  ◌≡◌, sym, ap, ◌∙◌, inl, inr, Bool, false, Option, none, some, List, [], ◌∷◌, String, Dict, ◌==◌,
  strip, strip_idem, lookup, put, lookup-put, Option-cases, Bool-cases, arith, eq_iff,
}
use fritzbox_vpn.Value.{Value, bool, str, Payload, to_str}
use fritzbox_vpn.Parsing.{
  Item, connection_active_from_api, normalize_connection_uid, item_uid, raw_uid, normalized_entry,
  store_item, normalize_items, normalize_box_connections, normalize_entries, items_with_keys,
  entry_items,
}

-- What the session, the coordinator and the entities rely on.
pub record IsNormalEntry (uid : String) (entry : Payload) : Type 0 where
  pub uid_field : lookup "uid" entry ≡ some (str uid)
  pub active_field : lookup "active" entry ≡ some (bool (connection_active_from_api entry))
  pub uid_stripped : strip uid ≡ uid
  pub uid_nonempty : (uid == "") ≡ false

pub record IsNormal (result : Dict Payload) : Type 0 where
  pub at :
      (uid : String) (entry : Payload) → lookup uid result ≡ some entry → IsNormalEntry uid entry

pub normalize_connection_uid-stripped :
    (raw : Value) (uid : String)
    → normalize_connection_uid raw ≡ some uid
    → (strip uid ≡ uid) × ((uid == "") ≡ false)
unfolding normalize_connection_uid
normalize_connection_uid-stripped raw uid h = ground (arith, strip_idem (to_str raw), eq_iff uid "")

item_uid-stripped :
    (key : Option String) (c : Payload) (uid : String)
    → item_uid key c ≡ some uid
    → (strip uid ≡ uid) × ((uid == "") ≡ false)
unfolding item_uid
item_uid-stripped key c uid e = normalize_connection_uid-stripped (raw_uid key c) uid e

active_lookup :
    (b : Bool) (e : Payload) → lookup "active" e ≡ some (bool b) → connection_active_from_api e ≡ b
unfolding connection_active_from_api
active_lookup b e h = rw h

normalized_entry-IsNormalEntry :
    (uid : String) (c : Payload)
    → strip uid ≡ uid
    → (uid == "") ≡ false
    → IsNormalEntry uid (normalized_entry uid c)
normalized_entry-IsNormalEntry uid c s n =
    let uid_is : lookup "uid" (normalized_entry uid c) ≡ some (str uid) =
      unfold normalized_entry in simp lookup-put in
    let active_is : lookup "active" (normalized_entry uid c)
        ≡ some (bool (connection_active_from_api c)) =
      unfold normalized_entry in simp lookup-put in
    record {
      uid_field = uid_is;
      active_field =
          active_is
          ∙ ap (λ b. some (bool b)) (sym (active_lookup _ (normalized_entry uid c) active_is));
      uid_stripped = s;
      uid_nonempty = n;
    }

put-IsNormal :
    (uid : String) (c : Payload) (result : Dict Payload)
    → strip uid ≡ uid
    → (uid == "") ≡ false
    → IsNormal result
    → IsNormal (put uid (normalized_entry uid c) result)
put-IsNormal uid c result s n h = record {
  at = λ j e p. elim (Bool-cases (uid == j)) [
    | inl same ↦ ground (
      arith,
      normalized_entry-IsNormalEntry uid c s n,
      lookup-put uid j (normalized_entry uid c) result,
      eq_iff uid j,
    )
    | inr other ↦ h.at j e (ground (arith, lookup-put uid j (normalized_entry uid c) result))
  ];
}

store-IsNormal :
    (key : Option String) (c : Option Payload) (result : Dict Payload)
    → IsNormal result
    → IsNormal (store_item key c result)
store-IsNormal key none result h = h
store-IsNormal key (some c) result h = elim (Option-cases (item_uid key c)) [
  | inl e ↦ rw e h
  | inr (uid, e) ↦
      let facts = item_uid-stripped key c uid e in
      rw e (put-IsNormal uid c result facts.0 facts.1 h)
]

normalize_items-IsNormal :
    (items : List Item) (result : Dict Payload)
    → IsNormal result
    → IsNormal (normalize_items items result)
unfolding normalize_items
normalize_items-IsNormal [] result h = h
normalize_items-IsNormal ((key, c) ∷ items) result h =
    normalize_items-IsNormal items (store_item key c result) (store-IsNormal key c result h)

empty-IsNormal : IsNormal []
unfolding lookup
empty-IsNormal = record { at = λ uid entry h. cc }

-- Whatever the box sends, every entry of the normalised connections is filed under its own `uid`
-- field, which is stripped and not empty, and its `active` field is the Boolean that
-- `connection_active_from_api` reads from that entry.
pub normalize_box_connections-IsNormal : (box : Value) → IsNormal (normalize_box_connections box)
unfolding normalize_box_connections
normalize_box_connections-IsNormal box =
    normalize_items-IsNormal (items_with_keys box) [] empty-IsNormal

pub normalize_entries-IsNormal : (entries : List Payload) → IsNormal (normalize_entries entries)
unfolding normalize_entries
normalize_entries-IsNormal entries =
    normalize_items-IsNormal (entry_items entries) [] empty-IsNormal
