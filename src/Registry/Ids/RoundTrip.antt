-- ===== src/Registry/Ids/RoundTrip.antt =====
-- custom_components/fritzbox_vpn/entity_registry.py: unique ids against what they were made of.
use text.Mathlib.TextLemmas.{append_assoc, append_cancel_right}
use fritzbox_vpn.Base.{
  ◌≡◌, refl, sym, subst, ap, ◌∙◌, inl, inr, true, false, ◌&&◌, some, String, ◌==◌, ◌⊕◌, eq_iff,
  elem, ends_with, reverse, reverse-append, drop_suffix-append, drop_prefix-append, same_head,
  ends_with-cases, ends_with-append, Bool-cases, arith,
}
use fritzbox_vpn.UidIdentity.{unique_id_prefix, entity_unique_id}
use fritzbox_vpn.Registry.Ids.{
  unique_id_suffixes, first_suffix, unique_id_suffix_from_entity_unique_id,
  connection_uid_from_entity_unique_id,
}

-- No text has two ends that differ when they are read backwards.
other_end :
    (s t u : String)
    → ((p q : String) → reverse t ⊕ p ≡ reverse u ⊕ q → ⊥)
    → ends_with (s ⊕ t) u ≡ false
other_end s t u differ = elim (ends_with-cases (s ⊕ t) u) [
  | inr e ↦ e
  | inl (_, (p, e)) ↦ absurd (
      differ (reverse s) (reverse p) (sym (reverse-append s t) ∙ ap reverse e ∙ reverse-append p u))
]

status-vpn_uid : (uid : String) → ends_with (uid ⊕ "_status") "_vpn_uid" ≡ false
unfolding reverse
status-vpn_uid uid =
    other_end uid "_status" "_vpn_uid"
      (λ p q h. let (e, _) = same_head "s" "d" "utats_" "iu_npv_" p q h in ground (arith, e))

switch-vpn_uid : (uid : String) → ends_with (uid ⊕ "_switch") "_vpn_uid" ≡ false
unfolding reverse
switch-vpn_uid uid =
    other_end uid "_switch" "_vpn_uid"
      (λ p q h. let (e, _) = same_head "h" "d" "ctiws_" "iu_npv_" p q h in ground (arith, e))

connected-vpn_uid : (uid : String) → ends_with (uid ⊕ "_connected") "_vpn_uid" ≡ false
unfolding reverse
connected-vpn_uid uid = other_end uid "_connected" "_vpn_uid" (λ p q h.
    let (_, h0) = same_head "d" "d" "etcennoc_" "iu_npv_" p q h in
    let (e, _) = same_head "e" "i" "tcennoc_" "u_npv_" p q h0 in ground (arith, e))

status-connected : (uid : String) → ends_with (uid ⊕ "_status") "_connected" ≡ false
unfolding reverse
status-connected uid =
    other_end uid "_status" "_connected"
      (λ p q h. let (e, _) = same_head "s" "d" "utats_" "etcennoc_" p q h in ground (arith, e))

switch-connected : (uid : String) → ends_with (uid ⊕ "_switch") "_connected" ≡ false
unfolding reverse
switch-connected uid =
    other_end uid "_switch" "_connected"
      (λ p q h. let (e, _) = same_head "h" "d" "ctiws_" "etcennoc_" p q h in ground (arith, e))

switch-status : (uid : String) → ends_with (uid ⊕ "_switch") "_status" ≡ false
unfolding reverse
switch-status uid =
    other_end uid "_switch" "_status"
      (λ p q h. let (e, _) = same_head "h" "s" "ctiws_" "utats_" p q h in ground (arith, e))

uid-connected : (uid : String) → ends_with (uid ⊕ "_uid") "_connected" ≡ false
unfolding reverse
uid-connected uid = other_end uid "_uid" "_connected" (λ p q h.
    let (_, h0) = same_head "d" "d" "iu_" "etcennoc_" p q h in
    let (e, _) = same_head "i" "e" "u_" "tcennoc_" p q h0 in ground (arith, e))

uid-status : (uid : String) → ends_with (uid ⊕ "_uid") "_status" ≡ false
unfolding reverse
uid-status uid =
    other_end uid "_uid" "_status"
      (λ p q h. let (e, _) = same_head "d" "s" "iu_" "utats_" p q h in ground (arith, e))

uid-switch : (uid : String) → ends_with (uid ⊕ "_uid") "_switch" ≡ false
unfolding reverse
uid-switch uid =
    other_end uid "_uid" "_switch"
      (λ p q h. let (e, _) = same_head "d" "h" "iu_" "ctiws_" p q h in ground (arith, e))

uid-vpn_uid :
    (uid : String) → ends_with uid "_vpn" ≡ false → ends_with (uid ⊕ "_uid") "_vpn_uid" ≡ false
uid-vpn_uid uid h = elim (ends_with-cases (uid ⊕ "_uid") "_vpn_uid") [
  | inr e ↦ e
  | inl (_, (p, e)) ↦
      let same : uid ≡ p ⊕ "_vpn" =
        append_cancel_right uid (p ⊕ "_vpn") "_uid" (e ∙ sym (append_assoc p "_vpn" "_uid")) in
      ground (arith, h, ends_with-append p "_vpn", same)
]

abbrev Finds : String → String → Type 0
Finds uid suffix = first_suffix unique_id_suffixes (uid ⊕ "_" ⊕ suffix) ≡ some suffix

Finds-vpn_uid : (uid : String) → Finds uid "vpn_uid"
unfolding first_suffix
Finds-vpn_uid uid = rw (ends_with-append uid "_vpn_uid") refl

Finds-connected : (uid : String) → Finds uid "connected"
unfolding first_suffix
Finds-connected uid = rw (connected-vpn_uid uid, ends_with-append uid "_connected") refl

Finds-status : (uid : String) → Finds uid "status"
unfolding first_suffix
Finds-status uid =
    rw (status-vpn_uid uid, status-connected uid, ends_with-append uid "_status") refl

Finds-switch : (uid : String) → Finds uid "switch"
unfolding first_suffix
Finds-switch uid =
    rw (switch-vpn_uid uid, switch-connected uid, switch-status uid, ends_with-append uid "_switch")
      refl

Finds-uid : (uid : String) → ends_with uid "_vpn" ≡ false → Finds uid "uid"
unfolding first_suffix
Finds-uid uid h =
    rw
      (
        uid-vpn_uid uid h,
        uid-connected uid,
        uid-status uid,
        uid-switch uid,
        ends_with-append uid "_uid",
      )
      refl

any-Finds :
    (uid suffix : String)
    → elem suffix unique_id_suffixes ≡ true
    → (suffix == "uid" && ends_with uid "_vpn") ≡ false
    → Finds uid suffix
unfolding elem
any-Finds uid suffix k h = elim (Bool-cases ("vpn_uid" == suffix)) [
  | inl e ↦ subst (Finds uid) ((eq_iff "vpn_uid" suffix).0 e) (Finds-vpn_uid uid)
  | inr e₁ ↦ elim (Bool-cases ("connected" == suffix)) [
    | inl e ↦ subst (Finds uid) ((eq_iff "connected" suffix).0 e) (Finds-connected uid)
    | inr e₂ ↦ elim (Bool-cases ("status" == suffix)) [
      | inl e ↦ subst (Finds uid) ((eq_iff "status" suffix).0 e) (Finds-status uid)
      | inr e₃ ↦ elim (Bool-cases ("switch" == suffix)) [
        | inl e ↦ subst (Finds uid) ((eq_iff "switch" suffix).0 e) (Finds-switch uid)
        | inr e₄ ↦
            let same : "uid" ≡ suffix = ground (arith, eq_iff "uid" suffix) in
            subst (Finds uid) same
              (Finds-uid uid (ground (arith, eq_iff "uid" suffix, eq_iff suffix "uid")))
      ]
    ]
  ]
]

-- The unique id of an entity gives back the uid of its connection and the suffix of its platform, for
-- each of the five suffixes; for the suffix `uid` only where the connection's uid does not end with
-- `_vpn`.
pub connection_uid-entity_unique_id :
    (uid suffix : String)
    → elem suffix unique_id_suffixes ≡ true
    → (suffix == "uid" && ends_with uid "_vpn") ≡ false
    → (unique_id_suffix_from_entity_unique_id (entity_unique_id uid suffix) ≡ some suffix)
      × (connection_uid_from_entity_unique_id (entity_unique_id uid suffix) ≡ some uid)
unfolding unique_id_suffix_from_entity_unique_id connection_uid_from_entity_unique_id
    entity_unique_id
connection_uid-entity_unique_id uid suffix k h =
    let rest = drop_prefix-append unique_id_prefix (uid ⊕ "_" ⊕ suffix) in
    let found = any-Finds uid suffix k h in
    (rw (rest, found) refl, rw (rest, found) (drop_suffix-append uid ("_" ⊕ suffix)))

-- Two connections whose uids are `uid` and `uid_vpn` claim one unique id, the first for its entity with
-- the VPN uid and the second for its entity with the uid; and that id is read as the first one's.
pub unique_ids_collide :
    (uid : String)
    → (entity_unique_id (uid ⊕ "_vpn") "uid" ≡ entity_unique_id uid "vpn_uid")
      × (connection_uid_from_entity_unique_id (entity_unique_id (uid ⊕ "_vpn") "uid") ≡ some uid)
unfolding entity_unique_id elem
unique_ids_collide uid =
    let same : entity_unique_id (uid ⊕ "_vpn") "uid" ≡ entity_unique_id uid "vpn_uid" =
      ap (λ x. unique_id_prefix ⊕ x) (append_assoc uid "_vpn" "_uid") in
    (
      same,
      ap connection_uid_from_entity_unique_id same
          ∙ (connection_uid-entity_unique_id uid "vpn_uid" refl refl).1,
    )
