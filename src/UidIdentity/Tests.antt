-- ===== src/UidIdentity/Tests.antt =====
-- Runs of uid_identity.py, after tests/test_uid_identity.py.
use fritzbox_vpn.Base.{
  ◌≡◌, refl, [], ◌∷◌, String, Dict, lookup, put, keys, elem, intersection, strip,
}
use fritzbox_vpn.Value.{str, Payload, to_str}
use fritzbox_vpn.UidIdentity.{
  mapping, name_bijection_uid_remap, by_name, old_name, new_name, pair_up, subset,
}
use fritzbox_vpn.UidIdentity.Bijection.{IsNameBijection, name_bijection_uid_remap-IsNameBijection}

abbrev names : Dict String
names = ("1", "Home") ∷ ("2", " Office ") ∷ []

abbrev payloads : Dict Payload
payloads = ("7", ("name", str "Office") ∷ []) ∷ ("8", ("name", str "Home") ∷ []) ∷ []

swapped :
    name_bijection_uid_remap ("1" ∷ "2" ∷ []) ("7" ∷ "8" ∷ []) names payloads
    ≡ mapping (("1", "8") ∷ ("2", "7") ∷ [])
unfolding name_bijection_uid_remap by_name old_name new_name pair_up subset lookup put keys elem
    intersection strip to_str
swapped = refl

name_bijection_uid_remap-IsNameBijection_example :
    IsNameBijection ("1" ∷ "2" ∷ []) ("7" ∷ "8" ∷ []) names payloads (("1", "8") ∷ ("2", "7") ∷ [])
name_bijection_uid_remap-IsNameBijection_example =
    name_bijection_uid_remap-IsNameBijection ("1" ∷ "2" ∷ []) ("7" ∷ "8" ∷ []) names payloads
      (("1", "8") ∷ ("2", "7") ∷ []) swapped
