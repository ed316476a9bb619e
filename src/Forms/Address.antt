-- ===== src/Forms/Address.antt =====
-- `ipaddress.ip_address` of Python's standard library, as far as custom_components/fritzbox_vpn/
-- flow_forms.py and ssdp_unique_id.py use it.
use Prim.Native.String.{count}
use fritzbox_vpn.Base.{
  ℕ, zero, suc, ◌+◌, ◌-◌, ◌*◌, ◌/◌, ◌≡◌, refl, Bool, true, false, not, ◌&&◌, Option, none, some,
  is_some, List, [], ◌∷◌, ◌++◌, Char, code, String, ◌==◌, starts_with, contains, leb, nat_eq,
  if◌then◌else◌, or_else,
}

-- The four octets, or the eight groups.
pub data Address : Type 0 where
  v4 : ℕ → ℕ → ℕ → ℕ → Address
  v6 : List ℕ → Address

abbrev pub onto_first : Char → List String → List String
onto_first c [] = String.◌∷◌ c String.[] ∷ []
onto_first c (s ∷ ss) = String.◌∷◌ c s ∷ ss

-- `s.split(c)`, with the code of `c`
unfoldable pub split_on : ℕ → String → List String
split_on c String.[] = String.[] ∷ []
split_on c (String.◌∷◌ d s) =
    let rest = split_on c s in if nat_eq (code d) c then String.[] ∷ rest else onto_first d rest

abbrev pub is_digit : ℕ → Bool
is_digit c = leb 48 c && leb c 57

unfoldable pub all_digits : String → Bool
all_digits String.[] = true
all_digits (String.◌∷◌ c s) = is_digit (code c) && all_digits s

unfoldable pub decimal : ℕ → String → ℕ
decimal n String.[] = n
decimal n (String.◌∷◌ c s) = decimal (n * 10 + (code c - 48)) s

-- No leading zero, and no more than 255.
unfoldable pub octet : String → Option ℕ
unfolding all_digits decimal starts_with
octet s =
    if not (s == "")
      && all_digits s
      && leb (count s) 3
      && not (starts_with s "0" && not (s == "0"))
      && leb (decimal 0 s) 255
    then some (decimal 0 s)
    else none

abbrev four_octets : Option ℕ → Option ℕ → Option ℕ → Option ℕ → Option Address
four_octets (some a) (some b) (some c) (some d) = some (v4 a b c d)
four_octets _ _ _ _ = none

abbrev octets : List String → Option Address
octets (a ∷ b ∷ c ∷ d ∷ []) = four_octets (octet a) (octet b) (octet c) (octet d)
octets _ = none

unfoldable pub ipv4_address : String → Option Address
unfolding octet split_on
ipv4_address s = octets (split_on b'.' s)

abbrev hex_digit : ℕ → Option ℕ
hex_digit c =
    if is_digit c
    then some (c - 48)
    else if leb 97 c && leb c 102
    then some (c - 87)
    else if leb 65 c && leb c 70
    then some (c - 55)
    else none

abbrev next_digit : ℕ → Option ℕ → Option ℕ
next_digit n none = none
next_digit n (some d) = some (n * 16 + d)

abbrev after_digits : Option ℕ → (ℕ → Option ℕ) → Option ℕ
after_digits none f = none
after_digits (some n) f = f n

unfoldable pub hexadecimal : String → ℕ → Option ℕ
hexadecimal String.[] n = some n
hexadecimal (String.◌∷◌ c s) n = after_digits (next_digit n (hex_digit (code c))) (hexadecimal s)

-- A part between colons: a text, or half of an IPv4 address.
pub data Part : Type 0 where
  text : String → Part
  word : ℕ → Part

abbrev pub is_blank : Part → Bool
is_blank (text s) = s == ""
is_blank (word n) = false

unfoldable pub hextet : Part → Option ℕ
unfolding hexadecimal
hextet (text s) = if not (s == "") && leb (count s) 4 then hexadecimal s 0 else none
hextet (word n) = some n

abbrev pub both : Option ℕ → Option (List ℕ) → Option (List ℕ)
both (some n) (some ns) = some (n ∷ ns)
both _ _ = none

unfoldable pub hextets : List Part → Option (List ℕ)
unfolding hextet
hextets [] = some []
hextets (p ∷ ps) = both (hextet p) (hextets ps)

abbrev words : Option Address → Option (List Part)
words (some (v4 a b c d)) = some (word (a * 256 + b) ∷ word (c * 256 + d) ∷ [])
words _ = none

abbrev in_front : Part → Option (List Part) → Option (List Part)
in_front p none = none
in_front p (some ps) = some (p ∷ ps)

-- A last part with a dot is an IPv4 address, for two groups.
unfoldable pub parts_of : List String → Option (List Part)
unfolding ipv4_address contains
parts_of [] = some []
parts_of (s ∷ []) = if contains s "." then words (ipv4_address s) else some (text s ∷ [])
parts_of (s ∷ t ∷ ss) = in_front (text s) (parts_of (t ∷ ss))

abbrev to_front : Part → Option (List Part × List Part) → Option (List Part × List Part)
to_front p none = none
to_front p (some (hi, lo)) = some (p ∷ hi, lo)

-- The parts before and after the first blank one that is not the last.
unfoldable pub split_gap : List Part → Option (List Part × List Part)
split_gap [] = none
split_gap (p ∷ []) = none
split_gap (p ∷ q ∷ ps) =
    let rest = split_gap (q ∷ ps) in if is_blank p then some ([], q ∷ ps) else to_front p rest

-- A blank part at the very beginning or end stands beside the gap only.
abbrev side : List Part → List Part
side (text s ∷ []) = if s == "" then [] else text s ∷ []
side ps = ps

abbrev pub length {ℓ} : {A : Type ℓ} → List A → ℕ
length [] = 0
length (x ∷ xs) = suc (length xs)

unfoldable pub zeros : ℕ → List ℕ
zeros zero = []
zeros (suc n) = 0 ∷ zeros n

abbrev filled : Option (List ℕ) → Option (List ℕ) → Option Address
filled (some hi) (some lo) =
    if leb (length hi + length lo) 7
    then some (v6 (hi ++ zeros (8 - (length hi + length lo)) ++ lo))
    else none
filled _ _ = none

abbrev eight : Option (List ℕ) → Option Address
eight none = none
eight (some ns) = if nat_eq (length ns) 8 then some (v6 ns) else none

abbrev by_gap : List Part → Part → Option (List Part × List Part) → Option Address
by_gap ps first none = eight (hextets ps)
by_gap ps first (some (hi, lo)) =
    if is_some (split_gap lo)
    then none
    else filled (hextets (side (first ∷ hi))) (hextets (side lo))

abbrev groups : Option (List Part) → Option Address
groups (some (p ∷ ps)) = by_gap (p ∷ ps) p (split_gap ps)
groups _ = none

-- `addr%scope`
abbrev unscoped : List String → Option String
unscoped (s ∷ []) = some s
unscoped (s ∷ scope ∷ []) = if scope == "" then none else some s
unscoped _ = none

abbrev groups_of : Option String → Option Address
groups_of none = none
groups_of (some s) = groups (parts_of (split_on b':' s))

unfoldable pub ipv6_address : String → Option Address
unfolding parts_of split_gap hextets zeros
ipv6_address s = if contains s "/" then none else groups_of (unscoped (split_on b'%' s))

-- `none` for `ValueError`.
unfoldable pub ip_address : String → Option Address
unfolding ipv4_address ipv6_address
ip_address s = or_else (ipv4_address s) (ipv6_address s)

-- 169.254.0.0/16 and fe80::/10; an IPv4 address mapped into IPv6 counts as itself.
unfoldable pub is_link_local : Address → Bool
is_link_local (v4 a b c d) = nat_eq a 169 && nat_eq b 254
is_link_local (v6 (a ∷ b ∷ c ∷ d ∷ e ∷ f ∷ g ∷ h ∷ [])) =
    if nat_eq (a + b + c + d + e) 0 && nat_eq f 65535 then nat_eq g 43518 else nat_eq (a / 64) 1018
is_link_local (v6 _) = false

address_tests :
    (ip_address "192.168.178.1" ≡ some (v4 192 168 178 1))
    × (ip_address "192.168.178.01" ≡ none)
    × (ip_address "fe80::1%eth0" ≡ some (v6 (65152 ∷ 0 ∷ 0 ∷ 0 ∷ 0 ∷ 0 ∷ 0 ∷ 1 ∷ [])))
    × (ip_address "::ffff:169.254.0.9" ≡ some (v6 (0 ∷ 0 ∷ 0 ∷ 0 ∷ 0 ∷ 65535 ∷ 43518 ∷ 9 ∷ [])))
    × (ip_address "1::2::3" ≡ none)
    × (ip_address "1:2:3:4:5:6:7:8:9" ≡ none)
    × (ip_address "::" ≡ some (v6 (0 ∷ 0 ∷ 0 ∷ 0 ∷ 0 ∷ 0 ∷ 0 ∷ 0 ∷ [])))
unfolding ip_address
address_tests = (refl, refl, refl, refl, refl, refl, refl)
