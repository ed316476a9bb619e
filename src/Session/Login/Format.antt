-- ===== src/Session/Login/Format.antt =====
-- The text formats of the login in session.py: `urlsplit`, `str.split`, hexadecimal digits.
use Prim.Native.String.{char_at}
use fritzbox_vpn.Base.{
  ℕ, ◌+◌, ◌-◌, ◌*◌, ◌/◌, ◌%◌, ◌≡◌, refl, Bool, ◌&&◌, ◌||◌, Option, none, some, List, [], ◌∷◌,
  String, Char, code, drop_prefix?, leb, nat_eq, if◌then◌else◌,
}

-- What follows the first "://".
unfoldable pub after_scheme : String → String
unfolding drop_prefix?
after_scheme String.[] = String.[]
after_scheme (String.◌∷◌ c s) = elim (drop_prefix? (String.◌∷◌ c s) "://") [
  | some rest ↦ rest
  | none ↦ after_scheme s
]

-- The part of a text before the first character of a class, and the part from there on.
unfoldable pub before : (Char → Bool) → String → String
before stop String.[] = String.[]
before stop (String.◌∷◌ c s) = if stop c then String.[] else String.◌∷◌ c (before stop s)

unfoldable pub onwards : (Char → Bool) → String → String
onwards stop String.[] = String.[]
onwards stop (String.◌∷◌ c s) = if stop c then String.◌∷◌ c s else onwards stop s

abbrev drop_first : String → String
drop_first String.[] = String.[]
drop_first (String.◌∷◌ c s) = s

abbrev is_fragment : Char → Bool
is_fragment c = nat_eq (code c) b'#'

abbrev is_query : Char → Bool
is_query c = nat_eq (code c) b'?'

abbrev ends_netloc : Char → Bool
ends_netloc c = nat_eq (code c) b'/' || is_query c || is_fragment c

-- `urlsplit(url).path` and `urlsplit(url).query` of a URL with a scheme
unfoldable pub url_path : String → String
unfolding after_scheme before onwards
url_path url = before is_query (before is_fragment (onwards ends_netloc (after_scheme url)))

unfoldable pub url_query : String → String
unfolding after_scheme before onwards
url_query url =
    drop_first (onwards is_query (before is_fragment (onwards ends_netloc (after_scheme url))))

abbrev extend_head : Char → List String → List String
extend_head c [] = String.◌∷◌ c String.[] ∷ []
extend_head c (p ∷ ps) = String.◌∷◌ c p ∷ ps

-- `s.split(d)` at one character
unfoldable pub split_at : ℕ → String → List String
split_at d String.[] = String.[] ∷ []
split_at d (String.◌∷◌ c s) =
    let rest = split_at d s in if nat_eq (code c) d then String.[] ∷ rest else extend_head c rest

unfoldable pub hex_value : Char → Option ℕ
hex_value c =
    let n = code c in
    if leb 48 n && leb n 57
    then some (n - 48)
    else if leb 97 n && leb n 102
    then some (n - 87)
    else if leb 65 n && leb n 70
    then some (n - 55)
    else none

abbrev join_digits : Option ℕ → Option ℕ → Option (List ℕ) → Option (List ℕ)
join_digits (some a) (some b) (some rest) = some ((a * 16 + b) ∷ rest)
join_digits _ _ _ = none

abbrev is_ascii_space : Char → Bool
is_ascii_space c = nat_eq (code c) 32 || leb 9 (code c) && leb (code c) 13

-- `bytes.fromhex(s)`, `none` for `ValueError`
unfoldable pub from_hex : String → Option (List ℕ)
unfolding hex_value
from_hex String.[] = some []
from_hex (String.◌∷◌ c String.[]) = if is_ascii_space c then some [] else none
from_hex (String.◌∷◌ c (String.◌∷◌ d s)) =
    let skipped = from_hex (String.◌∷◌ d s) in
    let pair = join_digits (hex_value c) (hex_value d) (from_hex s) in
    if is_ascii_space c then skipped else pair

-- `b.hex()`
unfoldable pub to_hex : List ℕ → String
to_hex [] = String.[]
to_hex (b ∷ bs) =
    String.◌∷◌ (char_at "0123456789abcdef" (b / 16))
      (String.◌∷◌ (char_at "0123456789abcdef" (b % 16)) (to_hex bs))

url_tests :
    (url_path "https://fritz.box/login_sid.lua?version=2" ≡ "/login_sid.lua")
    × (url_query "https://fritz.box/login_sid.lua?version=2" ≡ "version=2")
    × (url_query "http://fritz.box/login_sid.lua" ≡ "")
unfolding url_path url_query
url_tests = (refl, refl, refl)

split_test : split_at b'$' "2$10$ab$$" ≡ "2" ∷ "10" ∷ "ab" ∷ "" ∷ "" ∷ []
unfolding split_at
split_test = refl

hex_tests : (from_hex "0aFF" ≡ some (10 ∷ 255 ∷ [])) × (to_hex (10 ∷ 255 ∷ []) ≡ "0aff")
unfolding from_hex to_hex
hex_tests = (refl, refl)
