-- ===== src/Value/Numeral.antt =====
-- Integers, `str(n)` and `int(text)`.
use Prim.Native.String.{char_at}
use fritzbox_vpn.Base.{
  ℕ, zero, suc, ◌+◌, ◌-◌, ◌*◌, ◌/◌, ◌%◌, ◌<◌, ◌≡◌, refl, Bool, ◌&&◌, Option, none, some, map_option,
  Char, code, String, strip, leb, ltb, nat_eq, if◌then◌else◌, arith,
}

-- `negsuc n` is -(n + 1).
pub data ℤ : Type 0 where
  pos : ℕ → ℤ
  negsuc : ℕ → ℤ

abbrev pub negate : ℕ → ℤ
negate zero = pos 0
negate (suc n) = negsuc n

-- The decimal digits of `n` before `acc`; the fuel bounds their number.
unfoldable pub show_digits : ℕ → ℕ → String → String
show_digits zero n acc = acc
show_digits (suc fuel) n acc =
    let acc' = String.◌∷◌ (char_at "0123456789" (n % 10)) acc in
    let rest = show_digits fuel (n / 10) acc' in if ltb n 10 then acc' else rest

-- More fuel than `n` changes nothing.
show_digits_fuel :
    (f g n : ℕ) (acc : String) → n < f → n < g → show_digits f n acc ≡ show_digits g n acc
unfolding show_digits
show_digits_fuel zero g n acc p q = elim p [ ]
show_digits_fuel (suc f) zero n acc p q = elim q [ ]
show_digits_fuel (suc f) (suc g) n acc p q =
    ground (arith, show_digits_fuel f g (n / 10) (String.◌∷◌ (char_at "0123456789" (n % 10)) acc))

unfoldable pub show_nat : ℕ → String
unfolding show_digits
show_nat n = show_digits (suc n) n String.[]

unfoldable pub show_int : ℤ → String
unfolding show_nat
show_int (pos n) = show_nat n
show_int (negsuc n) = String.◌∷◌ (char_at "-" 0) (show_nat (suc n))

abbrev is_digit : Char → Bool
is_digit c = leb 48 (code c) && leb (code c) 57

-- The digits after the first one; a single `_` may stand between two digits.
unfoldable pub parse_rest : ℕ → String → Option ℕ
parse_rest n String.[] = some n
parse_rest n (String.◌∷◌ c String.[]) = if is_digit c then some (n * 10 + (code c - 48)) else none
parse_rest n (String.◌∷◌ c (String.◌∷◌ d s)) =
    let plain = parse_rest (n * 10 + (code c - 48)) (String.◌∷◌ d s) in
    let skipped = parse_rest (n * 10 + (code d - 48)) s in
    if is_digit c then plain else if nat_eq (code c) b'_' && is_digit d then skipped else none

unfoldable pub parse_nat : String → Option ℕ
unfolding parse_rest
parse_nat String.[] = none
parse_nat (String.◌∷◌ c s) = if is_digit c then parse_rest (code c - 48) s else none

unfoldable pub parse_signed : String → Option ℤ
unfolding parse_nat
parse_signed String.[] = none
parse_signed (String.◌∷◌ c s) =
    if nat_eq (code c) b'-'
    then map_option negate (parse_nat s)
    else if nat_eq (code c) b'+'
    then map_option pos (parse_nat s)
    else map_option pos (parse_nat (String.◌∷◌ c s))

-- `int(text)`, `none` for `ValueError`.
unfoldable pub parse_int : String → Option ℤ
unfolding parse_signed
parse_int s = parse_signed (strip s)

parse_tests :
    (parse_int " 1_0\n" ≡ some (pos 10))
    × (parse_int "-3" ≡ some (negsuc 2))
    × (parse_int "1__0" ≡ none)
unfolding parse_int strip
parse_tests = (refl, refl, refl)

show_test : show_int (negsuc 99) ≡ "-100"
unfolding show_int
show_test = refl
