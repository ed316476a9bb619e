-- ===== src/Base/Text.antt =====
-- Python's `str` as far as the program uses it.
use Prim.Native.Nat.{◌-◌}
use Prim.Native.Char.{Char, code}
use Prim.Native.String.{String, char_at}
use Prim.Native.String
use mathlib.Core.Path.{◌≡◌, refl}
use mathlib.Core.Bool.{Bool, true, false, ◌&&◌, ◌||◌}
use mathlib.Core.List.{List, [], ◌∷◌}
use mathlib.Core.Option.{Option, none, some}
use text.Mathlib.Text.{◌==◌}
use fritzbox_vpn.Base.Bools.{is_some, leb, nat_eq, if◌then◌else◌}

infixr 66 ◌⊕◌
abbrev pub ◌⊕◌ : String → String → String
◌⊕◌ = String.◌++◌

-- `str.isspace` on one character: what `strip` removes.
unfoldable pub is_space : Char → Bool
is_space c =
    let n = code c in
    (leb 9 n && leb n 13)
    || (leb 28 n && leb n 32)
    || nat_eq n 133
    || nat_eq n 160
    || nat_eq n 5760
    || (leb 8192 n && leb n 8202)
    || nat_eq n 8232
    || nat_eq n 8233
    || nat_eq n 8239
    || nat_eq n 8287
    || nat_eq n 12288

unfoldable pub lstrip : String → String
lstrip String.[] = String.[]
lstrip (String.◌∷◌ c s) = if is_space c then lstrip s else String.◌∷◌ c s

unfoldable pub rstrip : String → String
rstrip String.[] = String.[]
rstrip (String.◌∷◌ c s) =
    let rest = rstrip s in if is_space c && rest == String.[] then String.[] else String.◌∷◌ c rest

-- s.strip()
unfoldable pub strip : String → String
unfolding lstrip rstrip is_space
strip s = lstrip (rstrip s)

-- `str.lower` on the ASCII letters; other characters stay.
unfoldable pub lower_char : Char → Char
lower_char c =
    if leb 65 (code c) && leb (code c) 90
    then char_at "abcdefghijklmnopqrstuvwxyz" (code c - 65)
    else c

-- s.lower()
unfoldable pub lower : String → String
unfolding lower_char
lower String.[] = String.[]
lower (String.◌∷◌ c s) = String.◌∷◌ (lower_char c) (lower s)

-- `s.removeprefix(p)` where `s` starts with `p`
unfoldable pub drop_prefix? : String → String → Option String
drop_prefix? s String.[] = some s
drop_prefix? String.[] (String.◌∷◌ d p) = none
drop_prefix? (String.◌∷◌ c s) (String.◌∷◌ d p) =
    if nat_eq (code c) (code d) then drop_prefix? s p else none

-- s.startswith(p)
unfoldable pub starts_with : String → String → Bool
unfolding drop_prefix?
starts_with s p = is_some (drop_prefix? s p)

abbrev pub push : Char → Option String → Option String
push c none = none
push c (some s) = some (String.◌∷◌ c s)

-- `s[: -len(t)]` where `s` ends with `t`
unfoldable pub drop_suffix? : String → String → Option String
drop_suffix? String.[] t = if String.[] == t then some String.[] else none
drop_suffix? (String.◌∷◌ c s) t =
    if String.◌∷◌ c s == t then some String.[] else push c (drop_suffix? s t)

-- s.endswith(t)
unfoldable pub ends_with : String → String → Bool
unfolding drop_suffix?
ends_with s t = is_some (drop_suffix? s t)

-- `t in s`
unfoldable pub contains : String → String → Bool
unfolding starts_with
contains String.[] t = starts_with String.[] t
contains (String.◌∷◌ c s) t = starts_with (String.◌∷◌ c s) t || contains s t

-- any(t in s for t in ts)
unfoldable pub contains_any : String → List String → Bool
unfolding contains
contains_any s [] = false
contains_any s (t ∷ ts) = contains s t || contains_any s ts

pub lower_tests : (lower (strip "  Login FAILED\n") ≡ "login failed") × (contains "abc" "bc" ≡ true)
unfolding lower strip contains
lower_tests = (refl, refl)

pub suffix_tests : (drop_suffix? "x_vpn_uid" "_uid" ≡ some "x_vpn") × (ends_with "abc" "bd" ≡ false)
unfolding ends_with
suffix_tests = (refl, refl)
