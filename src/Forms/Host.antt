-- ===== src/Forms/Host.antt =====
-- custom_components/fritzbox_vpn/flow_forms.py: the test of a host.
use Prim.Native.String.{count}
use fritzbox_vpn.Base.{
  ◌≡◌, refl, Bool, true, false, not, ◌&&◌, ◌||◌, is_some, Char, code, String, ◌==◌, starts_with,
  ends_with, leb, nat_eq, if◌then◌else◌,
}
use fritzbox_vpn.Value.{Value, str}
use fritzbox_vpn.Forms.Address.{ip_address}

-- A host, or `vol.Invalid`.
pub data Checked : Type 0 where
  valid : String → Checked
  invalid : String → Checked

-- `c.isalnum()`: Unicode's letters and digits outside of ASCII are a parameter.
abbrev pub is_alnum : (Char → Bool) → Char → Bool
is_alnum is_wide c =
    let n = code c in
    if leb n 127
    then (leb 48 n && leb n 57) || (leb 65 n && leb n 90) || (leb 97 n && leb n 122)
    else is_wide c

abbrev pub is_host_char : (Char → Bool) → Char → Bool
is_host_char is_wide c = is_alnum is_wide c || nat_eq (code c) b'.' || nat_eq (code c) b'-'

unfoldable pub all_host_chars : (Char → Bool) → String → Bool
all_host_chars is_wide String.[] = true
all_host_chars is_wide (String.◌∷◌ c s) = is_host_char is_wide c && all_host_chars is_wide s

-- A text that is not empty and no address.
unfoldable pub validate_name : (Char → Bool) → String → Checked
unfolding all_host_chars
validate_name is_wide host =
    if not (leb (count host) 253)
    then invalid "Hostname too long (max 253 characters)"
    else if not (all_host_chars is_wide host)
    then invalid "Invalid hostname format"
    else if starts_with host "." || ends_with host "." || starts_with host "-" || ends_with host "-"
    then invalid "Hostname cannot start or end with dot or hyphen"
    else valid host

unfoldable pub validate_text : (Char → Bool) → String → Checked
unfolding validate_name
validate_text is_wide host =
    if host == ""
    then invalid "Host must be a non-empty string"
    else if is_some (ip_address host)
    then valid host
    else validate_name is_wide host

unfoldable pub validate_host : (Char → Bool) → Value → Checked
unfolding validate_text
validate_host is_wide (str host) = validate_text is_wide host
validate_host is_wide _ = invalid "Host must be a non-empty string"

host_tests :
    (validate_host (λ c. false) (str "fritz.box") ≡ valid "fritz.box")
    × (validate_host (λ c. false) (str "fe80::1") ≡ valid "fe80::1")
    × (validate_host (λ c. false) (str "fritz.box/") ≡ invalid "Invalid hostname format")
    × (validate_host (λ c. false) (str "fritz.")
        ≡ invalid "Hostname cannot start or end with dot or hyphen")
unfolding validate_host ip_address starts_with ends_with
host_tests = (refl, refl, refl, refl)
