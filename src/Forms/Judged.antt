-- ===== src/Forms/Judged.antt =====
-- custom_components/fritzbox_vpn/flow_forms.py: the failures of a test.
use text.Mathlib.TextLemmas.{append_assoc, nil-append, cons-append}
use fritzbox_vpn.Base.{
  Bool, true, false, Option, none, some, lower_char, List, [], ◌∷◌, Char, String, ◌≡◌, ◌⊎◌, refl,
  sym, ap, ◌∙◌, inl, inr, subst, ◌⊕◌, ◌==◌, lookup, put, lookup-put, lower, contains, contains_any,
  starts_with, drop_prefix-append, if◌then◌else◌, Bool-cases,
}
use fritzbox_vpn.Value.{Value, str, Payload, to_str, truthy}
use fritzbox_vpn.Config.{get, value_at, password_from_sources, error_indicator_auth}
use fritzbox_vpn.Session.State.{Session}
use fritzbox_vpn.Adapter.{
  Adapter, Library, Reply, replied, failed, requests_timeout, requests_connection, authorization,
  other, End, login_failed, end_retry, end_first, first_try, ensure_client,
  with_https_http_fallback, init,
}
use fritzbox_vpn.Forms.Submit.{
  Errors, on_checked, fill_password_if_missing, validate_host_on_submit,
}
use fritzbox_vpn.Forms.Host.{Checked, valid, invalid, validate_host}
use fritzbox_vpn.Forms.Validation.{
  Box, invalid_auth, refused, text_of, judge, set_validation_error, list_with, validate_input,
  Submitted, on_validated, on_host, async_validate_configure_input,
}

lower-append : (s t : String) → lower (s ⊕ t) ≡ lower s ⊕ lower t
unfolding lower
lower-append String.[] t = ap lower (nil-append t) ∙ sym (nil-append (lower t))
lower-append (String.◌∷◌ c s) t =
    ap lower (cons-append c s t)
    ∙ ap (String.◌∷◌ (lower_char c)) (lower-append s t)
    ∙ sym (cons-append (lower_char c) (lower s) (lower t))

contains_start : (x y : String) → starts_with x y ≡ true → contains x y ≡ true
unfolding contains
contains_start String.[] y h = h
contains_start (String.◌∷◌ c x) y h = rw h refl

contains-append : (t s : String) → contains (t ⊕ s) t ≡ true
unfolding starts_with
contains-append t s = contains_start (t ⊕ s) t (rw (drop_prefix-append t s) refl)

-- How a refused login reads.
abbrev LoginText : String → Type 0
LoginText t = (m : String) × (t ≡ "Login failed: " ⊕ m)

abbrev HasText : {A : Type 0} → End A → Type 0
HasText (login_failed t) = LoginText t
HasText _ = Unit

module _ (l : Library) {A : Type 0} (call : l.World → Reply A × l.World)
    (primary : Session → l.World → Reply A × (Session × l.World))
    (unexpected fail_message : String) where
  retry-HasText :
      (r : Reply A × (Adapter × l.World))
      → HasText (end_retry l call primary unexpected fail_message r).0
  retry-HasText (replied x, s) = tt
  retry-HasText (failed (requests_timeout m), s) = tt
  retry-HasText (failed (requests_connection m), s) = tt
  retry-HasText (failed (authorization m), s) = (m, refl)
  retry-HasText (failed (other e), s) = tt

  either-HasText :
      (b : Bool) (x y : End A × (Adapter × l.World))
      → HasText x.0
      → HasText y.0
      → HasText (if b then x else y).0
  either-HasText true x y h k = h
  either-HasText false x y h k = k

  first-HasText :
      (r : Reply A × (Adapter × l.World))
      → HasText (end_first l call primary unexpected fail_message r).0
  first-HasText (replied x, s) = tt
  first-HasText (failed (requests_timeout m), s) = tt
  first-HasText (failed (requests_connection m), (a, w)) =
      either-HasText a.use_tls _ _ (retry-HasText _) tt
  first-HasText (failed (authorization m), s) = (m, refl)
  first-HasText (failed (other e), s) = tt

  pub fallback-HasText :
      (a : Adapter) (w : l.World)
      → HasText (with_https_http_fallback l call primary unexpected fail_message (a, w)).0
  unfolding with_https_http_fallback
  fallback-HasText a w = first-HasText (first_try l call primary unexpected (ensure_client l a w))

lower_login : (m : String) → lower ("Login failed: " ⊕ m) ≡ "login failed" ⊕ (": " ⊕ lower m)
unfolding lower
lower_login m = lower-append "Login failed: " m ∙ append_assoc "login failed" ": " (lower m)

login_indicated :
    (m : String) → contains_any (lower ("Login failed: " ⊕ m)) error_indicator_auth ≡ true
unfolding contains_any
login_indicated m = rw (lower_login m, contains-append "login failed" (": " ⊕ lower m)) refl

judged_login : (host t : String) → LoginText t → judge host (some t) ≡ refused invalid_auth
judged_login host t (m, q) = rw (q, login_indicated m) refl

-- The one error of a refused form.
abbrev pub IsJudged : Errors → Type 0
IsJudged errors =
    (errors ≡ ("host", "invalid_host") ∷ [])
    ⊎ (errors ≡ ("base", "invalid_auth") ∷ [])
    ⊎ (errors ≡ ("base", "cannot_connect") ∷ [])

module _ (box : Box) where
  -- However the box refuses the login, over HTTPS or HTTP: the test of the credentials ends with
  -- InvalidAuth and no other error.
  pub validate_input-login :
      (input : Payload) (host username : Value) (t : String) (w : box.library.World)
      → lookup "host" input ≡ some host
      → lookup "username" input ≡ some username
      → (list_with box
          (to_str host)
          (to_str username)
          (password_from_sources (some input ∷ []))
          w).0
        ≡ login_failed t
      → (validate_input box input w).0 ≡ refused invalid_auth
  unfolding validate_input list_with
  validate_input-login input host username t w p q e =
      let password = password_from_sources (some input ∷ []) in
      let login = subst HasText e (
        fallback-HasText box.library box.call box.primary "Unexpected mode for sync VPN fetch"
          "failed to get login page" (init (to_str host) (to_str username) password true) w) in
      rw (p, q) (rw e (judged_login (to_str host) t login))

  abbrev AreJudged : Submitted box → Type 0
  AreJudged submitted = submitted.done ≡ false → IsJudged submitted.errors

  judge-AreJudged :
      (input : Payload) (host : String) (o : Option String) (s : Option Adapter × box.library.World)
      → AreJudged (on_validated box input [] (judge host o, s))
  unfolding set_validation_error put
  judge-AreJudged input host none s = λ d. cc d
  judge-AreJudged input host (some m) s =
      elim (Bool-cases (contains_any (lower m) error_indicator_auth)) [
        | inl e ↦ rw e (λ d. inr (inl refl))
        | inr e ↦ rw e (λ d. inr (inr refl))
      ]

  tested-AreJudged :
      (input : Payload) (h u : Value) (w : box.library.World)
      → lookup "host" input ≡ some h
      → lookup "username" input ≡ some u
      → AreJudged (on_validated box input [] (validate_input box input w))
  unfolding validate_input
  tested-AreJudged input h u w p q =
      rw (p, q)
        (let r = list_with box (to_str h) (to_str u) (password_from_sources (some input ∷ [])) w in
          judge-AreJudged input (to_str h) (text_of r.0) _)

  checked-AreJudged :
      (c : Checked) (input : Payload) (h u : Value) (w : box.library.World)
      → lookup "host" input ≡ some h
      → lookup "username" input ≡ some u
      → AreJudged (on_host box input (on_checked c []) w)
  unfolding put
  checked-AreJudged (invalid m) input h u w p q = λ d. inl refl
  checked-AreJudged (valid x) input h u w p q = tested-AreJudged input h u w p q

  filled_lookup :
      (key : String) (v : Value) (input : Payload) (sources : List (Option Payload))
      → ("password" == key) ≡ false
      → lookup key input ≡ some v
      → lookup key (fill_password_if_missing input sources) ≡ some v
  unfolding fill_password_if_missing
  filled_lookup key v input sources n p = elim (Bool-cases (truthy (get "password" input))) [
    | inl e ↦ rw e p
    | inr e ↦ rw e (lookup-put "password" key (str (password_from_sources sources)) input ∙ rw n p)
  ]

  -- Submitted values with a host and a name that are refused have exactly one error: the host's key
  -- `invalid_host`, or for the form `invalid_auth` or `cannot_connect`. It is never `unknown`.
  pub async_validate-AreJudged :
      (is_wide : Char → Bool) (input : Payload) (sources : List (Option Payload)) (h u : Value)
      (w : box.library.World)
      → lookup "host" input ≡ some h
      → lookup "username" input ≡ some u
      → let submitted = async_validate_configure_input box is_wide input [] sources w in
        submitted.done ≡ false → IsJudged submitted.errors
  unfolding async_validate_configure_input validate_host_on_submit
  async_validate-AreJudged is_wide input sources h u w p q =
      let filled = fill_password_if_missing input sources in
      checked-AreJudged
        (validate_host is_wide (str (to_str (value_at (lookup "host" filled) (str ""))))) filled h u
        w (filled_lookup "host" h input sources refl p)
        (filled_lookup "username" u input sources refl q)
