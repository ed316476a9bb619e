-- ===== src/Outcome.antt =====
-- Python's exceptions as values, and methods that change an object's state and may raise. What was
-- changed before an exception stays changed.
pub mod Inversion
use fritzbox_vpn.Base.{◌≡◌, refl, Bool, true, false, String, if◌then◌else◌}

-- The classes that the code's `except` clauses tell apart, with `str(err)`. `connection_error` is
-- the built-in `ConnectionError`, `os_error` any other `OSError`, aiohttp's `ClientConnectorError`
-- among them, and `other_error` what is neither an `OSError` nor a `ValueError`.
pub data Error : Type 0 where
  connection_error timeout_error os_error value_error other_error : String → Error

abbrev pub message : Error → String
message (connection_error m) = m
message (timeout_error m) = m
message (os_error m) = m
message (value_error m) = m
message (other_error m) = m

-- `except (ClientConnectorError, OSError)`: `ConnectionError` and `TimeoutError` are `OSError`s.
abbrev pub is_os_error : Error → Bool
is_os_error (value_error _) = false
is_os_error (other_error _) = false
is_os_error _ = true

abbrev pub is_connection_error : Error → Bool
is_connection_error (connection_error _) = true
is_connection_error _ = false

abbrev pub is_value_error : Error → Bool
is_value_error (value_error _) = true
is_value_error _ = false

pub data Outcome {ℓ} (A : Type ℓ) : Type ℓ where
  ok : A → Outcome A
  raised : Error → Outcome A

abbrev pub Exec {ℓ} : Type ℓ → Type ℓ → Type ℓ
Exec S A = S → Outcome A × S

module _ {ℓ} {S A : Type ℓ} where
  abbrev pub return : A → Exec S A
  return a s = (ok a, s)

  abbrev pub raise : Error → Exec S A
  raise e s = (raised e, s)

  abbrev pub lift : Outcome A → Exec S A
  lift r s = (r, s)

  abbrev pub handle : (Error → Exec S A) → Outcome A × S → Outcome A × S
  handle h (ok a, s) = (ok a, s)
  handle h (raised e, s) = h e s

  -- `try: m except Exception as e: h e`, where `h` raises again what it does not handle.
  abbrev pub attempt : Exec S A → (Error → Exec S A) → Exec S A
  attempt m h s = handle h (m s)

module _ {ℓ} {S A B : Type ℓ} where
  abbrev pub continue : (A → Exec S B) → Outcome A × S → Outcome B × S
  continue f (ok a, s) = f a s
  continue f (raised e, s) = (raised e, s)

  infixl 10 ◌>>=◌ ◌>>◌
  abbrev pub ◌>>=◌ : Exec S A → (A → Exec S B) → Exec S B
  ◌>>=◌ m f s = continue f (m s)

  abbrev pub ◌>>◌ : Exec S A → Exec S B → Exec S B
  m >> k = m >>= λ _. k
