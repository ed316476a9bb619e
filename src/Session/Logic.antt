-- ===== src/Session/Logic.antt =====
-- What holds of a session after a method of session.py, whether it returns or raises; the world is
-- arbitrary.
use fritzbox_vpn.Base.{◌≡◌, subst}
use fritzbox_vpn.Outcome.{Error, Outcome, ok, raised, continue, handle}
use fritzbox_vpn.Session.State.{Session}

module _ {W A : Type 0} where
  abbrev pub Holds :
      (A → Session → Type 0) → (Error → Session → Type 0) → Outcome A × (Session × W) → Type 0
  Holds Q E (ok a, (s, w)) = Q a s
  Holds Q E (raised e, (s, w)) = E e s

  -- `Q` after a return, `E` after an exception
  pub record Post (Q : A → Session → Type 0) (E : Error → Session → Type 0)
      (r : Outcome A × (Session × W)) : Type 0 where
    pub holds : Holds Q E r

module _ {W A : Type 0} {Q : A → Session → Type 0} {E : Error → Session → Type 0} where
  pub Post-lift :
      (o : Outcome A) (s : Session) (w : W)
      → ((a : A) → Q a s)
      → ((e : Error) → E e s)
      → Post Q E (o, (s, w))
  Post-lift (ok a) s w h k = record { holds = h a }
  Post-lift (raised e) s w h k = record { holds = k e }

module _ {W A B : Type 0} {Q : B → Session → Type 0} {E : Error → Session → Type 0} where
  pub Post-bind :
      {Q' : A → Session → Type 0} (r : Outcome A × (Session × W))
      (f : A → Session × W → Outcome B × (Session × W))
      → Post Q' E r
      → ((a : A) (s : Session) (w : W) → Q' a s → Post Q E (f a (s, w)))
      → Post Q E (continue f r)
  Post-bind (ok a, (s, w)) f h k = k a s w h.holds
  Post-bind (raised e, (s, w)) f h k = record { holds = h.holds }

module _ {W A : Type 0} {Q : A → Session → Type 0} {E : Error → Session → Type 0} where
  pub Post-attempt :
      {E' : Error → Session → Type 0} (r : Outcome A × (Session × W))
      (h : Error → Session × W → Outcome A × (Session × W))
      → Post Q E' r
      → ((e : Error) (s : Session) (w : W) → E' e s → Post Q E (h e (s, w)))
      → Post Q E (handle h r)
  Post-attempt (ok a, (s, w)) h p k = record { holds = p.holds }
  Post-attempt (raised e, (s, w)) h p k = k e s w p.holds

  pub Post-map :
      {Q' : A → Session → Type 0} {E' : Error → Session → Type 0} (r : Outcome A × (Session × W))
      → Post Q' E' r
      → ((a : A) (s : Session) → Q' a s → Q a s)
      → ((e : Error) (s : Session) → E' e s → E e s)
      → Post Q E r
  Post-map (ok a, (s, w)) h f g = record { holds = f a s h.holds }
  Post-map (raised e, (s, w)) h f g = record { holds = g e s h.holds }

  -- A result that is known to be a return, or an exception.
  pub Post-ok :
      {r : Outcome A × (Session × W)} {a : A} {s : Session} {w : W}
      → Post Q E r
      → r ≡ (ok a, (s, w))
      → Q a s
  Post-ok {a = a} {s = s} {w = w} h e = (subst (Post Q E) e h).holds

  pub Post-raised :
      {r : Outcome A × (Session × W)} {x : Error} {s : Session} {w : W}
      → Post Q E r
      → r ≡ (raised x, (s, w))
      → E x s
  Post-raised h e = (subst (Post Q E) e h).holds
