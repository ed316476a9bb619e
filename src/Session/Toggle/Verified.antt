-- ===== src/Session/Toggle/Verified.antt =====
-- What an answer of async_toggle_vpn (session.py) tells its caller.
use mathlib.Core.Option.{some-injective}
use fritzbox_vpn.Base.{
  ◌≡◌, refl, sym, ap, subst, ◌∙◌, inl, inr, Bool, true, false, not, Option, none, some, is_some,
  String, lookup, nat_eq, Bool-cases, Option-cases, if◌then◌else◌,
}
use fritzbox_vpn.Value.{Value, Payload, or_null, truthy}
use fritzbox_vpn.Outcome.{Error, Outcome, ok, raised, continue, handle, lift, return, ◌>>=◌, ◌>>◌}
use fritzbox_vpn.Outcome.Inversion.{continue-ok, continue-raised}
use fritzbox_vpn.Session.State.{Transport, Session, Action, Response, gets, modify, request, wait}
use fritzbox_vpn.Session.Logic.{Post-ok}
use fritzbox_vpn.Session.Login.{async_get_session}
use fritzbox_vpn.Session.Listing.{Connections, async_get_vpn_connections}
use fritzbox_vpn.Session.Valid.{IsValid}
use fritzbox_vpn.Session.Valid.Listing.{async_get_vpn_connections-IsCached}
use fritzbox_vpn.Session.Toggle.{
  equals_bool, active_value, verified, after_put, switch_found, put_request, put_activated,
  toggle_with, async_toggle_vpn,
}

module _ (t : Transport) (uid : String) (enable : Bool) where
  abbrev Everything : Type 0
  Everything = Session × t.World

  -- The last thing done was a listing that shows the connection as requested.
  pub record IsVerified (after : Session × t.World) : Type 0 where
    pub before : Session × t.World
    pub connections : Connections
    pub conn : Payload
    pub listing : async_get_vpn_connections t before ≡ (ok connections, after)
    pub found : lookup uid connections ≡ some conn
    pub as_requested : equals_bool (active_value conn) enable ≡ true

  -- What a call to make after a 403 guarantees.
  abbrev Sound : Option (Action t Bool) → Type 0
  Sound again =
      (m : Action t Bool) → again ≡ some m → (x y : Everything) → m x ≡ (ok true, y) → IsVerified y

  verified_found :
      (o : Option Payload)
      → verified t o enable ≡ true
      → (conn : Payload) × (o ≡ some conn) × (equals_bool (active_value conn) enable ≡ true)
  verified_found none h = cc
  verified_found (some conn) h = (conn, refl, h)

  checked :
      (x y : Everything)
      → (do
        connections ← async_get_vpn_connections t
        return (verified t (lookup uid connections) enable))
          x
        ≡ (ok true, y)
      → IsVerified y
  checked x y h =
      let (c, x', e, r) = continue-ok (async_get_vpn_connections t x) _ h in
      let same : x' ≡ y = cc r in
      let (conn, f, q) = verified_found (lookup uid c) (cc r) in
      record {
        before = x;
        connections = c;
        conn = conn;
        listing = e ∙ ap (λ z. (ok c, z)) same;
        found = f;
        as_requested = q;
      }

  -- The status of the PUT is not that of an expired session id.
  answered :
      (response : Response) (x y : Everything)
      → (if not (nat_eq response.status 200) then (do lift response.body; return false) else (do
        wait t 1500
        connections ← async_get_vpn_connections t
        return (verified t (lookup uid connections) enable)))
          x
        ≡ (ok true, y)
      → IsVerified y
  unfolding wait
  answered response x y h = elim (Bool-cases (not (nat_eq response.status 200))) [
    | inl e ↦ absurd (body_is_false response.body (rw e at h))
    | inr e ↦ checked (x.0, t.sleep 1500 x.1) y (rw e at h)
  ]
    where
      body_is_false :
          (o : Outcome String)
          → continue {B = Bool} (λ _. return false) (lift o x) ≡ (ok true, y)
          → ⊥
      body_is_false (ok b) p = cc
      body_is_false (raised e) p = cc

  after_put-IsVerified :
      (again : Option (Action t Bool)) (response : Response) (x y : Everything)
      → Sound again
      → after_put t again uid enable response x ≡ (ok true, y)
      → IsVerified y
  unfolding modify
  after_put-IsVerified none response x y k h = answered response x y h
  after_put-IsVerified (some m) response x y k h = elim (Bool-cases (nat_eq response.status 403)) [
    | inl e ↦ k m refl _ y (rw e at h)
    | inr e ↦ answered response x y (rw e at h)
  ]

  -- `except Exception: return False`
  guarded-true :
      (r : Outcome Bool × Everything) {y : Everything}
      → handle (λ _. return false) r ≡ (ok true, y)
      → r ≡ (ok true, y)
  guarded-true (ok b, z) h = h
  guarded-true (raised e, z) h = cc

  guarded-raised :
      (r : Outcome Bool × Everything) {e : Error} {y : Everything}
      → handle (λ _. return false) r ≡ (raised e, y)
      → ⊥
  guarded-raised (ok b, z) h = cc
  guarded-raised (raised e, z) h = cc

  put_activated-IsVerified :
      (again : Option (Action t Bool)) (vpn_uid : Value) (x y : Everything)
      → Sound again
      → put_activated t again uid vpn_uid enable x ≡ (ok true, y)
      → IsVerified y
  unfolding put_activated gets
  put_activated-IsVerified again vpn_uid x y k h =
      let (sid, x₁, _, h₁) = continue-ok (async_get_session t x) _ h in
      let (response, x₂, _, h₂) =
        continue-ok (request t (put_request x₁.0 sid vpn_uid enable) x₁)
          (after_put t again uid enable) (guarded-true _ h₁) in
      after_put-IsVerified again response x₂ y k h₂

  toggle_with-IsVerified :
      (again : Option (Action t Bool)) (x y : Everything)
      → Sound again
      → toggle_with t again uid enable x ≡ (ok true, y)
      → IsVerified y
  unfolding toggle_with
  toggle_with-IsVerified again x y k h =
      let (c, x₁, e, h₁) = continue-ok (async_get_vpn_connections t x) _ h in
      found_in (lookup uid c) c x₁ e refl h₁
    where
      found_in :
          (o : Option Payload) (c : Connections) (x₁ : Everything)
          → async_get_vpn_connections t x ≡ (ok c, x₁)
          → lookup uid c ≡ o
          → switch_found t again uid enable o x₁ ≡ (ok true, y)
          → IsVerified y
      found_in none c x₁ e f p = cc
      found_in (some conn) c x₁ e f p =
          elim (Bool-cases (not (truthy (or_null (lookup "uid" conn))))) [
            | inl h₂ ↦ cc (rw h₂ at p)
            | inr h₂ ↦ elim (Bool-cases (equals_bool (active_value conn) enable)) [
              | inl h₃ ↦
                  let same : x₁ ≡ y = cc (rw (h₂, h₃) at p) in
                  record {
                    before = x;
                    connections = c;
                    conn = conn;
                    listing = e ∙ ap (λ z. (ok c, z)) same;
                    found = f;
                    as_requested = h₃;
                  }
              | inr h₃ ↦
                  put_activated-IsVerified again (or_null (lookup "uid" conn)) x₁ y k
                    (rw (h₂, h₃) at p)
            ]
          ]

  none-Sound : Sound none
  none-Sound m h x y p = cc

  once_more-Sound : Sound (some (toggle_with t none uid enable))
  once_more-Sound m h x y p =
      toggle_with-IsVerified none x y none-Sound
        (subst (λ f. f x ≡ (ok true, y)) (sym (some-injective _ _ h)) p)

  -- `async_toggle_vpn` answers `True` only where the last thing that it did was a listing of the
  -- connections in which the connection is there with the requested `active` state: it never reports
  -- a change that it has not read back from the box, whatever the network does and on both the first
  -- call and the retry after a 403.
  pub toggle-IsVerified :
      (retry : Bool) (x y : Session × t.World)
      → async_toggle_vpn t uid enable retry x ≡ (ok true, y)
      → IsVerified y
  unfolding async_toggle_vpn
  toggle-IsVerified false x y h = toggle_with-IsVerified none x y none-Sound h
  toggle-IsVerified true x y h =
      toggle_with-IsVerified (some (toggle_with t none uid enable)) x y once_more-Sound h

  cached_login :
      (s : Session) (w : t.World)
      → is_some s.sid ≡ true
      → (sid : String) × (async_get_session t (s, w) ≡ (ok sid, (s, w)))
  unfolding async_get_session gets
  cached_login s w h = elim (Option-cases s.sid) [
    | inl e ↦ cc (rw e at h)
    | inr (sid, e) ↦ (sid, rw e)
  ]

  put_activated-returns :
      (again : Option (Action t Bool)) (vpn_uid : Value) (s : Session) (w : t.World) (e : Error)
      (y : Everything)
      → is_some s.sid ≡ true
      → put_activated t again uid vpn_uid enable (s, w) ≡ (raised e, y)
      → ⊥
  unfolding put_activated gets
  put_activated-returns again vpn_uid s w e y k h =
      let (sid, logged_in) = cached_login s w k in guarded-raised _ (rw logged_in at h)

  toggle_with-raised :
      (again : Option (Action t Bool)) (s : Session) (w : t.World) (e : Error) (y : Everything)
      → IsValid s
      → toggle_with t again uid enable (s, w) ≡ (raised e, y)
      → async_get_vpn_connections t (s, w) ≡ (raised e, y)
  unfolding toggle_with
  toggle_with-raised again s w e y v h =
      elim (continue-raised (async_get_vpn_connections t (s, w))
        (λ c. switch_found t again uid enable (lookup uid c)) h) [
          | inl p ↦ p
          | inr (c, (s₁, w₁), p, q) ↦ absurd (
              found_in (lookup uid c) s₁ w₁
                (Post-ok (async_get_vpn_connections-IsCached t s w v) p).has_sid q)
        ]
    where
      found_in :
          (o : Option Payload) (s₁ : Session) (w₁ : t.World)
          → is_some s₁.sid ≡ true
          → switch_found t again uid enable o (s₁, w₁) ≡ (raised e, y)
          → ⊥
      found_in none s₁ w₁ k p = cc
      found_in (some conn) s₁ w₁ k p =
          elim (Bool-cases (not (truthy (or_null (lookup "uid" conn))))) [
            | inl h₂ ↦ cc (rw h₂ at p)
            | inr h₂ ↦ elim (Bool-cases (equals_bool (active_value conn) enable)) [
              | inl h₃ ↦ cc (rw (h₂, h₃) at p)
              | inr h₃ ↦
                  put_activated-returns again (or_null (lookup "uid" conn)) s₁ w₁ e y k
                    (rw (h₂, h₃) at p)
            ]
          ]

  -- `async_toggle_vpn` on a valid session raises only what its first listing raised: once that listing
  -- returned, every failure of the login, the PUT, the retry or the verification is answered `False`.
  pub toggle-raised :
      (retry : Bool) (s : Session) (w : t.World) (e : Error) (y : Session × t.World)
      → IsValid s
      → async_toggle_vpn t uid enable retry (s, w) ≡ (raised e, y)
      → async_get_vpn_connections t (s, w) ≡ (raised e, y)
  unfolding async_toggle_vpn
  toggle-raised false s w e y v h = toggle_with-raised none s w e y v h
  toggle-raised true s w e y v h =
      toggle_with-raised (some (toggle_with t none uid enable)) s w e y v h
