-- ===== src/Adapter/Origin.antt =====
-- custom_components/fritzbox_vpn/fritzconnection_session.py: every way in which a call ends.
use fritzbox_vpn.Base.{
  true, ◌⊕◌, ◌≡◌, refl, subst, ◌⊎◌, inl, inr, false, Option, none, some, String, Bool-cases,
}
use fritzbox_vpn.Session.State.{Session}
use fritzbox_vpn.Adapter.{
  Adapter, Library, fritzconnection, fritzboxvpn, requests_timeout, requests_connection,
  authorization, other, Reply, replied, failed, End, returned, timed_out, unreachable, login_failed,
  raised_again, close_sync, invalidate_session, ensure_client, then_call, sync_call, is_mode,
  fallback_primary, first_try, end_retry, end_first, with_https_http_fallback,
}
use fritzbox_vpn.Adapter.Reset.{IsFresh, invalidate-IsFresh, is_outage}

module _ (l : Library) {A : Type 0} (call : l.World → Reply A × l.World)
    (primary : Session → l.World → Reply A × (Session × l.World))
    (unexpected fail_message : String) where
  -- The session that the adapter keeps has given the answer, and did nothing afterwards.
  pub record FromSession (x : A) (a : Adapter) (w : l.World) : Type 0 where
    pub before : Session
    pub world : l.World
    pub after : Session
    pub answered : primary before world ≡ (replied x, (after, w))
    pub kept : a.fallback_session ≡ some after

  -- The library has given the answer.
  pub record FromLibrary (x : A) (w : l.World) : Type 0 where
    pub world : l.World
    pub answered : call world ≡ (replied x, w)

  abbrev pub Origin : A → Adapter × l.World → Type 0
  Origin x (a, w) = FromSession x a w ⊎ FromLibrary x w

  abbrev ReplyOrigin : Reply A × (Adapter × l.World) → Type 0
  ReplyOrigin (replied x, y) = Origin x y
  ReplyOrigin (failed e, y) = Unit

  -- How a call may end, with the adapter and the world that it leaves.
  abbrev pub EndIsSound : End A × (Adapter × l.World) → Type 0
  EndIsSound (returned x, y) = Origin x y
  EndIsSound (timed_out m, (a, w)) = IsFresh a
  EndIsSound (unreachable m, (a, w)) =
      IsFresh a × ((text : String) × (m ≡ fail_message ⊕ ": " ⊕ text))
  EndIsSound (login_failed m, y) = (text : String) × (m ≡ "Login failed: " ⊕ text)
  EndIsSound (raised_again e, y) = Unit

  call-Origin :
      (a : Adapter) (w : l.World) (r : Reply A × l.World) → call w ≡ r → ReplyOrigin (r.0, (a, r.1))
  call-Origin a w (replied x, w') h = inr (record { world = w; answered = h })
  call-Origin a w (failed e, w') h = tt

  primary-Origin :
      (a : Adapter) (s : Session) (w : l.World) (r : Reply A × (Session × l.World))
      → primary s w ≡ r
      → ReplyOrigin (r.0, (record a { fallback_session = some r.1.0 }, r.1.1))
  primary-Origin a s w (replied x, (s', w')) h =
      inl (record { before = s; world = w; after = s'; answered = h; kept = refl })
  primary-Origin a s w (failed e, (s', w')) h = tt

  then_call-Origin :
      (r : Reply (Unit {0}) × (Adapter × l.World))
      → ReplyOrigin (then_call l call primary unexpected r)
  then_call-Origin (failed e, (a, w)) = tt
  then_call-Origin (replied u, (a, w)) = elim (Bool-cases (is_mode a.mode fritzconnection)) [
    | inl e ↦ rw e (call-Origin a w (call w) refl)
    | inr e ↦ rw e tt
  ]

  sync_call-Origin : (x : Adapter × l.World) → ReplyOrigin (sync_call l call primary unexpected x)
  unfolding sync_call
  sync_call-Origin (a, w) = then_call-Origin (ensure_client l a w)

  fallback-Origin :
      (o : Option Session) (a : Adapter) (w : l.World)
      → ReplyOrigin (fallback_primary l call primary unexpected o a w)
  fallback-Origin none a w = tt
  fallback-Origin (some s) a w = primary-Origin a s w (primary s w) refl

  first_try-Origin :
      (r : Reply (Unit {0}) × (Adapter × l.World))
      → ReplyOrigin (first_try l call primary unexpected r)
  first_try-Origin (failed e, (a, w)) = tt
  first_try-Origin (replied u, (a, w)) = elim (Bool-cases (is_mode a.mode fritzboxvpn)) [
    | inl e ↦ rw e (fallback-Origin a.fallback_session a w)
    | inr e ↦ rw e (sync_call-Origin (a, w))
  ]

  end_retry-IsSound :
      (r : Reply A × (Adapter × l.World))
      → ReplyOrigin r
      → EndIsSound (end_retry l call primary unexpected fail_message r)
  unfolding invalidate_session
  end_retry-IsSound (replied x, y) o = o
  end_retry-IsSound (failed (requests_timeout m), (a, w)) o = invalidate-IsFresh a
  end_retry-IsSound (failed (requests_connection m), (a, w)) o = (invalidate-IsFresh a, (m, refl))
  end_retry-IsSound (failed (authorization m), y) o = (m, refl)
  end_retry-IsSound (failed (other e), y) o = tt

  end_first-IsSound :
      (r : Reply A × (Adapter × l.World))
      → ReplyOrigin r
      → EndIsSound (end_first l call primary unexpected fail_message r)
  unfolding invalidate_session
  end_first-IsSound (replied x, y) o = o
  end_first-IsSound (failed (requests_timeout m), (a, w)) o = invalidate-IsFresh a
  end_first-IsSound (failed (requests_connection m), (a, w)) o = elim (Bool-cases a.use_tls) [
    | inl e ↦ rw e (
        end_retry-IsSound
          (sync_call l call primary unexpected (close_sync (record a { use_tls = false }), w))
          (sync_call-Origin (close_sync (record a { use_tls = false }), w)))
    | inr e ↦ rw e (invalidate-IsFresh a, (m, refl))
  ]
  end_first-IsSound (failed (authorization m), y) o = (m, refl)
  end_first-IsSound (failed (other e), y) o = tt

  -- However a call ends, on the first try or on the second one over HTTP: what it returns was given by the
  -- session that the adapter keeps or by the library, as the last thing that the call did. A timeout and
  -- an error of the connection leave the adapter without a client and with HTTPS as its protocol, the
  -- latter with a text that starts with the call's message; a refused login has a text that starts with
  -- `Login failed: `. Of any other exception, which is raised again, nothing is said.
  pub call-IsSound :
      (y : Adapter × l.World)
      → EndIsSound (with_https_http_fallback l call primary unexpected fail_message y)
  unfolding with_https_http_fallback
  call-IsSound (a, w) =
      end_first-IsSound (first_try l call primary unexpected (ensure_client l a w))
        (first_try-Origin (ensure_client l a w))

  pub returned-Origin :
      (x : A) (y z : Adapter × l.World)
      → with_https_http_fallback l call primary unexpected fail_message y ≡ (returned x, z)
      → Origin x z
  returned-Origin x y z h = subst EndIsSound h (call-IsSound y)

  outage-IsFresh :
      (end : End A) (y : Adapter × l.World)
      → EndIsSound (end, y)
      → is_outage end ≡ true
      → IsFresh y.0
  outage-IsFresh (timed_out m) y s o = s
  outage-IsFresh (unreachable m) y s o = s.0
  outage-IsFresh (returned x) y s o = cc o
  outage-IsFresh (login_failed m) y s o = cc o
  outage-IsFresh (raised_again e) y s o = cc o

  pub call-IsFresh :
      (a a' : Adapter) (w w' : l.World) (end : End A)
      → with_https_http_fallback l call primary unexpected fail_message (a, w) ≡ (end, (a', w'))
      → is_outage end ≡ true
      → IsFresh a'
  call-IsFresh a a' w w' end h o =
      outage-IsFresh end (a', w') (subst EndIsSound h (call-IsSound (a, w))) o
