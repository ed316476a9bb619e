-- ===== src/Session/Valid/Listing.antt =====
-- async_get_vpn_connections of session.py and the validity of the session.
use fritzbox_vpn.Base.{
  ◌≡◌, refl, inl, inr, true, ◌&&◌, Option, none, some, is_some, List, [], ◌∷◌, String, contains,
  Bool-cases,
}
use fritzbox_vpn.Outcome.{Error, is_value_error, message}
use fritzbox_vpn.Session.State.{Transport, Session, gets, modify, invalidate_session}
use fritzbox_vpn.Session.Logic.{Post, Post-bind, Post-attempt, Post-map}
use fritzbox_vpn.Session.Listing.{
  Connections, error_msg_invalid_sid, listing_probe_order, is_preferred, keep_mode, keep_or_forget,
  preferred_listing, then_probe, or_missing_payload, probe_listings, fetch_vpn_connections_once,
  async_get_vpn_connections,
}
use fritzbox_vpn.Session.Listing.Reset.{ResetOrKept, fetch_listing-ResetOrKept}
use fritzbox_vpn.Session.Valid.{IsValid, ModeOk, invalidate-IsValid}
use fritzbox_vpn.Session.Valid.Login.{LoggedIn, async_get_session-LoggedIn}

-- The next listing needs no login and no probing.
pub record IsCached (s : Session) : Type 0 where
  pub valid : IsValid s
  pub has_sid : is_some s.sid ≡ true
  pub has_mode : is_some s.listing_mode ≡ true

abbrev AllModes : List String → Type 0
AllModes [] = Unit {0}
AllModes (m ∷ ms) = ModeOk (some m) × AllModes ms

module _ (t : Transport) where
  -- A valid session with an id, cached if there is a result.
  abbrev Listed : Option Connections → Session → Type 0
  Listed none s = IsValid s × (is_some s.sid ≡ true)
  Listed (some _) s = IsCached s

  reset-IsValid :
      (s : Session) (e : Error) (s' : Session) → IsValid s → ResetOrKept s e s' → IsValid s'
  reset-IsValid s e s' v (inl (_, h)) = rw h (invalidate-IsValid v)
  reset-IsValid s e s' v (inr (_, h)) = rw h v

  keep_or_forget-Listed :
      (r : Option Connections) (s : Session) (w : t.World)
      → IsCached s
      → Post Listed (λ _ s'. IsValid s') (keep_or_forget t r (s, w))
  unfolding modify
  keep_or_forget-Listed (some c) s w k = record { holds = k }
  keep_or_forget-Listed none s w k = record {
    holds = (
      record { protocol_ok = k.valid.protocol_ok; sid_ok = k.valid.sid_ok; mode_ok = tt },
      k.has_sid,
    );
  }

  preferred-Listed :
      (o : Option String) (sid : String) (s : Session) (w : t.World)
      → s.listing_mode ≡ o
      → IsValid s
      → is_some s.sid ≡ true
      → Post Listed (λ _ s'. IsValid s') (preferred_listing t o sid (s, w))
  preferred-Listed none sid s w e v h = record { holds = (v, h) }
  preferred-Listed (some mode) sid s w e v h =
      Post-bind {Q' = λ _ s'. s' ≡ s} _ _
        (Post-map _ (fetch_listing-ResetOrKept t mode sid s w) (λ _ _ q. q)
          (λ err s' q. reset-IsValid s err s' v q))
        λ r s' w' q.
          keep_or_forget-Listed r s' w' (rw q (record { valid = v; has_sid = h; has_mode = rw e }))

  keep_mode-Listed :
      (mode : String) (r : Option Connections) (rest : Session × t.World → _) (s : Session)
      (w : t.World)
      → IsValid s
      → is_some s.sid ≡ true
      → ModeOk (some mode)
      → Post Listed (λ _ s'. IsValid s') (rest (s, w))
      → Post Listed (λ _ s'. IsValid s') (keep_mode t mode r rest (s, w))
  unfolding modify
  keep_mode-Listed mode none rest s w v h m k = k
  keep_mode-Listed mode (some c) rest s w v h m k = record {
    holds = record {
      valid = record { protocol_ok = v.protocol_ok; sid_ok = v.sid_ok; mode_ok = m };
      has_sid = h;
      has_mode = refl;
    };
  }

  probe-Listed :
      (modes : List String) (o : Option String) (sid : String) (s : Session) (w : t.World)
      → AllModes modes
      → IsValid s
      → is_some s.sid ≡ true
      → Post Listed (λ _ s'. IsValid s') (probe_listings t modes o sid (s, w))
  unfolding probe_listings
  probe-Listed [] o sid s w m v h = record { holds = (v, h) }
  probe-Listed (mode ∷ modes) o sid s w m v h = elim (Bool-cases (is_preferred t mode o)) [
    | inl e ↦ rw e (probe-Listed modes o sid s w m.1 v h)
    | inr e ↦ rw e (
        Post-bind {Q' = λ _ s'. s' ≡ s} _ _
          (Post-map _ (fetch_listing-ResetOrKept t mode sid s w) (λ _ _ q. q)
            (λ err s' q. reset-IsValid s err s' v q))
          λ r s' w' q.
            keep_mode-Listed mode r _ s' w' (rw q v) (rw q h) m.0
              (probe-Listed modes o sid s' w' m.1 (rw q v) (rw q h)))
  ]

  then_probe-Listed :
      (first : Option Connections) (o : Option String) (sid : String) (s : Session) (w : t.World)
      → Listed first s
      → Post Listed (λ _ s'. IsValid s') (then_probe t first o sid (s, w))
  then_probe-Listed (some c) o sid s w k = record { holds = k }
  then_probe-Listed none o sid s w k =
      probe-Listed listing_probe_order o sid s w (refl, (refl, tt)) k.0 k.1

  or_missing-Cached :
      (r : Option Connections) (s : Session) (w : t.World)
      → Listed r s
      → Post (λ _ s'. IsCached s') (λ _ s'. IsValid s') (or_missing_payload t r (s, w))
  unfolding modify
  or_missing-Cached (some c) s w k = record { holds = k }
  or_missing-Cached none s w k = record { holds = invalidate-IsValid k.0 }

  once-Cached :
      (s : Session) (w : t.World)
      → IsValid s
      → Post (λ _ s'. IsCached s') (λ _ s'. IsValid s') (fetch_vpn_connections_once t (s, w))
  unfolding fetch_vpn_connections_once gets
  once-Cached s w v =
      Post-bind {Q' = LoggedIn t} _ _ (async_get_session-LoggedIn t s w v) λ sid s₁ w₁ k.
        Post-bind {Q' = Listed} _ _ (preferred-Listed s₁.listing_mode sid s₁ w₁ refl k.0 (rw k.1))
          λ first s₂ w₂ k₂.
            Post-bind {Q' = Listed} _ _ (then_probe-Listed first s₁.listing_mode sid s₂ w₂ k₂)
              λ r s₃ w₃ k₃. or_missing-Cached r s₃ w₃ k₃

  -- A valid session stays valid through `async_get_vpn_connections`, whatever the network does and
  -- however it ends; after a success it holds a session id and a listing mode, so that the next
  -- listing needs neither a login nor a probe.
  pub async_get_vpn_connections-IsCached :
      (s : Session) (w : t.World)
      → IsValid s
      → Post (λ _ s'. IsCached s') (λ _ s'. IsValid s') (async_get_vpn_connections t (s, w))
  unfolding async_get_vpn_connections modify
  async_get_vpn_connections-IsCached s w v =
      Post-attempt {E' = λ _ s'. IsValid s'} _ _ (once-Cached s w v) λ e s₁ w₁ v₁.
        elim (Bool-cases (is_value_error e && contains (message e) error_msg_invalid_sid)) [
          | inl h ↦ rw h (once-Cached (invalidate_session s₁) w₁ (invalidate-IsValid v₁))
          | inr h ↦ rw h (record { holds = v₁ })
        ]
