-- ===== src/Session/Valid/Login.antt =====
-- async_get_session of session.py, the validity of the session and the session id.
use fritzbox_vpn.Base.{◌≡◌, refl, inl, inr, ◌||◌, Option, none, some, String, ◌==◌, Bool-cases, ltb}
use fritzbox_vpn.Value.{ℤ, pos, negsuc}
use fritzbox_vpn.Outcome.{is_value_error, is_connection_error}
use fritzbox_vpn.Session.State.{Transport, Session, gets, modify, wait}
use fritzbox_vpn.Session.Logic.{Post, Post-lift, Post-bind, Post-attempt}
use fritzbox_vpn.Session.Login.{
  try_get_session_via_pbkdf2, get_session_via_md5, async_get_session, calculate_pbkdf2_response,
  answer_challenge, answer_md5, supported, present, wait_seconds, after_pbkdf2, sid_of_post,
  accept_sid, store_sid, cached_or_login, parse_blocktime_from_login_xml,
  parse_challenge_from_login_xml, parse_sid_from_login_response,
}
use fritzbox_vpn.Session.Valid.{
  SidOk, IsValid, Keeps, Kept, fetch_login_page-Keeps, post_md5-Keeps, post_pbkdf2-Keeps,
  valid_sid-SidOk,
}

module _ (t : Transport) where
  -- A candidate for the session id beside a valid session.
  abbrev Candidate : Option String → Session → Type 0
  Candidate o s = IsValid s × SidOk o

  abbrev pub LoggedIn : String → Session → Type 0
  LoggedIn sid s = IsValid s × (s.sid ≡ some sid)

  wait_seconds-Keeps :
      (o : Option ℤ) (s : Session) (w : t.World) → IsValid s → Keeps t (wait_seconds t o (s, w))
  unfolding wait
  wait_seconds-Keeps none s w v = record { holds = v }
  wait_seconds-Keeps (some (negsuc n)) s w v = record { holds = v }
  wait_seconds-Keeps (some (pos n)) s w v = elim (Bool-cases (ltb 0 n)) [
    | inl e ↦ rw e (record { holds = v })
    | inr e ↦ rw e (record { holds = v })
  ]

  sid_of_post-SidOk : (o : Option String) → SidOk (sid_of_post t o)
  sid_of_post-SidOk none = tt
  sid_of_post-SidOk (some content) = valid_sid-SidOk t (parse_sid_from_login_response t content)

  answer_challenge-Candidate :
      (content : String) (o : Option String) (s : Session) (w : t.World)
      → IsValid s
      → Post Candidate (λ _ s'. IsValid s') (answer_challenge t content o (s, w))
  unfolding gets
  answer_challenge-Candidate content none s w v = record { holds = (v, tt) }
  answer_challenge-Candidate content (some challenge) s w v =
      Post-bind {Q' = Kept t} _ _
        (wait_seconds-Keeps (parse_blocktime_from_login_xml t content) s w v)
        λ _ s₁ w₁ v₁.
          Post-bind {Q' = Kept t} _ _
            (Post-lift (calculate_pbkdf2_response t challenge s₁.password) s₁ w₁ (λ _. v₁)
              (λ _. v₁))
            λ response s₂ w₂ v₂.
              Post-bind {Q' = Kept t} _ _ (post_pbkdf2-Keeps t response s₂ w₂ v₂)
                λ posted s₃ w₃ v₃. record { holds = (v₃, sid_of_post-SidOk posted) }

  try_pbkdf2-Candidate :
      (s : Session) (w : t.World)
      → IsValid s
      → Post Candidate (λ _ s'. IsValid s') (try_get_session_via_pbkdf2 t (s, w))
  unfolding try_get_session_via_pbkdf2 gets
  try_pbkdf2-Candidate s w v =
      Post-bind {Q' = Kept t} _ _ (fetch_login_page-Keeps t _ s w v) λ content s₁ w₁ v₁.
        elim (Bool-cases (content == "")) [
          | inl e ↦ rw e (record { holds = (v₁, tt) })
          | inr e ↦ rw e (
              answer_challenge-Candidate content
                (supported t (parse_challenge_from_login_xml t content)) s₁ w₁ v₁)
        ]

  store_sid-LoggedIn :
      (sid : String) (s : Session) (w : t.World)
      → IsValid s
      → SidOk (some sid)
      → Post LoggedIn (λ _ s'. IsValid s') (store_sid t sid (s, w))
  unfolding modify
  store_sid-LoggedIn sid s w v k = record {
    holds = (record { protocol_ok = v.protocol_ok; sid_ok = k; mode_ok = v.mode_ok }, refl);
  }

  accept_sid-LoggedIn :
      (o : Option String) (s : Session) (w : t.World)
      → IsValid s
      → SidOk o
      → Post LoggedIn (λ _ s'. IsValid s') (accept_sid t o (s, w))
  accept_sid-LoggedIn none s w v k = record { holds = v }
  accept_sid-LoggedIn (some sid) s w v k = store_sid-LoggedIn sid s w v k

  answer_md5-LoggedIn :
      (o : Option String) (s : Session) (w : t.World)
      → IsValid s
      → Post LoggedIn (λ _ s'. IsValid s') (answer_md5 t o (s, w))
  answer_md5-LoggedIn none s w v = record { holds = v }
  answer_md5-LoggedIn (some challenge) s w v =
      Post-bind {Q' = Kept t} _ _ (post_md5-Keeps t challenge s w v) λ content s₁ w₁ v₁.
        accept_sid-LoggedIn _ s₁ w₁ v₁ (valid_sid-SidOk t (parse_sid_from_login_response t content))

  md5-LoggedIn :
      (s : Session) (w : t.World)
      → IsValid s
      → Post LoggedIn (λ _ s'. IsValid s') (get_session_via_md5 t (s, w))
  unfolding get_session_via_md5 gets
  md5-LoggedIn s w v =
      Post-bind {Q' = Kept t} _ _
        (Post-attempt {E' = Kept t} _ _ (fetch_login_page-Keeps t _ s w v) λ e s₁ w₁ v₁.
          elim (Bool-cases (is_connection_error e || is_value_error e)) [
            | inl h ↦ rw h (record { holds = v₁ })
            | inr h ↦ rw h (record { holds = v₁ })
          ])
        λ content s₂ w₂ v₂. elim (Bool-cases (content == "")) [
          | inl h ↦ rw h (record { holds = v₂ })
          | inr h ↦
              rw h (
                answer_md5-LoggedIn (present t (parse_challenge_from_login_xml t content)) s₂ w₂ v₂)
        ]

  after_pbkdf2-LoggedIn :
      (o : Option String) (s : Session) (w : t.World)
      → Candidate o s
      → Post LoggedIn (λ _ s'. IsValid s') (after_pbkdf2 t o (s, w))
  after_pbkdf2-LoggedIn none s w k = md5-LoggedIn s w k.0
  after_pbkdf2-LoggedIn (some sid) s w k = store_sid-LoggedIn sid s w k.0 k.1

  cached_or_login-LoggedIn :
      (o : Option String) (s : Session) (w : t.World)
      → s.sid ≡ o
      → IsValid s
      → Post LoggedIn (λ _ s'. IsValid s') (cached_or_login t o (s, w))
  cached_or_login-LoggedIn (some sid) s w e v = record { holds = (v, e) }
  cached_or_login-LoggedIn none s w e v =
      Post-bind {Q' = Candidate} _ _
        (Post-attempt {E' = Kept t} _ _ (try_pbkdf2-Candidate s w v) λ err s₁ w₁ v₁.
          elim (Bool-cases (is_value_error err)) [
            | inl h ↦ rw h (record { holds = (v₁, tt) })
            | inr h ↦ rw h (record { holds = v₁ })
          ])
        λ o s₂ w₂ k. after_pbkdf2-LoggedIn o s₂ w₂ k

  -- A valid session stays valid through `async_get_session`, whatever the network answers and whether
  -- it returns or raises; where it returns, the returned session id is the cached one, and by
  -- validity neither empty nor the box's id for a refused login.
  pub async_get_session-LoggedIn :
      (s : Session) (w : t.World)
      → IsValid s
      → Post LoggedIn (λ _ s'. IsValid s') (async_get_session t (s, w))
  unfolding async_get_session gets
  async_get_session-LoggedIn s w v = cached_or_login-LoggedIn s.sid s w refl v
