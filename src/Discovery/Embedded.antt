-- ===== src/Discovery/Embedded.antt =====
-- custom_components/fritzbox_vpn/ssdp_unique_id.py: the search for a host in a USN.
use Prim.Native.String.{count}
use Prim.Native.String.count
use fritzbox_vpn.Base.{
  ℕ, zero, suc, ◌<◌, ◌≡◌, refl, Bool, false, ◌||◌, Option, none, some, Char, String, ◌∙◌, ap,
  drop_prefix?, if◌then◌else◌, arith, Bool-cases, Option-cases, inl, inr, ◌≢◌,
}
use fritzbox_vpn.Discovery.{
  Parsers, fritz_box_host, after_scheme, names_fritz_box, scan_usn, host_from_ssdp_usn,
}

module _ (parsers : Parsers) where
  abbrev names_after : Option String → Bool
  names_after none = false
  names_after (some after) = names_fritz_box parsers after

  -- At some place of the text there is `://` with the host fritz.box after it.
  unfoldable pub embeds_fritz_box : String → Bool
  embeds_fritz_box String.[] = false
  embeds_fritz_box (String.◌∷◌ c s) =
      names_after (drop_prefix? (String.◌∷◌ c s) "://") || embeds_fritz_box s

  abbrev at_or_after : Option String → Bool
  at_or_after none = false
  at_or_after (some after) = names_fritz_box parsers after || embeds_fritz_box after

  nil_dropped : (s : String) → drop_prefix? s String.[] ≡ some s
  unfolding drop_prefix?
  nil_dropped String.[] = refl
  nil_dropped (String.◌∷◌ c s) = refl

  -- The two slashes of `://` begin no other one.
  embeds_slashes :
      (c : Char) (s after : String)
      → drop_prefix? (String.◌∷◌ c s) "://" ≡ some after
      → embeds_fritz_box s ≡ embeds_fritz_box after
  unfolding drop_prefix? embeds_fritz_box
  embeds_slashes c String.[] after h = ground arith
  embeds_slashes c (String.◌∷◌ d String.[]) after h = ground arith
  embeds_slashes c (String.◌∷◌ d (String.◌∷◌ e r)) after h = ground (arith, nil_dropped r)

  embeds-after_scheme : (s : String) → embeds_fritz_box s ≡ at_or_after (after_scheme s)
  unfolding embeds_fritz_box after_scheme
  embeds-after_scheme String.[] = refl
  embeds-after_scheme (String.◌∷◌ c s) = elim (Option-cases (drop_prefix? (String.◌∷◌ c s) "://")) [
    | inl e ↦ rw e (embeds-after_scheme s)
    | inr (after, e) ↦
        rw e (ap (λ b. names_fritz_box parsers after || b) (embeds_slashes c s after e))
  ]

  dropped_tail :
      (c d e : Char) (r after : String)
      → drop_prefix? (String.◌∷◌ c (String.◌∷◌ d (String.◌∷◌ e r))) "://" ≡ some after
      → after ≡ r
  unfolding drop_prefix?
  dropped_tail c d e r after h = ground (arith, nil_dropped r)

  -- What follows is shorter.
  dropped_count :
      (c : Char) (s after : String)
      → drop_prefix? (String.◌∷◌ c s) "://" ≡ some after
      → count after < count (String.◌∷◌ c s)
  unfolding drop_prefix?
  dropped_count c String.[] after h = ground arith
  dropped_count c (String.◌∷◌ d String.[]) after h = ground arith
  dropped_count c (String.◌∷◌ d (String.◌∷◌ e r)) after h = rw (dropped_tail c d e r after h) (
      omega (
        arith,
        count.cons c (String.◌∷◌ d (String.◌∷◌ e r)),
        count.cons d (String.◌∷◌ e r),
        count.cons e r,
      ))

  shorter_after : (s after : String) → after_scheme s ≡ some after → count after < count s
  unfolding after_scheme
  shorter_after String.[] after h = cc
  shorter_after (String.◌∷◌ c s) after h =
      elim (Option-cases (drop_prefix? (String.◌∷◌ c s) "://")) [
        | inl e ↦ omega (arith, shorter_after s after (rw e at h), count.cons c s)
        | inr (a, e) ↦ dropped_count c s after (e ∙ (rw e at h))
      ]

  scan_finds :
      (fuel : ℕ) (rest : String)
      → count rest < fuel
      → scan_usn parsers fuel rest
        ≡ some (if embeds_fritz_box rest then some fritz_box_host else none)
  unfolding scan_usn
  scan_finds zero rest h = absurd (omega arith)
  scan_finds (suc fuel) rest h = elim (Option-cases (after_scheme rest)) [
    | inl e ↦ rw (embeds-after_scheme rest, e) refl
    | inr (after, e) ↦ elim (Bool-cases (names_fritz_box parsers after)) [
      | inl found ↦ rw (embeds-after_scheme rest, e, found) refl
      | inr other ↦
          rw (embeds-after_scheme rest, e, other)
            (scan_finds fuel after (omega (arith, shorter_after rest after e)))
    ]
  ]

  -- The loop of `host_from_ssdp_usn` ends: with fuel for one round more than the text has
  -- characters it never runs out. It answers fritz.box exactly when the text has this host after
  -- some `://`, wherever that stands, and otherwise nothing.
  pub host_from_ssdp_usn-finds :
      (usn : String)
      → (scan_usn parsers (suc (count usn)) usn ≢ none)
        × (host_from_ssdp_usn parsers usn
            ≡ (if embeds_fritz_box usn then some fritz_box_host else none))
  unfolding host_from_ssdp_usn
  host_from_ssdp_usn-finds usn =
      let found = scan_finds (suc (count usn)) usn (omega arith) in (λ e. cc found, rw found refl)
