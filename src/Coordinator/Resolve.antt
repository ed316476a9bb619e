-- ===== src/Coordinator/Resolve.antt =====
-- custom_components/fritzbox_vpn/coordinator.py: following a uid through its remaps.
use fritzbox_vpn.Base.{
  ℕ, zero, suc, ◌+◌, ◌≤◌, ◌<◌, ◌≡◌, refl, ap, ◌∙◌, ◌⊎◌, inl, inr, true, false, not, ◌&&◌, none,
  some, is_some, List, [], ◌∷◌, String, Dict, eq_iff, lookup, elem, add, elem-add, if◌then◌else◌,
  Bool-cases, Option-cases, arith,
}
use fritzbox_vpn.Coordinator.State.{Coordinator}
use fritzbox_vpn.Coordinator.Uids.{resolve_loop, resolve_connection_uid, length, step_of}

-- How many entries have a key outside `seen`.
unfoldable unseen : Dict String → List String → ℕ
unseen [] seen = 0
unseen ((j, w) ∷ remap) seen =
    let rest = unseen remap seen in if elem j seen then rest else suc rest

unseen-length : (remap : Dict String) → unseen remap [] ≡ length remap
unfolding unseen length elem
unseen-length [] = refl
unseen-length ((j, w) ∷ remap) = ap suc (unseen-length remap)

unseen-add :
    (remap : Dict String) (uid : String) (seen : List String)
    → unseen remap (add uid seen) ≤ unseen remap seen
unfolding unseen
unseen-add [] uid seen = omega arith
unseen-add ((j, w) ∷ remap) uid seen =
    ground (arith, unseen-add remap uid seen, elem-add j uid seen)

unseen_decreases :
    (remap : Dict String) (uid : String) (seen : List String)
    → is_some (lookup uid remap) ≡ true
    → elem uid seen ≡ false
    → unseen remap (add uid seen) < unseen remap seen
unfolding unseen lookup
unseen_decreases [] uid seen h n = ground arith
unseen_decreases ((j, w) ∷ remap) uid seen h n = ground (
  arith,
  unseen_decreases remap uid seen,
  unseen-add remap uid seen,
  elem-add j uid seen,
  eq_iff j uid,
  eq_iff uid j,
)

-- A uid without a remap stays.
unfoldable pub follow : ℕ → Dict String → String → String
follow zero remap uid = uid
follow (suc n) remap uid = follow n remap (step_of (lookup uid remap) uid)

follow_snoc :
    (n : ℕ) (remap : Dict String) (uid : String)
    → follow (suc n) remap uid ≡ step_of (lookup (follow n remap uid) remap) (follow n remap uid)
unfolding follow
follow_snoc zero remap uid = refl
follow_snoc (suc n) remap uid = follow_snoc n remap (step_of (lookup uid remap) uid)

-- The end of a chain: without a remap, or on a cycle.
abbrev pub IsEnd : Dict String → String → Type 0
IsEnd remap r = (lookup r remap ≡ none) ⊎ ((k : ℕ) × (follow (suc k) remap r ≡ r))

abbrev IsTrail : Dict String → List String → String → Type 0
IsTrail remap seen uid =
    (x : String) → elem x seen ≡ true → (k : ℕ) × (follow (suc k) remap x ≡ uid)

IsTrail-add :
    (remap : Dict String) (seen : List String) (uid next : String)
    → lookup uid remap ≡ some next
    → IsTrail remap seen uid
    → IsTrail remap (add uid seen) next
unfolding follow
IsTrail-add remap seen uid next e t x h = elim (Bool-cases (elem x seen)) [
  | inl i ↦ let (k, p) = t x i in (suc k, follow_snoc (suc k) remap x ∙ rw (p, e) refl)
  | inr i ↦
      let same : x ≡ uid = ground (arith, elem-add x uid seen, eq_iff uid x) in
      (0, rw (same, e) refl)
]

resolve_loop-IsEnd :
    (fuel : ℕ) (remap : Dict String) (seen : List String) (uid : String)
    → unseen remap seen < fuel
    → IsTrail remap seen uid
    → ((n : ℕ) × (resolve_loop fuel remap seen uid ≡ follow n remap uid))
      × IsEnd remap (resolve_loop fuel remap seen uid)
unfolding resolve_loop follow
resolve_loop-IsEnd zero remap seen uid h t = ground arith
resolve_loop-IsEnd (suc fuel) remap seen uid h t = elim (Option-cases (lookup uid remap)) [
  | inl e ↦ rw e ((0, refl), inl e)
  | inr (next, e) ↦ elim (Bool-cases (elem uid seen)) [
    | inl i ↦ rw (e, i) ((0, refl), inr (t uid i))
    | inr i ↦
        let ((n, p), end) =
          resolve_loop-IsEnd fuel remap (add uid seen) next
            (ground (arith, unseen_decreases remap uid seen))
            (IsTrail-add remap seen uid next e t) in
        rw (e, i) ((suc n, rw e p), end)
  ]
]

resolve_loop_fuel :
    (f g : ℕ) (remap : Dict String) (seen : List String) (uid : String)
    → unseen remap seen < f
    → unseen remap seen < g
    → resolve_loop f remap seen uid ≡ resolve_loop g remap seen uid
unfolding resolve_loop
resolve_loop_fuel zero g remap seen uid h h' = ground arith
resolve_loop_fuel (suc f) zero remap seen uid h h' = ground arith
resolve_loop_fuel (suc f) (suc g) remap seen uid h h' =
    elim (Bool-cases (is_some (lookup uid remap) && not (elem uid seen))) [
      | inr e ↦ rw e refl
      | inl e ↦
          let less = unseen_decreases remap uid seen in
          rw e (
            resolve_loop_fuel f g remap (add uid seen) (step_of (lookup uid remap) uid)
              (ground (arith, less)) (ground (arith, less)))
    ]

-- The loop that resolves a uid ends: every number of rounds above the number of remaps gives the
-- same result.
pub resolve_loop_ends :
    (c : Coordinator) (uid : String) (more : ℕ)
    → resolve_loop (more + suc (length c.uid_remap)) c.uid_remap [] uid
      ≡ resolve_connection_uid c uid
unfolding resolve_connection_uid
resolve_loop_ends c uid more =
    resolve_loop_fuel (more + suc (length c.uid_remap)) (suc (length c.uid_remap)) c.uid_remap []
      uid (ground (arith, unseen-length c.uid_remap)) (ground (arith, unseen-length c.uid_remap))

-- A uid resolves to a uid of the chain of remaps that starts at it, and that one has no remap or lies
-- on a cycle of remaps.
pub resolve_connection_uid-IsEnd :
    (c : Coordinator) (uid : String)
    → ((n : ℕ) × (resolve_connection_uid c uid ≡ follow n c.uid_remap uid))
      × IsEnd c.uid_remap (resolve_connection_uid c uid)
unfolding resolve_connection_uid elem
resolve_connection_uid-IsEnd c uid =
    resolve_loop-IsEnd (suc (length c.uid_remap)) c.uid_remap [] uid
      (ground (arith, unseen-length c.uid_remap)) (λ x h. ground arith)
