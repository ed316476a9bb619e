-- ===== src/Coordinator/Orphans/Runs.antt =====
-- custom_components/fritzbox_vpn/coordinator.py: the counts of missing uids along a run.
use fritzbox_vpn.Base.{
  ℕ, ◌≤◌, ◌≡◌, inl, inr, true, not, ◌||◌, Option, none, some, List, [], ◌∷◌, String, Dict, lookup,
  keys, elem, discard, union, difference, is_empty, leb, Bool-cases, arith, lookup-pop,
  elem-discard, distinct, distinct-add, distinct-discard, distinct-union,
}
use fritzbox_vpn.UidIdentity.{Remap, mapping, refused, name_bijection_uid_remap}
use fritzbox_vpn.Coordinator.State.{
  remap_connection_uids, Coordinator, Connections, known_data, present_entry, call,
}
use fritzbox_vpn.Coordinator.Recovery.{reset_orphan_miss_streaks, in_recovery}
use fritzbox_vpn.Coordinator.Uids.{
  apply_one, apply_remap, apply_uid_remap_if_needed, remap_by, remap_for,
}
use fritzbox_vpn.Coordinator.Poll.{pause_tracking, track}
use fritzbox_vpn.Coordinator.Reach.{History, streak}
use fritzbox_vpn.Coordinator.Orphans.Counting.{misses, is_confirmed}
use fritzbox_vpn.Coordinator.Orphans.Tracked.{
  distinct-known, seen-track, misses-track, is_confirmed-track,
}

-- What the counting reads and writes.
abbrev pub tally : Coordinator → List String × Dict ℕ × List String
tally c = (c.seen_uids, c.missing_uid_counts, c.confirmed_orphan_uids)

-- No uid has more misses than newest lists without it, and the confirmed ones are among `before`.
pub record IsKept (h : History) (before : List String) (c : Coordinator) : Type 0 where
  pub is_distinct : distinct c.seen_uids ≡ true
  pub counted : (x : String) → misses x c ≤ streak x h
  pub kept : (x : String) → is_confirmed x c ≡ true → elem x before ≡ true

-- The same, where a uid may have been confirmed that the three newest lists at least do not have.
pub record IsTallied (h : History) (before : List String) (c : Coordinator) : Type 0 where
  pub is_distinct : distinct c.seen_uids ≡ true
  pub counted : (x : String) → misses x c ≤ streak x h
  pub justified :
      (x : String) → is_confirmed x c ≡ true → (elem x before || leb 3 (streak x h)) ≡ true

module _ (h : History) (before : List String) where
  pub IsTallied-same :
      (c d : Coordinator) → tally d ≡ tally c → IsTallied h before c → IsTallied h before d
  IsTallied-same c d e v = record {
    is_distinct = ground (arith, v.is_distinct);
    counted = λ x. ground (arith, v.counted x);
    justified = λ x i. ground (arith, v.justified x);
  }

  pub IsKept-Tallied : (c : Coordinator) → IsKept h before c → IsTallied h before c
  IsKept-Tallied c v = record {
    is_distinct = v.is_distinct;
    counted = v.counted;
    justified = λ x i. ground (arith, v.kept x);
  }

  apply_one-IsKept :
      (connections : Connections) (old new : String) (c : Coordinator)
      → IsKept h before c
      → IsKept h before (apply_one connections old new c)
  unfolding apply_one
  apply_one-IsKept connections old new c v = record {
    is_distinct = ground (
      arith,
      distinct-add new (discard old c.seen_uids),
      distinct-discard old c.seen_uids v.is_distinct,
    );
    counted = λ x. ground (arith, v.counted x, lookup-pop old x c.missing_uid_counts);
    kept = λ x i. ground (arith, v.kept x, elem-discard x old c.confirmed_orphan_uids);
  }

  apply_remap-IsKept :
      (connections : Connections) (applied : Dict String) (c : Coordinator)
      → IsKept h before c
      → IsKept h before (apply_remap connections applied c)
  unfolding apply_remap
  apply_remap-IsKept connections [] c v = v
  apply_remap-IsKept connections ((old, new) ∷ applied) c v =
      apply_remap-IsKept connections applied (apply_one connections old new c)
        (apply_one-IsKept connections old new c v)

  remap_by-IsKept :
      (answer : Dict String → Dict String) (entry_id : String) (connections : Connections)
      (r : Remap) (c : Coordinator)
      → IsKept h before c
      → IsKept h before (remap_by answer entry_id connections r c)
  unfolding call
  remap_by-IsKept answer entry_id connections (refused reason) c v = v
  remap_by-IsKept answer entry_id connections (mapping m) c v =
      apply_remap-IsKept connections (answer m) (call (remap_connection_uids entry_id m) c)
        (record { is_distinct = v.is_distinct; counted = v.counted; kept = v.kept })

  remap_for-IsKept :
      (answer : Dict String → Dict String) (o : Option String) (connections : Connections)
      (c : Coordinator)
      → IsKept h before c
      → IsKept h before (remap_for answer o connections c)
  remap_for-IsKept answer none connections c v = v
  remap_for-IsKept answer (some entry_id) connections c v =
      let removed = difference c.seen_uids (keys connections) in
      let added = difference (keys connections) c.seen_uids in
      elim (Bool-cases (is_empty removed || is_empty added)) [
        | inl e ↦ rw e v
        | inr e ↦ rw e (
            remap_by-IsKept answer entry_id connections
              (name_bijection_uid_remap removed added c.uid_names connections) c v)
      ]

  pub remap-IsKept :
      (answer : Dict String → Dict String) (connections : Connections) (c : Coordinator)
      → IsKept h before c
      → IsKept h before (apply_uid_remap_if_needed answer connections c)
  unfolding apply_uid_remap_if_needed
  remap-IsKept answer connections c v =
      elim (Bool-cases (not (in_recovery c) || is_empty connections)) [
        | inl e ↦ rw e v
        | inr e ↦ rw e (remap_for-IsKept answer (present_entry c.entry_id) connections c v)
      ]

  pub track-IsTallied :
      (current : List String) (c : Coordinator)
      → IsKept h before c
      → IsTallied (current ∷ h) before (track current c).0
  unfolding pause_tracking reset_orphan_miss_streaks streak lookup
  track-IsTallied current c v = elim (Bool-cases (in_recovery c)) [
    | inl e ↦ rw e (record {
      is_distinct =
          distinct-union (union c.seen_uids (keys (known_data c))) current
            (distinct-union c.seen_uids (keys (known_data c)) v.is_distinct);
      counted = λ x. ground arith;
      justified = λ x i. ground (arith, v.kept x);
    })
    | inr e ↦ rw e (record {
      is_distinct = rw (seen-track current c) (distinct-known current c v.is_distinct);
      counted = λ x. ground (arith, misses-track x current c v.is_distinct, v.counted x);
      justified = λ x i.
          ground (arith, is_confirmed-track x current c v.is_distinct, v.counted x, v.kept x);
    })
  ]
