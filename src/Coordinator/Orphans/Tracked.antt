-- ===== src/Coordinator/Orphans/Tracked.antt =====
-- custom_components/fritzbox_vpn/coordinator.py: what a poll does to the counts.
use fritzbox_vpn.Base.{
  suc, ◌≡◌, refl, ◌∙◌, true, not, ◌&&◌, ◌||◌, List, [], String, keys, elem, union, difference, leb,
  if◌then◌else◌, arith, elem-difference, distinct, distinct-union, distinct-difference,
}
use fritzbox_vpn.Coordinator.State.{Coordinator, known_data}
use fritzbox_vpn.Coordinator.Recovery.{remember_data, remember_connection_names}
use fritzbox_vpn.Coordinator.Uids.{forget_misses, note_seen, track_missing_uids}
use fritzbox_vpn.Coordinator.Orphans.Counting.{
  misses, is_confirmed, reaches, misses-forget, is_confirmed-forget, seen-forget, seen-count,
  misses-count, is_confirmed-count, newly-count,
}

-- The uids that a poll with the list `current` knows.
abbrev pub known : List String → Coordinator → List String
known current c = union (remember_data c).seen_uids current

pub distinct-known :
    (current : List String) (c : Coordinator)
    → distinct c.seen_uids ≡ true
    → distinct (known current c) ≡ true
unfolding remember_data remember_connection_names
distinct-known current c d =
    distinct-union (remember_data c).seen_uids current
      (ground (arith, distinct-union c.seen_uids (keys (known_data c)) d))

misses-note :
    (x : String) (current : List String) (c : Coordinator)
    → misses x (note_seen current c) ≡ misses x c
unfolding note_seen remember_data remember_connection_names
misses-note x current c = ground arith

is_confirmed-note :
    (x : String) (current : List String) (c : Coordinator)
    → is_confirmed x (note_seen current c) ≡ is_confirmed x c
unfolding note_seen remember_data remember_connection_names
is_confirmed-note x current c = ground arith

seen-note :
    (current : List String) (c : Coordinator) → (note_seen current c).seen_uids ≡ known current c
unfolding note_seen
seen-note current c = refl

pub seen-track :
    (current : List String) (c : Coordinator)
    → (track_missing_uids current c).0.seen_uids ≡ known current c
unfolding track_missing_uids
seen-track current c =
    let c' = forget_misses current (note_seen current c) in
    seen-count (difference c'.seen_uids current) c' []
    ∙ seen-forget current (note_seen current c)
    ∙ seen-note current c

absent-IsDistinct :
    (current : List String) (c : Coordinator)
    → distinct c.seen_uids ≡ true
    → distinct (difference (forget_misses current (note_seen current c)).seen_uids current) ≡ true
absent-IsDistinct current c d =
    distinct-difference (forget_misses current (note_seen current c)).seen_uids current (
      rw (seen-forget current (note_seen current c), seen-note current c)
        (distinct-known current c d))

-- A uid on the list has no misses; of the others a known one has one more.
pub misses-track :
    (x : String) (current : List String) (c : Coordinator)
    → distinct c.seen_uids ≡ true
    → misses x (track_missing_uids current c).0 ≡ (
        if elem x current
        then 0
        else if elem x (known current c)
        then suc (misses x c)
        else misses x c)
unfolding track_missing_uids
misses-track x current c d =
    let n = note_seen current c in
    let c' = forget_misses current n in
    misses-count x (difference c'.seen_uids current) c' [] (absent-IsDistinct current c d)
    ∙ ground (
      arith,
      elem-difference x c'.seen_uids current,
      seen-forget current n,
      seen-note current c,
      misses-forget x current n,
      misses-note x current c,
    )

pub is_confirmed-track :
    (x : String) (current : List String) (c : Coordinator)
    → distinct c.seen_uids ≡ true
    → is_confirmed x (track_missing_uids current c).0
      ≡ (not (elem x current) && (is_confirmed x c || (elem x (known current c) && reaches x c)))
unfolding track_missing_uids
is_confirmed-track x current c d =
    let n = note_seen current c in
    let c' = forget_misses current n in
    is_confirmed-count x (difference c'.seen_uids current) c' [] (absent-IsDistinct current c d)
    ∙ ground (
      arith,
      elem-difference x c'.seen_uids current,
      seen-forget current n,
      seen-note current c,
      misses-forget x current n,
      misses-note x current c,
      is_confirmed-forget x current n,
      is_confirmed-note x current c,
    )

-- Where the seen uids are listed once each, the uids that a poll confirms as removed are exactly those
-- that are known, not on its list, counted as missing for the third time at least, and not confirmed
-- before.
pub elem-track_missing_uids :
    (x : String) (current : List String) (c : Coordinator)
    → distinct c.seen_uids ≡ true
    → elem x (track_missing_uids current c).1 ≡ (
        elem x (known current c)
        && (not (elem x current) && (leb 3 (suc (misses x c)) && not (is_confirmed x c))))
unfolding track_missing_uids elem
elem-track_missing_uids x current c d =
    let n = note_seen current c in
    let c' = forget_misses current n in
    newly-count x (difference c'.seen_uids current) c' [] (absent-IsDistinct current c d)
    ∙ ground (
      arith,
      elem-difference x c'.seen_uids current,
      seen-forget current n,
      seen-note current c,
      misses-forget x current n,
      misses-note x current c,
      is_confirmed-forget x current n,
      is_confirmed-note x current c,
    )
