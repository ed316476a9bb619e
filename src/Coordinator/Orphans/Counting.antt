-- ===== src/Coordinator/Orphans/Counting.antt =====
-- custom_components/fritzbox_vpn/coordinator.py: how the uids that are missing are counted.
use fritzbox_vpn.Base.{
  ℕ, suc, ◌≡◌, refl, ◌∙◌, Bool, true, not, ◌&&◌, ◌||◌, get_or, List, [], ◌∷◌, String, ◌==◌, eq_iff,
  lookup, put, pop, elem, add, discard, leb, if◌then◌else◌, arith, lookup-put, lookup-pop, elem-add,
  elem-discard, distinct,
}
use fritzbox_vpn.Coordinator.State.{Coordinator}
use fritzbox_vpn.Coordinator.Uids.{forget_misses, count_misses, orphan_confirm_polls}

abbrev pub misses : String → Coordinator → ℕ
misses x c = get_or (lookup x c.missing_uid_counts) 0

abbrev pub is_confirmed : String → Coordinator → Bool
is_confirmed x c = elem x c.confirmed_orphan_uids

-- Counting once more reaches the bound.
abbrev pub reaches : String → Coordinator → Bool
reaches x c = leb orphan_confirm_polls (suc (misses x c))

pub misses-forget :
    (x : String) (uids : List String) (c : Coordinator)
    → misses x (forget_misses uids c) ≡ (if elem x uids then 0 else misses x c)
unfolding forget_misses elem
misses-forget x [] c = refl
misses-forget x (uid ∷ uids) c = ground (
  arith,
  misses-forget x uids (record c {
    missing_uid_counts = pop uid c.missing_uid_counts;
    confirmed_orphan_uids = discard uid c.confirmed_orphan_uids;
  }),
  lookup-pop uid x c.missing_uid_counts,
)

pub is_confirmed-forget :
    (x : String) (uids : List String) (c : Coordinator)
    → is_confirmed x (forget_misses uids c) ≡ (is_confirmed x c && not (elem x uids))
unfolding forget_misses elem
is_confirmed-forget x [] c = ground arith
is_confirmed-forget x (uid ∷ uids) c = ground (
  arith,
  is_confirmed-forget x uids (record c {
    missing_uid_counts = pop uid c.missing_uid_counts;
    confirmed_orphan_uids = discard uid c.confirmed_orphan_uids;
  }),
  elem-discard x uid c.confirmed_orphan_uids,
)

pub seen-forget :
    (uids : List String) (c : Coordinator) → (forget_misses uids c).seen_uids ≡ c.seen_uids
unfolding forget_misses
seen-forget [] c = refl
seen-forget (uid ∷ uids) c = seen-forget uids _

abbrev pub count_one : String → Coordinator → Coordinator
count_one uid c =
    let count = suc (misses uid c) in
    let confirm = leb orphan_confirm_polls count && not (elem uid c.confirmed_orphan_uids) in
    record c {
      missing_uid_counts = put uid count c.missing_uid_counts;
      confirmed_orphan_uids =
          if confirm then add uid c.confirmed_orphan_uids else c.confirmed_orphan_uids;
    }

misses-count_one :
    (x uid : String) (c : Coordinator)
    → misses x (count_one uid c) ≡ (if uid == x then suc (misses x c) else misses x c)
misses-count_one x uid c =
    ground (arith, lookup-put uid x (suc (misses uid c)) c.missing_uid_counts, eq_iff uid x)

is_confirmed-count_one :
    (x uid : String) (c : Coordinator)
    → is_confirmed x (count_one uid c) ≡ (is_confirmed x c || (uid == x && reaches x c))
is_confirmed-count_one x uid c =
    ground (arith, elem-add x uid c.confirmed_orphan_uids, eq_iff uid x)

pub seen-count :
    (uids : List String) (c : Coordinator) (newly : List String)
    → (count_misses uids c newly).0.seen_uids ≡ c.seen_uids
unfolding count_misses
seen-count [] c newly = refl
seen-count (uid ∷ uids) c newly = seen-count uids _ _

pub misses-count :
    (x : String) (uids : List String) (c : Coordinator) (newly : List String)
    → distinct uids ≡ true
    → misses x (count_misses uids c newly).0
      ≡ (if elem x uids then suc (misses x c) else misses x c)
unfolding count_misses elem distinct
misses-count x [] c newly d = refl
misses-count x (uid ∷ uids) c newly d =
    misses-count x uids (count_one uid c) _ (ground arith)
    ∙ ground (arith, misses-count_one x uid c, eq_iff uid x)

pub is_confirmed-count :
    (x : String) (uids : List String) (c : Coordinator) (newly : List String)
    → distinct uids ≡ true
    → is_confirmed x (count_misses uids c newly).0
      ≡ (is_confirmed x c || (elem x uids && reaches x c))
unfolding count_misses elem distinct
is_confirmed-count x [] c newly d = ground arith
is_confirmed-count x (uid ∷ uids) c newly d =
    is_confirmed-count x uids (count_one uid c) _ (ground arith)
    ∙ ground (arith, misses-count_one x uid c, is_confirmed-count_one x uid c, eq_iff uid x)

pub newly-count :
    (x : String) (uids : List String) (c : Coordinator) (newly : List String)
    → distinct uids ≡ true
    → elem x (count_misses uids c newly).1
      ≡ (elem x newly || (elem x uids && (reaches x c && not (is_confirmed x c))))
unfolding count_misses elem distinct
newly-count x [] c newly d = ground arith
newly-count x (uid ∷ uids) c newly d =
    newly-count x uids (count_one uid c) _ (ground arith)
    ∙ ground (
      arith,
      misses-count_one x uid c,
      is_confirmed-count_one x uid c,
      elem-add x uid newly,
      eq_iff uid x,
    )
