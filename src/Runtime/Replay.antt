-- ===== src/Runtime/Replay.antt =====
-- custom_components/fritzbox_vpn/models.py, with the tracking of entity.py: the known uids as sets that
-- forget the order in which they came.
use mathlib.Core.Path.{fun_ext}
use mathlib.Core.Quot
use mathlib.Core.Quot.{Quot, Quot-set}
use fritzbox_vpn.Base.{
  ◌≡◌, refl, sym, ◌∙◌, ap, inl, inr, Bool, true, false, not, ◌&&◌, ◌||◌, List, [], ◌∷◌, String,
  Dict, ◌==◌, elem, union, difference, elem-union, elem-difference, Bool-cases, if◌then◌else◌,
  eq_refl, and-true,
}
use fritzbox_vpn.Runtime.{
  Platform, Runtime, switch, sensor, binary_sensor, platform_tracking, clear_known_uids,
  remap_known_uids,
}
use fritzbox_vpn.Runtime.Renaming.{
  renamed_uid, renamed, is_renaming, renamed-elem, known_uids, elem-remap_known_uids,
  elem-clear_known_uids,
}

-- Two lists with the same uids.
abbrev pub SameUids : List String → List String → Type 0
SameUids xs ys = (x : String) → elem x xs ≡ elem x ys

abbrev pub UidSet : Type 0
UidSet = Quot SameUids

pub insert_all : List String → UidSet → UidSet
insert_all uids =
    Quot.lift Quot-set (λ xs. Quot.mk (union xs uids))
      (λ xs ys h.
        Quot.sound (λ x.
          elem-union x xs uids ∙ ap (λ b. b || elem x uids) (h x) ∙ sym (elem-union x ys uids)))

pub remove_all : List String → UidSet → UidSet
remove_all uids =
    Quot.lift Quot-set (λ xs. Quot.mk (difference xs uids))
      (λ xs ys h. Quot.sound (λ x.
        elem-difference x xs uids
        ∙ ap (λ b. b && not (elem x uids)) (h x)
        ∙ sym (elem-difference x ys uids)))

bool_eq : (a b : Bool) → (a ≡ true → b ≡ true) → (b ≡ true → a ≡ true) → a ≡ b
bool_eq true b h k = sym (h refl)
bool_eq false true h k = k refl
bool_eq false false h k = refl

or_right : (a : Bool) {b : Bool} → b ≡ true → (a || b) ≡ true
or_right true h = refl
or_right false h = h

-- What is renamed comes from a uid of the list.
elem-origin :
    (m : Dict String) (x : String) (xs : List String)
    → elem x (renamed m xs) ≡ true
    → (y : String) × (elem y xs ≡ true) × ((renamed_uid m y == x) ≡ true)
unfolding renamed elem
elem-origin m x [] h = cc h
elem-origin m x (z ∷ zs) h = elim (Bool-cases (renamed_uid m z == x)) [
  | inl e ↦ (z, rw (eq_refl z) refl, e)
  | inr e ↦ let (y, i, r) = elem-origin m x zs (rw e at h) in (y, or_right (z == y) i, r)
]

renamed_over :
    (m : Dict String) (x : String) (xs ys : List String)
    → SameUids xs ys
    → elem x (renamed m xs) ≡ true
    → elem x (renamed m ys) ≡ true
renamed_over m x xs ys h k =
    let (y, i, r) = elem-origin m x xs k in renamed-elem m x y ys (sym (h y) ∙ i) r

-- Every uid of the set replaced at once.
pub rename_all : Dict String → UidSet → UidSet
rename_all m =
    Quot.lift Quot-set (λ xs. Quot.mk (renamed m xs))
      (λ xs ys h. Quot.sound (λ x.
        bool_eq (elem x (renamed m xs)) (elem x (renamed m ys)) (renamed_over m x xs ys h)
          (renamed_over m x ys xs (λ y. sym (h y)))))

-- What happens to the known uids: a platform adds uids, a removal forgets some everywhere, a remap
-- renames them everywhere.
pub data Op : Type 0 where
  track : Platform → List String → Op
  clear : List String → Op
  remap : Dict String → Op

-- `known_uids.update(uids)` in entity.py
unfoldable pub track_uids : Platform → List String → Runtime → Runtime
track_uids switch uids r = record r { known_uids_switch = union r.known_uids_switch uids }
track_uids sensor uids r = record r { known_uids_sensor = union r.known_uids_sensor uids }
track_uids binary_sensor uids r = record r {
  known_uids_binary_sensor = union r.known_uids_binary_sensor uids;
}

unfoldable pub apply : Op → Runtime → Runtime
unfolding track_uids clear_known_uids remap_known_uids
apply (track p uids) r = track_uids p uids r
apply (clear uids) r = clear_known_uids uids r
apply (remap m) r = remap_known_uids m r

unfoldable pub run : List Op → Runtime → Runtime
unfolding apply
run [] r = r
run (op ∷ ops) r = run ops (apply op r)

abbrev pub is_same : Platform → Platform → Bool
is_same switch switch = true
is_same sensor sensor = true
is_same binary_sensor binary_sensor = true
is_same _ _ = false

-- The same on three sets.
abbrev pub Sets : Type 0
Sets = Platform → UidSet

abbrev pub replay_one : Op → Sets → Sets
replay_one (track p uids) f q = if is_same p q then insert_all uids (f q) else f q
replay_one (clear uids) f q = remove_all uids (f q)
replay_one (remap m) f q = rename_all m (f q)

pub replay : List Op → Sets → Sets
replay [] f = f
replay (op ∷ ops) f = replay ops (replay_one op f)

-- Of no remap is a new uid also an old one.
unfoldable pub all_renamings : List Op → Bool
all_renamings [] = true
all_renamings (remap m ∷ ops) = is_renaming m m && all_renamings ops
all_renamings (track p uids ∷ ops) = all_renamings ops
all_renamings (clear uids ∷ ops) = all_renamings ops

-- What the platforms know, without its order.
abbrev pub view : Runtime → Sets
view r p = Quot.mk (known_uids p r)

track-view :
    (q p : Platform) (uids : List String) (r : Runtime)
    → view (track_uids q uids r) p ≡ replay_one (track q uids) (view r) p
unfolding track_uids insert_all union platform_tracking
track-view switch switch uids r = refl
track-view switch sensor uids r = refl
track-view switch binary_sensor uids r = refl
track-view sensor switch uids r = refl
track-view sensor sensor uids r = refl
track-view sensor binary_sensor uids r = refl
track-view binary_sensor switch uids r = refl
track-view binary_sensor sensor uids r = refl
track-view binary_sensor binary_sensor uids r = refl

clear-view :
    (uids : List String) (r : Runtime) (p : Platform)
    → view (clear_known_uids uids r) p ≡ replay_one (clear uids) (view r) p
unfolding remove_all
clear-view uids r p =
    Quot.sound
      (λ x. elem-clear_known_uids uids r p x ∙ sym (elem-difference x (known_uids p r) uids))

remap-view :
    (m : Dict String) (r : Runtime) (p : Platform)
    → is_renaming m m ≡ true
    → view (remap_known_uids m r) p ≡ replay_one (remap m) (view r) p
unfolding rename_all
remap-view m r p h = Quot.sound (λ x. elem-remap_known_uids m r p x h)

-- The known uids of the platforms refine three sets: any run of additions, removals and remaps in which
-- no new uid of a remap is also one of its old uids ends with just the sets that the same run on sets
-- gives, where an addition is a union at one platform, a removal a difference at each, and a remap
-- replaces every uid at once.
pub run-replay :
    (ops : List Op) (r : Runtime)
    → all_renamings ops ≡ true
    → view (run ops r) ≡ replay ops (view r)
unfolding run replay apply all_renamings
run-replay [] r h = refl
run-replay (track q uids ∷ ops) r h =
    run-replay ops (track_uids q uids r) h ∙ ap (replay ops) (fun_ext (λ p. track-view q p uids r))
run-replay (clear uids ∷ ops) r h =
    run-replay ops (clear_known_uids uids r) h
    ∙ ap (replay ops) (fun_ext (λ p. clear-view uids r p))
run-replay (remap m ∷ ops) r h =
    let (renaming, rest) = and-true (is_renaming m m) (all_renamings ops) h in
    run-replay ops (remap_known_uids m r) rest
    ∙ ap (replay ops) (fun_ext (λ p. remap-view m r p renaming))
