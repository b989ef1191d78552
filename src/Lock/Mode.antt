-- ===== src/Lock/Mode.antt =====
-- src/transaction/Lock_manager.cpp: `isLockCompatible` and `isUpdateCompatible`.
use ddbms.Base.{◌≡◌, refl, Bool, true, false, ◌&&◌, ◌||◌, not, if◌then◌else◌}
use ddbms.Transaction.Id.{
  LockMode, shared, exlucsive, intention_shared, intention_exclusive, s_ix, mode_eq,
}

-- `held` is the mode of a request in the queue.
unfoldable pub is_lock_compatible : LockMode → LockMode → Bool
is_lock_compatible held intention_shared = if mode_eq held exlucsive then false else true
is_lock_compatible held intention_exclusive =
    if not (mode_eq held intention_shared) && not (mode_eq held intention_exclusive)
    then false
    else true
is_lock_compatible held shared =
    if not (mode_eq held intention_shared) && not (mode_eq held shared) then false else true
is_lock_compatible held s_ix = if not (mode_eq held intention_shared) then false else true
is_lock_compatible held exlucsive = false

unfoldable pub is_update_compatible : LockMode → LockMode → Bool
is_update_compatible intention_shared upgrade =
    if mode_eq upgrade intention_shared then false else true
is_update_compatible shared upgrade =
    if not (mode_eq upgrade exlucsive) && not (mode_eq upgrade s_ix) then false else true
is_update_compatible intention_exclusive upgrade =
    if not (mode_eq upgrade exlucsive) && not (mode_eq upgrade s_ix) then false else true
is_update_compatible s_ix upgrade = if not (mode_eq upgrade exlucsive) then false else true
is_update_compatible exlucsive upgrade = false

-- What a mode permits below the locked object: to read or to write all of it, or parts of it that
-- are locked on their own.
pub record Permits : Type 0 where
  pub reads_part : Bool
  pub writes_part : Bool
  pub reads_all : Bool
  pub writes_all : Bool

abbrev pub permits : LockMode → Permits
permits intention_shared = record {
  reads_part = true;
  writes_part = false;
  reads_all = false;
  writes_all = false;
}
permits intention_exclusive = record {
  reads_part = true;
  writes_part = true;
  reads_all = false;
  writes_all = false;
}
permits shared = record {
  reads_part = true;
  writes_part = false;
  reads_all = true;
  writes_all = false;
}
permits s_ix = record {
  reads_part = true;
  writes_part = true;
  reads_all = true;
  writes_all = false;
}
permits exlucsive = record {
  reads_part = true;
  writes_part = true;
  reads_all = true;
  writes_all = true;
}

-- One side may touch what the other may write.
abbrev pub conflicts : Permits → Permits → Bool
conflicts a b =
    (a.writes_all && b.reads_part)
    || (b.writes_all && a.reads_part)
    || (a.reads_all && b.writes_part)
    || (b.reads_all && a.writes_part)

abbrev implies : Bool → Bool → Bool
implies a b = not a || b

-- `b` permits all that `a` does.
abbrev pub weaker : Permits → Permits → Bool
weaker a b =
    implies a.reads_part b.reads_part
    && implies a.writes_part b.writes_part
    && implies a.reads_all b.reads_all
    && implies a.writes_all b.writes_all

-- Two modes are compatible exactly when what they permit does not conflict.
pub is_lock_compatible-eq-not-conflicts :
    (held target : LockMode)
    → is_lock_compatible held target ≡ not (conflicts (permits held) (permits target))
unfolding is_lock_compatible
is_lock_compatible-eq-not-conflicts shared shared = refl
is_lock_compatible-eq-not-conflicts _ shared = refl
is_lock_compatible-eq-not-conflicts shared _ = refl
is_lock_compatible-eq-not-conflicts exlucsive _ = refl
is_lock_compatible-eq-not-conflicts intention_shared _ = refl
is_lock_compatible-eq-not-conflicts intention_exclusive _ = refl
is_lock_compatible-eq-not-conflicts s_ix _ = refl

-- An upgrade is accepted exactly when the new mode permits strictly more than the old one.
pub is_update_compatible-eq-weaker :
    (held target : LockMode)
    → is_update_compatible held target
      ≡ (weaker (permits held) (permits target) && not (mode_eq held target))
unfolding is_update_compatible
is_update_compatible-eq-weaker shared shared = refl
is_update_compatible-eq-weaker _ shared = refl
is_update_compatible-eq-weaker shared _ = refl
is_update_compatible-eq-weaker exlucsive _ = refl
is_update_compatible-eq-weaker intention_shared _ = refl
is_update_compatible-eq-weaker intention_exclusive _ = refl
is_update_compatible-eq-weaker s_ix _ = refl

pub is_lock_compatible_symm : (a b : LockMode) → is_lock_compatible a b ≡ is_lock_compatible b a
unfolding is_lock_compatible
is_lock_compatible_symm shared shared = refl
is_lock_compatible_symm _ shared = refl
is_lock_compatible_symm shared _ = refl
is_lock_compatible_symm exlucsive _ = refl
is_lock_compatible_symm intention_shared _ = refl
is_lock_compatible_symm intention_exclusive _ = refl
is_lock_compatible_symm s_ix _ = refl
