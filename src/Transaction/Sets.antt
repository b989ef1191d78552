-- ===== src/Transaction/Sets.antt =====
-- What `emplace`, `erase` and `add_lock_set` do to membership in the lock sets.
use ddbms.Base.{◌≡◌, refl, true, false, ◌||◌, List, [], ◌∷◌, ◌++◌, arith, if◌then◌else◌}
use ddbms.Transaction.Id.{LockDataId, lock_data_id_eq, lock_data_id_eq_iff}
use ddbms.Transaction.{count, emplace, erase}

pub lock_data_id_eq_refl : (a : LockDataId) → lock_data_id_eq a a ≡ true
lock_data_id_eq_refl a = (lock_data_id_eq_iff a a).1 refl

pub count-append :
    (l : LockDataId) (xs ys : List LockDataId) → count l (xs ++ ys) ≡ (count l xs || count l ys)
unfolding count
count-append l [] ys = refl
count-append l (x ∷ xs) ys = ground (arith, count-append l xs ys)

-- Membership after an insertion.
pub count-emplace :
    (l j : LockDataId) (xs : List LockDataId)
    → count j (emplace l xs) ≡ (lock_data_id_eq l j || count j xs)
unfolding emplace count
count-emplace l j xs = ground (arith, count-append j xs (l ∷ []), lock_data_id_eq_iff l j)

-- Membership after an erasure.
pub count-erase :
    (l j : LockDataId) (xs : List LockDataId)
    → count j (erase l xs) ≡ (if lock_data_id_eq l j then false else count j xs)
unfolding count erase
count-erase l j [] = ground arith
count-erase l j (x ∷ xs) = ground (
  arith,
  count-erase l j xs,
  lock_data_id_eq_iff l j,
  lock_data_id_eq_iff x j,
  lock_data_id_eq_iff x l,
)
