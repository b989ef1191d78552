-- ===== src/Lock/TwoPhase.antt =====
-- Two-phase locking: a transaction that has released a lock gets no lock any more.
use ddbms.Base.{◌≡◌, ◌≢◌, false, arith}
use ddbms.Transaction.Id.{LockDataId, table_id, partition_id, row_id}
use ddbms.Transaction.{TransactionState, default, growing, aborted, state_eq}
use ddbms.Lock.State.{Session, set_state}
use ddbms.Lock.{
  returned, lock_table, lock_partition, lock_row, unlock, unlock_table, unlock_partition,
  unlock_row,
}
use ddbms.Lock.System.{
  LockCall, on_table, on_partition, on_row, perform, UnlockCall, of_table, of_partition, of_row,
  release,
}

-- Outside the states DEFAULT and GROWING a lock call aborts the transaction and asks for nothing.
pub perform_not_growing :
    (c : LockCall) (s : Session)
    → state_eq s.txn.state default ≡ false
    → state_eq s.txn.state growing ≡ false
    → perform c s ≡ (returned false, set_state aborted s)
unfolding perform lock_table lock_partition lock_row
perform_not_growing (on_table mode oid) s h g = rw (h, g)
perform_not_growing (on_partition mode oid p_id) s h g = rw (h, g)
perform_not_growing (on_row mode oid p_id r_id) s h g = rw (h, g)

-- The states that a release can leave.
abbrev IsReleased : TransactionState → Type 0
IsReleased st = (state_eq st default ≡ false) × (state_eq st growing ≡ false)

unlock-IsReleased :
    (l : LockDataId) (s : Session)
    → state_eq s.txn.state default ≡ false
    → IsReleased (unlock l s).1.txn.state
unfolding unlock
unlock-IsReleased l s h = ground arith

pub release-IsReleased :
    (c : UnlockCall) (s : Session)
    → state_eq s.txn.state default ≡ false
    → IsReleased (release c s).1.txn.state
unfolding release unlock_table unlock_partition unlock_row
release-IsReleased (of_table oid) s h = unlock-IsReleased (table_id oid) s h
release-IsReleased (of_partition oid p_id) s h = unlock-IsReleased (partition_id oid p_id) s h
release-IsReleased (of_row oid p_id r_id) s h = unlock-IsReleased (row_id oid p_id r_id) s h

-- After a release by a transaction that is not in the state DEFAULT, the next lock call of it,
-- on any datum and in any mode, returns false, sets the transaction to ABORTED, and leaves the
-- lock table and the lock sets as the release left them.
pub lock-release :
    (c : UnlockCall) (d : LockCall) (s : Session)
    → s.txn.state ≢ default
    → perform d (release c s).1 ≡ (returned false, set_state aborted (release c s).1)
lock-release c d s h =
    let begun : state_eq s.txn.state default ≡ false = ground arith in
    let (a, b) = release-IsReleased c s begun in perform_not_growing d (release c s).1 a b
