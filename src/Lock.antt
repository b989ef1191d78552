-- ===== src/Lock.antt =====
-- src/transaction/Lock_manager.cpp and include/transaction/Lock_manager.h: the lock table, and its
-- six public operations. A call runs under the latch of its queue until it returns or waits on the
-- condition variable; `wake` is one evaluation of the predicate of that wait.
pub mod Mode
pub mod State
mod Queue
pub mod Exclusion
mod Waits
mod Calls
pub mod System
pub mod Release
pub mod Safety
pub mod Held
pub mod Grants
pub mod Attempts
mod Owner
mod Turns
mod Wakes
pub mod Alone
pub mod NoWait
pub mod TwoPhase
use ddbms.Base.{ℕ, Bool, true, false, not, ◌&&◌, ◌||◌, Option, none, some, List, if◌then◌else◌}
use ddbms.Transaction.Id.{
  LockDataType, table, partition, row, LockMode, shared, exlucsive, intention_shared,
  intention_exclusive, s_ix, mode_eq, LockDataId, table_id, partition_id, row_id,
}
use ddbms.Transaction.{
  default, growing, shrinking, aborted, state_eq, LockSets, count, erase, get_lock_set,
  with_lock_set, add_lock_set,
}
use Mode.{is_update_compatible}
use State.{
  LockManager, Session, queue_of, set_state, is_aborted, check_queue_compatible, grant,
  set_upgrading, find_request, start_upgrade, push_request, find_granted, is_linked, drop_request,
}

-- The predicate of each `cv_.wait`: whether the wait ends. Under No-Wait a conflict aborts.
unfoldable pub wait_predicate : LockDataId → ℕ → Session → Bool × Session
wait_predicate l_id request s =
    let fits = check_queue_compatible s.mgr (queue_of s.mgr l_id).request_queue request in
    if not s.mgr.enable_no_wait
    then (fits || is_aborted s, s)
    else if fits
    then (true, s)
    else (true, set_state aborted s)

pub data WaitKind : Type 0 where
  same_mode upgrade new_request : WaitKind

-- A call that waits: on which request, from which place, and with which target mode.
pub record Wait : Type 0 where
  pub l_id : LockDataId
  pub addr : ℕ
  pub kind : WaitKind
  pub target : LockMode

pub data Outcome : Type 0 where
  returned : Bool → Outcome
  blocked : Wait → Outcome

-- What checkSameTxnLockRequest returns, or the wait that it is in.
pub data Checked : Type 0 where
  answer : Bool → Checked
  waits : WaitKind → ℕ → Checked

-- After the wait of an upgrade, and of a request of the same mode.
abbrev pub granted_again : WaitKind → LockDataId → ℕ → LockManager → LockManager
granted_again upgrade l_id addr m = grant addr (set_upgrading l_id false m)
granted_again _ l_id addr m = grant addr m

-- The rest of checkSameTxnLockRequest from a `cv_.wait` on; its handler returns true. `addr` is what
-- the reference to the element of the queue reads: `wake` comes here only while the element is there.
pub after_wait_same : WaitKind → LockDataId → ℕ → Bool × Session → Checked × Session
after_wait_same kind l_id addr (ready, s) =
    if not ready
    then (waits kind addr, s)
    else if is_aborted s
    then (answer true, set_state aborted s)
    else (answer true, record s { mgr = granted_again kind l_id addr s.mgr })

pub wake_same : WaitKind → LockDataId → ℕ → Session → Checked × Session
unfolding after_wait_same
wake_same kind l_id addr s = after_wait_same kind l_id addr (wait_predicate l_id addr s)

-- The body of that loop at the request `iter` of the transaction.
pub check_same_request : LockDataId → LockMode → ℕ → Session → Checked × Session
unfolding wake_same
check_same_request l_id target iter s =
    let request = s.mgr.heap iter in
    if mode_eq request.lock_mode target && request.granted
    then (answer true, s)
    else if mode_eq request.lock_mode target && not request.granted
    then wake_same same_mode l_id iter s
    else if (queue_of s.mgr l_id).upgrading
    then (answer true, set_state aborted s)
    else if not (is_update_compatible request.lock_mode target)
    then (answer true, set_state aborted s)
    else wake_same upgrade l_id iter (record s { mgr = start_upgrade l_id iter target s.mgr })

abbrev pub check_found : LockDataId → LockMode → Session → Option ℕ → Checked × Session
unfolding check_same_request
check_found l_id target s none = (answer false, s)
check_found l_id target s (some iter) = check_same_request l_id target iter s

pub check_same_txn_lock_request : LockDataId → LockMode → Session → Checked × Session
unfolding check_found check_same_request
check_same_txn_lock_request l_id target s =
    check_found l_id target s (find_request s.mgr (queue_of s.mgr l_id).request_queue s.txn.txn_id)

abbrev pub add_to_lock_set : LockDataId → LockMode → Session → Session
add_to_lock_set l_id mode s = record s {
  txn = record s.txn { sets = add_lock_set mode l_id s.txn.sets };
}

abbrev pub in_lock_set : LockDataId → Option (List LockDataId) → Bool
in_lock_set l_id none = false
in_lock_set l_id (some xs) = count l_id xs

-- The rest of a lock call from the wait for a new request on.
pub after_wait_new : LockDataId → ℕ → LockMode → Bool × Session → Outcome × Session
after_wait_new l_id addr mode (ready, s) =
    if not ready
    then (blocked (record { l_id = l_id; addr = addr; kind = new_request; target = mode }), s)
    else if is_aborted s
    then (returned false, set_state aborted s)
    else (returned true, add_to_lock_set l_id mode (record s { mgr = grant addr s.mgr }))

pub wake_new : LockDataId → ℕ → LockMode → Session → Outcome × Session
unfolding after_wait_new
wake_new l_id addr mode s = after_wait_new l_id addr mode (wait_predicate l_id addr s)

-- The rest of a lock call from the return of checkSameTxnLockRequest on.
pub after_check : LockDataId → LockMode → Checked × Session → Outcome × Session
unfolding wake_new
after_check l_id mode (answer true, s) =
    if is_aborted s
    then (returned false, s)
    else if not (in_lock_set l_id (get_lock_set l_id.type mode s.txn.sets))
    then (returned true, add_to_lock_set l_id mode s)
    else (returned true, s)
after_check l_id mode (answer false, s) =
    wake_new l_id s.mgr.next_addr mode
      (record s { mgr = push_request l_id mode s.txn.txn_id s.mgr })
after_check l_id mode (waits kind addr, s) =
    (blocked (record { l_id = l_id; addr = addr; kind = kind; target = mode }), s)

-- A lock call once the state of its transaction has been checked.
unfoldable pub lock_data : LockDataId → LockMode → Session → Outcome × Session
unfolding check_same_txn_lock_request after_check
lock_data l_id mode s = after_check l_id mode (check_same_txn_lock_request l_id mode s)

-- checkSameTxnLockRequest waits with a reference to the element of the list, which the predicate and
-- the rest of the handler read: undefined once the element has been erased. A call that waits for its
-- new request has a pointer to that request, which is never deleted.
abbrev pub wake_linked : WaitKind → Wait → Session → Option (Outcome × Session)
unfolding after_check wake_same
wake_linked kind w s =
    if is_linked w.addr (queue_of s.mgr w.l_id).request_queue
    then some (after_check w.l_id w.target (wake_same kind w.l_id w.addr s))
    else none

-- One more evaluation of the predicate, when a waiting call is notified. Undefined is `none`.
unfoldable pub wake : Wait → Session → Option (Outcome × Session)
unfolding wake_linked wake_new
wake w s = elim w.kind [
  | new_request ↦ some (wake_new w.l_id w.addr w.target s)
  | kind ↦ wake_linked kind w s
]

abbrev pub begin_growing : Session → Session
begin_growing s = if state_eq s.txn.state default then set_state growing s else s

-- The exception for a wrong state is caught in the call itself.
abbrev pub when_growing : Session → (Session → Outcome × Session) → Outcome × Session
when_growing s f =
    if not (state_eq s.txn.state growing) then (returned false, set_state aborted s) else f s

unfoldable pub lock_table : LockMode → ℕ → Session → Outcome × Session
unfolding lock_data
lock_table mode oid s = when_growing (begin_growing s) (lock_data (table_id oid) mode)

unfoldable pub lock_partition : LockMode → ℕ → ℕ → Session → Outcome × Session
unfolding lock_data
lock_partition mode oid p_id s =
    when_growing (begin_growing s) (lock_data (partition_id oid p_id) mode)

-- Rows take no intention locks; the exception is caught in the call.
unfoldable pub lock_row_data : LockMode → LockDataId → Session → Outcome × Session
unfolding lock_data
lock_row_data mode l_id s =
    if not (mode_eq mode shared) && not (mode_eq mode exlucsive)
    then (returned false, set_state aborted s)
    else lock_data l_id mode s

unfoldable pub lock_row : LockMode → ℕ → ℕ → ℕ → Session → Outcome × Session
unfolding lock_row_data
lock_row mode oid p_id r_id s =
    when_growing (begin_growing s) (lock_row_data mode (row_id oid p_id r_id))

abbrev pub unlock_found : LockDataId → Session → Option ℕ → Bool × Session
unlock_found l_id s none = (false, set_state aborted s)
unlock_found l_id s (some addr) = (true, record s { mgr = drop_request l_id addr s.mgr })

abbrev pub begin_shrinking : Session → Session
begin_shrinking s = if state_eq s.txn.state growing then set_state shrinking s else s

unfoldable pub unlock : LockDataId → Session → Bool × Session
unlock l_id s =
    unlock_found l_id (begin_shrinking s)
      (find_granted s.mgr (queue_of s.mgr l_id).request_queue s.txn.txn_id)

abbrev erase_from : LockDataType → LockDataId → LockMode → LockSets → LockSets
erase_from type l_id mode = with_lock_set type mode (erase l_id)

abbrev with_sets : (LockSets → LockSets) → Session → Session
with_sets f s = record s { txn = record s.txn { sets = f s.txn.sets } }

-- All five modes, since an upgrade leaves the old mode's entry behind.
abbrev erase_all : LockDataType → LockDataId → LockSets → LockSets
erase_all type l_id sets = erase_from type l_id s_ix (
    erase_from type l_id intention_shared (
      erase_from type l_id intention_exclusive
        (erase_from type l_id exlucsive (erase_from type l_id shared sets))))

unfoldable pub unlock_table : ℕ → Session → Bool × Session
unfolding unlock
unlock_table oid s =
    let l_id = table_id oid in (true, with_sets (erase_all table l_id) (unlock l_id s).1)

unfoldable pub unlock_partition : ℕ → ℕ → Session → Bool × Session
unfolding unlock
unlock_partition oid p_id s =
    let l_id = partition_id oid p_id in
    (true, with_sets (erase_all partition l_id) (unlock l_id s).1)

unfoldable pub unlock_row : ℕ → ℕ → ℕ → Session → Bool × Session
unfolding unlock
unlock_row oid p_id r_id s =
    let l_id = row_id oid p_id r_id in
    (
      true,
      with_sets (λ sets. erase_from row l_id exlucsive (erase_from row l_id shared sets))
          (unlock l_id s).1,
    )
