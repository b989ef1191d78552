-- ===== src/Lock/State.antt =====
-- include/transaction/Lock_manager.h: the lock table, and the parts of src/transaction/Lock_manager.cpp
-- that read or change one queue of it.
use ddbms.Base.{
  ℕ, ◌+◌, Bool, true, false, not, ◌&&◌, ◌||◌, Option, none, some, List, [], ◌∷◌, ◌++◌, ◌==◌,
  if◌then◌else◌,
}
use ddbms.Transaction.Id.{LockMode, shared, LockDataId, lock_data_id_eq}
use ddbms.Transaction.{TransactionState, aborted, state_eq, Transaction, set_transaction_state}
use ddbms.Lock.Mode.{is_lock_compatible}

pub record LockRequest : Type 0 where
  pub txn_id : ℕ
  pub lock_mode : LockMode
  pub granted : Bool

-- `request_queue` holds pointers, given as addresses of the manager's heap.
pub record LockRequestQueue : Type 0 where
  pub request_queue : List ℕ
  pub is_waiting : Bool
  pub upgrading : Bool

abbrev pub new_queue : LockRequestQueue
new_queue = record { request_queue = []; is_waiting = false; upgrading = false }

-- `heap` holds the requests that `new` made, at the addresses below `next_addr`. `lock_map_[l_id]`
-- makes an empty queue for a new key, so the map is total.
pub record LockManager : Type 0 where
  pub lock_map : LockDataId → LockRequestQueue
  pub heap : ℕ → LockRequest
  pub next_addr : ℕ
  pub enable_no_wait : Bool

abbrev pub new_manager : Bool → LockManager
new_manager enable_no_wait = record {
  lock_map = λ _. new_queue;
  heap = λ _. record { txn_id = 0; lock_mode = shared; granted = false };
  next_addr = 0;
  enable_no_wait = enable_no_wait;
}

-- What one call works on: the lock table, and the transaction that its pointer names.
pub record Session : Type 0 where
  pub mgr : LockManager
  pub txn : Transaction

abbrev pub queue_of : LockManager → LockDataId → LockRequestQueue
queue_of m l_id = m.lock_map l_id

abbrev pub set_queue : LockDataId → LockRequestQueue → LockManager → LockManager
set_queue l_id q m = record m { lock_map = λ j. if lock_data_id_eq l_id j then q else m.lock_map j }

abbrev pub store : ℕ → LockRequest → LockManager → LockManager
store addr r m = record m { heap = λ b. if addr == b then r else m.heap b }

abbrev pub set_state : TransactionState → Session → Session
set_state st s = record s { txn = set_transaction_state st s.txn }

abbrev pub is_aborted : Session → Bool
is_aborted s = state_eq s.txn.state aborted

-- checkQueueCompatible; `request` is compared by address.
unfoldable pub check_queue_compatible : LockManager → List ℕ → ℕ → Bool
check_queue_compatible m [] request = true
check_queue_compatible m (iter ∷ rest) request =
    let more = check_queue_compatible m rest request in
    if not (iter == request) && (m.heap iter).granted
    then (if is_lock_compatible (m.heap iter).lock_mode (m.heap request).lock_mode
        then more
        else false)
    else more

-- iter->granted_ = true
abbrev pub grant : ℕ → LockManager → LockManager
grant addr m = store addr (record (m.heap addr) { granted = true }) m

abbrev pub set_upgrading : LockDataId → Bool → LockManager → LockManager
set_upgrading l_id b m = set_queue l_id (record (queue_of m l_id) { upgrading = b }) m

-- The loop stops at the first request of the transaction.
unfoldable pub find_request : LockManager → List ℕ → ℕ → Option ℕ
find_request m [] txn_id = none
find_request m (iter ∷ rest) txn_id =
    if (m.heap iter).txn_id == txn_id then some iter else find_request m rest txn_id

abbrev pub start_upgrade : LockDataId → ℕ → LockMode → LockManager → LockManager
start_upgrade l_id addr target m =
    store addr (record (m.heap addr) { lock_mode = target; granted = false })
      (set_upgrading l_id true m)

-- new LockRequest, and emplace_back.
abbrev pub push_request : LockDataId → LockMode → ℕ → LockManager → LockManager
push_request l_id mode txn_id m =
    let q = queue_of m l_id in
    record (set_queue l_id (record q { request_queue = q.request_queue ++ m.next_addr ∷ [] })
      (store m.next_addr (record { txn_id = txn_id; lock_mode = mode; granted = false }) m)) {
        next_addr = m.next_addr + 1;
      }

-- The first granted request of the transaction.
unfoldable pub find_granted : LockManager → List ℕ → ℕ → Option ℕ
find_granted m [] txn_id = none
find_granted m (iter ∷ rest) txn_id =
    if ((m.heap iter).txn_id == txn_id) && (m.heap iter).granted
    then some iter
    else find_granted m rest txn_id

-- request_queue_.erase(iter)
unfoldable pub remove_request : ℕ → List ℕ → List ℕ
remove_request addr [] = []
remove_request addr (x ∷ xs) = if addr == x then xs else x ∷ remove_request addr xs

-- Whether the node of a request is still in the list, so that a reference into it can be read. An
-- address is pushed once and never reused, since no request is deleted.
unfoldable pub is_linked : ℕ → List ℕ → Bool
is_linked addr [] = false
is_linked addr (x ∷ xs) = (addr == x) || is_linked addr xs

abbrev pub drop_request : LockDataId → ℕ → LockManager → LockManager
drop_request l_id addr m =
    let q = queue_of m l_id in
    set_queue l_id (record q { request_queue = remove_request addr q.request_queue }) m
