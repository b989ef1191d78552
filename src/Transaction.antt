-- ===== src/Transaction.antt =====
-- include/transaction/Transaction.h: the transaction object and its twelve lock sets.
pub mod Id
pub mod Sets
use ddbms.Base.{ℕ, Bool, false, ◌||◌, Option, none, some, List, [], ◌∷◌, ◌++◌, ◌==◌, if◌then◌else◌}
use Id.{
  LockDataType, table, partition, row, LockMode, shared, exlucsive, intention_shared,
  intention_exclusive, s_ix, LockDataId, lock_data_id_eq,
}

pub data TransactionState : Type 0 where
  default growing shrinking committed aborted prepared : TransactionState

abbrev pub state_index : TransactionState → ℕ
state_index default = 0
state_index growing = 1
state_index shrinking = 2
state_index committed = 3
state_index aborted = 4
state_index prepared = 5

abbrev pub state_eq : TransactionState → TransactionState → Bool
state_eq a b = state_index a == state_index b

pub data IsolationLevel : Type 0 where
  read_uncommitted repeatable_read read_committed serializable : IsolationLevel

pub data AbortReason : Type 0 where
  lock_on_shrinking upgrade_conflict lock_shared_on_read_uncommitted : AbortReason
  table_lock_not_present partition_lock_not_present : AbortReason
  attempted_intention_lock_on_row table_unlocked_before_unlocking_rows : AbortReason
  incompatible_upgrade attempted_unlock_but_no_lock_held dead_lock_prevent_no_wait : AbortReason

-- A std::string is the list of its bytes.
pub record IpPort : Type 0 where
  pub ip_addr : List ℕ
  pub port : ℕ

pub data WType : Type 0 where
  insert_tuple delete_tuple : WType

pub record WriteRecord : Type 0 where
  pub wtype : WType
  pub key : List ℕ
  pub value : List ℕ

pub record LockSets : Type 0 where
  pub table_s : List LockDataId
  pub table_x : List LockDataId
  pub table_is : List LockDataId
  pub table_ix : List LockDataId
  pub table_six : List LockDataId
  pub partition_s : List LockDataId
  pub partition_x : List LockDataId
  pub partition_is : List LockDataId
  pub partition_ix : List LockDataId
  pub partition_six : List LockDataId
  pub row_s : List LockDataId
  pub row_x : List LockDataId

abbrev pub no_lock_sets : LockSets
no_lock_sets = record {
  table_s = [];
  table_x = [];
  table_is = [];
  table_ix = [];
  table_six = [];
  partition_s = [];
  partition_x = [];
  partition_is = [];
  partition_ix = [];
  partition_six = [];
  row_s = [];
  row_x = [];
}

pub record Transaction : Type 0 where
  pub txn_id : ℕ
  pub state : TransactionState
  pub isolation : IsolationLevel
  pub prev_lsn : ℕ
  pub write_set : List WriteRecord
  pub is_distributed : Bool
  pub distributed_plan_excution_node : List IpPort
  pub sets : LockSets

-- lsn_t is int32_t, given as its bit pattern; INVALID_LSN is -1.
abbrev pub invalid_lsn : ℕ
invalid_lsn = 0xffff_ffff

-- The constructor.
abbrev pub new_transaction : ℕ → IsolationLevel → Transaction
new_transaction txn_id isolation_level = record {
  txn_id = txn_id;
  state = default;
  isolation = isolation_level;
  prev_lsn = invalid_lsn;
  write_set = [];
  is_distributed = false;
  distributed_plan_excution_node = [];
  sets = no_lock_sets;
}

abbrev pub set_transaction_state : TransactionState → Transaction → Transaction
set_transaction_state s txn = record txn { state = s }

-- unordered_set: `count`, `emplace` and `erase`.
unfoldable pub count : LockDataId → List LockDataId → Bool
count l_id [] = false
count l_id (x ∷ xs) = lock_data_id_eq x l_id || count l_id xs

unfoldable pub emplace : LockDataId → List LockDataId → List LockDataId
emplace l_id xs = if count l_id xs then xs else xs ++ l_id ∷ []

unfoldable pub erase : LockDataId → List LockDataId → List LockDataId
erase l_id [] = []
erase l_id (x ∷ xs) = let rest = erase l_id xs in if lock_data_id_eq x l_id then rest else x ∷ rest

-- `nullptr` is `none`: rows have no intention sets.
unfoldable pub get_lock_set : LockDataType → LockMode → LockSets → Option (List LockDataId)
get_lock_set table shared s = some s.table_s
get_lock_set table exlucsive s = some s.table_x
get_lock_set table intention_shared s = some s.table_is
get_lock_set table intention_exclusive s = some s.table_ix
get_lock_set table s_ix s = some s.table_six
get_lock_set partition shared s = some s.partition_s
get_lock_set partition exlucsive s = some s.partition_x
get_lock_set partition intention_shared s = some s.partition_is
get_lock_set partition intention_exclusive s = some s.partition_ix
get_lock_set partition s_ix s = some s.partition_six
get_lock_set row shared s = some s.row_s
get_lock_set row exlucsive s = some s.row_x
get_lock_set row _ s = none

-- A change of the set that `get_lock_set` finds.
unfoldable pub with_lock_set :
    LockDataType → LockMode → (List LockDataId → List LockDataId) → LockSets → LockSets
with_lock_set table shared f s = record s { table_s = f s.table_s }
with_lock_set table exlucsive f s = record s { table_x = f s.table_x }
with_lock_set table intention_shared f s = record s { table_is = f s.table_is }
with_lock_set table intention_exclusive f s = record s { table_ix = f s.table_ix }
with_lock_set table s_ix f s = record s { table_six = f s.table_six }
with_lock_set partition shared f s = record s { partition_s = f s.partition_s }
with_lock_set partition exlucsive f s = record s { partition_x = f s.partition_x }
with_lock_set partition intention_shared f s = record s { partition_is = f s.partition_is }
with_lock_set partition intention_exclusive f s = record s { partition_ix = f s.partition_ix }
with_lock_set partition s_ix f s = record s { partition_six = f s.partition_six }
with_lock_set row shared f s = record s { row_s = f s.row_s }
with_lock_set row exlucsive f s = record s { row_x = f s.row_x }
with_lock_set row _ f s = s

unfoldable pub add_lock_set : LockMode → LockDataId → LockSets → LockSets
unfolding emplace with_lock_set
add_lock_set lock_mode l_id s = with_lock_set l_id.type lock_mode (emplace l_id) s
