-- ===== src/Transaction/Id.antt =====
-- include/transaction/txn.h: lock modes, and the names of the lockable data.
use ddbms.Base.{ℕ, ◌≡◌, Bool, true, false, arith, ◌==◌, if◌then◌else◌, ◌↔◌, not}

pub data LockDataType : Type 0 where
  table partition row : LockDataType

pub data LockMode : Type 0 where
  shared exlucsive intention_shared intention_exclusive s_ix : LockMode

-- The enumerators' values, by which C++ compares them.
abbrev pub type_index : LockDataType → ℕ
type_index table = 0
type_index partition = 1
type_index row = 2

abbrev pub mode_index : LockMode → ℕ
mode_index shared = 0
mode_index exlucsive = 1
mode_index intention_shared = 2
mode_index intention_exclusive = 3
mode_index s_ix = 4

abbrev pub mode_eq : LockMode → LockMode → Bool
mode_eq a b = mode_index a == mode_index b

-- `oid`, `p_id` and `row_id` are int32_t, given as bit patterns below 2 ^ 32.
pub record LockDataId : Type 0 where
  pub oid : ℕ
  pub p_id : ℕ
  pub row_id : ℕ
  pub type : LockDataType

-- The three constructors; the members that one does not set keep their default 0.
abbrev pub table_id : ℕ → LockDataId
table_id oid = record { oid = oid; p_id = 0; row_id = 0; type = table }

abbrev pub partition_id : ℕ → ℕ → LockDataId
partition_id oid p_id = record { oid = oid; p_id = p_id; row_id = 0; type = partition }

abbrev pub row_id : ℕ → ℕ → ℕ → LockDataId
row_id oid p_id r_id = record { oid = oid; p_id = p_id; row_id = r_id; type = row }

-- `operator==`.
unfoldable pub lock_data_id_eq : LockDataId → LockDataId → Bool
lock_data_id_eq a b =
    if not (type_index a.type == type_index b.type)
    then false
    else if not (a.oid == b.oid)
    then false
    else if not (a.p_id == b.p_id)
    then false
    else if not (a.row_id == b.row_id)
    then false
    else true

type_index_injective : (a b : LockDataType) → type_index a ≡ type_index b → a ≡ b
type_index_injective table b h = ground arith
type_index_injective partition b h = ground arith
type_index_injective row b h = ground arith

LockDataId-ext :
    (a b : LockDataId)
    → a.oid ≡ b.oid
    → a.p_id ≡ b.p_id
    → a.row_id ≡ b.row_id
    → a.type ≡ b.type
    → a ≡ b
LockDataId-ext a b p q r t = λ i. record { oid = p i; p_id = q i; row_id = r i; type = t i }

-- `operator==` returns true for two names of lockable data exactly if they are equal: of the same
-- type, table, partition and row.
pub lock_data_id_eq_iff : (a b : LockDataId) → (lock_data_id_eq a b ≡ true) ↔ (a ≡ b)
unfolding lock_data_id_eq
lock_data_id_eq_iff a b = (
  λ h.
      LockDataId-ext a b (ground arith) (ground arith) (ground arith)
        (type_index_injective a.type b.type (ground arith)),
  λ e. ground arith,
)

pub mode_eq_iff : (a b : LockMode) → (mode_eq a b ≡ true) ↔ (a ≡ b)
mode_eq_iff shared b = (λ h. ground arith, λ e. ground arith)
mode_eq_iff _ b = (λ h. ground arith, λ e. ground arith)
