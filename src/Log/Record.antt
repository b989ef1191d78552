-- ===== src/Log/Record.antt =====
-- include/recovery/log_record.h: log records, their bytes as `LogManager::AppendLogRecord` of
-- src/recovery/log_manager.cpp copies them, and `DeserializeFrom`. The fields of 32 and 64 bits are
-- bit patterns.
pub mod Reads
pub mod Fields
pub mod RoundTrip
use ddbms.Base.{
  ℕ, ◌+◌, ◌%◌, ◌^◌, Bool, true, false, Option, none, some, List, [], ◌++◌, length, take, drop, leb,
  ◌==◌, if◌then◌else◌,
}
use ddbms.Base.Bytes.{bytes_le, value_le}

pub data LogRecordType : Type 0 where
  invalid create_table drop_table insert delete begin commit abort prepared : LogRecordType

abbrev pub type_code : LogRecordType → ℕ
type_code invalid = 0
type_code create_table = 1
type_code drop_table = 2
type_code insert = 3
type_code delete = 4
type_code begin = 5
type_code commit = 6
type_code abort = 7
type_code prepared = 8

-- Another int is no enumerator and stands as `invalid` too: a switch takes its default branch.
abbrev pub type_of_code : ℕ → LogRecordType
type_of_code c =
    if c == 1
    then create_table
    else if c == 2
    then drop_table
    else if c == 3
    then insert
    else if c == 4
    then delete
    else if c == 5
    then begin
    else if c == 6
    then commit
    else if c == 7
    then abort
    else if c == 8
    then prepared
    else invalid

abbrev pub header_size : ℕ
header_size = 24

-- `key` and `value` are the bytes that the pointers and sizes of a record name.
pub record LogRecord : Type 0 where
  pub size : ℕ
  pub lsn : ℕ
  pub txn_id : ℕ
  pub prev_lsn : ℕ
  pub log_type : LogRecordType
  pub key : List ℕ
  pub value : List ℕ

abbrev pub invalid_lsn : ℕ
invalid_lsn = 0xffff_ffff

-- The constructor for BEGIN, COMMIT, ABORT and PREPARED, whose assertion gives `none`.
unfoldable pub is_transaction_operation : LogRecordType → Bool
is_transaction_operation begin = true
is_transaction_operation commit = true
is_transaction_operation abort = true
is_transaction_operation prepared = true
is_transaction_operation _ = false

abbrev pub operation_record : ℕ → ℕ → LogRecordType → LogRecord
operation_record txn_id prev_lsn log_type = record {
  size = header_size;
  lsn = invalid_lsn;
  txn_id = txn_id;
  prev_lsn = prev_lsn;
  log_type = log_type;
  key = [];
  value = [];
}

unfoldable pub new_operation : ℕ → ℕ → LogRecordType → Option LogRecord
unfolding is_transaction_operation
new_operation txn_id prev_lsn log_type =
    if is_transaction_operation log_type
    then some (operation_record txn_id prev_lsn log_type)
    else none

-- The constructor for INSERT and DELETE.
abbrev pub data_record : ℕ → ℕ → LogRecordType → List ℕ → List ℕ → LogRecord
data_record txn_id prev_lsn log_type key value = record {
  size = (header_size + 4 + length key + 4 + length value) % 2 ^ 32;
  lsn = invalid_lsn;
  txn_id = txn_id;
  prev_lsn = prev_lsn;
  log_type = log_type;
  key = key;
  value = value;
}

abbrev pub set_lsn : ℕ → LogRecord → LogRecord
set_lsn lsn r = record r { lsn = lsn }

-- The first 24 bytes of the object.
unfoldable pub header_bytes : LogRecord → List ℕ
header_bytes r =
    bytes_le 4 r.size
    ++ (bytes_le 4 r.lsn
        ++ (bytes_le 8 r.txn_id ++ (bytes_le 4 r.prev_lsn ++ bytes_le 4 (type_code r.log_type))))

abbrev pub has_data : LogRecordType → Bool
has_data insert = true
has_data delete = true
has_data _ = false

unfoldable pub data_bytes : LogRecord → List ℕ
data_bytes r = bytes_le 4 (length r.key) ++ (r.key ++ (bytes_le 4 (length r.value) ++ r.value))

-- What AppendLogRecord copies into the log buffer.
unfoldable pub record_bytes : LogRecord → List ℕ
record_bytes r = header_bytes r ++ (if has_data r.log_type then data_bytes r else [])

infixl 5 ◌>>=◌
abbrev pub ◌>>=◌ {ℓ κ} : {A : Type ℓ} {B : Type κ} → Option A → (A → Option B) → Option B
none >>= f = none
some a >>= f = f a

-- A read of a number of `k` bytes; past the buffer it is undefined.
unfoldable pub read_number : ℕ → List ℕ → ℕ → Option ℕ
read_number k c off =
    if leb (off + k) (length c) then some (value_le (take k (drop off c))) else none

unfoldable pub read_bytes : List ℕ → ℕ → ℕ → Option (List ℕ)
read_bytes c off n = if leb (off + n) (length c) then some (take n (drop off c)) else none

-- A record of the header's fields, and the offset behind what was read.
pub record Parsed : Type 0 where
  pub parsed : LogRecord
  pub storage : ℕ

unfoldable pub deserialize_data : List ℕ → ℕ → LogRecord → Option Parsed
deserialize_data c off r = do
  key_size ← read_number 4 c off
  key ← read_bytes c (off + 4) key_size
  value_size ← read_number 4 c (off + 4 + key_size)
  value ← read_bytes c (off + 4 + key_size + 4) value_size
  some (record {
    parsed = data_record r.txn_id r.prev_lsn r.log_type key value;
    storage = off + 4 + key_size + 4 + value_size;
  })

-- A default-constructed record.
abbrev pub default_record : LogRecord
default_record = record {
  size = 0;
  lsn = invalid_lsn;
  txn_id = 0;
  prev_lsn = invalid_lsn;
  log_type = invalid;
  key = [];
  value = [];
}

-- The switch on the type. PREPARED and the table operations have no case.
unfoldable pub deserialize_body : List ℕ → ℕ → LogRecord → Option Parsed
unfolding deserialize_data
deserialize_body c off r = elim r.log_type [
  | commit ↦ some (record { parsed = operation_record r.txn_id r.prev_lsn commit; storage = off })
  | abort ↦ some (record { parsed = operation_record r.txn_id r.prev_lsn abort; storage = off })
  | begin ↦ some (record { parsed = operation_record r.txn_id r.prev_lsn begin; storage = off })
  | insert ↦ deserialize_data c off r
  | delete ↦ deserialize_data c off r
  | _ ↦ some (record { parsed = default_record; storage = off })
]

-- The fields, and the assertion that the type is not INVALID, which is of the int itself.
abbrev pub read_header : List ℕ → Option LogRecord
read_header c = do
  lsn ← read_number 4 c 4
  txn_id ← read_number 8 c 8
  prev_lsn ← read_number 4 c 16
  code ← read_number 4 c 20
  if code == 0
      then none
      else some (record {
        size = 0;
        lsn = lsn;
        txn_id = txn_id;
        prev_lsn = prev_lsn;
        log_type = type_of_code code;
        key = [];
        value = [];
      })

-- DeserializeFrom up to its last assertion.
unfoldable pub deserialize : List ℕ → Option Parsed
unfolding deserialize_body
deserialize c = do
  header ← read_header c
  p ← deserialize_body c 24 header
  some (record { parsed = set_lsn header.lsn p.parsed; storage = p.storage })

-- The last assertion compares the size with the four bytes behind the record.
unfoldable pub deserialize_from : List ℕ → Option LogRecord
unfolding deserialize
deserialize_from c = do
  p ← deserialize c
  behind ← read_number 4 c p.storage
  if behind == p.parsed.size then some p.parsed else none
