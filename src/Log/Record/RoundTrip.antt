-- ===== src/Log/Record/RoundTrip.antt =====
-- A record that was appended to the log is read back (include/recovery/log_record.h).
use ddbms.Base.{
  ℕ, ◌+◌, ◌^◌, ◌<◌, ◌≡◌, refl, sym, ap, ◌∙◌, true, false, none, some, List, [], ◌++◌, length, ◌==◌,
  if◌then◌else◌, arith, length-append,
}
use ddbms.Base.Bytes.{bytes_le}
use ddbms.Log.Record.{
  LogRecordType, insert, delete, begin, commit, abort, LogRecord, operation_record, data_record,
  set_lsn, header_bytes, has_data, data_bytes, record_bytes, deserialize_body, deserialize,
  deserialize_from,
}
use mathlib.Core.List.{append_assoc}
use ddbms.Log.Record.Fields.{whole, data_read, length-data}
use ddbms.Log.Record.Reads.{
  read_number-at, IsRecord, IsMade, is_read, content, header_read_at, header, length-header,
  if_true, if_false,
}

module _ (r : LogRecord) (ok : IsRecord r) (made : IsMade r) (rest : List ℕ) where
  abbrev tail : List ℕ
  unfolding data_bytes
  tail = (if has_data r.log_type then data_bytes r else []) ++ rest

  Reads : Type 0
  Reads =
      deserialize (record_bytes r ++ rest)
      ≡ some (record { parsed = r; storage = length (record_bytes r) })

  record_bytes-content : record_bytes r ++ rest ≡ content r ok tail
  unfolding record_bytes header_bytes data_bytes
  record_bytes-content = simp append_assoc

  reads :
      (made_r : LogRecord) (n : ℕ)
      → deserialize (content r ok tail) ≡ some (record { parsed = made_r; storage = n })
      → made_r ≡ r
      → n ≡ length (record_bytes r)
      → Reads
  unfolding Reads
  reads made_r n e p q = rw (record_bytes-content, e, p, q) refl

  length-record_bytes :
      length (record_bytes r)
      ≡ 24 + (if has_data r.log_type then 4 + length r.key + 4 + length r.value else 0)
  unfolding record_bytes
  length-record_bytes = ground (
    arith,
    length-append (header_bytes r) (if has_data r.log_type then data_bytes r else []),
    length-header r ok rest,
    length-data r ok rest,
  )

  reads_operation :
      (t : LogRecordType)
      → r.log_type ≡ t
      → has_data t ≡ false
      → deserialize (content r ok tail)
        ≡ some (record {
          parsed = set_lsn r.lsn (operation_record r.txn_id r.prev_lsn t);
          storage = 24;
        })
      → Reads
  reads_operation t p q e =
      reads _ 24 e
        (ap (λ u. set_lsn r.lsn (operation_record r.txn_id r.prev_lsn u)) (sym p)
          ∙ (sym (if_false _ (ap has_data p ∙ q)) ∙ made))
        (ground (arith, length-record_bytes, ap has_data p ∙ q))

  reads_data :
      (t : LogRecordType)
      → r.log_type ≡ t
      → has_data t ≡ true
      → deserialize (content r ok tail)
        ≡ some (record {
          parsed = set_lsn r.lsn (data_record r.txn_id r.prev_lsn t r.key r.value);
          storage = 24 + 4 + length r.key + 4 + length r.value;
        })
      → Reads
  reads_data t p q e =
      reads _ (24 + 4 + length r.key + 4 + length r.value) e
        (ap (λ u. set_lsn r.lsn (data_record r.txn_id r.prev_lsn u r.key r.value)) (sym p)
          ∙ (sym (if_true _ (ap has_data p ∙ q)) ∙ made))
        (ground (arith, length-record_bytes, ap has_data p ∙ q))

  data_content : has_data r.log_type ≡ true → content r ok tail ≡ whole r ok rest
  unfolding header_bytes data_bytes
  data_content p = rw p refl

  reads_at : (t : LogRecordType) → r.log_type ≡ t → is_read t ≡ true → Reads
  unfolding deserialize deserialize_body header_bytes data_bytes
  reads_at begin p h =
      reads_operation begin p refl (rw (header_read_at r ok tail begin p refl) refl)
  reads_at commit p h =
      reads_operation commit p refl (rw (header_read_at r ok tail commit p refl) refl)
  reads_at abort p h =
      reads_operation abort p refl (rw (header_read_at r ok tail abort p refl) refl)
  reads_at insert p h = reads_data insert p refl (
      rw
        (
          header_read_at r ok tail insert p refl,
          data_content (ap has_data p),
          data_read r ok rest (header r ok tail insert),
        )
        refl)
  reads_at delete p h = reads_data delete p refl (
      rw
        (
          header_read_at r ok tail delete p refl,
          data_content (ap has_data p),
          data_read r ok rest (header r ok tail delete),
        )
        refl)
  reads_at _ p h = ground (arith, h)

-- The bytes of a record of type INSERT, DELETE, BEGIN, COMMIT or ABORT, made by its constructor
-- with fields in their ranges, are read back up to the last assertion of `DeserializeFrom`,
-- whatever follows them, and the read ends behind the last byte of the record.
pub deserialize-record_bytes :
    (r : LogRecord) (rest : List ℕ)
    → IsRecord r
    → IsMade r
    → is_read r.log_type ≡ true
    → deserialize (record_bytes r ++ rest)
      ≡ some (record { parsed = r; storage = length (record_bytes r) })
unfolding Reads
deserialize-record_bytes r rest ok made h = reads_at r ok made rest r.log_type refl h

-- The last assertion of `DeserializeFrom` compares the size of the record with the four bytes that
-- follow it: under the conditions of `deserialize-record_bytes`, a record with the number `n`
-- behind it is read if and only if `n` is its size.
pub deserialize_from-record_bytes :
    (r : LogRecord) (n : ℕ) (rest : List ℕ)
    → IsRecord r
    → IsMade r
    → is_read r.log_type ≡ true
    → n < 2 ^ 32
    → deserialize_from (record_bytes r ++ (bytes_le 4 n ++ rest))
      ≡ (if n == r.size then some r else none)
unfolding deserialize_from
deserialize_from-record_bytes r n rest ok made h small =
    rw
      (
        deserialize-record_bytes r (bytes_le 4 n ++ rest) ok made h,
        read_number-at 4 (record_bytes r) rest n (omega (arith, small)) _ _ refl refl,
      )
      refl
