-- ===== src/Log/Record/Fields.antt =====
-- Reading one field of a record's bytes after the other: the reads of `DeserializeFrom` of
-- include/recovery/log_record.h, at the offsets at which log_manager.cpp writes.
use ddbms.Base.{ℕ, ◌+◌, ◌≡◌, some, List, ◌++◌, length, arith, length-append}
use ddbms.Base.Bytes.{bytes_le, length-bytes_le}
use ddbms.Log.Record.{
  LogRecord, data_record, header_bytes, data_bytes, read_number, read_bytes, deserialize_data,
}
use mathlib.Core.List.{append_assoc}
use ddbms.Log.Record.Reads.{read_number-at, read_bytes-at, IsRecord, length-header}

module _ (r : LogRecord) (ok : IsRecord r) (rest : List ℕ) where
  abbrev kn : List ℕ
  kn = bytes_le 4 (length r.key)

  abbrev vn : List ℕ
  vn = bytes_le 4 (length r.value)

  abbrev head : List ℕ
  unfolding header_bytes
  head = header_bytes r

  abbrev pub whole : List ℕ
  unfolding header_bytes data_bytes
  whole = header_bytes r ++ (data_bytes r ++ rest)

  lengths_data : (length head ≡ 24) × (length kn ≡ 4) × (length vn ≡ 4)
  unfolding header_bytes
  lengths_data = (length-header r ok rest, length-bytes_le 4 _, length-bytes_le 4 _)

  read_key_size : read_number 4 whole 24 ≡ some (length r.key)
  unfolding header_bytes data_bytes
  read_key_size =
      read_number-at 4 head (r.key ++ (vn ++ (r.value ++ rest))) (length r.key)
        (omega (arith, ok.key)) whole 24 (simp append_assoc) (omega (arith, lengths_data))

  read_key : read_bytes whole (24 + 4) (length r.key) ≡ some r.key
  unfolding header_bytes data_bytes
  read_key =
      read_bytes-at (head ++ kn) r.key (vn ++ (r.value ++ rest)) whole (24 + 4) (simp append_assoc)
        (omega (arith, lengths_data, length-append head kn))

  read_value_size : read_number 4 whole (24 + 4 + length r.key) ≡ some (length r.value)
  unfolding header_bytes data_bytes
  read_value_size =
      read_number-at 4 (head ++ (kn ++ r.key)) (r.value ++ rest) (length r.value)
        (omega (arith, ok.value)) whole (24 + 4 + length r.key) (simp append_assoc)
        (omega (arith, lengths_data, length-append head (kn ++ r.key), length-append kn r.key))

  read_value : read_bytes whole (24 + 4 + length r.key + 4) (length r.value) ≡ some r.value
  unfolding header_bytes data_bytes
  read_value =
      read_bytes-at (head ++ (kn ++ (r.key ++ vn))) r.value rest whole (24 + 4 + length r.key + 4)
        (simp append_assoc)
        (omega (
          arith,
          lengths_data,
          length-append head (kn ++ (r.key ++ vn)),
          length-append kn (r.key ++ vn),
          length-append r.key vn,
        ))

  pub data_read :
      (h : LogRecord)
      → deserialize_data whole 24 h
        ≡ some (record {
          parsed = data_record h.txn_id h.prev_lsn h.log_type r.key r.value;
          storage = 24 + 4 + length r.key + 4 + length r.value;
        })
  unfolding deserialize_data header_bytes data_bytes
  data_read h = rw (read_key_size, read_key, read_value_size, read_value)

  pub length-data : length (data_bytes r) ≡ 4 + length r.key + 4 + length r.value
  unfolding data_bytes
  length-data = omega (
    arith,
    lengths_data,
    length-append kn (r.key ++ (vn ++ r.value)),
    length-append r.key (vn ++ r.value),
    length-append vn r.value,
  )
