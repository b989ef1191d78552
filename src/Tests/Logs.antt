-- ===== src/Tests/Logs.antt =====
-- A log of one record, appended and flushed.
use ddbms.Base.{
  ℕ, ◌^◌, ◌<◌, ◌≡◌, refl, Option, some, none, List, [], ◌∷◌, ◌++◌, length, take, ◌==◌,
  if◌then◌else◌, arith,
}
use ddbms.Base.Bytes.{bytes_le}
use ddbms.Log.Record.{
  LogRecord, begin, insert, operation_record, data_record, set_lsn, header_bytes, record_bytes,
  deserialize, deserialize_from,
}
use ddbms.Log.Record.Reads.{IsRecord}
use ddbms.Log.Record.RoundTrip.{deserialize-record_bytes, deserialize_from-record_bytes}
use ddbms.Log.Manager.{
  LogManager, Reply, waits, copy_record, append_log_record, wake_append, done, write_log,
  flush_step, is_flushed,
}
use ddbms.Log.Manager.System.{
  LogSystem, after_append, after_flush_step, appends, flushes, init, LogReach, start, later,
  log_bytes, lsns, numbers,
}
use ddbms.Log.Manager.Fits.{append_log_record-returns}
use ddbms.Log.Manager.Durable.{reach-lsns, flush-is_durable}

abbrev inserted : LogRecord
inserted = set_lsn 3 (data_record 9 2 insert (97 ∷ []) (1 ∷ 2 ∷ []))

inserted-IsRecord : IsRecord inserted
inserted-IsRecord = record {
  lsn = omega arith;
  txn_id = omega arith;
  prev_lsn = omega arith;
  key = omega arith;
  value = omega arith;
}

deserialize-record_bytes_example :
    deserialize (record_bytes inserted ++ 0 ∷ [])
    ≡ some (record { parsed = inserted; storage = length (record_bytes inserted) })
deserialize-record_bytes_example =
    deserialize-record_bytes inserted (0 ∷ []) inserted-IsRecord refl refl

deserialize_from-record_bytes_example :
    deserialize_from (record_bytes inserted ++ (bytes_le 4 24 ++ []))
    ≡ (if 24 == inserted.size then some inserted else none)
deserialize_from-record_bytes_example =
    deserialize_from-record_bytes inserted 24 [] inserted-IsRecord refl refl (omega arith)

abbrev begun : LogRecord
begun = operation_record 9 0xffff_ffff begin

-- A log file that holds one byte already.
abbrev opened : LogSystem
opened = init (7 ∷ [])

abbrev append_result : Option (Reply × LogManager) → Reply × LogManager
append_result none = (waits, opened.mgr)
append_result (some q) = q

abbrev appended_one : LogSystem
appended_one = after_append begun opened (append_result (append_log_record begun opened.mgr))

abbrev swapped : LogSystem
swapped = after_flush_step appended_one (flush_step done appended_one.flusher appended_one.mgr)

abbrev in_file : LogSystem
in_file = after_flush_step swapped (flush_step done swapped.flusher swapped.mgr)

abbrev flushed : LogSystem
flushed = after_flush_step in_file (flush_step done in_file.flusher in_file.mgr)

reach_flushed : LogReach flushed
unfolding append_log_record copy_record record_bytes header_bytes bytes_le
reach_flushed =
    later
      (later
        (later
          (later (start (7 ∷ []))
            (appends begun (append_result (append_log_record begun opened.mgr)) refl))
          (flushes done))
        (flushes done))
      (flushes done)

reach-lsns_example : lsns flushed.appended ≡ numbers (length flushed.appended)
reach-lsns_example = reach-lsns reach_flushed

flush-is_durable_example :
    (rest : List ℕ) × (flushed.mgr.file ≡ 7 ∷ [] ++ (log_bytes (take 1 flushed.appended) ++ rest))
unfolding append_log_record flush_step copy_record record_bytes header_bytes is_flushed bytes_le
    write_log
flush-is_durable_example = flush-is_durable 0 reach_flushed (omega arith) (omega arith) refl refl

begun-IsRecord : IsRecord begun
begun-IsRecord = record {
  lsn = omega arith;
  txn_id = omega arith;
  prev_lsn = omega arith;
  key = omega arith;
  value = omega arith;
}

begun_short : length (record_bytes begun) < 2 ^ 31
unfolding record_bytes header_bytes bytes_le
begun_short = omega arith

append_log_record-returns_example :
    ((q : Reply × LogManager) × (append_log_record begun flushed.mgr ≡ some q))
    × ((q : Reply × LogManager) × (wake_append begun flushed.mgr ≡ some q))
append_log_record-returns_example =
    append_log_record-returns begun reach_flushed begun-IsRecord refl begun_short
