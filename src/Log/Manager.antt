-- ===== src/Log/Manager.antt =====
-- src/recovery/log_manager.cpp and include/recovery/log_manager.h: the log buffer, the calls that
-- append to it, and the steps of the flush thread; WriteLog of include/storage/LogStorage.h.
-- A buffer is the list of the bytes up to its write offset; a copy past its end is undefined, `none`.
pub mod System
pub mod Logged
pub mod Invariant
pub mod Durable
pub mod Fits
use ddbms.Base.{
  ℕ, ◌+◌, ◌-◌, ◌%◌, ◌^◌, Bool, true, false, Option, none, some, List, [], ◌++◌, length, take, leb,
  ltb, ◌==◌, if◌then◌else◌,
}
use ddbms.Base.Words.{signed32_lt, sign_extend}
use ddbms.Log.Record.{◌>>=◌, LogRecord, record_bytes, set_lsn, invalid_lsn}

-- (BUFFER_POOL_SIZE + 1) * PAGE_SIZE
abbrev pub log_buffer_size : ℕ
log_buffer_size = 45056

-- `file` and `bad` are those of log_file_, which its storage opens to append.
pub record LogManager : Type 0 where
  pub log_buffer : List ℕ
  pub flush_buffer : List ℕ
  pub need_flush : Bool
  pub next_lsn : ℕ
  pub persistent_lsn : ℕ
  pub flush_lsn : ℕ
  pub file : List ℕ
  pub bad : Bool

-- With the file as it is when it is opened.
abbrev pub new_log_manager : List ℕ → LogManager
new_log_manager file = record {
  log_buffer = [];
  flush_buffer = [];
  need_flush = false;
  next_lsn = 0;
  persistent_lsn = invalid_lsn;
  flush_lsn = invalid_lsn;
  file = file;
  bad = false;
}

-- The part of AppendLogRecord behind the wait.
unfoldable pub copy_record : LogRecord → LogManager → Option LogManager
copy_record r m =
    let log_buffer = m.log_buffer ++ record_bytes (set_lsn m.next_lsn r) in
    if leb (length log_buffer) log_buffer_size
    then some (record m { next_lsn = (m.next_lsn + 1) % 2 ^ 32; log_buffer = log_buffer })
    else none

-- A call waits for space, or returns the number of its record.
pub data Reply : Type 0 where
  waits : Reply
  returns : ℕ → Reply

-- log_buffer_write_offset_ + log_record.GetSize(), a size_t and an int32_t.
abbrev pub needed : LogRecord → LogManager → ℕ
needed r m = (length m.log_buffer + sign_extend r.size) % 2 ^ 64

-- The return of the number.
abbrev pub append_copy : LogRecord → LogManager → Option (Reply × LogManager)
append_copy r m = do m' ← copy_record r m; some (returns m.next_lsn, m')

-- AppendLogRecord up to its return or its wait, and the wake-up of the wait.
unfoldable pub append_log_record : LogRecord → LogManager → Option (Reply × LogManager)
append_log_record r m =
    if leb log_buffer_size (needed r m)
    then some (waits, record m { need_flush = true })
    else append_copy r m

unfoldable pub wake_append : LogRecord → LogManager → Option (Reply × LogManager)
wake_append r m = if ltb (needed r m) log_buffer_size then append_copy r m else some (waits, m)

unfoldable pub swap_buffer : LogManager → LogManager
swap_buffer m = record m { log_buffer = []; flush_buffer = m.log_buffer }

-- What the stream does with a write: all of it and the flush, or so many bytes and an I/O error. A bad
-- stream writes nothing.
pub data StreamWrite : Type 0 where
  done : StreamWrite
  fails : ℕ → StreamWrite

abbrev pub write_stream : StreamWrite → List ℕ → LogManager → LogManager
write_stream done log_data m = record m { file = m.file ++ log_data }
write_stream (fails n) log_data m = record m { file = m.file ++ take n log_data; bad = true }

-- WriteLog returns nothing, an I/O error or not.
unfoldable pub write_log : StreamWrite → List ℕ → LogManager → LogManager
write_log w log_data m =
    if length log_data == 0 then m else if m.bad then m else write_stream w log_data m

-- Where the flush thread stands; the last two keep its variable `lsn`.
pub data Flusher : Type 0 where
  asleep : Flusher
  to_write : ℕ → Flusher
  to_store : ℕ → Flusher
  to_clear : Flusher

-- One step of the flush thread. The wait ends by a timeout at any time.
unfoldable pub flush_step : StreamWrite → Flusher → LogManager → Flusher × LogManager
unfolding swap_buffer write_log
flush_step w asleep m = if length m.log_buffer == 0 then (asleep, m) else (
  to_write ((m.next_lsn + 2 ^ 32 - 1) % 2 ^ 32),
  record (swap_buffer m) { flush_lsn = (m.next_lsn + 2 ^ 32 - 1) % 2 ^ 32 },
)
flush_step w (to_write lsn) m = (to_store lsn, write_log w m.flush_buffer m)
flush_step w (to_store lsn) m = (to_clear, record m { persistent_lsn = lsn })
flush_step w to_clear m = (asleep, record m { need_flush = false })

-- Flush: the request, and the test that ends its loop.
unfoldable pub request_flush : Bool → LogManager → LogManager
request_flush force m = if force then record m { need_flush = true } else m

unfoldable pub is_flushed : ℕ → LogManager → Bool
is_flushed lsn m = if signed32_lt m.persistent_lsn lsn then false else true
