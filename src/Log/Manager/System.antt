-- ===== src/Log/Manager/System.antt =====
-- Threads that append to one log, and its flush thread (src/recovery/log_manager.cpp). A step is a
-- critical section of `latch_`, or one statement of the flush thread outside of it.
use ddbms.Base.{ℕ, zero, suc, ◌≡◌, ◌%◌, ◌^◌, Bool, some, List, [], ◌∷◌, ◌++◌}
use ddbms.Log.Record.{LogRecord, record_bytes, set_lsn}
use ddbms.Log.Manager.{
  LogManager, new_log_manager, Reply, waits, returns, append_log_record, wake_append, StreamWrite,
  Flusher, asleep, flush_step, request_flush,
}

-- The manager, its flush thread, the log file as it was opened, and the records that calls have
-- appended, in their order.
pub record LogSystem : Type 0 where
  pub mgr : LogManager
  pub flusher : Flusher
  pub old : List ℕ
  pub appended : List LogRecord

abbrev pub after_append : LogRecord → LogSystem → Reply × LogManager → LogSystem
after_append r s (waits, m) = record s { mgr = m }
after_append r s (returns lsn, m) = record s {
  mgr = m;
  appended = s.appended ++ set_lsn lsn r ∷ [];
}

abbrev pub after_flush_step : LogSystem → Flusher × LogManager → LogSystem
after_flush_step s (f, m) = record s { mgr = m; flusher = f }

-- A copy past the end of the log buffer is undefined, and no step. A write may fail at any time.
pub data LogStep (s : LogSystem) : LogSystem → Type 0 where
  appends :
      (r : LogRecord) (q : Reply × LogManager)
      → append_log_record r s.mgr ≡ some q
      → LogStep s (after_append r s q)
  wakes :
      (r : LogRecord) (q : Reply × LogManager)
      → wake_append r s.mgr ≡ some q
      → LogStep s (after_append r s q)
  flushes : (w : StreamWrite) → LogStep s (after_flush_step s (flush_step w s.flusher s.mgr))
  requests : (force : Bool) → LogStep s (record s { mgr = request_flush force s.mgr })

abbrev pub init : List ℕ → LogSystem
init old = record { mgr = new_log_manager old; flusher = asleep; old = old; appended = [] }

pub data LogReach : LogSystem → Type 0 where
  start : (old : List ℕ) → LogReach (init old)
  later : {s t : LogSystem} → LogReach s → LogStep s t → LogReach t

-- The bytes of records one after the other.
unfoldable pub log_bytes : List LogRecord → List ℕ
log_bytes [] = []
log_bytes (r ∷ rs) = record_bytes r ++ log_bytes rs

-- The numbers that `n` calls return.
abbrev pub numbers : ℕ → List ℕ
numbers zero = []
numbers (suc n) = numbers n ++ n % 2 ^ 32 ∷ []

abbrev pub lsns : List LogRecord → List ℕ
lsns [] = []
lsns (r ∷ rs) = r.lsn ∷ lsns rs
