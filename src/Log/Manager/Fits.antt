-- ===== src/Log/Manager/Fits.antt =====
-- The copies of AppendLogRecord (src/recovery/log_manager.cpp) stay inside of the log buffer.
use ddbms.Base.{
  ℕ, ◌+◌, ◌%◌, ◌^◌, ◌<◌, ◌≤◌, ◌≡◌, refl, sym, ap, ◌∙◌, subst, true, false, some, some_value, [],
  ◌++◌, length, leb, ltb, ◌==◌, if◌then◌else◌, arith, length-append, Bool-cases, inl, inr,
}
use ddbms.Log.Record.{◌>>=◌, LogRecord, record_bytes, data_bytes, header_bytes, has_data, set_lsn}
use ddbms.Log.Record.Reads.{IsRecord, IsMade, length-header}
use ddbms.Log.Record.Fields.{length-data}
use ddbms.Log.Manager.{
  needed, LogManager, copy_record, Reply, waits, returns, append_copy, append_log_record,
  wake_append, StreamWrite, Flusher, asleep, to_write, to_store, to_clear, flush_step, swap_buffer,
  request_flush, log_buffer_size,
}
use ddbms.Log.Manager.System.{
  LogSystem, after_append, LogStep, appends, wakes, flushes, requests, LogReach, start, later,
}
use ddbms.Log.Manager.Invariant.{write_log-IsWritten, reach-IsLogged}

-- The write offset is inside of the buffer, or at its end.
abbrev IsWithin : LogManager → Type 0
IsWithin m = length m.log_buffer ≤ log_buffer_size

append_copy-IsWithin :
    (r : LogRecord) (m : LogManager) (q : Reply × LogManager)
    → append_copy r m ≡ some q
    → IsWithin q.1
unfolding copy_record
append_copy-IsWithin r m q =
    elim (Bool-cases
      (leb (length (m.log_buffer ++ record_bytes (set_lsn m.next_lsn r))) log_buffer_size)) [
        | inl fits ↦
            rw fits (λ e. subst (λ z. IsWithin z.1) (some_value _ q e) (ground (arith, fits)))
        | inr out ↦ rw out (λ e. cc)
      ]

kept-IsWithin :
    (m n : LogManager) (a : Reply) (q : Reply × LogManager)
    → IsWithin m
    → n.log_buffer ≡ m.log_buffer
    → some (a, n) ≡ some q
    → IsWithin q.1
kept-IsWithin m n a q w same e =
    subst (λ z. IsWithin z.1) (some_value (a, n) q e) (omega (arith, w, ap length same))

append-IsWithin :
    (r : LogRecord) (m : LogManager) (q : Reply × LogManager)
    → IsWithin m
    → append_log_record r m ≡ some q
    → IsWithin q.1
unfolding append_log_record
append-IsWithin r m q w = elim (Bool-cases (leb log_buffer_size (needed r m))) [
  | inl full ↦ rw full (kept-IsWithin m (record m { need_flush = true }) waits q w refl)
  | inr fits ↦ rw fits (append_copy-IsWithin r m q)
]

wake-IsWithin :
    (r : LogRecord) (m : LogManager) (q : Reply × LogManager)
    → IsWithin m
    → wake_append r m ≡ some q
    → IsWithin q.1
unfolding wake_append
wake-IsWithin r m q w = elim (Bool-cases (ltb (needed r m) log_buffer_size)) [
  | inl fits ↦ rw fits (append_copy-IsWithin r m q)
  | inr full ↦ rw full (kept-IsWithin m m waits q w refl)
]

flush_step-IsWithin :
    (w : StreamWrite) (f : Flusher) (m : LogManager) → IsWithin m → IsWithin (flush_step w f m).1
unfolding flush_step swap_buffer
flush_step-IsWithin w asleep m h = elim (Bool-cases (length m.log_buffer == 0)) [
  | inl e ↦ rw e h
  | inr e ↦ rw e (omega arith)
]
flush_step-IsWithin w (to_write lsn) m h =
    omega (arith, h, ap length (write_log-IsWritten w m.flush_buffer m).buffer)
flush_step-IsWithin w (to_store lsn) m h = h
flush_step-IsWithin w to_clear m h = h

after_append-mgr :
    (r : LogRecord) (s : LogSystem) (q : Reply × LogManager) → (after_append r s q).mgr ≡ q.1
after_append-mgr r s (waits, m) = refl
after_append-mgr r s (returns lsn, m) = refl

LogStep-IsWithin : {s t : LogSystem} → LogStep s t → IsWithin s.mgr → IsWithin t.mgr
unfolding request_flush
LogStep-IsWithin {s} (appends r q e) h =
    subst IsWithin (sym (after_append-mgr r s q)) (append-IsWithin r s.mgr q h e)
LogStep-IsWithin {s} (wakes r q e) h =
    subst IsWithin (sym (after_append-mgr r s q)) (wake-IsWithin r s.mgr q h e)
LogStep-IsWithin {s} (flushes w) h = flush_step-IsWithin w s.flusher s.mgr h
LogStep-IsWithin {s} (requests true) h = h
LogStep-IsWithin {s} (requests false) h = h

reach-IsWithin : {s : LogSystem} → LogReach s → IsWithin s.mgr
reach-IsWithin (start old) = omega arith
reach-IsWithin (later h t) = LogStep-IsWithin t (reach-IsWithin h)

-- The bytes of a record: its header, and the key and the value with their sizes.
abbrev encoded_size : LogRecord → ℕ
encoded_size r = 24 + (if has_data r.log_type then 4 + length r.key + 4 + length r.value else 0)

numbered-IsRecord : (r : LogRecord) (n : ℕ) → IsRecord r → n < 2 ^ 32 → IsRecord (set_lsn n r)
numbered-IsRecord r n ok h = record {
  lsn = h;
  txn_id = ok.txn_id;
  prev_lsn = ok.prev_lsn;
  key = ok.key;
  value = ok.value;
}

length-numbered :
    (r : LogRecord) (n : ℕ)
    → IsRecord r
    → n < 2 ^ 32
    → length (record_bytes (set_lsn n r)) ≡ encoded_size r
unfolding record_bytes
length-numbered r n ok h =
    let t = set_lsn n r in
    let fine = numbered-IsRecord r n ok h in
    ground (
      arith,
      length-append (header_bytes t) (if has_data r.log_type then data_bytes t else []),
      length-header t fine [],
      length-data t fine [],
    )

made_size : (r : LogRecord) → IsMade r → r.size ≡ encoded_size r % 2 ^ 32
made_size r made = elim (Bool-cases (has_data r.log_type)) [
  | inl d ↦ sym (ap (λ t. t.size) made) ∙ rw d (ground arith)
  | inr o ↦ sym (ap (λ t. t.size) made) ∙ rw o (ground arith)
]

copy_fits :
    (r : LogRecord) (m : LogManager)
    → IsWithin m
    → m.next_lsn < 2 ^ 32
    → IsRecord r
    → IsMade r
    → encoded_size r < 2 ^ 31
    → needed r m < log_buffer_size
    → (q : Reply × LogManager) × (append_copy r m ≡ some q)
unfolding copy_record
copy_fits r m w small ok made short room = (
  (
    returns m.next_lsn,
    record m {
      next_lsn = (m.next_lsn + 1) % 2 ^ 32;
      log_buffer = m.log_buffer ++ record_bytes (set_lsn m.next_lsn r);
    },
  ),
  rw (fits, if◌then◌else◌, ◌>>=◌) refl,
)
  where
    size : r.size ≡ encoded_size r
    size = made_size r made ∙ omega (arith, short)

    fits : leb (length (m.log_buffer ++ record_bytes (set_lsn m.next_lsn r))) log_buffer_size ≡ true
    fits = ground (
      arith,
      w,
      short,
      room,
      size,
      length-numbered r m.next_lsn ok small,
      length-append m.log_buffer (record_bytes (set_lsn m.next_lsn r)),
    )

-- In every reachable state, a record as its constructor makes it, of fewer than 2 ^ 31 bytes and with
-- fields in their ranges, is copied inside of the log buffer, or waits: neither AppendLogRecord up to
-- its wait nor a wake-up of the wait goes past the end of the buffer.
pub append_log_record-returns :
    {s : LogSystem} (r : LogRecord)
    → LogReach s
    → IsRecord r
    → IsMade r
    → length (record_bytes r) < 2 ^ 31
    → ((q : Reply × LogManager) × (append_log_record r s.mgr ≡ some q))
      × ((q : Reply × LogManager) × (wake_append r s.mgr ≡ some q))
unfolding append_log_record wake_append
append_log_record-returns {s} r h ok made short = (
  elim (Bool-cases (leb log_buffer_size (needed r s.mgr))) [
    | inl full ↦ rw full (_, refl)
    | inr room ↦ rw room (copied (ground (arith, room)))
  ],
  elim (Bool-cases (ltb (needed r s.mgr) log_buffer_size)) [
    | inl room ↦ rw room (copied (ground (arith, room)))
    | inr full ↦ rw full (_, refl)
  ],
)
  where
    next_small : s.mgr.next_lsn < 2 ^ 32
    next_small = omega (arith, (reach-IsLogged h).next)

    copied :
        needed r s.mgr < log_buffer_size → (q : Reply × LogManager) × (append_copy r s.mgr ≡ some q)
    copied =
        copy_fits r s.mgr (reach-IsWithin h) next_small ok made
          (omega (arith, short, length-numbered r r.lsn ok ok.lsn))
