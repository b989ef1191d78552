-- ===== src/Log/Manager/Logged.antt =====
-- The invariant of the log: where the bytes of the appended records are. The calls keep it.
use ddbms.Base.{
  ℕ, suc, ◌+◌, ◌-◌, ◌%◌, ◌^◌, ◌≤◌, ◌≡◌, refl, sym, ap, ◌∙◌, subst, Bool, true, false, some,
  some_value, List, [], ◌∷◌, ◌++◌, length, leb, ltb, arith, length-append, Bool-cases, inl, inr,
}
use ddbms.Log.Record.{LogRecord, record_bytes, set_lsn}
use ddbms.Log.Manager.{
  needed, LogManager, copy_record, Reply, waits, returns, append_copy, append_log_record,
  wake_append, Flusher, asleep, to_write, to_store, to_clear, request_flush, log_buffer_size,
}
use mathlib.Core.List.{append_assoc, append-nil}
use ddbms.Log.Manager.System.{LogSystem, after_append, log_bytes, numbers, lsns}

-- The number of the last of `n` records.
abbrev pub last_lsn : ℕ → ℕ
last_lsn n = (n + 2 ^ 32 - 1) % 2 ^ 32

pub log_bytes-append :
    (xs ys : List LogRecord) → log_bytes (xs ++ ys) ≡ log_bytes xs ++ log_bytes ys
unfolding log_bytes
log_bytes-append [] ys = refl
log_bytes-append (x ∷ xs) ys = rw (log_bytes-append xs ys) (simp append_assoc)

log_bytes-snoc :
    (xs : List LogRecord) (r : LogRecord)
    → log_bytes (xs ++ r ∷ []) ≡ log_bytes xs ++ record_bytes r
unfolding log_bytes
log_bytes-snoc xs r = rw (log_bytes-append xs (r ∷ []), append-nil (record_bytes r)) refl

lsns-snoc : (xs : List LogRecord) (r : LogRecord) → lsns (xs ++ r ∷ []) ≡ lsns xs ++ r.lsn ∷ []
lsns-snoc [] r = refl
lsns-snoc (x ∷ xs) r = ap (λ l. x.lsn ∷ l) (lsns-snoc xs r)

numbered-snoc :
    (xs : List LogRecord) (r : LogRecord)
    → lsns xs ≡ numbers (length xs)
    → r.lsn ≡ length xs % 2 ^ 32
    → lsns (xs ++ r ∷ []) ≡ numbers (length (xs ++ r ∷ []))
numbered-snoc xs r p q = rw (lsns-snoc xs r, length-snoc, p, q) refl
  where
    length-snoc : length (xs ++ r ∷ []) ≡ suc (length xs)
    length-snoc = omega (arith, length-append xs (r ∷ []))

-- What the flush thread has in hand: `f` are the records behind the `n` written ones.
abbrev pub FlusherAt : Flusher → LogManager → ℕ → List LogRecord → Type 0
FlusherAt asleep m n f = f ≡ []
FlusherAt (to_write lsn) m n f = (m.flush_buffer ≡ log_bytes f) × (lsn ≡ last_lsn (n + length f))
FlusherAt (to_store lsn) m n f = (f ≡ []) × (lsn ≡ last_lsn n)
FlusherAt to_clear m n f = f ≡ []

pub record IsLogged (s : LogSystem) : Type 0 where
  pub written : List LogRecord
  pub in_hand : List LogRecord
  pub buffered : List LogRecord
  pub stored : ℕ
  pub split : s.appended ≡ written ++ (in_hand ++ buffered)
  pub file_bytes : s.mgr.bad ≡ false → s.mgr.file ≡ s.old ++ log_bytes written
  pub buffer_bytes : s.mgr.log_buffer ≡ log_bytes buffered
  pub flusher_at : FlusherAt s.flusher s.mgr (length written) in_hand
  pub numbered : lsns s.appended ≡ numbers (length s.appended)
  pub next : s.mgr.next_lsn ≡ length s.appended % 2 ^ 32
  pub stored_written : stored ≤ length written
  pub persistent : s.mgr.persistent_lsn ≡ last_lsn stored

FlusherAt-same :
    (fl : Flusher) (m m' : LogManager) (n : ℕ) (f : List LogRecord)
    → m.flush_buffer ≡ m'.flush_buffer
    → FlusherAt fl m n f
    → FlusherAt fl m' n f
FlusherAt-same asleep m m' n f e h = h
FlusherAt-same (to_write lsn) m m' n f e h = (sym e ∙ h.0, h.1)
FlusherAt-same (to_store lsn) m m' n f e h = h
FlusherAt-same to_clear m m' n f e h = h

-- The manager behind a copy that fits the buffer.
abbrev copied : LogRecord → LogManager → LogManager
copied r m = record m {
  next_lsn = (m.next_lsn + 1) % 2 ^ 32;
  log_buffer = m.log_buffer ++ record_bytes (set_lsn m.next_lsn r);
}

copied-kept :
    (r : LogRecord) (s : LogSystem)
    → IsLogged s
    → IsLogged (after_append r s (returns s.mgr.next_lsn, copied r s.mgr))
copied-kept r s k = record {
  written = k.written;
  in_hand = k.in_hand;
  buffered = k.buffered ++ set_lsn s.mgr.next_lsn r ∷ [];
  stored = k.stored;
  split = rw k.split (simp append_assoc);
  file_bytes = k.file_bytes;
  buffer_bytes = rw (k.buffer_bytes, log_bytes-snoc k.buffered (set_lsn s.mgr.next_lsn r)) refl;
  flusher_at = FlusherAt-same s.flusher s.mgr (copied r s.mgr) _ k.in_hand refl k.flusher_at;
  numbered = numbered-snoc s.appended (set_lsn s.mgr.next_lsn r) k.numbered k.next;
  next = ground (arith, k.next, length-append s.appended (set_lsn s.mgr.next_lsn r ∷ []));
  stored_written = k.stored_written;
  persistent = k.persistent;
}

same-kept :
    (s : LogSystem) (b : Bool)
    → IsLogged s
    → IsLogged (record s { mgr = record s.mgr { need_flush = b } })
same-kept s b k = record {
  written = k.written;
  in_hand = k.in_hand;
  buffered = k.buffered;
  stored = k.stored;
  split = k.split;
  file_bytes = k.file_bytes;
  buffer_bytes = k.buffer_bytes;
  flusher_at =
      FlusherAt-same s.flusher s.mgr (record s.mgr { need_flush = b }) _ k.in_hand refl
        k.flusher_at;
  numbered = k.numbered;
  next = k.next;
  stored_written = k.stored_written;
  persistent = k.persistent;
}

append_copy-kept :
    (r : LogRecord) (s : LogSystem) (q : Reply × LogManager)
    → IsLogged s
    → append_copy r s.mgr ≡ some q
    → IsLogged (after_append r s q)
unfolding copy_record
append_copy-kept r s q k =
    elim (Bool-cases (
      leb (length (s.mgr.log_buffer ++ record_bytes (set_lsn s.mgr.next_lsn r))) log_buffer_size)) [
        | inl fits ↦ rw fits (λ e.
            subst (λ z. IsLogged (after_append r s z))
              (some_value (returns s.mgr.next_lsn, copied r s.mgr) q e) (copied-kept r s k))
        | inr out ↦ rw out (λ e. cc)
      ]

waits-kept :
    (r : LogRecord) (s : LogSystem) (q : Reply × LogManager) (m : LogManager)
    → IsLogged (record s { mgr = m })
    → some (waits, m) ≡ some q
    → IsLogged (after_append r s q)
waits-kept r s q m k e = subst (λ z. IsLogged (after_append r s z)) (some_value (waits, m) q e) k

pub append-kept :
    (r : LogRecord) (s : LogSystem) (q : Reply × LogManager)
    → IsLogged s
    → append_log_record r s.mgr ≡ some q
    → IsLogged (after_append r s q)
unfolding append_log_record
append-kept r s q k = elim (Bool-cases (leb log_buffer_size (needed r s.mgr))) [
  | inl full ↦ rw full (waits-kept r s q (record s.mgr { need_flush = true }) (same-kept s true k))
  | inr fits ↦ rw fits (append_copy-kept r s q k)
]

pub wake-kept :
    (r : LogRecord) (s : LogSystem) (q : Reply × LogManager)
    → IsLogged s
    → wake_append r s.mgr ≡ some q
    → IsLogged (after_append r s q)
unfolding wake_append
wake-kept r s q k = elim (Bool-cases (ltb (needed r s.mgr) log_buffer_size)) [
  | inl fits ↦ rw fits (append_copy-kept r s q k)
  | inr full ↦ rw full (waits-kept r s q s.mgr k)
]

pub request-kept :
    (b : Bool) (s : LogSystem) → IsLogged s → IsLogged (record s { mgr = request_flush b s.mgr })
unfolding request_flush
request-kept true s k = same-kept s true k
request-kept false s k = k
