-- ===== src/Log/Manager/Invariant.antt =====
-- Where the bytes of the appended records are in every reachable state.
use ddbms.Base.{
  ℕ, ◌+◌, ◌-◌, ◌%◌, ◌^◌, ◌≡◌, refl, sym, ap, ◌∙◌, Bool, true, false, List, [], ◌∷◌, ◌++◌, length,
  ◌==◌, if◌then◌else◌, arith, length-append, Bool-cases, inl, inr,
}
use ddbms.Log.Record.{LogRecord}
use ddbms.Log.Manager.{
  LogManager, swap_buffer, StreamWrite, done, fails, write_stream, write_log, Flusher, asleep,
  to_write, to_store, to_clear, flush_step,
}
use mathlib.Core.List.{append_assoc, append-nil}
use ddbms.Log.Manager.System.{
  LogSystem, after_flush_step, LogStep, appends, wakes, flushes, requests, init, LogReach, start,
  later, log_bytes,
}
use ddbms.Log.Manager.Logged.{
  last_lsn, log_bytes-append, IsLogged, append-kept, wake-kept, request-kept,
}

-- A write leaves the rest of the manager alone, and a stream that is not bad has all of the bytes.
pub record IsWritten (d : List ℕ) (m n : LogManager) : Type 0 where
  pub buffer : n.log_buffer ≡ m.log_buffer
  pub next : n.next_lsn ≡ m.next_lsn
  pub persistent : n.persistent_lsn ≡ m.persistent_lsn
  pub bytes : n.bad ≡ false → (m.bad ≡ false) × (n.file ≡ m.file ++ d)

clash : true ≡ false → ⊥
clash p = cc

write_stream-IsWritten :
    (w : StreamWrite) (d : List ℕ) (m : LogManager)
    → m.bad ≡ false
    → IsWritten d m (write_stream w d m)
write_stream-IsWritten done d m g = record {
  buffer = refl;
  next = refl;
  persistent = refl;
  bytes = λ h. (g, refl);
}
write_stream-IsWritten (fails n) d m g = record {
  buffer = refl;
  next = refl;
  persistent = refl;
  bytes = λ h. absurd (clash h);
}

pub write_log-IsWritten :
    (w : StreamWrite) (d : List ℕ) (m : LogManager) → IsWritten d m (write_log w d m)
unfolding write_log
write_log-IsWritten w [] m = record {
  buffer = refl;
  next = refl;
  persistent = refl;
  bytes = λ h. (h, sym (append-nil m.file));
}
write_log-IsWritten w (x ∷ d) m = go m.bad refl
  where
    not_empty : (length (x ∷ d) == 0) ≡ false
    not_empty = ground arith

    go :
        (b : Bool)
        → m.bad ≡ b
        → IsWritten
            (x ∷ d)
            m
            (if length (x ∷ d) == 0 then m else if b then m else write_stream w (x ∷ d) m)
    go true e =
        rw (not_empty, if◌then◌else◌)
          (record {
            buffer = refl;
            next = refl;
            persistent = refl;
            bytes = λ h. absurd (clash (sym e ∙ h));
          })
    go false e = rw (not_empty, if◌then◌else◌) (write_stream-IsWritten w (x ∷ d) m e)

module _ (o : List ℕ) (m : LogManager) (a : List LogRecord) where
  abbrev at_step : Flusher → LogSystem
  at_step f = record { mgr = m; flusher = f; old = o; appended = a }

  abbrev Steps : StreamWrite → Flusher → Type 0
  Steps w f = IsLogged (at_step f) → IsLogged (after_flush_step (at_step f) (flush_step w f m))

  taken_split : (k : IsLogged (at_step asleep)) → a ≡ k.written ++ k.buffered
  taken_split k = k.split ∙ rw k.flusher_at refl

  taken-kept :
      (k : IsLogged (at_step asleep))
      → IsLogged (
          after_flush_step (at_step asleep) (
            to_write ((m.next_lsn + 2 ^ 32 - 1) % 2 ^ 32),
            record (swap_buffer m) { flush_lsn = (m.next_lsn + 2 ^ 32 - 1) % 2 ^ 32 },
          ))
  unfolding swap_buffer log_bytes
  taken-kept k = record {
    written = k.written;
    in_hand = k.buffered;
    buffered = [];
    stored = k.stored;
    split = k.split ∙ rw (k.flusher_at, append-nil k.buffered) refl;
    file_bytes = k.file_bytes;
    buffer_bytes = refl;
    flusher_at = (
      k.buffer_bytes,
      omega (arith, k.next, ap length (taken_split k), length-append k.written k.buffered),
    );
    numbered = k.numbered;
    next = k.next;
    stored_written = k.stored_written;
    persistent = k.persistent;
  }

  asleep-kept : (w : StreamWrite) → Steps w asleep
  unfolding flush_step swap_buffer
  asleep-kept w k = elim (Bool-cases (length m.log_buffer == 0)) [
    | inl e ↦ rw e k
    | inr e ↦ rw e (taken-kept k)
  ]

  write-kept : (w : StreamWrite) (lsn : ℕ) → Steps w (to_write lsn)
  unfolding flush_step log_bytes
  write-kept w lsn k =
      let i = write_log-IsWritten w m.flush_buffer m in
      record {
        written = k.written ++ k.in_hand;
        in_hand = [];
        buffered = k.buffered;
        stored = k.stored;
        split = k.split ∙ simp append_assoc;
        file_bytes = λ h.
            let (good, all) = i.bytes h in
            all
            ∙ rw (k.file_bytes good, k.flusher_at.0, log_bytes-append k.written k.in_hand)
                (append_assoc o (log_bytes k.written) (log_bytes k.in_hand));
        buffer_bytes = i.buffer ∙ k.buffer_bytes;
        flusher_at = (refl, k.flusher_at.1 ∙ ap last_lsn (sym (length-append k.written k.in_hand)));
        numbered = k.numbered;
        next = i.next ∙ k.next;
        stored_written = omega (arith, k.stored_written, length-append k.written k.in_hand);
        persistent = i.persistent ∙ k.persistent;
      }

  store-kept : (w : StreamWrite) (lsn : ℕ) → Steps w (to_store lsn)
  unfolding flush_step
  store-kept w lsn k = record {
    written = k.written;
    in_hand = k.in_hand;
    buffered = k.buffered;
    stored = length k.written;
    split = k.split;
    file_bytes = k.file_bytes;
    buffer_bytes = k.buffer_bytes;
    flusher_at = k.flusher_at.0;
    numbered = k.numbered;
    next = k.next;
    stored_written = omega arith;
    persistent = k.flusher_at.1;
  }

  clear-kept : (w : StreamWrite) → Steps w to_clear
  unfolding flush_step
  clear-kept w k = record {
    written = k.written;
    in_hand = k.in_hand;
    buffered = k.buffered;
    stored = k.stored;
    split = k.split;
    file_bytes = k.file_bytes;
    buffer_bytes = k.buffer_bytes;
    flusher_at = k.flusher_at;
    numbered = k.numbered;
    next = k.next;
    stored_written = k.stored_written;
    persistent = k.persistent;
  }

  flush-kept : (w : StreamWrite) (f : Flusher) → Steps w f
  flush-kept w asleep = asleep-kept w
  flush-kept w (to_write lsn) = write-kept w lsn
  flush-kept w (to_store lsn) = store-kept w lsn
  flush-kept w to_clear = clear-kept w

step-kept : {s t : LogSystem} → LogStep s t → IsLogged s → IsLogged t
step-kept {s} (appends r q e) k = append-kept r s q k e
step-kept {s} (wakes r q e) k = wake-kept r s q k e
step-kept {s} (flushes w) k = flush-kept s.old s.mgr s.appended w s.flusher k
step-kept {s} (requests b) k = request-kept b s k

init-IsLogged : (old : List ℕ) → IsLogged (init old)
unfolding log_bytes
init-IsLogged old = record {
  written = [];
  in_hand = [];
  buffered = [];
  stored = 0;
  split = refl;
  file_bytes = λ h. sym (append-nil old);
  buffer_bytes = refl;
  flusher_at = refl;
  numbered = refl;
  next = refl;
  stored_written = omega arith;
  persistent = refl;
}

pub reach-IsLogged : {s : LogSystem} → LogReach s → IsLogged s
reach-IsLogged (start old) = init-IsLogged old
reach-IsLogged (later h t) = step-kept t (reach-IsLogged h)
