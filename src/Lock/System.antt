-- ===== src/Lock/System.antt =====
-- Threads that call one lock manager (src/transaction/Lock_manager.cpp). A step is one critical
-- section of a queue's latch: a call up to its return or its wait, one wake-up, or a release.
use ddbms.Base.{ℕ, ◌≡◌, Bool, ◌==◌, if◌then◌else◌, some}
use ddbms.Transaction.{Transaction, serializable, new_transaction}
use ddbms.Transaction.Id.{LockMode}
use ddbms.Lock.State.{LockManager, Session, new_manager}
use ddbms.Lock.{
  Wait, Outcome, returned, blocked, wake, lock_table, lock_partition, lock_row, unlock_table,
  unlock_partition, unlock_row,
}

pub data LockCall : Type 0 where
  on_table : LockMode → ℕ → LockCall
  on_partition : LockMode → ℕ → ℕ → LockCall
  on_row : LockMode → ℕ → ℕ → ℕ → LockCall

unfoldable pub perform : LockCall → Session → Outcome × Session
perform (on_table mode oid) s = lock_table mode oid s
perform (on_partition mode oid p_id) s = lock_partition mode oid p_id s
perform (on_row mode oid p_id r_id) s = lock_row mode oid p_id r_id s

pub data UnlockCall : Type 0 where
  of_table : ℕ → UnlockCall
  of_partition : ℕ → ℕ → UnlockCall
  of_row : ℕ → ℕ → ℕ → UnlockCall

unfoldable pub release : UnlockCall → Session → Bool × Session
release (of_table oid) s = unlock_table oid s
release (of_partition oid p_id) s = unlock_partition oid p_id s
release (of_row oid p_id r_id) s = unlock_row oid p_id r_id s

-- A thread waits in a call for the transaction at a pointer, or is outside the lock manager.
pub data Pc : Type 0 where
  idle : Pc
  waiting : Wait → ℕ → Pc

-- Transactions by pointer; several threads may share one.
pub record System : Type 0 where
  pub mgr : LockManager
  pub txns : ℕ → Transaction
  pub pc : ℕ → Pc

abbrev pub session : System → ℕ → Session
session s p = record { mgr = s.mgr; txn = s.txns p }

abbrev pub update {ℓ} : {A : Type ℓ} → (ℕ → A) → ℕ → A → ℕ → A
update f i a j = if i == j then a else f j

abbrev pub next_pc : Outcome → ℕ → Pc
next_pc (returned b) p = idle
next_pc (blocked w) p = waiting w p

abbrev pub after_call : ℕ → ℕ → System → Outcome × Session → System
after_call i p s (o, t) = record {
  mgr = t.mgr;
  txns = update s.txns p t.txn;
  pc = update s.pc i (next_pc o p);
}

abbrev pub after_release : ℕ → System → Bool × Session → System
after_release p s (b, t) = record s { mgr = t.mgr; txns = update s.txns p t.txn }

-- `other` is whatever the rest of the program does to a transaction, an abort among it. A wake-up that
-- reads an erased element of a list is undefined, and no step.
pub data Step (s : System) : System → Type 0 where
  call :
      (i p : ℕ) (c : LockCall) → s.pc i ≡ idle → Step s (after_call i p s (perform c (session s p)))
  notified :
      (i p : ℕ) (w : Wait) (r : Outcome × Session)
      → s.pc i ≡ waiting w p
      → wake w (session s p) ≡ some r
      → Step s (after_call i p s r)
  unlocks :
      (i p : ℕ) (c : UnlockCall)
      → s.pc i ≡ idle
      → Step s (after_release p s (release c (session s p)))
  other : (p : ℕ) (t : Transaction) → Step s (record s { txns = update s.txns p t })

abbrev pub init : Bool → System
init no_wait = record {
  mgr = new_manager no_wait;
  txns = λ p. new_transaction p serializable;
  pc = λ _. idle;
}

pub data Reach (no_wait : Bool) : System → Type 0 where
  start : Reach no_wait (init no_wait)
  later : {s t : System} → Reach no_wait s → Step s t → Reach no_wait t
