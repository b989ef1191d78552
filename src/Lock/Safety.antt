-- ===== src/Lock/Safety.antt =====
-- Mutual exclusion in every interleaving of calls, wake-ups and releases.
use ddbms.Base.{
  ℕ, ◌≡◌, ◌≢◌, Bool, true, false, arith, In, ◌==◌, Bool-cases, inl, inr, Option, none, some,
}
use ddbms.Transaction.{default, growing, shrinking, aborted, state_eq}
use ddbms.Transaction.Id.{LockMode, LockDataId, table_id, partition_id, row_id}
use ddbms.Lock.Mode.{is_lock_compatible-eq-not-conflicts, permits, conflicts}
use ddbms.Lock.State.{Session, set_state, find_granted}
use ddbms.Lock.Exclusion.{
  IsExclusive, IsRequestOf, Evolves, Evolves-refl, requests, IsRequestOf-Evolves, drop_request-kept,
}
use ddbms.Lock.Calls.{Kept-if, lock_data-Kept, wake-Kept}
use ddbms.Lock.Waits.{Kept, Kept-returned}
use ddbms.Lock.{
  Wait, Outcome, returned, blocked, begin_growing, when_growing, lock_data, lock_row_data,
  lock_table, lock_partition, lock_row, unlock, unlock_found, unlock_table, unlock_partition,
  unlock_row,
}
use ddbms.Lock.System.{
  LockCall, on_table, on_partition, on_row, perform, UnlockCall, of_table, of_partition, of_row,
  release, waiting, System, session, next_pc, after_call, Step, call, notified, unlocks, other,
  init, Reach, start, later,
}

when_growing-Kept :
    (f : Session → Outcome × Session)
    → ((t : Session) → IsExclusive t.mgr → Kept t.mgr (f t))
    → (s : Session) → IsExclusive s.mgr
    → Kept s.mgr (when_growing s f)
when_growing-Kept f k s x =
    Kept-if _ s.mgr _ _ (Kept-returned false s.mgr (set_state aborted s) x (Evolves-refl s.mgr))
      (k s x)

begin_growing-Kept :
    (f : Session → Outcome × Session)
    → ((t : Session) → IsExclusive t.mgr → Kept t.mgr (f t))
    → (s : Session) → IsExclusive s.mgr
    → Kept s.mgr (when_growing (begin_growing s) f)
begin_growing-Kept f k s x = elim (Bool-cases (state_eq s.txn.state default)) [
  | inl e ↦ rw e (when_growing-Kept f k (set_state growing s) x)
  | inr e ↦ rw e (when_growing-Kept f k s x)
]

lock_row_data-Kept :
    (mode : LockMode) (l : LockDataId) (s : Session)
    → IsExclusive s.mgr
    → Kept s.mgr (lock_row_data mode l s)
unfolding lock_row_data
lock_row_data-Kept mode l s x =
    Kept-if _ s.mgr _ _ (Kept-returned false s.mgr (set_state aborted s) x (Evolves-refl s.mgr))
      (lock_data-Kept l mode s x)

pub perform-Kept : (c : LockCall) (s : Session) → IsExclusive s.mgr → Kept s.mgr (perform c s)
unfolding perform lock_table lock_partition lock_row
perform-Kept (on_table mode oid) s x =
    begin_growing-Kept (lock_data (table_id oid) mode) (lock_data-Kept (table_id oid) mode) s x
perform-Kept (on_partition mode oid p_id) s x =
    begin_growing-Kept (lock_data (partition_id oid p_id) mode)
      (lock_data-Kept (partition_id oid p_id) mode) s x
perform-Kept (on_row mode oid p_id r_id) s x =
    begin_growing-Kept (lock_row_data mode (row_id oid p_id r_id))
      (lock_row_data-Kept mode (row_id oid p_id r_id)) s x

unlock-kept :
    (l : LockDataId) (s : Session)
    → IsExclusive s.mgr
    → IsExclusive (unlock l s).1.mgr × Evolves s.mgr (unlock l s).1.mgr
unfolding unlock
unlock-kept l s x = elim (Bool-cases (state_eq s.txn.state growing)) [
  | inl e ↦ rw e (go (set_state shrinking s) x (find_granted s.mgr (requests s.mgr l) s.txn.txn_id))
  | inr e ↦ rw e (go s x (find_granted s.mgr (requests s.mgr l) s.txn.txn_id))
]
  where
    go :
        (t : Session)
        → IsExclusive t.mgr
        → (found : Option ℕ)
        → IsExclusive (unlock_found l t found).1.mgr × Evolves t.mgr (unlock_found l t found).1.mgr
    go t y none = (y, Evolves-refl t.mgr)
    go t y (some addr) = drop_request-kept l addr t.mgr y

pub release-kept :
    (c : UnlockCall) (s : Session)
    → IsExclusive s.mgr
    → IsExclusive (release c s).1.mgr × Evolves s.mgr (release c s).1.mgr
unfolding release unlock_table unlock_partition unlock_row
release-kept (of_table oid) s x = unlock-kept (table_id oid) s x
release-kept (of_partition oid p_id) s x = unlock-kept (partition_id oid p_id) s x
release-kept (of_row oid p_id r_id) s x = unlock-kept (row_id oid p_id r_id) s x

-- The table is exclusive, and each waiting thread waits for a request of one queue.
pub record IsSafe (s : System) : Type 0 where
  pub table : IsExclusive s.mgr
  pub waiters : (i p : ℕ) (w : Wait) → s.pc i ≡ waiting w p → IsRequestOf s.mgr w.l_id w.addr

pub waiter_at : (o : Outcome) (p q : ℕ) (w : Wait) → next_pc o p ≡ waiting w q → o ≡ blocked w
waiter_at (returned b) p q w h = cc
waiter_at (blocked v) p q w h = cc

after_call-IsSafe :
    (i p : ℕ) (s : System) (r : Outcome × Session)
    → IsSafe s
    → Kept s.mgr r
    → IsSafe (after_call i p s r)
after_call-IsSafe i p s (o, t) safe k = record {
  table = k.exclusive;
  waiters = λ j q w h. elim (Bool-cases (i == j)) [
    | inl e ↦ k.waiting w (waiter_at o p q w (rw e at h))
    | inr e ↦
        IsRequestOf-Evolves s.mgr t.mgr w.l_id w.addr k.evolves (safe.waiters j q w (rw e at h))
  ];
}

Step-IsSafe : {s t : System} → Step s t → IsSafe s → IsSafe t
Step-IsSafe {s} (call i p c h) safe =
    after_call-IsSafe i p s (perform c (session s p)) safe (perform-Kept c (session s p) safe.table)
Step-IsSafe {s} (notified i p w r h e) safe =
    after_call-IsSafe i p s r safe (wake-Kept w (session s p) r safe.table (safe.waiters i p w h) e)
Step-IsSafe {s} (unlocks i p c h) safe =
    let (x, e) = release-kept c (session s p) safe.table in
    record {
      table = x;
      waiters = λ j q w g.
          IsRequestOf-Evolves s.mgr (release c (session s p)).1.mgr w.l_id w.addr e
            (safe.waiters j q w g);
    }
Step-IsSafe (other p t) safe = record { table = safe.table; waiters = safe.waiters }

init-IsSafe : (no_wait : Bool) → IsSafe (init no_wait)
init-IsSafe no_wait = record {
  table = record {
    fresh = λ l a i. absurd i;
    owned = λ l j a i k. absurd i;
    exclusive = λ l a b i k ne ga gb. absurd i;
  };
  waiters = λ i p w h. cc;
}

pub Reach-IsSafe : {no_wait : Bool} {s : System} → Reach no_wait s → IsSafe s
Reach-IsSafe {no_wait} start = init-IsSafe no_wait
Reach-IsSafe (later r st) = Step-IsSafe st (Reach-IsSafe r)

-- In every state that threads reach by locking, waiting, waking up and unlocking, under No-Wait or
-- not, what two granted requests in the queue of one datum permit does not conflict. The runs are
-- those in which no call wakes up that has waited in checkSameTxnLockRequest for a request that an
-- unlock has erased meanwhile, which is undefined.
pub granted_requests_do_not_conflict :
    {no_wait : Bool} {s : System}
    → Reach no_wait s
    → (l : LockDataId) (a b : ℕ) → In a (requests s.mgr l)
    → In b (requests s.mgr l)
    → a ≢ b
    → (s.mgr.heap a).granted ≡ true
    → (s.mgr.heap b).granted ≡ true
    → conflicts (permits (s.mgr.heap a).lock_mode) (permits (s.mgr.heap b).lock_mode) ≡ false
granted_requests_do_not_conflict {s} r l a b i k ne ga gb = ground (
  arith,
  is_lock_compatible-eq-not-conflicts (s.mgr.heap a).lock_mode (s.mgr.heap b).lock_mode,
  (Reach-IsSafe r).table.exclusive l a b i k ne ga gb,
)
