-- ===== src/Lock/Attempts.antt =====
-- A lock call (src/transaction/Lock_manager.cpp) from its entry through any number of wake-ups, with
-- whatever other threads do to the lock table between them.
use ddbms.Base.{
  ℕ, ◌≡◌, refl, sym, subst, Bool, true, false, Bool-cases, inl, inr, some, some_value, not, ◌&&◌,
  arith,
}
use ddbms.Transaction.Id.{
  LockMode, LockDataId, table_id, partition_id, row_id, shared, exlucsive, mode_eq,
}
use ddbms.Transaction.{default, growing, state_eq, get_lock_set}
use ddbms.Lock.State.{LockManager, Session, set_state, is_aborted, push_request, is_linked}
use ddbms.Lock.Exclusion.{requests}
use ddbms.Lock.{
  Wait, WaitKind, after_wait_same, same_mode, upgrade, new_request, Outcome, returned, blocked,
  Checked, answer, waits, wait_predicate, wake_same, after_wait_new, wake_new, after_check,
  in_lock_set, lock_data, lock_row_data, check_same_txn_lock_request, lock_table, lock_partition,
  lock_row, when_growing, begin_growing, wake_linked, wake,
}
use ddbms.Lock.System.{LockCall, on_table, on_partition, on_row, perform}
use ddbms.Lock.Held.{IsHeld, IsAsked, wake_same-held}
use ddbms.Lock.Grants.{
  CallHeld, wake_new-held, after_check-held, datum_of, target_of, perform-IsHeld,
}

-- A call of the transaction `t`, with its outcome so far and the lock table then. A wait is resumed in
-- any later session in which the request that it waits for is still one of the transaction's, in the
-- queue and in the mode of the call.
pub data Attempt (c : LockCall) (t : ℕ) : Outcome → LockManager → Type 0 where
  enters : (s : Session) → s.txn.txn_id ≡ t → Attempt c t (perform c s).0 (perform c s).1.mgr
  wakes_up :
      {m : LockManager} (w : Wait) (s : Session) (r : Outcome × Session)
      → Attempt c t (blocked w) m
      → s.txn.txn_id ≡ t
      → IsAsked s.mgr w.l_id w.target t w.addr
      → wake w s ≡ some r
      → Attempt c t r.0 r.1.mgr

-- A wait is for the datum and the mode of the call.
abbrev Asks : LockDataId → LockMode → Outcome → Type 0
Asks l mode (returned b) = Unit
Asks l mode (blocked w) = (w.l_id ≡ l) × (w.target ≡ mode)

after_wait_new-Asks :
    (l : LockDataId) (a : ℕ) (mode : LockMode) (r : Bool × Session)
    → Asks l mode (after_wait_new l a mode r).0
unfolding after_wait_new
after_wait_new-Asks l a mode (false, s) = (refl, refl)
after_wait_new-Asks l a mode (true, s) = elim (Bool-cases (is_aborted s)) [
  | inl ab ↦ rw ab tt
  | inr fine ↦ rw fine tt
]

after_check-Asks :
    (l : LockDataId) (mode : LockMode) (r : Checked × Session)
    → Asks l mode (after_check l mode r).0
unfolding after_check wake_new
after_check-Asks l mode (answer true, s) = elim (Bool-cases (is_aborted s)) [
  | inl ab ↦ rw ab tt
  | inr fine ↦ rw fine (elim (Bool-cases (in_lock_set l (get_lock_set l.type mode s.txn.sets))) [
    | inl old ↦ rw old tt
    | inr new ↦ rw new tt
  ])
]
after_check-Asks l mode (answer false, s) =
    after_wait_new-Asks l s.mgr.next_addr mode
      (wait_predicate l s.mgr.next_addr (record s { mgr = push_request l mode s.txn.txn_id s.mgr }))
after_check-Asks l mode (waits k a, s) = (refl, refl)

lock_data-Asks :
    (l : LockDataId) (mode : LockMode) (s : Session) → Asks l mode (lock_data l mode s).0
unfolding lock_data
lock_data-Asks l mode s = after_check-Asks l mode (check_same_txn_lock_request l mode s)

when_growing-Asks :
    (l : LockDataId) (mode : LockMode) (f : Session → Outcome × Session) (s : Session)
    → ((u : Session) → Asks l mode (f u).0)
    → Asks l mode (when_growing (begin_growing s) f).0
when_growing-Asks l mode f s h = elim (Bool-cases (state_eq s.txn.state default)) [
  | inl d ↦ rw d (h (set_state growing s))
  | inr o ↦
      rw o
        (elim (Bool-cases (state_eq s.txn.state growing)) [ inl g ↦ rw g (h s) | inr n ↦ rw n tt ])
]

lock_row_data-Asks :
    (mode : LockMode) (l : LockDataId) (s : Session) → Asks l mode (lock_row_data mode l s).0
unfolding lock_row_data
lock_row_data-Asks mode l s =
    elim (Bool-cases (not (mode_eq mode shared) && not (mode_eq mode exlucsive))) [
      | inl bad ↦ rw bad tt
      | inr good ↦ rw good (lock_data-Asks l mode s)
    ]

perform-Asks : (c : LockCall) (s : Session) → Asks (datum_of c) (target_of c) (perform c s).0
unfolding perform lock_table lock_partition lock_row
perform-Asks (on_table mode oid) s =
    when_growing-Asks (table_id oid) mode (lock_data (table_id oid) mode) s
      (lock_data-Asks (table_id oid) mode)
perform-Asks (on_partition mode oid p_id) s =
    when_growing-Asks (partition_id oid p_id) mode (lock_data (partition_id oid p_id) mode) s
      (lock_data-Asks (partition_id oid p_id) mode)
perform-Asks (on_row mode oid p_id r_id) s =
    when_growing-Asks (row_id oid p_id r_id) mode (lock_row_data mode (row_id oid p_id r_id)) s
      (lock_row_data-Asks mode (row_id oid p_id r_id))

-- What a turn of a call leaves: the lock when it returns true, or a wait for it.
record IsTurn (l : LockDataId) (mode : LockMode) (t : ℕ) (o : Outcome) (m : LockManager)
    : Type 0 where
  held : o ≡ returned true → IsHeld m l mode t
  asks : Asks l mode o

IsTurn-intro :
    (l : LockDataId) (mode : LockMode) (t : ℕ) (q r : Outcome × Session)
    → CallHeld l mode t q
    → Asks l mode q.0
    → some q ≡ some r
    → IsTurn l mode t r.0 r.1.mgr
IsTurn-intro l mode t q r h a e =
    subst (λ z. IsTurn l mode t z.0 z.1.mgr) (some_value q r e) (record { held = h; asks = a })

-- The wait for a request of the same transaction does not make a new request.
wake_same-absent :
    (k : WaitKind) (l : LockDataId) (a : ℕ) (s : Session)
    → (wake_same k l a s).0 ≡ answer false
    → (wake_same k l a s).1.txn.txn_id ≡ s.txn.txn_id
unfolding wake_same after_wait_same
wake_same-absent k l a s h = ground arith

module _ (w : Wait) (s : Session) (r : Outcome × Session)
    (asked : IsAsked s.mgr w.l_id w.target s.txn.txn_id w.addr) where
  again-IsTurn :
      (kind : WaitKind)
      → wake_linked kind w s ≡ some r
      → IsTurn w.l_id w.target s.txn.txn_id r.0 r.1.mgr
  unfolding wake
  again-IsTurn kind = elim (Bool-cases (is_linked w.addr (requests s.mgr w.l_id))) [
    | inr gone ↦ rw gone (λ e. cc)
    | inl there ↦ rw there (
        IsTurn-intro w.l_id w.target s.txn.txn_id
          (after_check w.l_id w.target (wake_same kind w.l_id w.addr s)) r
          (after_check-held w.l_id w.target s.txn.txn_id (wake_same kind w.l_id w.addr s)
            (wake_same-held kind w.l_id w.target w.addr s asked)
            (wake_same-absent kind w.l_id w.addr s))
          (after_check-Asks w.l_id w.target (wake_same kind w.l_id w.addr s)))
  ]

  wake-IsTurn : wake w s ≡ some r → IsTurn w.l_id w.target s.txn.txn_id r.0 r.1.mgr
  unfolding wake
  wake-IsTurn = go w.kind
    where
      go :
          (kind : WaitKind)
          → (elim kind [
            | new_request ↦ some (wake_new w.l_id w.addr w.target s)
            | k ↦ wake_linked k w s
          ])
            ≡ some r
          → IsTurn w.l_id w.target s.txn.txn_id r.0 r.1.mgr
      go same_mode = again-IsTurn same_mode
      go upgrade = again-IsTurn upgrade
      go new_request =
          IsTurn-intro w.l_id w.target s.txn.txn_id (wake_new w.l_id w.addr w.target s) r
            (wake_new-held w.l_id w.target s.txn.txn_id w.addr s asked)
            (after_wait_new-Asks w.l_id w.addr w.target (wait_predicate w.l_id w.addr s))

Attempt-IsTurn :
    {c : LockCall} {t : ℕ} {o : Outcome} {m : LockManager}
    → Attempt c t o m
    → IsTurn (datum_of c) (target_of c) t o m
Attempt-IsTurn {c} {t} (enters s e) = record {
  held = subst (λ u. CallHeld (datum_of c) (target_of c) u (perform c s)) e (perform-IsHeld c s);
  asks = perform-Asks c s;
}
Attempt-IsTurn {c} {t} (wakes_up w s r before e asked woken) =
    let (of_datum, in_mode) = (Attempt-IsTurn before).asks in
    subst (λ u. IsTurn (datum_of c) (target_of c) u r.0 r.1.mgr) e
      (subst (λ l. IsTurn l (target_of c) s.txn.txn_id r.0 r.1.mgr) of_datum
        (subst (λ mode. IsTurn w.l_id mode s.txn.txn_id r.0 r.1.mgr) in_mode
          (wake-IsTurn w s r (subst (λ u. IsAsked s.mgr w.l_id w.target u w.addr) (sym e) asked)
            woken)))

-- When a lock call of a transaction returns true, at once or after any number of wake-ups, the queue
-- of its datum holds a granted request of the transaction in the mode that it asked for. A wake-up
-- counts when the request that the call waits for is then still the transaction's, in the queue and
-- in that mode; another thread of the transaction may otherwise have released or upgraded it.
pub lock_success_holds :
    {c : LockCall} {t : ℕ} {m : LockManager}
    → Attempt c t (returned true) m
    → IsHeld m (datum_of c) (target_of c) t
lock_success_holds a = (Attempt-IsTurn a).held refl
