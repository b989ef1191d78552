-- ===== src/Lock/Grants.antt =====
-- A turn of a lock call that succeeds leaves a granted request of its transaction in the target mode.
use ddbms.Base.{
  ℕ, In-last, ◌≡◌, refl, sym, subst, Bool, true, false, arith, Bool-cases, inl, inr, Option, none,
  some, [], ◌∷◌, ◌++◌, In, not, ◌&&◌,
}
use ddbms.Transaction.Id.{
  LockMode, LockDataId, table_id, partition_id, row_id, shared, exlucsive, mode_eq,
}
use ddbms.Transaction.{default, growing, state_eq, get_lock_set}
use ddbms.Transaction.Sets.{lock_data_id_eq_refl}
use ddbms.Lock.State.{LockManager, Session, set_state, is_aborted, find_request, push_request}
use ddbms.Lock.Exclusion.{requests}
use ddbms.Lock.{
  Outcome, returned, Checked, answer, waits, wait_predicate, after_wait_same, wake_same,
  check_same_request, check_found, check_same_txn_lock_request, after_wait_new, wake_new,
  after_check, in_lock_set, lock_data, lock_row_data, lock_table, lock_partition, lock_row,
  when_growing, begin_growing,
}
use ddbms.Lock.System.{LockCall, on_table, on_partition, on_row, perform}
use ddbms.Lock.Held.{
  IsHeld, IsAsked, grant-IsHeld, CheckedHeld, wait_predicate_same, check_found-held,
}

-- Success of a lock call.
abbrev pub CallHeld : LockDataId → LockMode → ℕ → Outcome × Session → Type 0
CallHeld l mode t r = r.0 ≡ returned true → IsHeld r.1.mgr l mode t

requests-push_request :
    (l : LockDataId) (mode : LockMode) (t : ℕ) (m : LockManager)
    → requests m l ++ m.next_addr ∷ [] ≡ requests (push_request l mode t m) l
requests-push_request l mode t m = ground (arith, lock_data_id_eq_refl l)

push_request-IsAsked :
    (l : LockDataId) (mode : LockMode) (t : ℕ) (m : LockManager)
    → IsAsked (push_request l mode t m) l mode t m.next_addr
push_request-IsAsked l mode t m = record {
  queued =
      subst (In m.next_addr) (requests-push_request l mode t m)
        (In-last m.next_addr (requests m l));
  owner = ground arith;
  in_mode = ground arith;
}

after_wait_new-held :
    (l : LockDataId) (mode : LockMode) (t a : ℕ) (r : Bool × Session)
    → IsAsked r.1.mgr l mode t a
    → CallHeld l mode t (after_wait_new l a mode r)
unfolding after_wait_new
after_wait_new-held l mode t a (false, s) h = λ p. cc
after_wait_new-held l mode t a (true, s) h = elim (Bool-cases (is_aborted s)) [
  | inl ab ↦ rw ab (λ p. cc)
  | inr fine ↦ rw fine (λ p. grant-IsHeld s.mgr l mode t a h)
]

pub wake_new-held :
    (l : LockDataId) (mode : LockMode) (t a : ℕ) (s : Session)
    → IsAsked s.mgr l mode t a
    → CallHeld l mode t (wake_new l a mode s)
unfolding wake_new
wake_new-held l mode t a s h =
    after_wait_new-held l mode t a (wait_predicate l a s)
      (subst (λ m. IsAsked m l mode t a) (sym (wait_predicate_same l a s).0) h)

pub after_check-held :
    (l : LockDataId) (mode : LockMode) (t : ℕ) (r : Checked × Session)
    → CheckedHeld l mode t r
    → (r.0 ≡ answer false → r.1.txn.txn_id ≡ t)
    → CallHeld l mode t (after_check l mode r)
unfolding after_check
after_check-held l mode t (answer true, s) h e = elim (Bool-cases (is_aborted s)) [
  | inl ab ↦ rw ab (λ p. cc)
  | inr fine ↦ rw fine (elim (Bool-cases (in_lock_set l (get_lock_set l.type mode s.txn.sets))) [
    | inl old ↦ rw old (λ p. (h refl fine).0)
    | inr new ↦ rw new (λ p. (h refl fine).0)
  ])
]
after_check-held l mode t (answer false, s) h e =
    wake_new-held l mode t s.mgr.next_addr
      (record s { mgr = push_request l mode s.txn.txn_id s.mgr })
      (subst (λ u. IsAsked (push_request l mode s.txn.txn_id s.mgr) l mode u s.mgr.next_addr)
        (e refl) (push_request-IsAsked l mode s.txn.txn_id s.mgr))
after_check-held l mode t (waits k a, s) h e = λ p. cc

check_found-absent :
    (l : LockDataId) (target : LockMode) (s : Session) (found : Option ℕ)
    → (check_found l target s found).0 ≡ answer false
    → (check_found l target s found).1.txn.txn_id ≡ s.txn.txn_id
unfolding check_same_request wake_same after_wait_same
check_found-absent l target s none h = refl
check_found-absent l target s (some iter) h = ground arith

lock_data-held :
    (l : LockDataId) (mode : LockMode) (s : Session)
    → CallHeld l mode s.txn.txn_id (lock_data l mode s)
unfolding lock_data check_same_txn_lock_request
lock_data-held l mode s =
    let found = find_request s.mgr (requests s.mgr l) s.txn.txn_id in
    after_check-held l mode s.txn.txn_id (check_found l mode s found)
      (check_found-held l mode s found refl) (check_found-absent l mode s found)

when_growing-held :
    (l : LockDataId) (mode : LockMode) (f : Session → Outcome × Session) (s : Session)
    → ((u : Session) → CallHeld l mode u.txn.txn_id (f u))
    → CallHeld l mode s.txn.txn_id (when_growing (begin_growing s) f)
when_growing-held l mode f s h = elim (Bool-cases (state_eq s.txn.state default)) [
  | inl d ↦ rw d (h (set_state growing s))
  | inr o ↦ rw o (elim (Bool-cases (state_eq s.txn.state growing)) [
    | inl g ↦ rw g (h s)
    | inr n ↦ rw n (λ p. cc)
  ])
]

lock_row_data-held :
    (mode : LockMode) (l : LockDataId) (s : Session)
    → CallHeld l mode s.txn.txn_id (lock_row_data mode l s)
unfolding lock_row_data
lock_row_data-held mode l s =
    elim (Bool-cases (not (mode_eq mode shared) && not (mode_eq mode exlucsive))) [
      | inl bad ↦ rw bad (λ p. cc)
      | inr good ↦ rw good (lock_data-held l mode s)
    ]

abbrev pub target_of : LockCall → LockMode
target_of (on_table mode oid) = mode
target_of (on_partition mode oid p_id) = mode
target_of (on_row mode oid p_id r_id) = mode

abbrev pub datum_of : LockCall → LockDataId
datum_of (on_table mode oid) = table_id oid
datum_of (on_partition mode oid p_id) = partition_id oid p_id
datum_of (on_row mode oid p_id r_id) = row_id oid p_id r_id

-- The first turn, up to the return or the wait.
pub perform-IsHeld :
    (c : LockCall) (s : Session)
    → (perform c s).0 ≡ returned true
    → IsHeld (perform c s).1.mgr (datum_of c) (target_of c) s.txn.txn_id
unfolding perform lock_table lock_partition lock_row
perform-IsHeld (on_table mode oid) s =
    when_growing-held (table_id oid) mode (lock_data (table_id oid) mode) s
      (lock_data-held (table_id oid) mode)
perform-IsHeld (on_partition mode oid p_id) s =
    when_growing-held (partition_id oid p_id) mode (lock_data (partition_id oid p_id) mode) s
      (lock_data-held (partition_id oid p_id) mode)
perform-IsHeld (on_row mode oid p_id r_id) s =
    when_growing-held (row_id oid p_id r_id) mode (lock_row_data mode (row_id oid p_id r_id)) s
      (lock_row_data-held mode (row_id oid p_id r_id))
