-- ===== src/Lock/NoWait.antt =====
-- Under No-Wait (`enable_no_wait_`) no call waits, so there is no deadlock.
use ddbms.Base.{ℕ, ◌≡◌, ◌≢◌, ◌∙◌, refl, Bool, true, false, arith, Option, none, some}
use ddbms.Transaction.Id.{LockMode, LockDataId, table_id, partition_id, row_id}
use ddbms.Transaction.{growing}
use ddbms.Lock.State.{Session, set_state, find_request, start_upgrade, push_request}
use ddbms.Lock.{
  Wait, WaitKind, same_mode, upgrade, Outcome, blocked, Checked, answer, waits, wait_predicate,
  after_wait_same, wake_same, check_same_request, check_found, check_same_txn_lock_request,
  after_wait_new, wake_new, after_check, lock_data, lock_row_data, lock_table, lock_partition,
  lock_row, when_growing, begin_growing,
}
use ddbms.Lock.System.{LockCall, on_table, on_partition, on_row, perform}

abbrev Prompt : Outcome × Session → Type 0
Prompt r = (w : Wait) → r.0 ≢ blocked w

abbrev CheckedPrompt : Checked × Session → Type 0
CheckedPrompt r = (k : WaitKind) (a : ℕ) → r.0 ≢ waits k a

wait_predicate_ready :
    (l : LockDataId) (a : ℕ) (s : Session)
    → s.mgr.enable_no_wait ≡ true
    → (wait_predicate l a s).0 ≡ true
unfolding wait_predicate
wait_predicate_ready l a s h = ground arith

after_wait_same-prompt :
    (k : WaitKind) (l : LockDataId) (a : ℕ) (r : Bool × Session)
    → r.0 ≡ true
    → CheckedPrompt (after_wait_same k l a r)
unfolding after_wait_same
after_wait_same-prompt k l a (ready, s) h j b = ground arith

after_wait_new-Prompt :
    (l : LockDataId) (a : ℕ) (mode : LockMode) (r : Bool × Session)
    → r.0 ≡ true
    → Prompt (after_wait_new l a mode r)
unfolding after_wait_new
after_wait_new-Prompt l a mode (ready, s) h w = ground arith

wake_same-prompt :
    (k : WaitKind) (l : LockDataId) (a : ℕ) (s : Session)
    → s.mgr.enable_no_wait ≡ true
    → CheckedPrompt (wake_same k l a s)
unfolding wake_same
wake_same-prompt k l a s h = after_wait_same-prompt k l a _ (wait_predicate_ready l a s h)

wake_new-Prompt :
    (l : LockDataId) (a : ℕ) (mode : LockMode) (s : Session)
    → s.mgr.enable_no_wait ≡ true
    → Prompt (wake_new l a mode s)
unfolding wake_new
wake_new-Prompt l a mode s h = after_wait_new-Prompt l a mode _ (wait_predicate_ready l a s h)

check_same_request-prompt :
    (l : LockDataId) (target : LockMode) (iter : ℕ) (s : Session)
    → s.mgr.enable_no_wait ≡ true
    → CheckedPrompt (check_same_request l target iter s)
unfolding check_same_request
check_same_request-prompt l target iter s h k a = ground (
  arith,
  wake_same-prompt same_mode l iter s h k a,
  wake_same-prompt upgrade l iter (record s { mgr = start_upgrade l iter target s.mgr }) h k a,
)

-- The check for a request of the same transaction, with the manager that it leaves.
check_found-prompt :
    (l : LockDataId) (target : LockMode) (s : Session) (found : Option ℕ)
    → s.mgr.enable_no_wait ≡ true
    → CheckedPrompt (check_found l target s found)
unfolding check_same_request
check_found-prompt l target s none h k a = λ e. ground arith
check_found-prompt l target s (some iter) h k a = check_same_request-prompt l target iter s h k a

wait_predicate-no_wait :
    (l : LockDataId) (a : ℕ) (s : Session)
    → (wait_predicate l a s).1.mgr.enable_no_wait ≡ s.mgr.enable_no_wait
unfolding wait_predicate
wait_predicate-no_wait l a s = ground arith

after_wait_same-no_wait :
    (k : WaitKind) (l : LockDataId) (a : ℕ) (r : Bool × Session)
    → (after_wait_same k l a r).1.mgr.enable_no_wait ≡ r.1.mgr.enable_no_wait
unfolding after_wait_same
after_wait_same-no_wait upgrade l a (ready, s) = ground arith
after_wait_same-no_wait k l a (ready, s) = ground arith

wake_same-no_wait :
    (k : WaitKind) (l : LockDataId) (a : ℕ) (s : Session)
    → (wake_same k l a s).1.mgr.enable_no_wait ≡ s.mgr.enable_no_wait
unfolding wake_same
wake_same-no_wait k l a s =
    ground
      (arith, after_wait_same-no_wait k l a (wait_predicate l a s), wait_predicate-no_wait l a s)

check_found-no_wait :
    (l : LockDataId) (target : LockMode) (s : Session) (found : Option ℕ)
    → (check_found l target s found).1.mgr.enable_no_wait ≡ s.mgr.enable_no_wait
unfolding check_same_request
check_found-no_wait l target s none = refl
check_found-no_wait l target s (some iter) = ground (
  arith,
  wake_same-no_wait same_mode l iter s,
  wake_same-no_wait upgrade l iter (record s { mgr = start_upgrade l iter target s.mgr }),
)

after_check-Prompt :
    (l : LockDataId) (mode : LockMode) (r : Checked × Session)
    → r.1.mgr.enable_no_wait ≡ true
    → CheckedPrompt r
    → Prompt (after_check l mode r)
unfolding after_check
after_check-Prompt l mode (answer true, s) h p w = ground arith
after_check-Prompt l mode (answer false, s) h p w =
    wake_new-Prompt l s.mgr.next_addr mode
      (record s { mgr = push_request l mode s.txn.txn_id s.mgr }) h w
after_check-Prompt l mode (waits k a, s) h p w = absurd (p k a refl)

lock_data-Prompt :
    (l : LockDataId) (mode : LockMode) (s : Session)
    → s.mgr.enable_no_wait ≡ true
    → Prompt (lock_data l mode s)
unfolding lock_data check_same_txn_lock_request
lock_data-Prompt l mode s h =
    let found = find_request s.mgr (s.mgr.lock_map l).request_queue s.txn.txn_id in
    after_check-Prompt l mode (check_found l mode s found) (check_found-no_wait l mode s found ∙ h)
      (check_found-prompt l mode s found h)

when_growing-Prompt :
    (f : Session → Outcome × Session)
    → ((t : Session) → t.mgr.enable_no_wait ≡ true → Prompt (f t))
    → (s : Session) → s.mgr.enable_no_wait ≡ true
    → Prompt (when_growing (begin_growing s) f)
when_growing-Prompt f k s h w = ground (arith, k (set_state growing s) h w, k s h w)

lock_row_data-Prompt :
    (mode : LockMode) (l : LockDataId) (s : Session)
    → s.mgr.enable_no_wait ≡ true
    → Prompt (lock_row_data mode l s)
unfolding lock_row_data
lock_row_data-Prompt mode l s h w = ground (arith, lock_data-Prompt l mode s h w)

-- While `enable_no_wait_` is set, no call to lock a table, a partition or a row waits, in any state
-- of the lock table and of the transaction: it returns true or false at once.
pub no_wait_never_blocks :
    (c : LockCall) (s : Session) (w : Wait)
    → s.mgr.enable_no_wait ≡ true
    → (perform c s).0 ≢ blocked w
unfolding perform lock_table lock_partition lock_row
no_wait_never_blocks (on_table mode oid) s w h =
    when_growing-Prompt (lock_data (table_id oid) mode) (lock_data-Prompt (table_id oid) mode) s h w
no_wait_never_blocks (on_partition mode oid p_id) s w h =
    when_growing-Prompt (lock_data (partition_id oid p_id) mode)
      (lock_data-Prompt (partition_id oid p_id) mode) s h w
no_wait_never_blocks (on_row mode oid p_id r_id) s w h =
    when_growing-Prompt (lock_row_data mode (row_id oid p_id r_id))
      (lock_row_data-Prompt mode (row_id oid p_id r_id)) s h w
