-- ===== src/Lock/Turns.antt =====
-- A turn of a lock call of src/transaction/Lock_manager.cpp leaves the requests of others in their
-- queues, and waits for a request of its own transaction.
use ddbms.Base.{
  ℕ, ◌≡◌, refl, sym, subst, ◌∙◌, Bool, true, false, Bool-cases, inl, inr, Option, none, some, arith,
  if◌then◌else◌,
}
use ddbms.Transaction.Id.{LockMode, LockDataId, table_id, partition_id, row_id}
use ddbms.Transaction.{default, growing, aborted, state_eq}
use ddbms.Lock.State.{
  LockManager, Session, set_state, is_aborted, grant, start_upgrade, push_request, find_request,
}
use ddbms.Lock.Queue.{In-find_request}
use ddbms.Lock.Exclusion.{requests, IsExclusive}
use ddbms.Lock.Held.{wait_predicate_same}
use ddbms.Lock.{
  Wait, WaitKind, same_mode, upgrade, new_request, Outcome, returned, blocked, Checked, answer,
  waits, wait_predicate, granted_again, after_wait_same, wake_same, check_same_request, check_found,
  check_same_txn_lock_request, after_wait_new, wake_new, after_check, lock_data, lock_row_data,
  lock_table, lock_partition, lock_row, when_growing, begin_growing,
}
use ddbms.Lock.System.{LockCall, on_table, on_partition, on_row, perform}
use ddbms.Lock.Calls.{check_same_txn_lock_request-kept}
use ddbms.Lock.Owner.{
  IsOwned, Keeps, Keeps-refl, Keeps-trans, grant-Keeps, start_upgrade-Keeps, push_request-Keeps,
  push_request-IsOwned, granted_again-Keeps, IsOwned-Keeps,
}

-- What a turn of a call of the transaction `t` leaves: a wait is for a request of its own.
pub record Turned (m : LockManager) (t : ℕ) (r : Outcome × Session) : Type 0 where
  pub keeps : Keeps m r.1.mgr
  pub same : r.1.txn.txn_id ≡ t
  pub asked : (w : Wait) → r.0 ≡ blocked w → IsOwned r.1.mgr w.l_id t w.addr

pub record CheckedTurned (m : LockManager) (l : LockDataId) (t : ℕ) (r : Checked × Session)
    : Type 0 where
  pub keeps : Keeps m r.1.mgr
  pub same : r.1.txn.txn_id ≡ t
  pub asked : (k : WaitKind) (a : ℕ) → r.0 ≡ waits k a → IsOwned r.1.mgr l t a

Turned-returned :
    (b : Bool) (m : LockManager) (t : ℕ) (s : Session)
    → Keeps m s.mgr
    → s.txn.txn_id ≡ t
    → Turned m t (returned b, s)
Turned-returned b m t s k e = record { keeps = k; same = e; asked = λ w h. cc }

Checked-answer :
    (b : Bool) (m : LockManager) (l : LockDataId) (t : ℕ) (s : Session)
    → Keeps m s.mgr
    → s.txn.txn_id ≡ t
    → CheckedTurned m l t (answer b, s)
Checked-answer b m l t s k e = record { keeps = k; same = e; asked = λ w a h. cc }

Turned-blocked :
    (w : Wait) (m : LockManager) (t : ℕ) (s : Session)
    → Keeps m s.mgr
    → s.txn.txn_id ≡ t
    → IsOwned s.mgr w.l_id t w.addr
    → Turned m t (blocked w, s)
Turned-blocked w m t s k e h = record {
  keeps = k;
  same = e;
  asked = λ v q. let p : w ≡ v = cc in subst (λ u. IsOwned s.mgr u.l_id t u.addr) p h;
}

Turned-if :
    (b : Bool) (m : LockManager) (t : ℕ) (r u : Outcome × Session)
    → Turned m t r
    → Turned m t u
    → Turned m t (if b then r else u)
Turned-if true m t r u h k = h
Turned-if false m t r u h k = k

Checked-if :
    (b : Bool) (m : LockManager) (l : LockDataId) (t : ℕ) (r u : Checked × Session)
    → CheckedTurned m l t r
    → CheckedTurned m l t u
    → CheckedTurned m l t (if b then r else u)
Checked-if true m l t r u h k = h
Checked-if false m l t r u h k = k

-- The session of a wait: the same lock table and transaction, whose state may have changed.
record Same (m : LockManager) (t : ℕ) (s : Session) : Type 0 where
  mgr : s.mgr ≡ m
  txn : s.txn.txn_id ≡ t

module _ (m n : LockManager) (k : Keeps m n) (l : LockDataId) (t a : ℕ) (h : IsOwned n l t a) where
  after_wait_same-Turned :
      (kind : WaitKind) (r : Bool × Session)
      → Same n t r.1
      → CheckedTurned m l t (after_wait_same kind l a r)
  unfolding after_wait_same
  after_wait_same-Turned kind (false, s) e = record {
    keeps = subst (Keeps m) (sym e.mgr) k;
    same = e.txn;
    asked = λ j b q.
        let p : a ≡ b = ground arith in
        subst (λ u. IsOwned s.mgr l t u) p (subst (λ u. IsOwned u l t a) (sym e.mgr) h);
  }
  after_wait_same-Turned kind (true, s) e = elim (Bool-cases (is_aborted s)) [
    | inl ab ↦
        rw ab
          (Checked-answer true m l t (set_state aborted s) (subst (Keeps m) (sym e.mgr) k) e.txn)
    | inr fine ↦ rw fine (
        Checked-answer true m l t (record s { mgr = granted_again kind l a s.mgr })
          (Keeps-trans m s.mgr (granted_again kind l a s.mgr) (subst (Keeps m) (sym e.mgr) k)
            (granted_again-Keeps kind l a s.mgr))
          e.txn)
  ]

  after_wait_new-Turned :
      (mode : LockMode) (r : Bool × Session) → Same n t r.1 → Turned m t (after_wait_new l a mode r)
  unfolding after_wait_new
  after_wait_new-Turned mode (false, s) e =
      Turned-blocked (record { l_id = l; addr = a; kind = new_request; target = mode }) m t s
        (subst (Keeps m) (sym e.mgr) k) e.txn (subst (λ u. IsOwned u l t a) (sym e.mgr) h)
  after_wait_new-Turned mode (true, s) e = elim (Bool-cases (is_aborted s)) [
    | inl ab ↦
        rw ab
          (Turned-returned false m t (set_state aborted s) (subst (Keeps m) (sym e.mgr) k) e.txn)
    | inr fine ↦ rw fine (
        Turned-returned true m t _
          (Keeps-trans m s.mgr (grant a s.mgr) (subst (Keeps m) (sym e.mgr) k)
            (grant-Keeps a s.mgr))
          e.txn)
  ]

wait_predicate-Same :
    (l : LockDataId) (a t : ℕ) (s : Session)
    → s.txn.txn_id ≡ t
    → Same s.mgr t (wait_predicate l a s).1
wait_predicate-Same l a t s e =
    let (p, q) = wait_predicate_same l a s in record { mgr = p; txn = q ∙ e }

pub wake_same-Turned :
    (m : LockManager) (kind : WaitKind) (l : LockDataId) (t a : ℕ) (s : Session)
    → Keeps m s.mgr
    → s.txn.txn_id ≡ t
    → IsOwned s.mgr l t a
    → CheckedTurned m l t (wake_same kind l a s)
unfolding wake_same
wake_same-Turned m kind l t a s k e h =
    after_wait_same-Turned m s.mgr k l t a h kind (wait_predicate l a s)
      (wait_predicate-Same l a t s e)

pub wake_new-Turned :
    (m : LockManager) (l : LockDataId) (mode : LockMode) (t a : ℕ) (s : Session)
    → Keeps m s.mgr
    → s.txn.txn_id ≡ t
    → IsOwned s.mgr l t a
    → Turned m t (wake_new l a mode s)
unfolding wake_new
wake_new-Turned m l mode t a s k e h =
    after_wait_new-Turned m s.mgr k l t a h mode (wait_predicate l a s)
      (wait_predicate-Same l a t s e)

check_same_request-Turned :
    (l : LockDataId) (target : LockMode) (t iter : ℕ) (s : Session)
    → s.txn.txn_id ≡ t
    → IsOwned s.mgr l t iter
    → CheckedTurned s.mgr l t (check_same_request l target iter s)
unfolding check_same_request
check_same_request-Turned l target t iter s e h =
    Checked-if _ s.mgr l t _ _ (Checked-answer true s.mgr l t s (Keeps-refl s.mgr) e) (
      Checked-if _ s.mgr l t _ _
        (wake_same-Turned s.mgr same_mode l t iter s (Keeps-refl s.mgr) e h)
        (Checked-if _ s.mgr l t _ _ refused (Checked-if _ s.mgr l t _ _ refused upgraded)))
  where
    refused : CheckedTurned s.mgr l t (answer true, set_state aborted s)
    refused = Checked-answer true s.mgr l t (set_state aborted s) (Keeps-refl s.mgr) e

    upgraded :
        CheckedTurned s.mgr l t
          (wake_same upgrade l iter (record s { mgr = start_upgrade l iter target s.mgr }))
    upgraded =
        let n = start_upgrade l iter target s.mgr in
        wake_same-Turned s.mgr upgrade l t iter (record s { mgr = n })
          (start_upgrade-Keeps l iter target s.mgr) e
          (IsOwned-Keeps s.mgr n l t iter (start_upgrade-Keeps l iter target s.mgr) h)

check_found-Turned :
    (l : LockDataId) (target : LockMode) (s : Session) (found : Option ℕ)
    → find_request s.mgr (requests s.mgr l) s.txn.txn_id ≡ found
    → CheckedTurned s.mgr l s.txn.txn_id (check_found l target s found)
unfolding check_found
check_found-Turned l target s none e =
    Checked-answer false s.mgr l s.txn.txn_id s (Keeps-refl s.mgr) refl
check_found-Turned l target s (some iter) e =
    let (i, o) = In-find_request s.mgr (requests s.mgr l) s.txn.txn_id iter e in
    check_same_request-Turned l target s.txn.txn_id iter s refl (record { queued = i; owner = o })

-- The tables behind a check are exclusive, so that a new request has a new address.
pub after_check-Turned :
    (m : LockManager) (l : LockDataId) (mode : LockMode) (t : ℕ) (r : Checked × Session)
    → IsExclusive r.1.mgr
    → CheckedTurned m l t r
    → Turned m t (after_check l mode r)
unfolding after_check
after_check-Turned m l mode t (answer true, s) x k =
    Turned-if _ m t _ _ (Turned-returned false m t s k.keeps k.same) (
      Turned-if _ m t _ _ (Turned-returned true m t _ k.keeps k.same)
        (Turned-returned true m t s k.keeps k.same))
after_check-Turned m l mode t (answer false, s) x k =
    let n = push_request l mode s.txn.txn_id s.mgr in
    wake_new-Turned m l mode t s.mgr.next_addr (record s { mgr = n })
      (Keeps-trans m s.mgr n k.keeps (push_request-Keeps l mode s.txn.txn_id s.mgr x)) k.same
      (subst (λ u. IsOwned n l u s.mgr.next_addr) k.same
        (push_request-IsOwned l mode s.txn.txn_id s.mgr x))
after_check-Turned m l mode t (waits kind a, s) x k =
    Turned-blocked (record { l_id = l; addr = a; kind = kind; target = mode }) m t s k.keeps k.same
      (k.asked kind a refl)

lock_data-Turned :
    (l : LockDataId) (mode : LockMode) (s : Session)
    → IsExclusive s.mgr
    → Turned s.mgr s.txn.txn_id (lock_data l mode s)
unfolding lock_data check_same_txn_lock_request
lock_data-Turned l mode s x =
    after_check-Turned s.mgr l mode s.txn.txn_id (check_same_txn_lock_request l mode s)
      (check_same_txn_lock_request-kept l mode s x).exclusive
      (check_found-Turned l mode s (find_request s.mgr (requests s.mgr l) s.txn.txn_id) refl)

when_growing-Turned :
    (t : ℕ) (m : LockManager) (f : Session → Outcome × Session) (s : Session)
    → s.txn.txn_id ≡ t
    → s.mgr ≡ m
    → ((u : Session) → u.txn.txn_id ≡ t → u.mgr ≡ m → Turned m t (f u))
    → Turned m t (when_growing (begin_growing s) f)
when_growing-Turned t m f s e q h = elim (Bool-cases (state_eq s.txn.state default)) [
  | inl d ↦ rw d (h (set_state growing s) e q)
  | inr o ↦ rw o (elim (Bool-cases (state_eq s.txn.state growing)) [
    | inl g ↦ rw g (h s e q)
    | inr n ↦
        rw n (
          Turned-returned false m t (set_state aborted s) (subst (Keeps m) (sym q) (Keeps-refl m))
            e)
  ])
]

lock_row_data-Turned :
    (mode : LockMode) (l : LockDataId) (s : Session)
    → IsExclusive s.mgr
    → Turned s.mgr s.txn.txn_id (lock_row_data mode l s)
unfolding lock_row_data
lock_row_data-Turned mode l s x =
    Turned-if _ s.mgr s.txn.txn_id _ _
      (Turned-returned false s.mgr s.txn.txn_id (set_state aborted s) (Keeps-refl s.mgr) refl)
      (lock_data-Turned l mode s x)

moved :
    (f : Session → Outcome × Session) (m : LockManager) (t : ℕ)
    → IsExclusive m
    → ((u : Session) → IsExclusive u.mgr → Turned u.mgr u.txn.txn_id (f u))
    → (u : Session) → u.txn.txn_id ≡ t
    → u.mgr ≡ m
    → Turned m t (f u)
moved f m t x h u e q =
    subst (λ n. Turned n t (f u)) q
      (subst (λ i. Turned u.mgr i (f u)) e (h u (subst IsExclusive (sym q) x)))

pub perform-Turned :
    (c : LockCall) (s : Session) → IsExclusive s.mgr → Turned s.mgr s.txn.txn_id (perform c s)
unfolding perform lock_table lock_partition lock_row
perform-Turned (on_table mode oid) s x =
    when_growing-Turned s.txn.txn_id s.mgr (lock_data (table_id oid) mode) s refl refl (
      moved (lock_data (table_id oid) mode) s.mgr s.txn.txn_id x
        (lock_data-Turned (table_id oid) mode))
perform-Turned (on_partition mode oid p_id) s x =
    when_growing-Turned s.txn.txn_id s.mgr (lock_data (partition_id oid p_id) mode) s refl refl (
      moved (lock_data (partition_id oid p_id) mode) s.mgr s.txn.txn_id x
        (lock_data-Turned (partition_id oid p_id) mode))
perform-Turned (on_row mode oid p_id r_id) s x =
    when_growing-Turned s.txn.txn_id s.mgr (lock_row_data mode (row_id oid p_id r_id)) s refl refl (
      moved (lock_row_data mode (row_id oid p_id r_id)) s.mgr s.txn.txn_id x
        (lock_row_data-Turned mode (row_id oid p_id r_id)))
