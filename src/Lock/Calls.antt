-- ===== src/Lock/Calls.antt =====
-- Each call of the lock manager, up to its return or its wait, keeps `IsExclusive`.
use ddbms.Base.{
  ℕ, ◌≡◌, refl, subst, Bool, true, false, Bool-cases, inl, inr, Option, none, some, some_value,
  if◌then◌else◌,
}
use ddbms.Transaction.{aborted}
use ddbms.Transaction.Id.{LockDataId, LockMode}
use ddbms.Lock.State.{
  LockManager, Session, start_upgrade, push_request, set_state, find_request, is_linked,
}
use ddbms.Lock.Queue.{In-find_request}
use ddbms.Lock.Exclusion.{
  requests, IsExclusive, IsRequestOf, Evolves, Evolves-refl, Evolves-trans, IsRequestOf-Evolves,
  IsRequestOf-In, start_upgrade-kept,
}
use ddbms.Lock.{
  Wait, WaitKind, same_mode, upgrade, new_request, Outcome, Checked, answer, waits, wait_predicate,
  wake_same, check_same_request, check_found, check_same_txn_lock_request, wake_new, after_check,
  lock_data, wake, wake_linked,
}
use ddbms.Lock.Waits.{
  push_request-kept, Kept, CheckedKept, Kept-returned, Kept-blocked, CheckedKept-answer, waited,
  after_wait_same-kept, after_wait_new-Kept,
}

module _ (l : LockDataId) (s : Session) (x : IsExclusive s.mgr) where
  pub wake_same-kept :
      (kind : WaitKind) (a : ℕ) → IsRequestOf s.mgr l a → CheckedKept s.mgr l (wake_same kind l a s)
  unfolding wake_same
  wake_same-kept kind a home =
      after_wait_same-kept s.mgr x l a home kind (wait_predicate l a s) (waited l a s)

  wake_new-Kept :
      (mode : LockMode) (a : ℕ) → IsRequestOf s.mgr l a → Kept s.mgr (wake_new l a mode s)
  unfolding wake_new
  wake_new-Kept mode a home =
      after_wait_new-Kept s.mgr x l a home mode (wait_predicate l a s) (waited l a s)

CheckedKept-trans :
    (m n : LockManager) (l : LockDataId) (r : Checked × Session)
    → Evolves m n
    → CheckedKept n l r
    → CheckedKept m l r
CheckedKept-trans m n l r e k = record {
  exclusive = k.exclusive;
  evolves = Evolves-trans m n r.1.mgr e k.evolves;
  waiting = k.waiting;
}

Kept-trans : (m n : LockManager) (r : Outcome × Session) → Evolves m n → Kept n r → Kept m r
Kept-trans m n r e k = record {
  exclusive = k.exclusive;
  evolves = Evolves-trans m n r.1.mgr e k.evolves;
  waiting = k.waiting;
}

CheckedKept-if :
    (b : Bool) (m : LockManager) (l : LockDataId) (r t : Checked × Session)
    → CheckedKept m l r
    → CheckedKept m l t
    → CheckedKept m l (if b then r else t)
CheckedKept-if true m l r t k j = k
CheckedKept-if false m l r t k j = j

pub Kept-if :
    (b : Bool) (m : LockManager) (r t : Outcome × Session)
    → Kept m r
    → Kept m t
    → Kept m (if b then r else t)
Kept-if true m r t k j = k
Kept-if false m r t k j = j

upgrade-kept :
    (l : LockDataId) (target : LockMode) (iter : ℕ) (s : Session)
    → IsExclusive s.mgr
    → IsRequestOf s.mgr l iter
    → CheckedKept s.mgr l
        (wake_same upgrade l iter (record s { mgr = start_upgrade l iter target s.mgr }))
upgrade-kept l target iter s x home =
    let (y, e) = start_upgrade-kept l iter target s.mgr x in
    CheckedKept-trans s.mgr (start_upgrade l iter target s.mgr) l _ e (
      wake_same-kept l (record s { mgr = start_upgrade l iter target s.mgr }) y upgrade iter
        (IsRequestOf-Evolves s.mgr (start_upgrade l iter target s.mgr) l iter e home))

check_same_request-kept :
    (l : LockDataId) (target : LockMode) (iter : ℕ) (s : Session)
    → IsExclusive s.mgr
    → IsRequestOf s.mgr l iter
    → CheckedKept s.mgr l (check_same_request l target iter s)
unfolding check_same_request
check_same_request-kept l target iter s x home =
    CheckedKept-if _ s.mgr l _ _ (CheckedKept-answer true s.mgr l s x (Evolves-refl s.mgr)) (
      CheckedKept-if _ s.mgr l _ _ (wake_same-kept l s x same_mode iter home) (
        CheckedKept-if _ s.mgr l _ _ refused
          (CheckedKept-if _ s.mgr l _ _ refused (upgrade-kept l target iter s x home))))
  where
    refused : CheckedKept s.mgr l (answer true, set_state aborted s)
    refused = CheckedKept-answer true s.mgr l (set_state aborted s) x (Evolves-refl s.mgr)

pub check_same_txn_lock_request-kept :
    (l : LockDataId) (target : LockMode) (s : Session)
    → IsExclusive s.mgr
    → CheckedKept s.mgr l (check_same_txn_lock_request l target s)
unfolding check_same_txn_lock_request
check_same_txn_lock_request-kept l target s x =
    go (find_request s.mgr (requests s.mgr l) s.txn.txn_id) refl
  where
    go :
        (found : Option ℕ)
        → find_request s.mgr (requests s.mgr l) s.txn.txn_id ≡ found
        → CheckedKept s.mgr l (check_found l target s found)
    go none e = CheckedKept-answer false s.mgr l s x (Evolves-refl s.mgr)
    go (some iter) e = check_same_request-kept l target iter s x (
        IsRequestOf-In s.mgr l iter x
          (In-find_request s.mgr (requests s.mgr l) s.txn.txn_id iter e).0)

after_check-Kept :
    (m : LockManager) (l : LockDataId) (mode : LockMode) (r : Checked × Session)
    → CheckedKept m l r
    → Kept m (after_check l mode r)
unfolding after_check
after_check-Kept m l mode (answer true, s) k =
    Kept-if _ m _ _ (Kept-returned false m s k.exclusive k.evolves) (
      Kept-if _ m _ _ (Kept-returned true m _ k.exclusive k.evolves)
        (Kept-returned true m s k.exclusive k.evolves))
after_check-Kept m l mode (answer false, s) k =
    let (y, e, h) = push_request-kept l mode s.txn.txn_id s.mgr k.exclusive in
    let n = push_request l mode s.txn.txn_id s.mgr in
    Kept-trans m n _ (Evolves-trans m s.mgr n k.evolves e)
      (wake_new-Kept l (record s { mgr = n }) y mode s.mgr.next_addr h)
after_check-Kept m l mode (waits kind a, s) k =
    Kept-blocked (record { l_id = l; addr = a; kind = kind; target = mode }) m s k.exclusive
      k.evolves (k.waiting kind a refl)

pub lock_data-Kept :
    (l : LockDataId) (mode : LockMode) (s : Session)
    → IsExclusive s.mgr
    → Kept s.mgr (lock_data l mode s)
unfolding lock_data
lock_data-Kept l mode s x =
    after_check-Kept s.mgr l mode (check_same_txn_lock_request l mode s)
      (check_same_txn_lock_request-kept l mode s x)

some-Kept : (m : LockManager) (q r : Outcome × Session) → Kept m q → some q ≡ some r → Kept m r
some-Kept m q r k e = subst (λ t. Kept m t) (some_value q r e) k

pub wake-Kept :
    (w : Wait) (s : Session) (r : Outcome × Session)
    → IsExclusive s.mgr
    → IsRequestOf s.mgr w.l_id w.addr
    → wake w s ≡ some r
    → Kept s.mgr r
unfolding wake
wake-Kept w s r x home = go w.kind
  where
    again : (kind : WaitKind) → wake_linked kind w s ≡ some r → Kept s.mgr r
    again kind = elim (Bool-cases (is_linked w.addr (requests s.mgr w.l_id))) [
      | inl there ↦ rw there (
          some-Kept s.mgr (after_check w.l_id w.target (wake_same kind w.l_id w.addr s)) r (
            after_check-Kept s.mgr w.l_id w.target (wake_same kind w.l_id w.addr s)
              (wake_same-kept w.l_id s x kind w.addr home)))
      | inr gone ↦ rw gone (λ e. cc)
    ]

    go :
        (kind : WaitKind)
        → (elim kind [
          | new_request ↦ some (wake_new w.l_id w.addr w.target s)
          | k ↦ wake_linked k w s
        ])
          ≡ some r
        → Kept s.mgr r
    go same_mode = again same_mode
    go upgrade = again upgrade
    go new_request =
        some-Kept s.mgr (wake_new w.l_id w.addr w.target s) r
          (wake_new-Kept w.l_id s x w.target w.addr home)
