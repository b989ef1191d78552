-- ===== src/Lock/Held.antt =====
-- What it means to hold a lock, and success of the check for a request of the same transaction.
use ddbms.Base.{
  ℕ, ◌≡◌, refl, sym, subst, Bool, true, false, arith, Bool-cases, inl, inr, Option, none, some, In,
}
use ddbms.Transaction.Id.{LockMode, LockDataId, mode_eq, mode_eq_iff}
use ddbms.Transaction.Sets.{lock_data_id_eq_refl}
use ddbms.Lock.State.{
  LockRequest, LockManager, Session, is_aborted, find_request, start_upgrade, queue_of, grant,
  set_upgrading,
}
use ddbms.Lock.Mode.{is_update_compatible}
use ddbms.Lock.Queue.{In-find_request}
use ddbms.Lock.Exclusion.{requests}
use ddbms.Lock.{
  WaitKind, same_mode, upgrade, new_request, Checked, answer, wait_predicate, granted_again,
  after_wait_same, wake_same, check_same_request, check_found,
}

-- Transaction `t` has a granted request for `l_id` in the mode.
pub record IsHeld (m : LockManager) (l_id : LockDataId) (mode : LockMode) (t : ℕ) : Type 0 where
  pub addr : ℕ
  pub queued : In addr (requests m l_id)
  pub owner : (m.heap addr).txn_id ≡ t
  pub granted : (m.heap addr).granted ≡ true
  pub in_mode : (m.heap addr).lock_mode ≡ mode

-- A request of the transaction in the mode, granted or not.
pub record IsAsked (m : LockManager) (l : LockDataId) (mode : LockMode) (t addr : ℕ) : Type 0 where
  pub queued : In addr (requests m l)
  pub owner : (m.heap addr).txn_id ≡ t
  pub in_mode : (m.heap addr).lock_mode ≡ mode

pub grant-IsHeld :
    (m : LockManager) (l : LockDataId) (mode : LockMode) (t addr : ℕ)
    → IsAsked m l mode t addr
    → IsHeld (grant addr m) l mode t
grant-IsHeld m l mode t addr k = record {
  addr = addr;
  queued = k.queued;
  owner = ground (arith, k.owner);
  granted = ground arith;
  in_mode = ground (arith, k.in_mode);
}

requests-set_upgrading_self :
    (l : LockDataId) (b : Bool) (m : LockManager) → requests m l ≡ requests (set_upgrading l b m) l
requests-set_upgrading_self l b m = ground (arith, lock_data_id_eq_refl l)

granted_again-IsHeld :
    (k : WaitKind) (m : LockManager) (l : LockDataId) (mode : LockMode) (t addr : ℕ)
    → IsAsked m l mode t addr
    → IsHeld (granted_again k l addr m) l mode t
granted_again-IsHeld upgrade m l mode t addr k =
    grant-IsHeld (set_upgrading l false m) l mode t addr (record {
      queued = subst (In addr) (requests-set_upgrading_self l false m) k.queued;
      owner = k.owner;
      in_mode = k.in_mode;
    })
granted_again-IsHeld same_mode m l mode t addr k = grant-IsHeld m l mode t addr k
granted_again-IsHeld new_request m l mode t addr k = grant-IsHeld m l mode t addr k

-- Success of the check for a request of the same transaction.
abbrev pub CheckedHeld : LockDataId → LockMode → ℕ → Checked × Session → Type 0
CheckedHeld l mode t r =
    r.0 ≡ answer true → is_aborted r.1 ≡ false → IsHeld r.1.mgr l mode t × (r.1.txn.txn_id ≡ t)

after_wait_same-held :
    (k : WaitKind) (l : LockDataId) (mode : LockMode) (t a : ℕ) (r : Bool × Session)
    → IsAsked r.1.mgr l mode t a
    → r.1.txn.txn_id ≡ t
    → CheckedHeld l mode t (after_wait_same k l a r)
unfolding after_wait_same
after_wait_same-held k l mode t a (false, s) h e = λ p q. cc
after_wait_same-held k l mode t a (true, s) h e = elim (Bool-cases (is_aborted s)) [
  | inl ab ↦ rw ab (λ p q. cc)
  | inr fine ↦ rw fine (λ p q. (granted_again-IsHeld k s.mgr l mode t a h, e))
]

pub wait_predicate_same :
    (l : LockDataId) (a : ℕ) (s : Session)
    → ((wait_predicate l a s).1.mgr ≡ s.mgr) × ((wait_predicate l a s).1.txn.txn_id ≡ s.txn.txn_id)
unfolding wait_predicate
wait_predicate_same l a s = ground arith

pub wake_same-held :
    (k : WaitKind) (l : LockDataId) (mode : LockMode) (a : ℕ) (s : Session)
    → IsAsked s.mgr l mode s.txn.txn_id a
    → CheckedHeld l mode s.txn.txn_id (wake_same k l a s)
unfolding wake_same
wake_same-held k l mode a s h =
    let (p, q) = wait_predicate_same l a s in
    after_wait_same-held k l mode s.txn.txn_id a (wait_predicate l a s)
      (subst (λ m. IsAsked m l mode s.txn.txn_id a) (sym p) h) q

start_upgrade-IsAsked :
    (l : LockDataId) (target : LockMode) (iter t : ℕ) (m : LockManager)
    → In iter (requests m l)
    → (m.heap iter).txn_id ≡ t
    → IsAsked (start_upgrade l iter target m) l target t iter
start_upgrade-IsAsked l target iter t m i e = record {
  queued = subst (In iter) (requests-set_upgrading_self l true m) i;
  owner = ground arith;
  in_mode = ground arith;
}

module _ (l : LockDataId) (target : LockMode) (iter : ℕ) (s : Session)
    (queued : In iter (requests s.mgr l)) (owner : (s.mgr.heap iter).txn_id ≡ s.txn.txn_id) where
  check_same_request-held : CheckedHeld l target s.txn.txn_id (check_same_request l target iter s)
  unfolding check_same_request
  check_same_request-held = elim (Bool-cases (mode_eq r.lock_mode target)) [
    | inr differs ↦ rw differs (elim (Bool-cases (queue_of s.mgr l).upgrading) [
      | inl up ↦ rw up (λ p q. cc)
      | inr calm ↦ rw calm (elim (Bool-cases (is_update_compatible r.lock_mode target)) [
        | inr bad ↦ rw bad (λ p q. cc)
        | inl good ↦ rw good upgraded
      ])
    ])
    | inl same ↦ elim (Bool-cases r.granted) [
      | inl g ↦ rw (same, g) (λ p q. (held same g, refl))
      | inr n ↦
          rw (same, n)
            (wake_same-held same_mode l target iter s
              (record { queued = queued; owner = owner; in_mode = (mode_eq_iff _ _).0 same }))
    ]
  ]
    where
      r : LockRequest
      r = s.mgr.heap iter

      held :
          mode_eq r.lock_mode target ≡ true → r.granted ≡ true → IsHeld s.mgr l target s.txn.txn_id
      held same g = record {
        addr = iter;
        queued = queued;
        owner = owner;
        granted = g;
        in_mode = (mode_eq_iff _ _).0 same;
      }

      upgraded :
          CheckedHeld l target s.txn.txn_id
            (wake_same upgrade l iter (record s { mgr = start_upgrade l iter target s.mgr }))
      upgraded =
          wake_same-held upgrade l target iter
            (record s { mgr = start_upgrade l iter target s.mgr })
            (start_upgrade-IsAsked l target iter s.txn.txn_id s.mgr queued owner)

pub check_found-held :
    (l : LockDataId) (target : LockMode) (s : Session) (found : Option ℕ)
    → find_request s.mgr (requests s.mgr l) s.txn.txn_id ≡ found
    → CheckedHeld l target s.txn.txn_id (check_found l target s found)
unfolding check_same_request
check_found-held l target s none e = λ p q. cc
check_found-held l target s (some iter) e =
    let (i, o) = In-find_request s.mgr (requests s.mgr l) s.txn.txn_id iter e in
    unfold check_found in check_same_request-held l target iter s i o
