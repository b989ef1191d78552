-- ===== src/Lock/Waits.antt =====
-- What a wait and the check for a request of the same transaction do to the lock table.
use ddbms.Base.{
  ℕ, ◌+◌, ◌<◌, ◌≡◌, ◌≢◌, ◌⊎◌, inl, inr, refl, sym, ◌∙◌, subst, Bool, true, false, [], ◌∷◌, arith,
  In, In-append, ◌==◌, Bool-cases,
}
use ddbms.Transaction.{aborted}
use ddbms.Transaction.Id.{LockDataId, LockMode}
use ddbms.Lock.Mode.{is_lock_compatible}
use ddbms.Lock.State.{
  LockRequest, LockManager, Session, store, check_queue_compatible, grant, set_upgrading,
  push_request, is_aborted, set_state,
}
use ddbms.Lock.Exclusion.{
  requests, IsExclusive, IsRequestOf, Evolves, Evolves-refl, Evolves-trans, set_upgrading-kept,
  grant-kept, In-set_queue,
}
use ddbms.Lock.{
  Wait, WaitKind, same_mode, upgrade, new_request, Outcome, returned, blocked, Checked, answer,
  waits, wait_predicate, granted_again, after_wait_same, after_wait_new,
}

-- A new request enters one queue, and is not granted.
module _ (l : LockDataId) (mode : LockMode) (txn_id : ℕ) (m : LockManager) (x : IsExclusive m) where
  abbrev pushed : LockManager
  pushed = push_request l mode txn_id m

  abbrev new : LockRequest
  new = record { txn_id = txn_id; lock_mode = mode; granted = false }

  In-pushed :
      (j : LockDataId) (a : ℕ)
      → In a (requests pushed j)
      → ((l ≡ j) × (a ≡ m.next_addr)) ⊎ In a (requests m j)
  In-pushed j a i = elim (In-set_queue l _ (store m.next_addr new m) j a i) [
    | inr k ↦ inr k
    | inl r ↦ elim (In-append a (requests m l) (m.next_addr ∷ []) r.1) [
      | inl k ↦ inr (subst (λ t. In a (requests m t)) r.0 k)
      | inr k ↦ inl (r.0, elim k [ inl e ↦ e | inr f ↦ absurd f ])
    ]
  ]

  pushed-fresh : (j : LockDataId) (a : ℕ) → In a (requests pushed j) → a < m.next_addr + 1
  pushed-fresh j a i = elim (In-pushed j a i) [
    | inl r ↦ omega (arith, r.1)
    | inr k ↦ omega (arith, x.fresh j a k)
  ]

  pushed-owned :
      (i j : LockDataId) (a : ℕ) → In a (requests pushed i) → In a (requests pushed j) → i ≡ j
  pushed-owned i j a p q = elim (In-pushed i a p) [
    | inl r ↦ elim (In-pushed j a q) [
      | inl s ↦ sym r.0 ∙ s.0
      | inr k ↦ absurd (omega (arith, r.1, x.fresh j a k))
    ]
    | inr k ↦ elim (In-pushed j a q) [
      | inl s ↦ absurd (omega (arith, s.1, x.fresh i a k))
      | inr k' ↦ x.owned i j a k k'
    ]
  ]

  -- What is granted stood in the queue before.
  pushed_granted :
      (j : LockDataId) (a : ℕ)
      → In a (requests pushed j)
      → (pushed.heap a).granted ≡ true
      → In a (requests m j) × ((m.next_addr == a) ≡ false)
  pushed_granted j a i g = elim (In-pushed j a i) [
    | inl r ↦ absurd (ground (arith, r.1))
    | inr k ↦ (k, ground (arith, x.fresh j a k))
  ]

  pushed-exclusive :
      (j : LockDataId) (a b : ℕ)
      → In a (requests pushed j)
      → In b (requests pushed j)
      → a ≢ b
      → (pushed.heap a).granted ≡ true
      → (pushed.heap b).granted ≡ true
      → is_lock_compatible (pushed.heap a).lock_mode (pushed.heap b).lock_mode ≡ true
  pushed-exclusive j a b i k ne ga gb =
      let (ia, na) = pushed_granted j a i ga in
      let (ib, nb) = pushed_granted j b k gb in
      rw (na, nb) (x.exclusive j a b ia ib ne (rw na at ga) (rw nb at gb))

  pub push_request-kept : IsExclusive pushed × Evolves m pushed × IsRequestOf pushed l m.next_addr
  push_request-kept = (
    record { fresh = pushed-fresh; owned = pushed-owned; exclusive = pushed-exclusive },
    record {
      grows = omega arith;
      old = λ j a h i. elim (In-pushed j a i) [ inl r ↦ absurd (omega (arith, r.1)) | inr k ↦ k ];
    },
    record {
      allocated = omega arith;
      home = λ j i. elim (In-pushed j m.next_addr i) [
        | inl r ↦ sym r.0
        | inr k ↦ absurd (omega (arith, x.fresh j m.next_addr k))
      ];
    },
  )

-- What a call leaves: the invariant, an evolved table, and a wait for a request of one queue.
pub record Kept (m : LockManager) (r : Outcome × Session) : Type 0 where
  pub exclusive : IsExclusive r.1.mgr
  pub evolves : Evolves m r.1.mgr
  pub waiting : (w : Wait) → r.0 ≡ blocked w → IsRequestOf r.1.mgr w.l_id w.addr

pub record CheckedKept (m : LockManager) (l : LockDataId) (r : Checked × Session) : Type 0 where
  pub exclusive : IsExclusive r.1.mgr
  pub evolves : Evolves m r.1.mgr
  pub waiting : (k : WaitKind) (a : ℕ) → r.0 ≡ waits k a → IsRequestOf r.1.mgr l a

pub Kept-returned :
    (b : Bool) (m : LockManager) (s : Session)
    → IsExclusive s.mgr
    → Evolves m s.mgr
    → Kept m (returned b, s)
Kept-returned b m s x e = record { exclusive = x; evolves = e; waiting = λ w h. cc }

pub Kept-blocked :
    (w : Wait) (m : LockManager) (s : Session)
    → IsExclusive s.mgr
    → Evolves m s.mgr
    → IsRequestOf s.mgr w.l_id w.addr
    → Kept m (blocked w, s)
Kept-blocked w m s x e h = record {
  exclusive = x;
  evolves = e;
  waiting = λ v q. let p : w ≡ v = cc in subst (λ t. IsRequestOf s.mgr t.l_id t.addr) p h;
}

pub CheckedKept-answer :
    (b : Bool) (m : LockManager) (l : LockDataId) (s : Session)
    → IsExclusive s.mgr
    → Evolves m s.mgr
    → CheckedKept m l (answer b, s)
CheckedKept-answer b m l s x e = record { exclusive = x; evolves = e; waiting = λ k a h. cc }

wait_predicate-mgr : (l : LockDataId) (a : ℕ) (s : Session) → (wait_predicate l a s).1.mgr ≡ s.mgr
unfolding wait_predicate
wait_predicate-mgr l a s = ground arith

-- A wait that ends without an abort has passed the compatibility check.
pub wait_predicate_fits :
    (l : LockDataId) (a : ℕ) (s : Session)
    → (wait_predicate l a s).0 ≡ true
    → is_aborted (wait_predicate l a s).1 ≡ false
    → check_queue_compatible s.mgr (requests s.mgr l) a ≡ true
unfolding wait_predicate
wait_predicate_fits l a s h n = ground arith

-- The session of a wait, whose transaction alone may have changed.
pub record Waited (m : LockManager) (l : LockDataId) (a : ℕ) (r : Bool × Session) : Type 0 where
  same : r.1.mgr ≡ m
  fits : r.0 ≡ true → is_aborted r.1 ≡ false → check_queue_compatible m (requests m l) a ≡ true

pub waited : (l : LockDataId) (a : ℕ) (s : Session) → Waited s.mgr l a (wait_predicate l a s)
waited l a s = record { same = wait_predicate-mgr l a s; fits = wait_predicate_fits l a s }

granted_again-kept :
    (kind : WaitKind) (l : LockDataId) (a : ℕ) (m : LockManager)
    → IsExclusive m
    → IsRequestOf m l a
    → check_queue_compatible m (requests m l) a ≡ true
    → IsExclusive (granted_again kind l a m) × Evolves m (granted_again kind l a m)
granted_again-kept upgrade l a m x home fits =
    let (y, e) = grant-kept l a m home fits x in
    let (z, f) = set_upgrading-kept l false (grant a m) y in
    (z, Evolves-trans m (grant a m) (set_upgrading l false (grant a m)) e f)
granted_again-kept same_mode l a m x home fits = grant-kept l a m home fits x
granted_again-kept new_request l a m x home fits = grant-kept l a m home fits x

module _ (m : LockManager) (x : IsExclusive m) (l : LockDataId) (a : ℕ)
    (home : IsRequestOf m l a) where
  -- What holds of the table before the wait holds of it after.
  carried :
      (r : Bool × Session)
      → Waited m l a r
      → IsExclusive r.1.mgr × Evolves m r.1.mgr × IsRequestOf r.1.mgr l a
  carried r w =
      subst (λ n. IsExclusive n × Evolves m n × IsRequestOf n l a) (sym w.same)
        (x, Evolves-refl m, home)

  granted-carried :
      (kind : WaitKind) (r : Bool × Session)
      → Waited m l a r
      → check_queue_compatible m (requests m l) a ≡ true
      → IsExclusive (granted_again kind l a r.1.mgr) × Evolves m (granted_again kind l a r.1.mgr)
  granted-carried kind r w fits =
      subst (λ n. IsExclusive (granted_again kind l a n) × Evolves m (granted_again kind l a n))
        (sym w.same) (granted_again-kept kind l a m x home fits)

  pub after_wait_same-kept :
      (kind : WaitKind) (r : Bool × Session)
      → Waited m l a r
      → CheckedKept m l (after_wait_same kind l a r)
  unfolding after_wait_same
  after_wait_same-kept kind (false, s) w =
      let (y, e, h) = carried (false, s) w in
      record {
        exclusive = y;
        evolves = e;
        waiting = λ k b q. subst (λ t. IsRequestOf s.mgr l t) (ground arith) h;
      }
  after_wait_same-kept kind (true, s) w = elim (Bool-cases (is_aborted s)) [
    | inl ab ↦
        let (y, e, h) = carried (true, s) w in
        rw ab (CheckedKept-answer true m l (set_state aborted s) y e)
    | inr fine ↦
        let (y, e) = granted-carried kind (true, s) w (w.fits refl fine) in
        rw fine (CheckedKept-answer true m l _ y e)
  ]

  pub after_wait_new-Kept :
      (mode : LockMode) (r : Bool × Session) → Waited m l a r → Kept m (after_wait_new l a mode r)
  unfolding after_wait_new
  after_wait_new-Kept mode (false, s) w =
      let (y, e, h) = carried (false, s) w in
      Kept-blocked (record { l_id = l; addr = a; kind = new_request; target = mode }) m s y e h
  after_wait_new-Kept mode (true, s) w = elim (Bool-cases (is_aborted s)) [
    | inl ab ↦
        let (y, e, h) = carried (true, s) w in
        rw ab (Kept-returned false m (set_state aborted s) y e)
    | inr fine ↦
        let (y, e) = granted-carried new_request (true, s) w (w.fits refl fine) in
        rw fine (Kept-returned true m _ y e)
  ]
