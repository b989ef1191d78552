-- ===== src/Lock/Exclusion.antt =====
-- Two granted requests of one queue are compatible: kept by each change of the lock table.
use ddbms.Base.{
  ℕ, ◌≤◌, ◌<◌, ◌≡◌, ◌≢◌, ◌⊎◌, inl, inr, refl, sym, subst, Bool, true, false, List, arith, In, ◌==◌,
  ==_iff, if◌then◌else◌, Bool-cases,
}
use ddbms.Transaction.Id.{LockDataId, lock_data_id_eq, lock_data_id_eq_iff, LockMode}
use ddbms.Lock.Mode.{is_lock_compatible, is_lock_compatible_symm}
use ddbms.Lock.State.{
  LockRequestQueue, LockManager, queue_of, set_queue, check_queue_compatible, grant, set_upgrading,
  start_upgrade, drop_request, remove_request,
}
use ddbms.Lock.Queue.{check_queue_compatible_sound, In-remove_request}

abbrev pub requests : LockManager → LockDataId → List ℕ
requests m l_id = (queue_of m l_id).request_queue

-- Addresses in the queues are allocated, stand in one queue only, and what is granted in one queue
-- is pairwise compatible.
pub record IsExclusive (m : LockManager) : Type 0 where
  pub fresh : (l : LockDataId) (a : ℕ) → In a (requests m l) → a < m.next_addr
  pub owned : (l j : LockDataId) (a : ℕ) → In a (requests m l) → In a (requests m j) → l ≡ j
  pub exclusive :
      (l : LockDataId) (a b : ℕ)
      → In a (requests m l)
      → In b (requests m l)
      → a ≢ b
      → (m.heap a).granted ≡ true
      → (m.heap b).granted ≡ true
      → is_lock_compatible (m.heap a).lock_mode (m.heap b).lock_mode ≡ true

-- The request at `addr` can only stand in the queue of `l_id`.
pub record IsRequestOf (m : LockManager) (l_id : LockDataId) (addr : ℕ) : Type 0 where
  pub allocated : addr < m.next_addr
  pub home : (j : LockDataId) → In addr (requests m j) → j ≡ l_id

-- Allocated requests enter no queue.
pub record Evolves (m n : LockManager) : Type 0 where
  pub grows : m.next_addr ≤ n.next_addr
  pub old : (j : LockDataId) (a : ℕ) → a < m.next_addr → In a (requests n j) → In a (requests m j)

pub Evolves-refl : (m : LockManager) → Evolves m m
Evolves-refl m = record { grows = omega arith; old = λ j a h i. i }

pub Evolves-trans : (m n k : LockManager) → Evolves m n → Evolves n k → Evolves m k
Evolves-trans m n k e f = record {
  grows = omega (arith, e.grows, f.grows);
  old = λ j a h i. e.old j a h (f.old j a (omega (arith, e.grows)) i);
}

pub IsRequestOf-Evolves :
    (m n : LockManager) (l_id : LockDataId) (addr : ℕ)
    → Evolves m n
    → IsRequestOf m l_id addr
    → IsRequestOf n l_id addr
IsRequestOf-Evolves m n l_id addr e r = record {
  allocated = omega (arith, e.grows, r.allocated);
  home = λ j i. r.home j (e.old j addr r.allocated i);
}

pub IsRequestOf-In :
    (m : LockManager) (l_id : LockDataId) (addr : ℕ)
    → IsExclusive m
    → In addr (requests m l_id)
    → IsRequestOf m l_id addr
IsRequestOf-In m l_id addr x i = record {
  allocated = x.fresh l_id addr i;
  home = λ j k. x.owned j l_id addr k i;
}

-- A change that only takes requests out of queues, and takes grants away.
module _ (m n : LockManager) (same_next : m.next_addr ≡ n.next_addr)
    (fewer : (j : LockDataId) (a : ℕ) → In a (requests n j) → In a (requests m j))
    (ungranted : (a : ℕ)
      → (n.heap a).granted ≡ true
      → ((m.heap a).granted ≡ true) × ((n.heap a).lock_mode ≡ (m.heap a).lock_mode)) where
  pub IsExclusive-fewer : IsExclusive m → IsExclusive n
  IsExclusive-fewer x = record {
    fresh = λ l a i. omega (arith, same_next, x.fresh l a (fewer l a i));
    owned = λ l j a i k. x.owned l j a (fewer l a i) (fewer j a k);
    exclusive = λ l a b i k ne ga gb.
        let (ha, ma) = ungranted a ga in
        let (hb, mb) = ungranted b gb in
        let old = x.exclusive l a b (fewer l a i) (fewer l b k) ne ha hb in rw (ma, mb) old;
  }

  pub Evolves-fewer : Evolves m n
  Evolves-fewer = record { grows = omega (arith, same_next); old = λ j a h i. fewer j a i }

In-if :
    (b : Bool) (q r : LockRequestQueue) (a : ℕ)
    → In a (if b then q else r).request_queue
    → ((b ≡ true) × In a q.request_queue) ⊎ In a r.request_queue
In-if true q r a i = inl (refl, i)
In-if false q r a i = inr i

-- What stands in a queue after one queue was replaced.
pub In-set_queue :
    (l : LockDataId) (q : LockRequestQueue) (m : LockManager) (j : LockDataId) (a : ℕ)
    → In a (requests (set_queue l q m) j)
    → ((l ≡ j) × In a q.request_queue) ⊎ In a (requests m j)
In-set_queue l q m j a i = elim (In-if (lock_data_id_eq l j) q (queue_of m j) a i) [
  | inl r ↦ inl ((lock_data_id_eq_iff l j).0 r.0, r.1)
  | inr k ↦ inr k
]

-- The replaced queue holds some of the old one's requests.
In-set_queue_fewer :
    (l : LockDataId) (q : LockRequestQueue) (m : LockManager)
    → ((a : ℕ) → In a q.request_queue → In a (requests m l))
    → (j : LockDataId) (a : ℕ) → In a (requests (set_queue l q m) j)
    → In a (requests m j)
In-set_queue_fewer l q m fewer j a i = elim (In-set_queue l q m j a i) [
  | inl r ↦ subst (λ k. In a (requests m k)) r.0 (fewer a r.1)
  | inr k ↦ k
]

pub set_upgrading-kept :
    (l : LockDataId) (b : Bool) (m : LockManager)
    → IsExclusive m
    → IsExclusive (set_upgrading l b m) × Evolves m (set_upgrading l b m)
set_upgrading-kept l b m x =
    (IsExclusive-fewer _ _ refl fewer same x, Evolves-fewer _ _ refl fewer same)
  where
    fewer : (j : LockDataId) (a : ℕ) → In a (requests (set_upgrading l b m) j) → In a (requests m j)
    fewer = In-set_queue_fewer l (record (queue_of m l) { upgrading = b }) m (λ a i. i)

    same :
        (a : ℕ)
        → (m.heap a).granted ≡ true
        → ((m.heap a).granted ≡ true) × ((m.heap a).lock_mode ≡ (m.heap a).lock_mode)
    same a g = (g, refl)

pub start_upgrade-kept :
    (l : LockDataId) (addr : ℕ) (target : LockMode) (m : LockManager)
    → IsExclusive m
    → IsExclusive (start_upgrade l addr target m) × Evolves m (start_upgrade l addr target m)
start_upgrade-kept l addr target m x =
    let (y, e) = set_upgrading-kept l true m x in
    let n = start_upgrade l addr target m in
    let u = set_upgrading l true m in
    let weaker : (a : ℕ)
        → (n.heap a).granted ≡ true
        → ((u.heap a).granted ≡ true) × ((n.heap a).lock_mode ≡ (u.heap a).lock_mode) =
      (λ a g. ground arith) in
    (
      IsExclusive-fewer u n refl (λ j a i. i) weaker y,
      Evolves-trans m u n e (Evolves-fewer u n refl (λ j a i. i) weaker),
    )

pub drop_request-kept :
    (l : LockDataId) (addr : ℕ) (m : LockManager)
    → IsExclusive m
    → IsExclusive (drop_request l addr m) × Evolves m (drop_request l addr m)
drop_request-kept l addr m x = (
  IsExclusive-fewer _ _ refl fewer (λ a g. (g, refl)) x,
  Evolves-fewer m (drop_request l addr m) refl fewer (λ a g. (g, refl)),
)
  where
    fewer :
        (j : LockDataId) (a : ℕ) → In a (requests (drop_request l addr m) j) → In a (requests m j)
    fewer =
        In-set_queue_fewer l
          (record (queue_of m l) { request_queue = remove_request addr (requests m l) }) m
          (λ a i. In-remove_request addr a (requests m l) i)

-- A grant after a passed check.
module _ (l : LockDataId) (addr : ℕ) (m : LockManager) (home : IsRequestOf m l addr)
    (fits : check_queue_compatible m (requests m l) addr ≡ true) (x : IsExclusive m) where
  with_granted :
      (j : LockDataId) (b : ℕ)
      → In addr (requests m j)
      → In b (requests m j)
      → b ≢ addr
      → (m.heap b).granted ≡ true
      → is_lock_compatible (m.heap b).lock_mode (m.heap addr).lock_mode ≡ true
  with_granted j b i k ne g =
      check_queue_compatible_sound m (requests m l) addr b fits
        (subst (λ t. In b (requests m t)) (home.home j i) k) ne g

  grant-exclusive :
      (j : LockDataId) (a b : ℕ)
      → In a (requests m j)
      → In b (requests m j)
      → a ≢ b
      → ((grant addr m).heap a).granted ≡ true
      → ((grant addr m).heap b).granted ≡ true
      → is_lock_compatible ((grant addr m).heap a).lock_mode ((grant addr m).heap b).lock_mode
        ≡ true
  grant-exclusive j a b i k ne ga gb = elim (Bool-cases (addr == a)) [
    | inl ea ↦ elim (Bool-cases (addr == b)) [
      | inl eb ↦ absurd (ne (ground arith))
      | inr nb ↦
          rw (ea, nb, is_lock_compatible_symm (m.heap addr).lock_mode (m.heap b).lock_mode)
            (with_granted j b (subst (λ t. In t (requests m j)) (sym ((==_iff addr a).0 ea)) i) k
              (ground arith) (ground arith))
    ]
    | inr na ↦ elim (Bool-cases (addr == b)) [
      | inl eb ↦
          rw (na, eb)
            (with_granted j a (subst (λ t. In t (requests m j)) (sym ((==_iff addr b).0 eb)) k) i
              (ground arith) (ground arith))
      | inr nb ↦ rw (na, nb) (x.exclusive j a b i k ne (ground arith) (ground arith))
    ]
  ]

  pub grant-kept : IsExclusive (grant addr m) × Evolves m (grant addr m)
  grant-kept = (
    record { fresh = x.fresh; owned = x.owned; exclusive = grant-exclusive },
    record { grows = omega arith; old = λ j a h i. i },
  )
