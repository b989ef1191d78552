-- ===== src/Lock/Owner.antt =====
-- The changes of a lock call of src/transaction/Lock_manager.cpp leave all requests in their queues,
-- with their transactions.
use ddbms.Base.{
  ℕ, ◌≡◌, refl, sym, subst, ◌∙◌, Bool, true, false, inl, inr, List, [], ◌∷◌, ◌++◌, In, In-last,
  arith, if◌then◌else◌,
}
use ddbms.Transaction.Id.{LockMode, LockDataId, lock_data_id_eq, lock_data_id_eq_iff}
use ddbms.Transaction.Sets.{lock_data_id_eq_refl}
use ddbms.Lock.State.{
  LockRequestQueue, LockManager, set_queue, store, grant, set_upgrading, start_upgrade,
  push_request,
}
use ddbms.Lock.Exclusion.{requests, IsExclusive}
use ddbms.Lock.{WaitKind, same_mode, upgrade, new_request, granted_again}

-- A request of the transaction `t` in the queue of a datum.
pub record IsOwned (m : LockManager) (l : LockDataId) (t a : ℕ) : Type 0 where
  pub queued : In a (requests m l)
  pub owner : (m.heap a).txn_id ≡ t

-- No request leaves its queue, and none goes to another transaction.
pub record Keeps (m n : LockManager) : Type 0 where
  pub stays : (l : LockDataId) (a : ℕ) → In a (requests m l) → In a (requests n l)
  pub same : (l : LockDataId) (a : ℕ) → In a (requests m l) → (n.heap a).txn_id ≡ (m.heap a).txn_id

pub Keeps-refl : (m : LockManager) → Keeps m m
Keeps-refl m = record { stays = λ l a i. i; same = λ l a i. refl }

pub Keeps-trans : (m n k : LockManager) → Keeps m n → Keeps n k → Keeps m k
Keeps-trans m n k e f = record {
  stays = λ l a i. f.stays l a (e.stays l a i);
  same = λ l a i. f.same l a (e.stays l a i) ∙ e.same l a i;
}

pub IsOwned-Keeps :
    (m n : LockManager) (l : LockDataId) (t a : ℕ) → Keeps m n → IsOwned m l t a → IsOwned n l t a
IsOwned-Keeps m n l t a k h = record {
  queued = k.stays l a h.queued;
  owner = k.same l a h.queued ∙ h.owner;
}

pub In-if :
    (b : Bool) (q r : LockRequestQueue) (a : ℕ)
    → (b ≡ true → In a q.request_queue)
    → (b ≡ false → In a r.request_queue)
    → In a (if b then q else r).request_queue
In-if true q r a f g = f refl
In-if false q r a f g = g refl

-- A queue is replaced by one that has its requests.
pub In-set_queue_more :
    (l : LockDataId) (q : LockRequestQueue) (m : LockManager)
    → ((a : ℕ) → In a (requests m l) → In a q.request_queue)
    → (j : LockDataId) (a : ℕ) → In a (requests m j)
    → In a (requests (set_queue l q m) j)
In-set_queue_more l q m more j a i =
    In-if (lock_data_id_eq l j) q (m.lock_map j) a
      (λ e. more a (subst (λ z. In a (requests m z)) (sym ((lock_data_id_eq_iff l j).0 e)) i))
      (λ e. i)

pub set_upgrading-Keeps :
    (l : LockDataId) (b : Bool) (m : LockManager) → Keeps m (set_upgrading l b m)
set_upgrading-Keeps l b m = record {
  stays = In-set_queue_more l (record (m.lock_map l) { upgrading = b }) m (λ a i. i);
  same = λ j a i. refl;
}

pub grant-Keeps : (a : ℕ) (m : LockManager) → Keeps m (grant a m)
grant-Keeps a m = record { stays = λ l b i. i; same = λ l b i. ground arith }

pub start_upgrade-Keeps :
    (l : LockDataId) (a : ℕ) (target : LockMode) (m : LockManager)
    → Keeps m (start_upgrade l a target m)
start_upgrade-Keeps l a target m = record {
  stays = (set_upgrading-Keeps l true m).stays;
  same = λ j b i. ground arith;
}

clash : true ≡ false → ⊥
clash p = cc

In-append_left : (a : ℕ) (xs ys : List ℕ) → In a xs → In a (xs ++ ys)
In-append_left a [] ys h = absurd h
In-append_left a (x ∷ xs) ys (inl e) = inl e
In-append_left a (x ∷ xs) ys (inr i) = inr (In-append_left a xs ys i)

module _ (l : LockDataId) (mode : LockMode) (t : ℕ) (m : LockManager) (x : IsExclusive m) where
  pub push_request-Keeps : Keeps m (push_request l mode t m)
  push_request-Keeps = record {
    stays =
        In-set_queue_more l
          (record (m.lock_map l) { request_queue = requests m l ++ m.next_addr ∷ [] })
          (store m.next_addr (record { txn_id = t; lock_mode = mode; granted = false }) m)
          (λ a i. In-append_left a (requests m l) (m.next_addr ∷ []) i);
    same = λ j a i. ground (arith, x.fresh j a i);
  }

  pub push_request-IsOwned : IsOwned (push_request l mode t m) l t m.next_addr
  push_request-IsOwned = record {
    queued =
        In-if (lock_data_id_eq l l)
          (record (m.lock_map l) { request_queue = requests m l ++ m.next_addr ∷ [] })
          (m.lock_map l) m.next_addr (λ e. In-last m.next_addr (requests m l))
          (λ e. absurd (clash (sym (lock_data_id_eq_refl l) ∙ e)));
    owner = ground arith;
  }

pub granted_again-Keeps :
    (k : WaitKind) (l : LockDataId) (a : ℕ) (m : LockManager) → Keeps m (granted_again k l a m)
granted_again-Keeps upgrade l a m =
    Keeps-trans m (set_upgrading l false m) _ (set_upgrading-Keeps l false m)
      (grant-Keeps a (set_upgrading l false m))
granted_again-Keeps same_mode l a m = grant-Keeps a m
granted_again-Keeps new_request l a m = grant-Keeps a m
