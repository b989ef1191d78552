-- ===== src/Lock/Wakes.antt =====
-- src/transaction/Lock_manager.cpp: a wake-up of a call whose request is in its queue, and what an
-- unlock leaves in the queues.
use ddbms.Base.{
  ℕ, ◌≡◌, ◌≢◌, refl, sym, ap, subst, ◌∙◌, true, Bool-cases, inl, inr, Option, none, some, List, [],
  ◌∷◌, In, In-mono, arith, ◌==◌, ◌&&◌,
}
use ddbms.Transaction.{growing, shrinking, state_eq}
use ddbms.Transaction.Id.{
  LockDataId, lock_data_id_eq, lock_data_id_eq_iff, table_id, partition_id, row_id,
}
use ddbms.Lock.State.{
  LockManager, Session, set_state, find_granted, remove_request, drop_request, is_linked,
}
use ddbms.Lock.Exclusion.{requests, IsExclusive, IsRequestOf-In}
use ddbms.Lock.{
  Wait, WaitKind, same_mode, upgrade, new_request, Outcome, wake_same, wake_new, after_check,
  wake_linked, wake, unlock, unlock_found, unlock_table, unlock_partition, unlock_row,
}
use ddbms.Lock.System.{UnlockCall, of_table, of_partition, of_row, release}
use ddbms.Lock.Calls.{wake_same-kept}
use ddbms.Lock.Owner.{IsOwned, Keeps-refl, In-if}
use ddbms.Lock.Turns.{Turned, wake_same-Turned, wake_new-Turned, after_check-Turned}

is_linked-In : (a : ℕ) (xs : List ℕ) → In a xs → is_linked a xs ≡ true
unfolding is_linked
is_linked-In a [] h = absurd h
is_linked-In a (x ∷ xs) (inl e) = ground (arith, e)
is_linked-In a (x ∷ xs) (inr i) = ground (arith, is_linked-In a xs i)

module _ (w : Wait) (s : Session) (x : IsExclusive s.mgr)
    (h : IsOwned s.mgr w.l_id s.txn.txn_id w.addr) where
  linked-Turned :
      (kind : WaitKind)
      → Turned s.mgr s.txn.txn_id (after_check w.l_id w.target (wake_same kind w.l_id w.addr s))
  linked-Turned kind =
      after_check-Turned s.mgr w.l_id w.target s.txn.txn_id (wake_same kind w.l_id w.addr s)
        (wake_same-kept w.l_id s x kind w.addr
          (IsRequestOf-In s.mgr w.l_id w.addr x h.queued)).exclusive
        (wake_same-Turned s.mgr kind w.l_id s.txn.txn_id w.addr s (Keeps-refl s.mgr) refl h)

  -- A call that waits for a request in its queue wakes up.
  pub woken : (r : Outcome × Session) × (wake w s ≡ some r) × Turned s.mgr s.txn.txn_id r
  unfolding wake
  woken = go w.kind
    where
      there :
          (kind : WaitKind)
          → (r : Outcome × Session) × (wake_linked kind w s ≡ some r) × Turned s.mgr s.txn.txn_id r
      there kind = (
        after_check w.l_id w.target (wake_same kind w.l_id w.addr s),
        rw (is_linked-In w.addr (requests s.mgr w.l_id) h.queued) refl,
        linked-Turned kind,
      )

      go :
          (kind : WaitKind)
          → (r : Outcome × Session) × ((elim kind [
            | new_request ↦ some (wake_new w.l_id w.addr w.target s)
            | k ↦ wake_linked k w s
          ])
              ≡ some r)
            × Turned s.mgr s.txn.txn_id r
      go same_mode = there same_mode
      go upgrade = there upgrade
      go new_request = (
        wake_new w.l_id w.addr w.target s,
        refl,
        wake_new-Turned s.mgr w.l_id w.target s.txn.txn_id w.addr s (Keeps-refl s.mgr) refl h,
      )

-- An unlock takes out a request of its own transaction.
find_granted-owner :
    (m : LockManager) (queue : List ℕ) (t a : ℕ)
    → find_granted m queue t ≡ some a
    → (m.heap a).txn_id ≡ t
unfolding find_granted
find_granted-owner m [] t a h = ground arith
find_granted-owner m (x ∷ xs) t a h =
    elim (Bool-cases (((m.heap x).txn_id == t) && (m.heap x).granted)) [
      | inl e ↦ ground arith
      | inr e ↦ find_granted-owner m xs t a (rw e at h)
    ]

In-remove_request_other :
    (addr a : ℕ) (queue : List ℕ) → a ≢ addr → In a queue → In a (remove_request addr queue)
unfolding remove_request
In-remove_request_other addr a [] ne h = absurd h
In-remove_request_other addr a (x ∷ xs) ne h = elim (Bool-cases (addr == x)) [
  | inl e ↦ rw e (elim h [ inl same ↦ absurd (ne (ground (arith, same, e))) | inr i ↦ i ])
  | inr e ↦ rw e (In-mono xs (remove_request addr xs) (In-remove_request_other addr a xs ne) h)
]

module _ (l : LockDataId) (t a : ℕ) where
  drop_request-IsOwned :
      (j : LockDataId) (addr : ℕ) (m : LockManager)
      → a ≢ addr
      → IsOwned m l t a
      → IsOwned (drop_request j addr m) l t a
  drop_request-IsOwned j addr m ne h = record {
    queued =
        In-if (lock_data_id_eq j l)
          (record (m.lock_map j) { request_queue = remove_request addr (requests m j) })
          (m.lock_map l) a
          (λ e.
            In-remove_request_other addr a (requests m j) ne
              (subst (λ z. In a (requests m z)) (sym ((lock_data_id_eq_iff j l).0 e)) h.queued))
          (λ e. h.queued);
    owner = h.owner;
  }

  unlock_found-IsOwned :
      (j : LockDataId) (u : Session) (found : Option ℕ)
      → ((addr : ℕ) → found ≡ some addr → a ≢ addr)
      → IsOwned u.mgr l t a
      → IsOwned (unlock_found j u found).1.mgr l t a
  unlock_found-IsOwned j u none ne h = h
  unlock_found-IsOwned j u (some addr) ne h = drop_request-IsOwned j addr u.mgr (ne addr refl) h

  unlock-IsOwned :
      (j : LockDataId) (s : Session)
      → s.txn.txn_id ≢ t
      → IsOwned s.mgr l t a
      → IsOwned (unlock j s).1.mgr l t a
  unfolding unlock
  unlock-IsOwned j s ne h = elim (Bool-cases (state_eq s.txn.state growing)) [
    | inl e ↦ rw e (unlock_found-IsOwned j (set_state shrinking s) found other_request h)
    | inr e ↦ rw e (unlock_found-IsOwned j s found other_request h)
  ]
    where
      found : Option ℕ
      found = find_granted s.mgr (requests s.mgr j) s.txn.txn_id

      other_request : (addr : ℕ) → found ≡ some addr → a ≢ addr
      other_request addr e same = ne (
          sym (find_granted-owner s.mgr (requests s.mgr j) s.txn.txn_id addr e)
          ∙ (ap (λ b. (s.mgr.heap b).txn_id) (sym same) ∙ h.owner))

  pub release-IsOwned :
      (c : UnlockCall) (s : Session)
      → s.txn.txn_id ≢ t
      → IsOwned s.mgr l t a
      → IsOwned (release c s).1.mgr l t a
  unfolding release unlock_table unlock_partition unlock_row
  release-IsOwned (of_table oid) s = unlock-IsOwned (table_id oid) s
  release-IsOwned (of_partition oid p_id) s = unlock-IsOwned (partition_id oid p_id) s
  release-IsOwned (of_row oid p_id r_id) s = unlock-IsOwned (row_id oid p_id r_id) s

unlock_id : (l : LockDataId) (s : Session) → (unlock l s).1.txn.txn_id ≡ s.txn.txn_id
unfolding unlock
unlock_id l s = elim (Bool-cases (state_eq s.txn.state growing)) [
  | inl e ↦
      rw e (found_id (set_state shrinking s) (find_granted s.mgr (requests s.mgr l) s.txn.txn_id))
  | inr e ↦ rw e (found_id s (find_granted s.mgr (requests s.mgr l) s.txn.txn_id))
]
  where
    found_id :
        (u : Session) (found : Option ℕ) → (unlock_found l u found).1.txn.txn_id ≡ u.txn.txn_id
    found_id u none = refl
    found_id u (some addr) = refl

pub release_id : (c : UnlockCall) (s : Session) → (release c s).1.txn.txn_id ≡ s.txn.txn_id
unfolding release unlock_table unlock_partition unlock_row
release_id (of_table oid) s = unlock_id (table_id oid) s
release_id (of_partition oid p_id) s = unlock_id (partition_id oid p_id) s
release_id (of_row oid p_id r_id) s = unlock_id (row_id oid p_id r_id) s
