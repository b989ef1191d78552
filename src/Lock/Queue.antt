-- ===== src/Lock/Queue.antt =====
-- The queue operations: what a passed compatibility check says, and what a removal keeps.
use ddbms.Base.{
  ℕ, ◌≡◌, ◌≢◌, inl, inr, true, some, List, [], ◌∷◌, arith, In, In-mono, ◌==◌, Bool-cases,
}
use ddbms.Lock.Mode.{is_lock_compatible}
use ddbms.Lock.State.{LockManager, check_queue_compatible, find_request, remove_request}

module _ (m : LockManager) where
  -- A granted request that the check passes over is compatible with the checked one.
  pub check_queue_compatible_sound :
      (queue : List ℕ) (request a : ℕ)
      → check_queue_compatible m queue request ≡ true
      → In a queue
      → a ≢ request
      → (m.heap a).granted ≡ true
      → is_lock_compatible (m.heap a).lock_mode (m.heap request).lock_mode ≡ true
  unfolding check_queue_compatible
  check_queue_compatible_sound [] request a h i ne g = elim i [ ]
  check_queue_compatible_sound (x ∷ xs) request a h (inl e) ne g = ground arith
  check_queue_compatible_sound (x ∷ xs) request a h (inr i) ne g =
      check_queue_compatible_sound xs request a (ground arith) i ne g

  pub In-find_request :
      (queue : List ℕ) (t a : ℕ)
      → find_request m queue t ≡ some a
      → In a queue × ((m.heap a).txn_id ≡ t)
  unfolding find_request
  In-find_request [] t a h = ground arith
  In-find_request (x ∷ xs) t a h = elim (Bool-cases ((m.heap x).txn_id == t)) [
    | inl e ↦ (inl (ground arith), ground arith)
    | inr e ↦ let r = In-find_request xs t a (rw e at h) in (inr r.0, r.1)
  ]

pub In-remove_request :
    (addr a : ℕ) (queue : List ℕ) → In a (remove_request addr queue) → In a queue
unfolding remove_request
In-remove_request addr a [] h = elim h [ ]
In-remove_request addr a (x ∷ xs) h = elim (Bool-cases (addr == x)) [
  | inl e ↦ inr (rw e at h)
  | inr e ↦ In-mono _ _ (In-remove_request addr a xs) (rw e at h)
]
