-- ===== src/Lock/Alone.antt =====
-- Threads that do not share transactions (src/transaction/Lock_manager.cpp): what a call waits for is
-- in its queue until the call returns.
use ddbms.Base.{
  ℕ, ◌≡◌, refl, sym, ap, subst, ◌∙◌, Bool, Bool-cases, inl, inr, some, some_value, ◌==◌, ==_iff,
}
use ddbms.Transaction.{Transaction}
use ddbms.Lock.State.{Session}
use ddbms.Lock.Exclusion.{IsExclusive}
use ddbms.Lock.{Wait, Outcome, returned, blocked, wake}
use ddbms.Lock.System.{
  perform, release, idle, waiting, System, session, update, next_pc, after_call, Step, call,
  notified, unlocks, other, init, Reach, start, later,
}
use ddbms.Lock.Owner.{IsOwned, IsOwned-Keeps}
use ddbms.Lock.Turns.{Turned, perform-Turned}
use ddbms.Lock.Safety.{waiter_at, Reach-IsSafe}
use ddbms.Lock.Wakes.{woken, release-IsOwned, release_id}

-- The thread `owner p` alone uses the transaction at `p`, which keeps its number.
abbrev pub IsAlone : (owner : ℕ → ℕ) {s t : System} → Step s t → Type 0
IsAlone owner (call i p c h) = owner p ≡ i
IsAlone owner (notified i p w r h e) = Unit
IsAlone owner (unlocks i p c h) = owner p ≡ i
IsAlone owner (other p t) = t.txn_id ≡ p

pub data AloneReach (owner : ℕ → ℕ) (no_wait : Bool) : System → Type 0 where
  begin : AloneReach owner no_wait (init no_wait)
  next :
      {s t : System} (st : Step s t)
      → AloneReach owner no_wait s
      → IsAlone owner st
      → AloneReach owner no_wait t

AloneReach-Reach :
    {owner : ℕ → ℕ} {no_wait : Bool} {s : System} → AloneReach owner no_wait s → Reach no_wait s
AloneReach-Reach begin = start
AloneReach-Reach (next st h a) = later (AloneReach-Reach h) st

-- Transactions have the numbers of their pointers, and what a thread waits for is in its queue.
record IsKept (owner : ℕ → ℕ) (s : System) : Type 0 where
  ids : (p : ℕ) → (s.txns p).txn_id ≡ p
  waits_for :
      (i p : ℕ) (w : Wait) → s.pc i ≡ waiting w p → (owner p ≡ i) × IsOwned s.mgr w.l_id p w.addr

updated_ids :
    (txns : ℕ → Transaction) (p : ℕ) (t : Transaction)
    → ((q : ℕ) → (txns q).txn_id ≡ q)
    → t.txn_id ≡ p
    → (q : ℕ) → (update txns p t q).txn_id ≡ q
updated_ids txns p t h e q = elim (Bool-cases (p == q)) [
  | inl same ↦ rw same (e ∙ (==_iff p q).0 same)
  | inr apart ↦ rw apart (h q)
]

pointer_at : (o : Outcome) (p q : ℕ) (w : Wait) → next_pc o p ≡ waiting w q → p ≡ q
pointer_at (returned b) p q w h = cc
pointer_at (blocked v) p q w h = cc

after_call-IsKept :
    (owner : ℕ → ℕ) (i p : ℕ) (s : System) (r : Outcome × Session)
    → IsKept owner s
    → owner p ≡ i
    → Turned s.mgr p r
    → IsKept owner (after_call i p s r)
after_call-IsKept owner i p s (o, t) k own d = record {
  ids = updated_ids s.txns p t.txn k.ids d.same;
  waits_for = λ j q w h. elim (Bool-cases (i == j)) [
    | inl e ↦
        let at_p = pointer_at o p q w (rw e at h) in
        subst (λ z. (owner z ≡ j) × IsOwned t.mgr w.l_id z w.addr) at_p
          (own ∙ (==_iff i j).0 e, d.asked w (waiter_at o p q w (rw e at h)))
    | inr e ↦
        let (mine, there) = k.waits_for j q w (rw e at h) in
        (mine, IsOwned-Keeps s.mgr t.mgr w.l_id q w.addr d.keeps there)
  ];
}

Step-IsKept :
    (owner : ℕ → ℕ) {s t : System} (st : Step s t)
    → IsAlone owner st
    → IsExclusive s.mgr
    → IsKept owner s
    → IsKept owner t
Step-IsKept owner {s} (call i p c h) own x k =
    after_call-IsKept owner i p s (perform c (session s p)) k own (
      subst (λ n. Turned s.mgr n (perform c (session s p))) (k.ids p)
        (perform-Turned c (session s p) x))
Step-IsKept owner {s} (notified i p w r h e) own x k =
    let (mine, there) = k.waits_for i p w h in
    let (q, wakes, turn) =
      woken w (session s p) x (subst (λ n. IsOwned s.mgr w.l_id n w.addr) (sym (k.ids p)) there) in
    after_call-IsKept owner i p s r k mine (
      subst (λ z. Turned s.mgr p z) (some_value q r (sym wakes ∙ e))
        (subst (λ n. Turned s.mgr n q) (k.ids p) turn))
Step-IsKept owner {s} (unlocks i p c h) own x k = record {
  ids =
      updated_ids s.txns p (release c (session s p)).1.txn k.ids
        (release_id c (session s p) ∙ k.ids p);
  waits_for = λ j q w g.
      let (mine, there) = k.waits_for j q w g in
      (
        mine,
        release-IsOwned w.l_id q w.addr c (session s p)
            (λ same. busy j q w g mine (sym (k.ids p) ∙ same)) there,
      );
}
  where
    -- A thread that unlocks does not wait.
    busy : (j q : ℕ) (w : Wait) → s.pc j ≡ waiting w q → owner q ≡ j → p ≡ q → ⊥
    busy j q w g mine same =
        apart (sym (subst (λ z. s.pc z ≡ idle) (sym own ∙ (ap owner same ∙ mine)) h) ∙ g)
      where
        apart : idle ≡ waiting w q → ⊥
        apart e = cc
Step-IsKept owner {s} (other p t) own x k = record {
  ids = updated_ids s.txns p t k.ids own;
  waits_for = k.waits_for;
}

AloneReach-IsKept :
    {owner : ℕ → ℕ} {no_wait : Bool} {s : System} → AloneReach owner no_wait s → IsKept owner s
AloneReach-IsKept begin = record { ids = λ p. refl; waits_for = λ i p w h. cc }
AloneReach-IsKept {owner} (next st h own) =
    Step-IsKept owner st own (Reach-IsSafe (AloneReach-Reach h)).table (AloneReach-IsKept h)

-- When each transaction is used by one thread and keeps its number, then in every state that threads
-- reach by locking, waiting, waking up and unlocking, a call that waits can wake up: the predicate of
-- its wait reads no erased element of a queue, and the turn returns or waits again.
pub wake-returns :
    {owner : ℕ → ℕ} {no_wait : Bool} {s : System} (i p : ℕ) (w : Wait)
    → AloneReach owner no_wait s
    → s.pc i ≡ waiting w p
    → (r : Outcome × Session) × (wake w (session s p) ≡ some r)
wake-returns {s = s} i p w h at_wait =
    let k = AloneReach-IsKept h in
    let woke =
      woken w (session s p) (Reach-IsSafe (AloneReach-Reach h)).table (
        subst (λ n. IsOwned s.mgr w.l_id n w.addr) (sym (k.ids p)) (k.waits_for i p w at_wait).1) in
    (woke.0, woke.1)
