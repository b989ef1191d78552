-- ===== src/Storage/SkipList/Unlink.antt =====
-- src/storage/SkipList.cpp: what the loop of del over the levels does to every node.
use ddbms.Base.{
  ℕ, zero, suc, ◌≡◌, refl, ap, fun_ext, inl, inr, true, false, Option, none, some, ltb, ◌==◌,
  if◌then◌else◌, arith, Bool-cases,
}
use mathlib.Core.Option
use ddbms.Storage.Block.{◌>>=◌}
use ddbms.Storage.SkipList.{Ptr, Node, Heap, Prevs, at, update_at, set_nexts, next_at}
use ddbms.Storage.SkipList.Update.{unlink}
use ddbms.Storage.SkipList.Link.{IsRelinked, Site, ==_sound, assign, up, top}

abbrev pub unlink_nexts : ℕ → (ℕ → Ptr) → (ℕ → Ptr) → Ptr → (ℕ → Option Ptr) → ℕ → Option Ptr
unlink_nexts n at_p at_t p f j = if ltb j n then if p == at_p j then some (at_t j) else f j else f j

module _ (i : ℕ) (at_p at_t : ℕ → Ptr) where
  unlink_step_prev :
      (x : ℕ → Option Ptr)
      → update_at (unlink_nexts i at_p at_t (at_p i) x) i (at_t i)
        ≡ unlink_nexts (suc i) at_p at_t (at_p i) x
  unlink_step_prev x = fun_ext λ j. elim (Bool-cases (j == i)) [
    | inl e ↦ rw (==_sound j i e) (ground arith)
    | inr e ↦ ground arith
  ]

  unlink_step_other :
      (q : Ptr) (x : ℕ → Option Ptr)
      → (q == at_p i) ≡ false
      → unlink_nexts i at_p at_t q x ≡ unlink_nexts (suc i) at_p at_t q x
  unlink_step_other q x d = fun_ext λ j. elim (Bool-cases (j == i)) [
    | inl e ↦ rw (==_sound j i e, d) (ground arith)
    | inr e ↦ ground arith
  ]

pub record Unlinked (h : Heap) (node : Ptr) (prevs : Prevs) (n : ℕ) (at_p at_t : ℕ → Ptr)
    : Type 0 where
  pub heap : Heap
  pub unlinked : unlink n node prevs h ≡ some heap
  pub relinked : IsRelinked (unlink_nexts n at_p at_t) h heap

-- The array of the node itself is not assigned.
own_target :
    (i node : ℕ) (at_p at_t : ℕ → Ptr) (h h₁ : Heap) (old : Node)
    → IsRelinked (unlink_nexts i at_p at_t) h h₁
    → at h node ≡ some old
    → old.nexts i ≡ some (at_t i)
    → next_at h₁ node i ≡ some (at_t i)
unfolding next_at
own_target i node at_p at_t h h₁ old r e t = rw (r.nodes node, e, Option.map, ◌>>=◌, below i) t
  where
    below : (i : ℕ) → ltb i i ≡ false
    below i = ground arith

-- The loop of del ends, and the nodes in front take over the array of the node.
pub unlink_lem :
    (h : Heap) (node : Ptr) (old : Node) (prevs : Prevs) (n : ℕ) (at_p at_t : ℕ → Ptr)
    → at h node ≡ some old
    → ((i : ℕ) → ltb i n ≡ true → old.nexts i ≡ some (at_t i))
    → ((i : ℕ) → ltb i n ≡ true → Site h node prevs i (at_p i) node)
    → Unlinked h node prevs n at_p at_t
unfolding unlink
unlink_lem h node old prevs zero at_p at_t e l w = record {
  heap = h;
  unlinked = refl;
  relinked = record { nodes = λ p. same p (at h p); longer = omega arith };
}
  where
    same :
        (p : Ptr) (o : Option Node)
        → o ≡ Option.map (λ n. set_nexts (unlink_nexts 0 at_p at_t p n.nexts) n) o
    same p none = refl
    same p (some m) = ap (λ x. some (set_nexts x m)) (fun_ext λ j. ground arith)
unlink_lem h node old prevs (suc i) at_p at_t e l w =
    let low =
      unlink_lem h node old prevs i at_p at_t e (λ j b. l j (up j i b)) (λ j b. w j (up j i b)) in
    let site = w i (top i) in
    let step =
      assign (unlink_nexts i at_p at_t) (unlink_nexts (suc i) at_p at_t) h low.heap (at_p i)
        site.before i (at_t i) low.relinked site.here site.level_in (unlink_step_prev i at_p at_t)
        (unlink_step_other i at_p at_t) in
    record {
      heap = step.heap;
      unlinked =
          rw
            (
              low.unlinked,
              ◌>>=◌,
              site.prev,
              ◌>>=◌,
              own_target i node at_p at_t h low.heap old low.relinked e (l i (top i)),
              ◌>>=◌,
            )
            step.assigned;
      relinked = step.relinked;
    }
