-- ===== src/Storage/SkipList/Link.antt =====
-- src/storage/SkipList.cpp: what the loops of put and del over the levels do to every node.
use ddbms.Base.{
  ℕ, zero, suc, ◌≤◌, ◌≡◌, refl, ap, sym, ◌∙◌, subst, fun_ext, inl, inr, true, false, Option, none,
  some, length, ltb, ◌==◌, if◌then◌else◌, arith, Bool-cases,
}
use mathlib.Core.Option
use ddbms.Storage.Block.{◌>>=◌}
use ddbms.Storage.SkipList.{
  Ptr, Node, Heap, Prevs, at, write, update_at, set_nexts, next_at, set_next,
}
use ddbms.Storage.SkipList.Update.{link}

-- A heap with new arrays in its nodes.
pub record IsRelinked (f : Ptr → (ℕ → Option Ptr) → ℕ → Option Ptr) (h h' : Heap) : Type 0 where
  pub nodes : (p : Ptr) → at h' p ≡ Option.map (λ n. set_nexts (f p n.nexts) n) (at h p)
  pub longer : length h ≤ length h'

-- Where a level is linked: the node that `prevs` names, and the next one.
pub record Site (h : Heap) (node : Ptr) (prevs : Prevs) (i : ℕ) (p t : Ptr) : Type 0 where
  pub before : Node
  pub prev : prevs i ≡ some p
  pub here : at h p ≡ some before
  pub level_in : ltb i before.height ≡ true
  pub target : before.nexts i ≡ some t
  pub other : (p == node) ≡ false

abbrev pub link_nexts : ℕ → Ptr → (ℕ → Ptr) → (ℕ → Ptr) → Ptr → (ℕ → Option Ptr) → ℕ → Option Ptr
link_nexts n node at_p at_t p f j =
    if ltb j n
    then if p == node then some (at_t j) else if p == at_p j then some node else f j
    else f j

at_eq : (h : Heap) (q p : Ptr) (c : Option Node) → (p == q) ≡ true → at (write h q c) p ≡ c
unfolding at write
at_eq h q p c e = rw (e, if◌then◌else◌) refl

pub at-write :
    (h : Heap) (q p : Ptr) (c : Option Node) → at (write h q c) p ≡ (if p == q then c else at h p)
unfolding at write
at-write h q p c = refl

pub length-write : (h : Heap) (q : Ptr) (c : Option Node) → length (write h q c) ≡ suc (length h)
unfolding write
length-write h q c = refl

pub ==_sound : (a b : ℕ) → (a == b) ≡ true → a ≡ b
==_sound a b h = ground arith

pub ==_refl : (a : ℕ) → (a == a) ≡ true
==_refl a = ground arith

-- The arrays after one more level.
link_step_node :
    (i node : ℕ) (at_p at_t : ℕ → Ptr) (f : ℕ → Option Ptr)
    → update_at (link_nexts i node at_p at_t node f) i (at_t i)
      ≡ link_nexts (suc i) node at_p at_t node f
link_step_node i node at_p at_t f = fun_ext λ j. elim (Bool-cases (j == i)) [
  | inl e ↦ rw (==_sound j i e) (ground arith)
  | inr e ↦ ground arith
]

link_step_prev :
    (i node : ℕ) (at_p at_t : ℕ → Ptr) (f : ℕ → Option Ptr)
    → (at_p i == node) ≡ false
    → update_at (link_nexts i node at_p at_t (at_p i) f) i node
      ≡ link_nexts (suc i) node at_p at_t (at_p i) f
link_step_prev i node at_p at_t f o = fun_ext λ j. elim (Bool-cases (j == i)) [
  | inl e ↦ rw (==_sound j i e, o) (ground arith)
  | inr e ↦ ground arith
]

link_step_other :
    (i node p : ℕ) (at_p at_t : ℕ → Ptr) (f : ℕ → Option Ptr)
    → (p == node) ≡ false
    → (p == at_p i) ≡ false
    → link_nexts i node at_p at_t p f ≡ link_nexts (suc i) node at_p at_t p f
link_step_other i node p at_p at_t f o q = fun_ext λ j. elim (Bool-cases (j == i)) [
  | inl e ↦ rw (==_sound j i e, o, q) (ground arith)
  | inr e ↦ ground arith
]

abbrev pub Arrays : Type 0
Arrays = Ptr → (ℕ → Option Ptr) → ℕ → Option Ptr

-- The arrays between the two assignments of a level: the new node has it, the one before not yet.
abbrev mid_nexts : ℕ → Ptr → (ℕ → Ptr) → (ℕ → Ptr) → Arrays
mid_nexts i node at_p at_t q x =
    if q == node then link_nexts (suc i) node at_p at_t q x else link_nexts i node at_p at_t q x

module _ (i : ℕ) (node : Ptr) (at_p at_t : ℕ → Ptr) where
  mid-node :
      (x : ℕ → Option Ptr)
      → update_at (link_nexts i node at_p at_t node x) i (at_t i)
        ≡ mid_nexts i node at_p at_t node x
  mid-node x = rw (==_refl node, if◌then◌else◌) (link_step_node i node at_p at_t x)

  mid-other :
      (q : Ptr) (x : ℕ → Option Ptr)
      → (q == node) ≡ false
      → link_nexts i node at_p at_t q x ≡ mid_nexts i node at_p at_t q x
  mid-other q x d = rw (d, if◌then◌else◌) refl

  mid-prev :
      (at_p i == node) ≡ false
      → (x : ℕ → Option Ptr)
      → update_at (mid_nexts i node at_p at_t (at_p i) x) i node
        ≡ link_nexts (suc i) node at_p at_t (at_p i) x
  mid-prev o x = rw (o, if◌then◌else◌) (link_step_prev i node at_p at_t x o)

  mid-rest :
      (q : Ptr) (x : ℕ → Option Ptr)
      → (q == at_p i) ≡ false
      → mid_nexts i node at_p at_t q x ≡ link_nexts (suc i) node at_p at_t q x
  mid-rest q x d = elim (Bool-cases (q == node)) [
    | inl t ↦ rw (t, if◌then◌else◌) refl
    | inr f ↦ rw (f, if◌then◌else◌) (link_step_other i node q at_p at_t x f d)
  ]

pub up : (j i : ℕ) → ltb j i ≡ true → ltb j (suc i) ≡ true
up j i b = ground arith

pub top : (i : ℕ) → ltb i (suc i) ≡ true
top i = ground arith

pub record Assigned (g : Arrays) (h h₁ : Heap) (p : Ptr) (i : ℕ) (t : Ptr) : Type 0 where
  pub heap : Heap
  pub assigned : set_next h₁ p i t ≡ some heap
  pub relinked : IsRelinked g h heap

-- One assignment more.
pub assign :
    (f g : Arrays) (h h₁ : Heap) (p : Ptr) (n : Node) (i : ℕ) (t : Ptr)
    → IsRelinked f h h₁
    → at h p ≡ some n
    → ltb i n.height ≡ true
    → ((x : ℕ → Option Ptr) → update_at (f p x) i t ≡ g p x)
    → ((q : Ptr) (x : ℕ → Option Ptr) → (q == p) ≡ false → f q x ≡ g q x)
    → Assigned g h h₁ p i t
unfolding set_next
assign f g h h₁ p n i t r e l new old = record {
  heap = write h₁ p (some (set_nexts (update_at (f p n.nexts) i t) n));
  assigned = rw (r.nodes p, e, Option.map, ◌>>=◌, l, if◌then◌else◌) refl;
  relinked = record {
    nodes = λ q. elim (Bool-cases (q == p)) [
      | inl same ↦
          subst
            (λ z.
              at (write h₁ p (some (set_nexts (update_at (f p n.nexts) i t) n))) z
              ≡ Option.map (λ m. set_nexts (g z m.nexts) m) (at h z))
            (sym (==_sound q p same))
            (at_eq h₁ p p (some (set_nexts (update_at (f p n.nexts) i t) n)) (==_refl p)
              ∙ rw (e, Option.map, new n.nexts) refl)
      | inr differs ↦
          at-write h₁ p q (some (set_nexts (update_at (f p n.nexts) i t) n))
          ∙ rw (differs, if◌then◌else◌, r.nodes q) (keep (at h q) q (λ x. old q x differs))
    ];
    longer =
        omega
          (arith, r.longer, length-write h₁ p (some (set_nexts (update_at (f p n.nexts) i t) n)));
  };
}
  where
    keep :
        (o : Option Node) (q : Ptr)
        → ((x : ℕ → Option Ptr) → f q x ≡ g q x)
        → Option.map (λ m. set_nexts (f q m.nexts) m) o
          ≡ Option.map (λ m. set_nexts (g q m.nexts) m) o
    keep none q k = refl
    keep (some m) q k = ap (λ x. some (set_nexts x m)) (k m.nexts)

pub record Linked (h : Heap) (node : Ptr) (prevs : Prevs) (n : ℕ) (at_p at_t : ℕ → Ptr)
    : Type 0 where
  pub heap : Heap
  pub linked : link n node prevs h ≡ some heap
  pub relinked : IsRelinked (link_nexts n node at_p at_t) h heap

-- next_at behind the assignments of the lower levels reads what it read before them.
target_at :
    (i node : ℕ) (at_p at_t : ℕ → Ptr) (h h₁ : Heap) (prevs : Prevs)
    → IsRelinked (link_nexts i node at_p at_t) h h₁
    → Site h node prevs i (at_p i) (at_t i)
    → next_at h₁ (at_p i) i ≡ some (at_t i)
unfolding next_at
target_at i node at_p at_t h h₁ prevs r w =
    rw (r.nodes (at_p i), w.here, Option.map, ◌>>=◌, below i) w.target
  where
    below : (i : ℕ) → ltb i i ≡ false
    below i = ground arith

-- The loop of put ends, and sets the arrays of the new node and of the nodes in front of it.
pub link_lem :
    (h : Heap) (node : Ptr) (new : Node) (prevs : Prevs) (n : ℕ) (at_p at_t : ℕ → Ptr)
    → at h node ≡ some new
    → ((i : ℕ) → ltb i n ≡ true → ltb i new.height ≡ true)
    → ((i : ℕ) → ltb i n ≡ true → Site h node prevs i (at_p i) (at_t i))
    → Linked h node prevs n at_p at_t
unfolding link
link_lem h node new prevs zero at_p at_t e l w = record {
  heap = h;
  linked = refl;
  relinked = record { nodes = λ p. same p (at h p); longer = omega arith };
}
  where
    same :
        (p : Ptr) (o : Option Node)
        → o ≡ Option.map (λ n. set_nexts (link_nexts 0 node at_p at_t p n.nexts) n) o
    same p none = refl
    same p (some m) = ap (λ x. some (set_nexts x m)) (fun_ext λ j. ground arith)
link_lem h node new prevs (suc i) at_p at_t e l w =
    let low =
      link_lem h node new prevs i at_p at_t e (λ j b. l j (up j i b)) (λ j b. w j (up j i b)) in
    let site = w i (top i) in
    let mid = mid_nexts i node at_p at_t in
    let first =
      assign (link_nexts i node at_p at_t) mid h low.heap node new i (at_t i) low.relinked e
        (l i (top i)) (mid-node i node at_p at_t) (mid-other i node at_p at_t) in
    let second =
      assign mid (link_nexts (suc i) node at_p at_t) h first.heap (at_p i) site.before i node
        first.relinked site.here site.level_in (mid-prev i node at_p at_t site.other)
        (mid-rest i node at_p at_t) in
    record {
      heap = second.heap;
      linked =
          rw
            (
              low.linked,
              ◌>>=◌,
              site.prev,
              ◌>>=◌,
              target_at i node at_p at_t h low.heap prevs low.relinked site,
              ◌>>=◌,
              first.assigned,
              ◌>>=◌,
            )
            second.assigned;
      relinked = second.relinked;
    }
