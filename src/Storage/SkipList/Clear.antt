-- ===== src/Storage/SkipList/Clear.antt =====
-- src/storage/SkipList.cpp: the constructor's init, and clear.
use ddbms.Base.{
  ℕ, suc, ◌+◌, ◌-◌, ◌≤◌, ◌≡◌, refl, ap, sym, ◌∙◌, subst, fun_ext, ◌≢◌, inl, inr, true, false, none,
  some, List, [], ◌∷◌, length, ltb, ◌==◌, if◌then◌else◌, All, arith, Bool-cases,
}
use ddbms.Storage.Block.{◌>>=◌}
use ddbms.Storage.SkipList.{
  Ptr, nullptr, Node, Heap, SkipList, at, write, new_node, update_at, next_at, init,
}
use ddbms.Storage.SkipList.Update.{clear_loop, clear, tail_nexts}
use ddbms.Storage.SkipList.Chain.{
  Entry, first_ptr, end_node, IsChain, IsPlaced, IsSkipList, IsSorted, IsApart, bytes_of,
}
use ddbms.Storage.SkipList.Link.{at-write, ==_refl}
use ddbms.Storage.SkipList.Sites.{IsChain-write}
use ddbms.Storage.SkipList.Raise.{differs, Out-head}
use ddbms.Storage.SkipList.Sorted.{Out-behind}
use ddbms.Storage.SkipList.Insert.{IsAllocator, fresh_other}

-- The array of a new head and of a new tail.
one_link : (p : Ptr) → update_at (λ j. none) 0 p ≡ (λ j. if ltb j 1 then some p else none)
one_link p = fun_ext λ j. ground arith

-- A new list is empty and well formed.
pub init-IsSkipList :
    (alloc : Heap → Ptr) (h : Heap) → IsAllocator alloc → IsSkipList (init alloc h) 1 []
unfolding init write first_ptr IsChain IsSorted IsApart bytes_of
init-IsSkipList alloc h a = record {
  head_node =
      at-write with_tail head head (some head_node)
      ∙ rw (==_refl head, if◌then◌else◌, one_link tail) refl;
  tail_node =
      at-write with_tail head tail (some head_node)
      ∙ rw (fresh_tail, if◌then◌else◌)
          (at-write with_head tail tail (some tail_node)
            ∙ rw (==_refl tail, if◌then◌else◌, one_link nullptr) refl);
  chain = tt;
  sorted = tt;
  apart = tt;
  placed = tt;
  ends_apart = λ e. apart_ends fresh_tail (sym e);
  head_not_null = a.not_null h;
  tail_not_null = a.not_null with_head;
  one_level = omega arith;
  levels = omega arith;
  room = omega arith;
  count = refl;
  size = refl;
}
  where
    head : Ptr
    head = alloc h

    with_head : Heap
    with_head = (head, some (new_node [] [] 1)) ∷ h

    tail : Ptr
    tail = alloc with_head

    head_node : Node
    head_node = record (new_node [] [] 1) { nexts = update_at (λ j. none) 0 tail }

    tail_node : Node
    tail_node = record (new_node [] [] 1) { nexts = update_at (λ j. none) 0 nullptr }

    with_tail : Heap
    with_tail = (tail, some tail_node) ∷ with_head

    fresh_tail : (tail == head) ≡ false
    fresh_tail =
        fresh_other with_head tail head (new_node [] [] 1) (a.fresh with_head)
          (at-write h head head (some (new_node [] [] 1)) ∙ rw (==_refl head, if◌then◌else◌) refl)

    apart_ends : {p q : Ptr} → (p == q) ≡ false → p ≢ q
    apart_ends n = ground (arith, n)

-- Every node is given back.
pub record IsFreed (h' : Heap) (tail : Ptr) (cs : List Entry) : Type 0 where
  pub tail_free : at h' tail ≡ none
  pub entries_free : All (λ c. at h' c.ptr ≡ none) cs

record Cleared (fuel : ℕ) (h : Heap) (tail : Ptr) (cs : List Entry) : Type 0 where
  heap : Heap
  cleared : clear_loop fuel h (first_ptr tail 0 cs) ≡ some heap
  freed : IsFreed heap tail cs
  still_free : (q : Ptr) → at h q ≡ none → at heap q ≡ none

free_write : (h : Heap) (p q : Ptr) → at h q ≡ none → at (write h p none) q ≡ none
free_write h p q e = at-write h p q none ∙ elim (Bool-cases (q == p)) [
  | inl t ↦ rw (t, if◌then◌else◌) refl
  | inr f ↦ rw (f, if◌then◌else◌) e
]

clear_node :
    (fuel : ℕ) (h : Heap) (p t : Ptr) (n : Node)
    → p ≢ nullptr
    → at h p ≡ some n
    → n.nexts 0 ≡ some t
    → clear_loop (suc fuel) h p ≡ clear_loop fuel (write h p none) t
unfolding clear_loop next_at
clear_node fuel h p t n o e q =
    rw (differs nullptr p (λ x. o (sym x)), if◌then◌else◌, e, ◌>>=◌, q, ◌>>=◌) refl

module _ (head tail : Ptr) (height : ℕ) (not_null : tail ≢ nullptr) (one : 1 ≤ height) where
  first_level : (n : ℕ) → 1 ≤ n → ltb 0 n ≡ true
  first_level n h = ground (arith, h)

  clear_loop_lem :
      (fuel : ℕ) (h : Heap) (cs : List Entry)
      → IsChain h tail cs
      → at h tail ≡ some (end_node height (tail_nexts height))
      → IsApart cs
      → All (IsPlaced head tail height) cs
      → Cleared (suc (suc (length cs)) + fuel) h tail cs
  unfolding IsChain IsApart first_ptr clear_loop
  clear_loop_lem fuel h [] c e a p = record {
    heap = write h tail none;
    cleared = rw (two fuel) (
        clear_node (suc fuel) h tail nullptr _ not_null e
          (rw (first_level height one, if◌then◌else◌) refl)
        ∙ end_loop fuel (write h tail none));
    freed = record {
      tail_free = at-write h tail tail none ∙ rw (==_refl tail, if◌then◌else◌) refl;
      entries_free = tt;
    };
    still_free = λ q f. free_write h tail q f;
  }
    where
      two : (n : ℕ) → suc (suc 0) + n ≡ suc (suc n)
      two n = omega arith

      end_loop : (n : ℕ) (g : Heap) → clear_loop (suc n) g nullptr ≡ some g
      end_loop n g = refl
  clear_loop_lem fuel h (c ∷ cs) w e a p =
      let first = first_level c.height (p.0.one_level) in
      let rest =
        clear_loop_lem fuel (write h c.ptr none) cs
          (IsChain-write h tail c.ptr none cs (Out-behind [] c cs a) (w.1))
          (at-write h c.ptr tail none ∙ rw (differs c.ptr tail (p.0.not_tail), if◌then◌else◌) e)
          (a.1) (p.1) in
      record {
        heap = rest.heap;
        cleared =
            rw (first, if◌then◌else◌, more fuel (length cs))
              (clear_node (suc (suc (length cs)) + fuel) h c.ptr (first_ptr tail 0 cs) _
                  (p.0.not_null) (w.0) (rw (first, if◌then◌else◌) refl)
                ∙ rest.cleared);
        freed = record {
          tail_free = rest.freed.tail_free;
          entries_free = (
            rest.still_free c.ptr
                (at-write h c.ptr c.ptr none ∙ rw (==_refl c.ptr, if◌then◌else◌) refl),
            rest.freed.entries_free,
          );
        };
        still_free = λ q f. rest.still_free q (free_write h c.ptr q f);
      }
    where
      more : (n m : ℕ) → suc (suc (suc m)) + n ≡ suc (suc (suc m) + n)
      more n m = omega arith

-- What clear leaves: a new list, and no node of the old one.
pub record Emptied (alloc : Heap → Ptr) (s : SkipList) (cs : List Entry) : Type 0 where
  pub heap : Heap
  pub cleared : clear alloc s ≡ some (init alloc heap)
  pub freed : IsFreed heap s.tail cs
  pub head_free : at heap s.head ≡ none

-- clear on a well-formed list returns: it frees the head, every entry and the tail, each of them in
-- use when it is read, and leaves what the constructor makes.
pub clear_lem :
    (alloc : Heap → Ptr) (s : SkipList) (height : ℕ) (cs : List Entry)
    → IsSkipList s height cs
    → Emptied alloc s cs
unfolding clear
clear_lem alloc s height cs w =
    let fuel = length s.heap - length cs in
    let rest =
      clear_loop_lem s.head s.tail height w.tail_not_null w.one_level fuel
        (write s.heap s.head none) cs
        (IsChain-write s.heap s.tail s.head none cs (Out-head s.head s.tail height cs w.placed)
          w.chain)
        (at-write s.heap s.head s.tail none
          ∙ rw (differs s.head s.tail w.ends_apart, if◌then◌else◌) w.tail_node)
        w.apart w.placed in
    record {
      heap = rest.heap;
      cleared =
          ap (λ o. o >>= (λ h. some (init alloc h)))
            (subst (λ n. clear_loop n s.heap s.head ≡ some rest.heap) enough
              (clear_node (suc (suc (length cs)) + fuel) s.heap s.head (first_ptr s.tail 0 cs) _
                  w.head_not_null w.head_node
                  (rw
                    (
                      first_level s.head s.tail height w.tail_not_null w.one_level height
                          w.one_level,
                      if◌then◌else◌,
                    )
                    refl)
                ∙ rest.cleared));
      freed = rest.freed;
      head_free =
          rest.still_free s.head
            (at-write s.heap s.head s.head none ∙ rw (==_refl s.head, if◌then◌else◌) refl);
    }
  where
    enough : suc (suc (suc (length cs)) + (length s.heap - length cs)) ≡ length s.heap + 3
    enough = omega (arith, w.room)
