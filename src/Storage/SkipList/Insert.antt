-- ===== src/Storage/SkipList/Insert.antt =====
-- src/storage/SkipList.cpp: the branch of put that makes a node.
use ddbms.Base.{
  ℕ, ◌-◌, ◌≤◌, ◌≡◌, refl, sym, ◌∙◌, subst, ◌≢◌, inl, inr, true, false, none, some, List, [], ◌∷◌,
  ◌++◌, ltb, leb, ◌==◌, if◌then◌else◌, All, arith, Bool-cases, none_absurd,
}
use ddbms.Storage.Block.{◌>>=◌}
use ddbms.Storage.SkipList.{
  Ptr, nullptr, Node, Heap, SkipList, at, get_max_height, max_height, random_height,
}
use ddbms.Storage.SkipList.Update.{insert_node, fill_prevs}
use ddbms.Storage.SkipList.Chain.{
  Entry, last_ptr, last_ptr-Lacks, entry_node, IsChain, IsPlaced, IsSkipList,
}
use ddbms.Storage.SkipList.Search.{prevs_of}
use ddbms.Storage.SkipList.Lookup.{no_prevs}
use ddbms.Storage.SkipList.Key.{AllLess, AllGreater}
use ddbms.Storage.SkipList.Arrays.{Out}
use ddbms.Storage.SkipList.Raise.{levels, raise_lem, IsPlaced-Lacks}
use ddbms.Storage.SkipList.Levels.{IsPlaced-front}
use ddbms.Storage.SkipList.Linked.{Fits, link_loop, linked_list, linked_list-IsSkipList}

-- `new` returns an address that is not in use.
pub record IsAllocator (alloc : Heap → Ptr) : Type 0 where
  pub fresh : (h : Heap) → at h (alloc h) ≡ none
  pub not_null : (h : Heap) → alloc h ≢ nullptr

pub fresh_other :
    (h : Heap) (p q : Ptr) (n : Node) → at h p ≡ none → at h q ≡ some n → (p == q) ≡ false
fresh_other h p q n e f = elim (Bool-cases (p == q)) [
  | inl t ↦ absurd (none_absurd n (sym (subst (λ z. at h z ≡ none) (is_eq p q t) e) ∙ f))
  | inr d ↦ d
]
  where
    is_eq : (a b : Ptr) → (a == b) ≡ true → a ≡ b
    is_eq a b t = ground (arith, t)

fresh-Out :
    (h : Heap) (tail p : Ptr) (cs : List Entry) → at h p ≡ none → IsChain h tail cs → Out p cs
unfolding IsChain
fresh-Out h tail p [] e w = tt
fresh-Out h tail p (c ∷ cs) e w =
    (fresh_other h p c.ptr (entry_node tail c cs) e (w.0), fresh-Out h tail p cs e (w.1))

-- The array `prevs` of a put holds the last smaller entry of each level, the new levels included.
fill_prevs_lem :
    (head tail : Ptr) (old height i : ℕ) (xs : List Entry)
    → All (IsPlaced head tail old) xs
    → 1 ≤ old
    → ltb i height ≡ true
    → fill_prevs old height head (prevs_of (old - 1) head xs no_prevs) i ≡ some (last_ptr head i xs)
fill_prevs_lem head tail old height i xs a o l = elim (Bool-cases (leb old i)) [
  | inl t ↦
      rw
        (
          t,
          l,
          if◌then◌else◌,
          last_ptr-Lacks head i xs (IsPlaced-Lacks head tail old i xs a (up old t)),
        )
        refl
  | inr f ↦ rw (f, if◌then◌else◌, low old f o) refl
]
  where
    up : (n : ℕ) → leb n i ≡ true → n ≤ i
    up n t = ground (arith, t)

    low : (n : ℕ) → leb n i ≡ false → 1 ≤ n → leb i (n - 1) ≡ true
    low n f o = ground (arith, f, o)

pub random_height_bounds : (ones : ℕ) → (1 ≤ random_height ones) × (random_height ones ≤ max_height)
unfolding random_height
random_height_bounds ones = (ground arith, ground arith)

-- The list behind a put of a new key.
pub record Inserted (alloc : Heap → Ptr) (s : SkipList) (old height : ℕ) (key value : List ℕ)
    (xs bs : List Entry) : Type 0 where
  pub list : SkipList
  pub new : Entry
  pub inserted :
      insert_node alloc height key value (prevs_of (old - 1) s.head xs no_prevs) s ≡ some list
  pub new_key : new.key ≡ key
  pub new_value : new.value ≡ value
  pub is_list : IsSkipList list (levels old height) (xs ++ new ∷ bs)

abbrev fresh_entry : (Heap → Ptr) → SkipList → List ℕ → List ℕ → ℕ → Entry
fresh_entry alloc s key value height = record {
  ptr = alloc s.heap;
  key = key;
  value = value;
  height = height;
}

fresh_Fits :
    (alloc : Heap → Ptr) (s : SkipList) (top : ℕ) (key value : List ℕ) (xs bs : List Entry)
    (height : ℕ)
    → IsAllocator alloc
    → IsSkipList s top (xs ++ bs)
    → AllLess key xs
    → AllGreater key bs
    → 1 ≤ height
    → height ≤ top
    → Fits s top xs (fresh_entry alloc s key value height) bs
fresh_Fits alloc s top key value xs bs height a w l g one up = record {
  less = l;
  greater = g;
  own = fresh-Out s.heap s.tail (alloc s.heap) (xs ++ bs) (a.fresh s.heap) w.chain;
  placed = record {
    not_null = a.not_null s.heap;
    not_head =
        other (alloc s.heap) s.head
          (fresh_other s.heap (alloc s.heap) s.head _ (a.fresh s.heap) w.head_node);
    not_tail =
        other (alloc s.heap) s.tail
          (fresh_other s.heap (alloc s.heap) s.tail _ (a.fresh s.heap) w.tail_node);
    one_level = one;
    in_levels = up;
  };
}
  where
    other : (p q : Ptr) → (p == q) ≡ false → p ≢ q
    other p q n = ground (arith, n)

pub insert_node_lem :
    (alloc : Heap → Ptr) (s : SkipList) (old height : ℕ) (key value : List ℕ) (xs bs : List Entry)
    → IsAllocator alloc
    → IsSkipList s old (xs ++ bs)
    → AllLess key xs
    → AllGreater key bs
    → 1 ≤ height
    → height ≤ max_height
    → Inserted alloc s old height key value xs bs
unfolding insert_node get_max_height
insert_node_lem alloc s old height key value xs bs a w l g one m =
    let r = raise_lem s old height (xs ++ bs) w m in
    let new = fresh_entry alloc r.list key value height in
    let fits =
      fresh_Fits alloc r.list (levels old height) key value xs bs height a r.is_list l g one up in
    let prevs = fill_prevs old height s.head (prevs_of (old - 1) s.head xs no_prevs) in
    let loop = link_loop r.list (levels old height) xs new bs r.is_list fits prevs (λ i t.
      rw (r.head_kept) (
        fill_prevs_lem s.head s.tail old height i xs (IsPlaced-front s old xs bs w) w.one_level
          t)) in
    record {
      list = linked_list r.list (levels old height) xs new bs r.is_list fits prevs loop;
      new = new;
      inserted = rw (w.head_node, ◌>>=◌, r.raised, ◌>>=◌, loop.linked, ◌>>=◌) refl;
      new_key = refl;
      new_value = refl;
      is_list =
          linked_list-IsSkipList r.list (levels old height) xs new bs r.is_list fits prevs loop;
    }
  where
    up : height ≤ levels old height
    up = ground arith
