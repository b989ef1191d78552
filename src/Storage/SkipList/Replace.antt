-- ===== src/Storage/SkipList/Replace.antt =====
-- src/storage/SkipList.cpp: the branch of put that finds the key.
use ddbms.Base.{
  ℕ, ◌+◌, ◌≡◌, refl, ap, ◌∙◌, fun_ext, false, Option, some, none, List, [], ◌∷◌, ◌++◌, ◌≢◌, length,
  ltb, ◌==◌, if◌then◌else◌, append-All, arith, length-append,
}
use ddbms.Base.Words.{u64, sub64}
use ddbms.Storage.Block.{◌>>=◌}
use ddbms.Storage.SkipList.{Ptr, Node, Heap, SkipList, at, write}
use ddbms.Storage.SkipList.Update.{update_value}
use ddbms.Storage.SkipList.Chain.{
  Entry, first_ptr, links, end_node, entry_node, IsChain, IsChain-append, IsPlaced, IsSkipList,
  IsSorted, bytes_of,
}
use ddbms.Storage.SkipList.Key.{AllLess, AllGreater, IsSorted-append}
use ddbms.Storage.SkipList.Link.{at-write, length-write, ==_refl}
use ddbms.Storage.SkipList.Arrays.{Out}
use ddbms.Storage.SkipList.Sites.{IsChain-write}
use ddbms.Storage.SkipList.Lookup.{node_at, IsPlaced-at}
use ddbms.Storage.SkipList.Sorted.{
  IsSorted-insert, IsSorted-remove, IsApart-insert, IsApart-remove, Out-front, Out-behind,
  bytes_of-append,
}
use ddbms.Storage.SkipList.Levels.{IsPlaced-front, IsPlaced-behind}

abbrev pub with_value : List ℕ → Entry → Entry
with_value value b = record b { value = value }

first_ptr-with_value :
    (tail : Ptr) (j : ℕ) (ys : List Entry) (b : Entry) (value : List ℕ) (rest : List Entry)
    → first_ptr tail j (ys ++ b ∷ rest) ≡ first_ptr tail j (ys ++ with_value value b ∷ rest)
unfolding first_ptr
first_ptr-with_value tail j [] b value rest = refl
first_ptr-with_value tail j (y ∷ ys) b value rest =
    ap (λ p. if ltb j y.height then y.ptr else p) (first_ptr-with_value tail j ys b value rest)

links-with_value :
    (tail : Ptr) (height : ℕ) (ys : List Entry) (b : Entry) (value : List ℕ) (rest : List Entry)
    → links tail height (ys ++ b ∷ rest) ≡ links tail height (ys ++ with_value value b ∷ rest)
links-with_value tail height ys b value rest = fun_ext λ j.
    ap (λ p. if ltb j height then some p else none) (first_ptr-with_value tail j ys b value rest)

IsChain-replace :
    (h : Heap) (tail : Ptr) (ys : List Entry) (b : Entry) (value : List ℕ) (rest : List Entry)
    → Out b.ptr ys
    → IsChain h tail (ys ++ b ∷ rest)
    → IsChain
        (write h b.ptr (some (entry_node tail (with_value value b) rest)))
        tail
        (with_value value b ∷ rest)
    → IsChain
        (write h b.ptr (some (entry_node tail (with_value value b) rest)))
        tail
        (ys ++ with_value value b ∷ rest)
unfolding IsChain
IsChain-replace h tail [] b value rest o w n = n
IsChain-replace h tail (y ∷ ys) b value rest o w n = (
  at-write h b.ptr y.ptr (some (entry_node tail (with_value value b) rest))
      ∙ rw
          (
            flip b.ptr y.ptr (o.0),
            if◌then◌else◌,
            w.0,
            links-with_value tail y.height ys b value rest,
          )
          refl,
  IsChain-replace h tail ys b value rest (o.1) (w.1) n,
)
  where
    flip : (p q : Ptr) → (p == q) ≡ false → (q == p) ≡ false
    flip p q e = ground (arith, e)

module _ (s : SkipList) (height : ℕ) (xs : List Entry) (b : Entry) (rest : List Entry)
    (value : List ℕ) (w : IsSkipList s height (xs ++ b ∷ rest)) (less : AllLess b.key xs) where
  abbrev pub replaced : SkipList
  replaced = record s {
    num_bytes = u64 (sub64 s.num_bytes (u64 (length b.value)) + length value);
    heap = write s.heap b.ptr (some (entry_node s.tail (with_value value b) rest));
  }

  pub update_value_lem : update_value b.ptr value s ≡ some replaced
  unfolding update_value
  update_value_lem = rw (node_at s height (xs ++ b ∷ rest) w xs b rest refl, ◌>>=◌) refl

  replaced_greater : AllGreater b.key rest
  unfolding IsSorted
  replaced_greater = ((IsSorted-append xs (b ∷ rest) w.sorted).1).0

  abbrev new_node : Option Node
  new_node = some (entry_node s.tail (with_value value b) rest)

  replaced_end : (p : Ptr) → b.ptr ≢ p → at (write s.heap b.ptr new_node) p ≡ at s.heap p
  replaced_end p n = at-write s.heap b.ptr p new_node ∙ rw (other b.ptr p n, if◌then◌else◌) refl
    where
      other : (q p : Ptr) → q ≢ p → (p == q) ≡ false
      other q p n = ground (arith, n)

  IsPlaced-here : IsPlaced s.head s.tail height b
  IsPlaced-here = IsPlaced-at s height (xs ++ b ∷ rest) w xs b rest refl

  replaced-IsChain : IsChain (write s.heap b.ptr new_node) s.tail (with_value value b ∷ rest)
  unfolding IsChain
  replaced-IsChain = (
    at-write s.heap b.ptr b.ptr new_node ∙ rw (==_refl b.ptr, if◌then◌else◌) refl,
    IsChain-write s.heap s.tail b.ptr new_node rest (Out-behind xs b rest w.apart)
        ((IsChain-append s.heap s.tail xs (b ∷ rest) w.chain).1),
  )

  pub replaced-IsSkipList : IsSkipList replaced height (xs ++ with_value value b ∷ rest)
  unfolding bytes_of
  replaced-IsSkipList = record {
    head_node =
        replaced_end s.head IsPlaced-here.not_head
        ∙ w.head_node
        ∙ ap (λ f. some (end_node height f)) (links-with_value s.tail height xs b value rest);
    tail_node = replaced_end s.tail IsPlaced-here.not_tail ∙ w.tail_node;
    chain =
        IsChain-replace s.heap s.tail xs b value rest (Out-front xs b rest w.apart) w.chain
          replaced-IsChain;
    sorted =
        IsSorted-insert xs (with_value value b) rest (IsSorted-remove xs b rest w.sorted) less
          replaced_greater;
    apart = IsApart-insert xs (with_value value b) rest (IsApart-remove xs b rest w.apart) (
        append-All (λ c. (b.ptr == c.ptr) ≡ false) xs rest (Out-front xs b rest w.apart)
          (Out-behind xs b rest w.apart));
    placed =
        append-All (IsPlaced s.head s.tail height) xs (with_value value b ∷ rest)
          (IsPlaced-front s height xs (b ∷ rest) w)
          (same_place IsPlaced-here, (IsPlaced-behind s height xs (b ∷ rest) w).1);
    ends_apart = w.ends_apart;
    head_not_null = w.head_not_null;
    tail_not_null = w.tail_not_null;
    one_level = w.one_level;
    levels = w.levels;
    room = omega (
      arith,
      w.room,
      length-append xs (b ∷ rest),
      length-append xs (with_value value b ∷ rest),
      length-write s.heap b.ptr new_node,
    );
    count =
        omega (
          arith,
          w.count,
          length-append xs (b ∷ rest),
          length-append xs (with_value value b ∷ rest),
        );
    size = omega (
      arith,
      w.size,
      bytes_of-append xs (b ∷ rest),
      bytes_of-append xs (with_value value b ∷ rest),
    );
  }
    where
      same_place :
          IsPlaced s.head s.tail height b → IsPlaced s.head s.tail height (with_value value b)
      same_place p = record {
        not_null = p.not_null;
        not_head = p.not_head;
        not_tail = p.not_tail;
        one_level = p.one_level;
        in_levels = p.in_levels;
      }
