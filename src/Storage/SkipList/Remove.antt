-- ===== src/Storage/SkipList/Remove.antt =====
-- src/storage/SkipList.cpp: the list that del leaves when it finds the key.
use ddbms.Base.{
  ℕ, ◌-◌, ◌≡◌, refl, ap, ◌∙◌, subst, ◌≢◌, true, false, none, some, List, ◌∷◌, ◌++◌, length, ltb,
  leb, ◌==◌, if◌then◌else◌, append-All, arith, length-append,
}
use mathlib.Core.Option
use ddbms.Base.Words.{u64, sub64}
use ddbms.Storage.Block.{◌>>=◌}
use ddbms.Storage.SkipList.{Ptr, SkipList, Prevs, at, write}
use ddbms.Storage.SkipList.Update.{delete_node, tail_nexts}
use ddbms.Storage.SkipList.Chain.{
  Entry, first_ptr, entry_node, IsChain, IsChain-append, IsPlaced, IsSkipList, bytes_of,
}
use ddbms.Storage.SkipList.Search.{prevs_of}
use ddbms.Storage.SkipList.Lookup.{no_prevs, node_at, IsPlaced-at}
use ddbms.Storage.SkipList.Link.{at-write, length-write, Site}
use ddbms.Storage.SkipList.Unlink.{Unlinked, unlink_lem}
use ddbms.Storage.SkipList.Arrays.{Out}
use ddbms.Storage.SkipList.Splice.{targets, unlink_nexts-links, unlink_nexts-off}
use ddbms.Storage.SkipList.Sites.{IsChain-write, IsChain-unlink, IsChain-unlink-Off, site}
use ddbms.Storage.SkipList.Sorted.{
  IsSorted-remove, IsApart-remove, Out-front, Out-behind, bytes_of-append,
}
use ddbms.Storage.SkipList.Levels.{
  before, IsPlaced-front, IsPlaced-behind, behind-Off, tail_off, front_last, head_last,
}

module _ (s : SkipList) (height : ℕ) (xs : List Entry) (b : Entry) (rest : List Entry)
    (w : IsSkipList s height (xs ++ b ∷ rest)) where
  IsPlaced-here : IsPlaced s.head s.tail height b
  IsPlaced-here = IsPlaced-at s height (xs ++ b ∷ rest) w xs b rest refl

  other_end : (p : Ptr) → b.ptr ≢ p → (p == b.ptr) ≡ false
  other_end p n = ground (arith, n)

  below : (i : ℕ) → ltb i b.height ≡ true → ltb i height ≡ true
  below i l = ground (arith, l, IsPlaced-here.in_levels)

  abbrev all_prevs : Prevs
  all_prevs = prevs_of (height - 1) s.head xs no_prevs

  known : (i : ℕ) → ltb i b.height ≡ true → all_prevs i ≡ some (before s.head xs i)
  known i l = rw (low, if◌then◌else◌) refl
    where
      low : leb i (height - 1) ≡ true
      low = ground (arith, l, IsPlaced-here.in_levels)

  remove-Site :
      (i : ℕ) → ltb i b.height ≡ true → Site s.heap b.ptr all_prevs i (before s.head xs i) b.ptr
  unfolding first_ptr
  remove-Site i l =
      subst (Site s.heap b.ptr all_prevs i (before s.head xs i))
        (ap (λ t. if t then b.ptr else first_ptr s.tail i rest) l)
        (site s.heap s.head s.tail b.ptr height i xs (b ∷ rest) all_prevs w.head_node w.chain
          (known i l) (below i l) (other_end s.head IsPlaced-here.not_head)
          (Out-front xs b rest w.apart))

  -- The loop ends.
  pub unlink_loop :
      Unlinked s.heap b.ptr all_prevs b.height (before s.head xs) (targets s.tail rest)
  unlink_loop =
      unlink_lem s.heap b.ptr (entry_node s.tail b rest) all_prevs b.height (before s.head xs)
        (targets s.tail rest) (node_at s height (xs ++ b ∷ rest) w xs b rest refl)
        (λ i l. rw (l, if◌then◌else◌) refl) remove-Site

  abbrev pub removed : SkipList
  removed = record s {
    heap = write unlink_loop.heap b.ptr none;
    num_entries = sub64 s.num_entries 1;
    num_bytes = sub64 (sub64 s.num_bytes (u64 (length b.key))) (u64 (length b.value));
  }

  pub delete_node_lem :
      delete_node b.ptr (prevs_of (height - 1) s.head xs no_prevs) s ≡ some removed
  unfolding delete_node
  delete_node_lem =
      rw (node_at s height (xs ++ b ∷ rest) w xs b rest refl, ◌>>=◌, unlink_loop.unlinked, ◌>>=◌)
        refl

  kept : (p : Ptr) → b.ptr ≢ p → at (write unlink_loop.heap b.ptr none) p ≡ at unlink_loop.heap p
  kept p n = at-write unlink_loop.heap b.ptr p none ∙ rw (other_end p n, if◌then◌else◌) refl

  rest-IsChain : IsChain s.heap s.tail rest
  unfolding IsChain
  rest-IsChain = (IsChain-append s.heap s.tail xs (b ∷ rest) w.chain).1

  removed-IsChain : IsChain unlink_loop.heap s.tail (xs ++ rest)
  unfolding IsChain
  removed-IsChain =
      IsChain-unlink s.heap unlink_loop.heap s.tail (before s.head xs) b rest xs
        unlink_loop.relinked (front_last s height xs (b ∷ rest) w) w.chain
        (IsChain-unlink-Off s.heap unlink_loop.heap s.tail (before s.head xs) b rest rest
          unlink_loop.relinked ((behind-Off s height xs (b ∷ rest) w).1) rest-IsChain)

  removed_own : Out b.ptr (xs ++ rest)
  removed_own =
      append-All (λ c. (b.ptr == c.ptr) ≡ false) xs rest (Out-front xs b rest w.apart)
        (Out-behind xs b rest w.apart)

  pub removed-IsSkipList : IsSkipList removed height (xs ++ rest)
  unfolding bytes_of
  removed-IsSkipList = record {
    head_node =
        kept s.head IsPlaced-here.not_head
        ∙ rw
            (
              unlink_loop.relinked.nodes s.head,
              w.head_node,
              Option.map,
              unlink_nexts-links s.tail (before s.head xs) b rest s.head height xs
                  (λ j t. head_last s height xs (b ∷ rest) w j (below j t)),
            )
            refl;
    tail_node =
        kept s.tail IsPlaced-here.not_tail
        ∙ rw
            (
              unlink_loop.relinked.nodes s.tail,
              w.tail_node,
              Option.map,
              unlink_nexts-off b.height (before s.head xs) (targets s.tail rest) s.tail
                  (tail_nexts height) (tail_off s height xs (b ∷ rest) w),
            )
            refl;
    chain =
        IsChain-write unlink_loop.heap s.tail b.ptr none (xs ++ rest) removed_own removed-IsChain;
    sorted = IsSorted-remove xs b rest w.sorted;
    apart = IsApart-remove xs b rest w.apart;
    placed =
        append-All (IsPlaced s.head s.tail height) xs rest (IsPlaced-front s height xs (b ∷ rest) w)
          ((IsPlaced-behind s height xs (b ∷ rest) w).1);
    ends_apart = w.ends_apart;
    head_not_null = w.head_not_null;
    tail_not_null = w.tail_not_null;
    one_level = w.one_level;
    levels = w.levels;
    room = omega (
      arith,
      w.room,
      length-append xs (b ∷ rest),
      length-append xs rest,
      unlink_loop.relinked.longer,
      length-write unlink_loop.heap b.ptr none,
    );
    count = omega (arith, w.count, length-append xs (b ∷ rest), length-append xs rest);
    size = omega (arith, w.size, bytes_of-append xs (b ∷ rest), bytes_of-append xs rest);
  }
