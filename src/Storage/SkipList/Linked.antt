-- ===== src/Storage/SkipList/Linked.antt =====
-- src/storage/SkipList.cpp: the list that put leaves when it has linked the new node in.
use ddbms.Base.{
  ℕ, ◌+◌, ◌≡◌, refl, ◌∙◌, fun_ext, ◌≢◌, true, false, none, some, List, ◌∷◌, ◌++◌, length, ltb, ◌==◌,
  if◌then◌else◌, All-append, append-All, arith, length-append,
}
use ddbms.Base.Words.{u64}
use mathlib.Core.Option
use ddbms.Storage.SkipList.{Ptr, Heap, SkipList, Prevs, at, write, new_node}
use ddbms.Storage.SkipList.Update.{tail_nexts}
use ddbms.Storage.SkipList.Chain.{
  Entry, links, IsChain, IsChain-append, IsPlaced, IsSkipList, bytes_of,
}
use ddbms.Storage.SkipList.Key.{AllLess, AllGreater}
use ddbms.Storage.SkipList.Link.{at-write, length-write, ==_refl, Linked, link_lem, link_nexts}
use ddbms.Storage.SkipList.Arrays.{Out}
use ddbms.Storage.SkipList.Splice.{targets, link_nexts-links, link_nexts-off}
use ddbms.Storage.SkipList.Sites.{IsChain-write, IsChain-link, IsChain-link-Off, site}
use ddbms.Storage.SkipList.Sorted.{IsSorted-insert, IsApart-insert, bytes_of-append}
use ddbms.Storage.SkipList.Levels.{
  before, IsPlaced-front, IsPlaced-behind, behind-Off, tail_off, front_last, head_last,
}

-- What an entry needs to be put between two parts of a list.
pub record Fits (s : SkipList) (height : ℕ) (xs : List Entry) (new : Entry) (bs : List Entry)
    : Type 0 where
  pub less : AllLess new.key xs
  pub greater : AllGreater new.key bs
  pub own : Out new.ptr (xs ++ bs)
  pub placed : IsPlaced s.head s.tail height new

module _ (s : SkipList) (height : ℕ) (xs : List Entry) (new : Entry) (bs : List Entry)
    (w : IsSkipList s height (xs ++ bs)) (fits : Fits s height xs new bs) where
  abbrev pub allocated : Heap
  allocated = write s.heap new.ptr (some (new_node new.key new.value new.height))

  front_own : Out new.ptr xs
  front_own = (All-append (λ c. (new.ptr == c.ptr) ≡ false) xs bs fits.own).0

  behind_own : Out new.ptr bs
  behind_own = (All-append (λ c. (new.ptr == c.ptr) ≡ false) xs bs fits.own).1

  other_end : (p : Ptr) → new.ptr ≢ p → (p == new.ptr) ≡ false
  other_end p n = ground (arith, n)

  kept : (p : Ptr) → (p == new.ptr) ≡ false → at allocated p ≡ at s.heap p
  kept p n =
      at-write s.heap new.ptr p (some (new_node new.key new.value new.height))
      ∙ rw (n, if◌then◌else◌) refl

  new_here : at allocated new.ptr ≡ some (new_node new.key new.value new.height)
  new_here =
      at-write s.heap new.ptr new.ptr (some (new_node new.key new.value new.height))
      ∙ rw (==_refl new.ptr, if◌then◌else◌) refl

  old-IsChain : IsChain allocated s.tail (xs ++ bs)
  old-IsChain =
      IsChain-write s.heap s.tail new.ptr (some (new_node new.key new.value new.height)) (xs ++ bs)
        fits.own w.chain

  head_other : (s.head == new.ptr) ≡ false
  head_other = other_end s.head fits.placed.not_head

  tail_other : (s.tail == new.ptr) ≡ false
  tail_other = other_end s.tail fits.placed.not_tail

  below : (i : ℕ) → ltb i new.height ≡ true → ltb i height ≡ true
  below i l = ground (arith, l, fits.placed.in_levels)

  -- The loop ends.
  pub link_loop :
      (prevs : Prevs)
      → ((i : ℕ) → ltb i new.height ≡ true → prevs i ≡ some (before s.head xs i))
      → Linked allocated new.ptr prevs new.height (before s.head xs) (targets s.tail bs)
  link_loop prevs p =
      link_lem allocated new.ptr (new_node new.key new.value new.height) prevs new.height
        (before s.head xs) (targets s.tail bs) new_here (λ i l. l)
        (λ i l.
          site allocated s.head s.tail new.ptr height i xs bs prevs
            (kept s.head head_other ∙ w.head_node) old-IsChain (p i l) (below i l) head_other
            front_own)

  module _ (prevs : Prevs)
      (l : Linked allocated new.ptr prevs new.height (before s.head xs) (targets s.tail bs)) where
    head_links :
        link_nexts new.height new.ptr
          (before s.head xs)
          (targets s.tail bs)
          s.head
          (links s.tail height (xs ++ bs))
        ≡ links s.tail height (xs ++ new ∷ bs)
    head_links =
        link_nexts-links s.tail (before s.head xs) new bs s.head height xs head_other
          (λ j t. head_last s height xs bs w j (below j t))

    new_links :
        (j : ℕ)
        → link_nexts new.height new.ptr (before s.head xs) (targets s.tail bs) new.ptr (λ i. none) j
          ≡ links s.tail new.height bs j
    new_links j = rw (==_refl new.ptr, if◌then◌else◌) refl

    new-IsChain : IsChain l.heap s.tail (new ∷ bs)
    unfolding IsChain
    new-IsChain = (
      rw (l.relinked.nodes new.ptr, new_here, Option.map, fun_ext new_links) refl,
      IsChain-link-Off allocated l.heap s.tail (before s.head xs) new bs bs l.relinked behind_own
          (behind-Off s height xs bs w) (IsChain-append allocated s.tail xs bs old-IsChain),
    )

    abbrev pub linked_list : SkipList
    linked_list = record s {
      heap = l.heap;
      num_entries = u64 (s.num_entries + 1);
      num_bytes = u64 (s.num_bytes + length new.key + length new.value);
    }

    pub linked_list-IsSkipList : IsSkipList linked_list height (xs ++ new ∷ bs)
    unfolding bytes_of
    linked_list-IsSkipList = record {
      head_node =
          rw (l.relinked.nodes s.head, kept s.head head_other, w.head_node, Option.map, head_links)
            refl;
      tail_node =
          rw
            (
              l.relinked.nodes s.tail,
              kept s.tail tail_other,
              w.tail_node,
              Option.map,
              link_nexts-off new.height new.ptr (before s.head xs) (targets s.tail bs) s.tail
                  (tail_nexts height) tail_other (tail_off s height xs bs w),
            )
            refl;
      chain =
          IsChain-link allocated l.heap s.tail (before s.head xs) new bs xs l.relinked front_own
            (front_last s height xs bs w) old-IsChain new-IsChain;
      sorted = IsSorted-insert xs new bs w.sorted fits.less fits.greater;
      apart = IsApart-insert xs new bs w.apart fits.own;
      placed =
          append-All (IsPlaced s.head s.tail height) xs (new ∷ bs) (IsPlaced-front s height xs bs w)
            (fits.placed, IsPlaced-behind s height xs bs w);
      ends_apart = w.ends_apart;
      head_not_null = w.head_not_null;
      tail_not_null = w.tail_not_null;
      one_level = w.one_level;
      levels = w.levels;
      room = omega (
        arith,
        w.room,
        length-append xs bs,
        length-append xs (new ∷ bs),
        l.relinked.longer,
        length-write s.heap new.ptr (some (new_node new.key new.value new.height)),
      );
      count = omega (arith, w.count, length-append xs bs, length-append xs (new ∷ bs));
      size = omega (arith, w.size, bytes_of-append xs bs, bytes_of-append xs (new ∷ bs));
    }
