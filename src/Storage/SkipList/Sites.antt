-- ===== src/Storage/SkipList/Sites.antt =====
-- The places where put and del assign, and the chain behind their loops.
use ddbms.Base.{
  ℕ, ◌≡◌, refl, ap, sym, ◌∙◌, subst, true, false, Option, some, List, [], ◌∷◌, ◌++◌, ltb, ◌==◌,
  if◌then◌else◌, All, All-append, arith, append_assoc,
}
use mathlib.Core.Option
use ddbms.Storage.SkipList.{Ptr, Node, Heap, Prevs, at, write}
use ddbms.Storage.SkipList.Chain.{
  Entry, first_ptr, last_ptr, links, entry_node, end_node, IsChain, IsChain-append,
  first_ptr-append, last_ptr-Lacks,
}
use ddbms.Storage.SkipList.Link.{link_nexts, IsRelinked, Site, at-write}
use ddbms.Storage.SkipList.Unlink.{unlink_nexts}
use ddbms.Storage.SkipList.Arrays.{Out, IsLastOf}
use ddbms.Storage.SkipList.Splice.{
  targets, link_nexts-links, unlink_nexts-links, link_nexts-off, unlink_nexts-off, at_start,
  at_entry, last_of,
}

-- No level is named at the entries.
abbrev pub Off : (ℕ → Ptr) → List Entry → Type 0
Off at_p cs = All (λ c. (j : ℕ) → (c.ptr == at_p j) ≡ false) cs

flip_test : (a b : ℕ) → (a == b) ≡ false → (b == a) ≡ false
flip_test a b h = ground (arith, h)

pub IsChain-write :
    (h : Heap) (tail p : Ptr) (c : Option Node) (cs : List Entry)
    → Out p cs
    → IsChain h tail cs
    → IsChain (write h p c) tail cs
unfolding IsChain
IsChain-write h tail p c [] o w = tt
IsChain-write h tail p c (d ∷ cs) o w = (
  at-write h p d.ptr c ∙ rw (flip_test p d.ptr (o.0), if◌then◌else◌) (w.0),
  IsChain-write h tail p c cs (o.1) (w.1),
)

module _ (h h' : Heap) (tail : Ptr) (at_p : ℕ → Ptr) (new : Entry) (bs : List Entry) where
  pub IsChain-link-Off :
      (zs : List Entry)
      → IsRelinked (link_nexts new.height new.ptr at_p (targets tail bs)) h h'
      → Out new.ptr zs
      → Off at_p zs
      → IsChain h tail zs
      → IsChain h' tail zs
  unfolding IsChain
  IsChain-link-Off [] r o f w = tt
  IsChain-link-Off (z ∷ zs) r o f w = (
    rw
        (
          r.nodes z.ptr,
          w.0,
          Option.map,
          link_nexts-off new.height new.ptr at_p (targets tail bs) z.ptr (links tail z.height zs)
              (flip_test new.ptr z.ptr (o.0)) (f.0),
        )
        refl,
    IsChain-link-Off zs r (o.1) (f.1) (w.1),
  )

  pub IsChain-link :
      (ys : List Entry)
      → IsRelinked (link_nexts new.height new.ptr at_p (targets tail bs)) h h'
      → Out new.ptr ys
      → IsLastOf at_p ys
      → IsChain h tail (ys ++ bs)
      → IsChain h' tail (new ∷ bs)
      → IsChain h' tail (ys ++ new ∷ bs)
  unfolding IsChain IsLastOf
  IsChain-link [] r o f w n = n
  IsChain-link (y ∷ ys) r o f w n = (
    rw
        (
          r.nodes y.ptr,
          w.0,
          Option.map,
          link_nexts-links tail at_p new bs y.ptr y.height ys (flip_test new.ptr y.ptr (o.0))
              (λ j t. f.0 j),
        )
        refl,
    IsChain-link ys r (o.1) (f.1) (w.1) n,
  )

  pub IsChain-unlink-Off :
      (zs : List Entry)
      → IsRelinked (unlink_nexts new.height at_p (targets tail bs)) h h'
      → Off at_p zs
      → IsChain h tail zs
      → IsChain h' tail zs
  unfolding IsChain
  IsChain-unlink-Off [] r f w = tt
  IsChain-unlink-Off (z ∷ zs) r f w = (
    rw
        (
          r.nodes z.ptr,
          w.0,
          Option.map,
          unlink_nexts-off new.height at_p (targets tail bs) z.ptr (links tail z.height zs) (f.0),
        )
        refl,
    IsChain-unlink-Off zs r (f.1) (w.1),
  )

  pub IsChain-unlink :
      (ys : List Entry)
      → IsRelinked (unlink_nexts new.height at_p (targets tail bs)) h h'
      → IsLastOf at_p ys
      → IsChain h tail (ys ++ new ∷ bs)
      → IsChain h' tail bs
      → IsChain h' tail (ys ++ bs)
  unfolding IsChain IsLastOf
  IsChain-unlink [] r f w n = n
  IsChain-unlink (y ∷ ys) r f w n = (
    rw
        (
          r.nodes y.ptr,
          w.0,
          Option.map,
          unlink_nexts-links tail at_p new bs y.ptr y.height ys (λ j t. f.0 j),
        )
        refl,
    IsChain-unlink ys r (f.1) (w.1) n,
  )

-- On a level of the list, the last entry in front is linked to the first one behind.
pub site :
    (h : Heap) (head tail node : Ptr) (height i : ℕ) (xs zs : List Entry) (prevs : Prevs)
    → at h head ≡ some (end_node height (links tail height (xs ++ zs)))
    → IsChain h tail (xs ++ zs)
    → prevs i ≡ some (last_ptr head i xs)
    → ltb i height ≡ true
    → (head == node) ≡ false
    → Out node xs
    → Site h node prevs i (last_ptr head i xs) (first_ptr tail i zs)
unfolding first_ptr IsChain
site h head tail node height i xs zs prevs e c p l o n = elim (last_of head i xs) [
  | at_start a ↦ record {
    before = end_node height (links tail height (xs ++ zs));
    prev = p;
    here = rw (last_ptr-Lacks head i xs a) e;
    level_in = l;
    target = rw (l, if◌then◌else◌) (ap some (first_ptr-append tail i xs zs a));
    other = rw (last_ptr-Lacks head i xs a) o;
  }
  | at_entry u d v q t a k ↦
      let m = subst (λ s. s ++ zs ≡ u ++ (d ∷ (v ++ zs))) (sym q) (append_assoc u (d ∷ v) zs) in
      record {
        before = entry_node tail d (v ++ zs);
        prev = p;
        here = rw k (IsChain-append h tail u (d ∷ (v ++ zs)) (subst (IsChain h tail) m c)).0;
        level_in = t;
        target = rw (t, if◌then◌else◌) (ap some (first_ptr-append tail i v zs a));
        other = rw k (
            flip_test node d.ptr
              (All-append (λ b. (node == b.ptr) ≡ false) u (d ∷ v) (subst (Out node) q n)).1.0);
      }
]
