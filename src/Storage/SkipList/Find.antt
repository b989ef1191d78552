-- ===== src/Storage/SkipList/Find.antt =====
-- src/storage/SkipList.cpp: findGreatorOrEqual and findLessThan end, and what they find.
use ddbms.Base.{
  ℕ, zero, suc, ◌+◌, ◌-◌, ◌<◌, ◌≡◌, refl, ap, sym, ◌∙◌, subst, inl, inr, true, false, some, List,
  ◌∷◌, ◌++◌, length, ltb, ◌==◌, if◌then◌else◌, arith, All-append, length-append, append_assoc,
}
use ddbms.Base.Bytes.{bytes_lt}
use ddbms.Storage.SkipList.{
  Ptr, Heap, SkipList, Prevs, forward, down, stop, at, update_at, find_move, find_loop, less_loop,
}
use ddbms.Storage.SkipList.Chain.{
  Entry, first_ptr, last_ptr, entry_node, IsChain, Lacks, last_ptr-Lacks, split_at, IsChain-append,
}
use ddbms.Storage.SkipList.Search.{
  prevs_of, prevs_of-Lacks, prevs_of-zero, prevs_of-forward, last_ptr-append, IsLinked, Less,
  NotLess, OffTail, find_move-Lacks, find_move-forward,
}

-- The entries ahead of a node: those less than the key, and the rest.
pub record IsAhead (s : SkipList) (key : List ℕ) (xs bs : List Entry) : Type 0 where
  pub less : Less s key bs xs
  pub not_less : NotLess s key bs bs
  pub off_tail : OffTail s key bs (xs ++ bs)
  pub chain : IsChain s.heap s.tail (xs ++ bs)

-- What a step forward to `y` needs and leaves.
record Forward (s : SkipList) (key : List ℕ) (level : ℕ) (y : Entry) (v bs : List Entry)
    : Type 0 where
  less : bytes_lt y.key key ≡ true
  off_tail : (y.ptr == s.tail) ≡ false
  node : at s.heap y.ptr ≡ some (entry_node s.tail y (v ++ bs))
  ahead : IsAhead s key v bs

no_fuel : (level : ℕ) (xs : List Entry) → level + length xs < zero → ⊥
no_fuel level xs f = omega (arith, f)

shorter :
    (fuel level : ℕ) (xs u : List Entry) (y : Entry) (v : List Entry)
    → xs ≡ u ++ y ∷ v
    → level + length xs < suc fuel
    → level + length v < fuel
shorter fuel level xs u y v e f = omega (arith, f, ap length e, length-append u (y ∷ v))

ltb_zero : (level height : ℕ) → ltb (suc level) height ≡ true → ltb 0 height ≡ true
ltb_zero level height t = ground arith

suc_pred : (level : ℕ) → suc level - 1 ≡ level
suc_pred level = omega arith

IsLinked-down :
    (h : Heap) (tail x : Ptr) (level : ℕ) (cs : List Entry)
    → IsLinked h tail x (suc level) cs
    → IsLinked h tail x level cs
IsLinked-down h tail x level cs w = record {
  node = w.node;
  here = w.here;
  level_in = lower w.node.height w.level_in;
  linked = w.linked;
}
  where
    lower : (height : ℕ) → ltb (suc level) height ≡ true → ltb level height ≡ true
    lower height t = ground arith

module _ (s : SkipList) (key : List ℕ) (bs : List Entry) where
  go-Forward :
      (level : ℕ) (u : List Entry) (y : Entry) (v : List Entry)
      → IsAhead s key (u ++ y ∷ v) bs
      → Forward s key level y v bs
  unfolding IsChain
  go-Forward level u y v a =
      let less = (All-append (λ c. bytes_lt c.key key ≡ true) u (y ∷ v) a.less).1 in
      let off =
        (All-append (λ c. (c.ptr == s.tail) ≡ false) u (y ∷ (v ++ bs))
          (subst (OffTail s key bs) (append_assoc u (y ∷ v) bs) a.off_tail)).1 in
      let chain =
        IsChain-append s.heap s.tail u (y ∷ (v ++ bs))
          (subst (IsChain s.heap s.tail) (append_assoc u (y ∷ v) bs) a.chain) in
      record {
        less = less.0;
        off_tail = off.0;
        node = chain.0;
        ahead = record { less = less.1; not_less = a.not_less; off_tail = off.1; chain = chain.1 };
      }

  -- A round either goes on to an entry before the key, or finds none on its level.
  data Round (level : ℕ) (x : Ptr) (xs : List Entry) : Type 0 where
    goes :
        (u : List Entry) (y : Entry) (v : List Entry)
        → xs ≡ u ++ y ∷ v
        → ltb level y.height ≡ true
        → find_move s key x level ≡ some (forward y.ptr)
        → IsLinked s.heap s.tail y.ptr level (v ++ bs)
        → IsAhead s key v bs
        → Round level x xs
    stays :
        Lacks level xs
        → find_move s key x level
          ≡ some (if level == 0 then stop (first_ptr s.tail level bs) else down)
        → Round level x xs

  round :
      (level : ℕ) (x : Ptr) (xs : List Entry)
      → IsLinked s.heap s.tail x level (xs ++ bs)
      → IsAhead s key xs bs
      → Round level x xs
  round level x xs w a = elim (split_at level xs) [
    | inl l ↦ stays l (
        find_move-Lacks s key bs x level xs w l a.not_less
          ((All-append (λ c. (c.ptr == s.tail) ≡ false) xs bs a.off_tail).1)
          (IsChain-append s.heap s.tail xs bs a.chain))
    | inr p ↦
        let a' = subst (λ t. IsAhead s key t bs) p.parts a in
        let f = go-Forward level p.before p.here p.after a' in
        let w' =
          subst (λ t. IsLinked s.heap s.tail x level t)
            (ap (λ t. t ++ bs) p.parts ∙ append_assoc p.before (p.here ∷ p.after) bs) w in
        goes p.before p.here p.after p.parts p.tall
          (find_move-forward s key bs x level p.before p.here (p.after ++ bs) w' p.passed p.tall
            f.less f.off_tail f.node)
          (record {
            node = entry_node s.tail p.here (p.after ++ bs);
            here = f.node;
            level_in = p.tall;
            linked = refl;
          })
          f.ahead
  ]

  goes_down :
      (level : ℕ) (x : Ptr) (xs : List Entry)
      → find_move s key x (suc level)
        ≡ some (if suc level == 0 then stop (first_ptr s.tail (suc level) bs) else down)
      → find_move s key x (suc level) ≡ some down
  goes_down level x xs m = ground (arith, m)

  -- The search ends, at the first entry that is not less; `prevs` holds the last smaller entries.
  pub find_loop_lem :
      (fuel level : ℕ) (x : Ptr) (xs : List Entry) (prevs : Prevs)
      → level + length xs < fuel
      → IsLinked s.heap s.tail x level (xs ++ bs)
      → IsAhead s key xs bs
      → find_loop fuel s key x level prevs ≡ some (first_ptr s.tail 0 bs, prevs_of level x xs prevs)
  unfolding find_loop
  find_loop_lem zero level x xs prevs f w a = absurd (no_fuel level xs f)
  find_loop_lem (suc fuel) zero x xs prevs f w a = elim (round 0 x xs w a) [
    | goes u y v e t m w' a' ↦
        rw (m, find_loop, e, sym (prevs_of-forward 0 x u y v prevs t))
          (find_loop_lem fuel 0 y.ptr v prevs (shorter fuel 0 xs u y v e f) w' a')
    | stays l m ↦
        rw (m, find_loop) (ap (λ t. some (first_ptr s.tail 0 bs, t)) (prevs_of-zero x xs prevs l))
  ]
  find_loop_lem (suc fuel) (suc level) x xs prevs f w a = elim (round (suc level) x xs w a) [
    | goes u y v e t m w' a' ↦
        rw (m, find_loop, e, sym (prevs_of-forward (suc level) x u y v prevs t))
          (find_loop_lem fuel (suc level) y.ptr v prevs (shorter fuel (suc level) xs u y v e f) w'
            a')
    | stays l m ↦
        rw
          (
            goes_down level x xs m,
            find_loop,
            suc_pred level,
            sym (prevs_of-Lacks level x xs prevs l),
          )
          (find_loop_lem fuel level x xs (update_at prevs (suc level) x) (omega (arith, f))
            (IsLinked-down s.heap s.tail x level (xs ++ bs) w) a)
  ]

  -- findLessThan ends, at the last smaller entry.
  pub less_loop_lem :
      (fuel level : ℕ) (x : Ptr) (xs : List Entry)
      → level + length xs < fuel
      → IsLinked s.heap s.tail x level (xs ++ bs)
      → IsAhead s key xs bs
      → less_loop fuel s key x level ≡ some (last_ptr x 0 xs)
  unfolding less_loop
  less_loop_lem zero level x xs f w a = absurd (no_fuel level xs f)
  less_loop_lem (suc fuel) zero x xs f w a = elim (round 0 x xs w a) [
    | goes u y v e t m w' a' ↦
        rw (m, less_loop, e, last_ptr-append x 0 u y v t)
          (less_loop_lem fuel 0 y.ptr v (shorter fuel 0 xs u y v e f) w' a')
    | stays l m ↦ rw (m, less_loop, last_ptr-Lacks x 0 xs l) refl
  ]
  less_loop_lem (suc fuel) (suc level) x xs f w a = elim (round (suc level) x xs w a) [
    | goes u y v e t m w' a' ↦
        rw (m, less_loop, e, last_ptr-append x 0 u y v (ltb_zero level y.height t))
          (less_loop_lem fuel (suc level) y.ptr v (shorter fuel (suc level) xs u y v e f) w' a')
    | stays l m ↦
        rw (goes_down level x xs m, less_loop, suc_pred level)
          (less_loop_lem fuel level x xs (omega (arith, f))
            (IsLinked-down s.heap s.tail x level (xs ++ bs) w) a)
  ]
