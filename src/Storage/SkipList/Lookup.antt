-- ===== src/Storage/SkipList/Lookup.antt =====
-- src/storage/SkipList.cpp: findGreatorOrEqual, findLessThan, get and contains on a whole list.
use ddbms.Base.{
  ℕ, ◌+◌, ◌-◌, ◌≤◌, ◌<◌, ◌≡◌, refl, ap, ◌∙◌, subst, ◌≢◌, Bool, true, false, Option, none, some,
  List, [], ◌∷◌, ◌++◌, length, ltb, ◌==◌, if◌then◌else◌, All, arith, All-append, All-map,
  length-append,
}
use ddbms.Base.Bytes.{bytes_eq}
use ddbms.Storage.Block.{◌>>=◌}
use ddbms.Storage.SkipList.{
  Ptr, SkipList, Prevs, at, get_max_height, find_greator_or_equal, find_less_than,
}
use ddbms.Storage.SkipList.Update.{holds_key, get, contains}
use ddbms.Storage.SkipList.Chain.{
  Entry, first_ptr, last_ptr, links, end_node, entry_node, IsChain, IsPlaced, IsSkipList, IsSorted,
  IsChain-append,
}
use ddbms.Storage.SkipList.Search.{IsLinked, OffTail, prevs_of}
use ddbms.Storage.SkipList.Find.{IsAhead, find_loop_lem, less_loop_lem}
use ddbms.Storage.SkipList.Key.{
  lookup, IsSplit, split_key, hit, miss, search, IsSorted-append, NoneEqual, AllGreater,
  AllLess-NoneEqual, lookup-NoneEqual, lookup-none,
}

-- The array of the callers before the search.
abbrev pub no_prevs : Prevs
no_prevs j = none

abbrev pub found : Option (List ℕ) → Bool × List ℕ
found none = (false, [])
found (some v) = (true, v)

abbrev pub is_some : Option (List ℕ) → Bool
is_some none = false
is_some (some v) = true

module _ (s : SkipList) (height : ℕ) (cs : List Entry) (w : IsSkipList s height cs) where
  off_tail : (key : List ℕ) → OffTail s key cs cs
  off_tail key =
      All-map (IsPlaced s.head s.tail height) (λ c. (c.ptr == s.tail) ≡ false) cs
        (λ c p. differs c.ptr s.tail p.not_tail) w.placed
    where
      differs : (a b : ℕ) → a ≢ b → (a == b) ≡ false
      differs a b n = ground (arith, n)

  module _ (key : List ℕ) (xs bs : List Entry) (sp : IsSplit key cs xs bs) where
    start-IsLinked : IsLinked s.heap s.tail s.head (height - 1) (xs ++ bs)
    start-IsLinked = record {
      node = end_node height (links s.tail height cs);
      here = w.head_node;
      level_in = top height w.one_level;
      linked = ap (links s.tail height) sp.parts;
    }
      where
        top : (n : ℕ) → 1 ≤ n → ltb (n - 1) n ≡ true
        top n h = ground (arith, h)

    start-IsAhead : IsAhead s key xs bs
    start-IsAhead = record {
      less = sp.less;
      not_less = sp.not_less;
      off_tail = subst (λ l. OffTail s key l l) sp.parts (off_tail key);
      chain = subst (IsChain s.heap s.tail) sp.parts w.chain;
    }

    enough : height - 1 + length xs < length s.heap + height
    enough = omega (arith, w.one_level, w.room, ap length sp.parts, length-append xs bs)

    -- In a well-formed list whose entries are split at a key, the loop of findGreatorOrEqual ends: it
    -- returns the first node whose key is not less, or the tail, and `prevs` names on each level the
    -- last node whose key is less, or the head.
    pub find_greator_or_equal_lem :
        find_greator_or_equal s key
        ≡ some (first_ptr s.tail 0 bs, prevs_of (height - 1) s.head xs no_prevs)
    unfolding find_greator_or_equal get_max_height
    find_greator_or_equal_lem =
        rw (w.head_node, ◌>>=◌)
          (find_loop_lem s key bs (length s.heap + height) (height - 1) s.head xs no_prevs enough
            start-IsLinked start-IsAhead)

    pub find_less_than_lem : find_less_than s key ≡ some (last_ptr s.head 0 xs)
    unfolding find_less_than get_max_height
    find_less_than_lem =
        rw (w.head_node, ◌>>=◌)
          (less_loop_lem s key bs (length s.heap + height) (height - 1) s.head xs enough
            start-IsLinked start-IsAhead)

  pub IsPlaced-at :
      (xs : List Entry) (b : Entry) (rest : List Entry)
      → cs ≡ xs ++ b ∷ rest
      → IsPlaced s.head s.tail height b
  IsPlaced-at xs b rest e =
      ((All-append (IsPlaced s.head s.tail height) xs (b ∷ rest)
        (subst (All (IsPlaced s.head s.tail height)) e w.placed)).1
      ).0

  -- An entry stands in the lowest level.
  first_ptr-here :
      (xs : List Entry) (b : Entry) (rest : List Entry)
      → cs ≡ xs ++ b ∷ rest
      → first_ptr s.tail 0 (b ∷ rest) ≡ b.ptr
  unfolding first_ptr
  first_ptr-here xs b rest e =
      rw (level b.height (IsPlaced-at xs b rest e).one_level, if◌then◌else◌) refl
    where
      level : (n : ℕ) → 1 ≤ n → ltb 0 n ≡ true
      level n h = ground (arith, h)

  pub node_at :
      (xs : List Entry) (b : Entry) (rest : List Entry)
      → cs ≡ xs ++ b ∷ rest
      → at s.heap b.ptr ≡ some (entry_node s.tail b rest)
  unfolding IsChain
  node_at xs b rest e =
      (IsChain-append s.heap s.tail xs (b ∷ rest) (subst (IsChain s.heap s.tail) e w.chain)).0

  holds_key-entry :
      (key : List ℕ) (xs : List Entry) (b : Entry) (rest : List Entry)
      → cs ≡ xs ++ b ∷ rest
      → holds_key s (first_ptr s.tail 0 (b ∷ rest)) key ≡ some (bytes_eq b.key key)
  unfolding holds_key
  holds_key-entry key xs b rest e =
      rw
        (
          first_ptr-here xs b rest e,
          ((All-append (λ c. (c.ptr == s.tail) ≡ false) xs (b ∷ rest)
                (subst (OffTail s key cs) e (off_tail key))).1
              ).0,
          if◌then◌else◌,
          node_at xs b rest e,
          ◌>>=◌,
        )
        refl

  holds_key-miss :
      (key : List ℕ) (xs bs : List Entry)
      → cs ≡ xs ++ bs
      → NoneEqual key bs
      → holds_key s (first_ptr s.tail 0 bs) key ≡ some false
  unfolding holds_key first_ptr
  holds_key-miss key xs [] e n = ground arith
  holds_key-miss key xs (b ∷ rest) e n = holds_key-entry key xs b rest e ∙ ap some (n.0)

  -- What the callers of the search see of a key.
  pub data Outcome (key : List ℕ) (xs bs : List Entry) : Type 0 where
    hits :
        (b : Entry) (rest : List Entry)
        → bs ≡ b ∷ rest
        → bytes_eq b.key key ≡ true
        → NoneEqual key rest
        → find_greator_or_equal s key ≡ some (b.ptr, prevs_of (height - 1) s.head xs no_prevs)
        → holds_key s b.ptr key ≡ some true
        → lookup key cs ≡ some b.value
        → Outcome key xs bs
    misses :
        (p : Ptr)
        → AllGreater key bs
        → find_greator_or_equal s key ≡ some (p, prevs_of (height - 1) s.head xs no_prevs)
        → holds_key s p key ≡ some false
        → lookup key cs ≡ none
        → Outcome key xs bs

  pub outcome : (key : List ℕ) (xs bs : List Entry) → IsSplit key cs xs bs → Outcome key xs bs
  unfolding lookup
  outcome key xs bs sp = elim (search key bs sorted sp.not_less) [
    | hit b rest e q n ↦
        let parts = sp.parts ∙ ap (λ t. xs ++ t) e in
        let here = first_ptr-here xs b rest parts in
        hits b rest e q n
          (find_greator_or_equal_lem key xs bs sp
            ∙ ap (λ p. some (p, prevs_of (height - 1) s.head xs no_prevs))
                (ap (first_ptr s.tail 0) e ∙ here))
          (subst (λ p. holds_key s p key ≡ some true) here
            (holds_key-entry key xs b rest parts ∙ ap some q))
          (rw
            (
              parts,
              lookup-NoneEqual key xs (b ∷ rest) (AllLess-NoneEqual key xs sp.less),
              q,
              if◌then◌else◌,
            )
            refl)
    | miss n g ↦
        misses (first_ptr s.tail 0 bs) g (find_greator_or_equal_lem key xs bs sp)
          (holds_key-miss key xs bs sp.parts n)
          (rw (sp.parts, lookup-NoneEqual key xs bs (AllLess-NoneEqual key xs sp.less))
            (lookup-none key bs n))
  ]
    where
      sorted : IsSorted bs
      sorted = (IsSorted-append xs bs (subst IsSorted sp.parts w.sorted)).1

  -- get answers what the list of entries holds under the key, and contains whether it does.
  pub get_lem : (key : List ℕ) → get s key ≡ some (found (lookup key cs))
  unfolding get
  get_lem key =
      let sp = split_key key cs w.sorted in
      elim (outcome key sp.before sp.behind sp.is_split) [
        | hits b rest e q n f h l ↦
            rw
              (
                f,
                ◌>>=◌,
                h,
                ◌>>=◌,
                if◌then◌else◌,
                l,
                node_at sp.before b rest (sp.is_split.parts ∙ ap (λ t. sp.before ++ t) e),
                ◌>>=◌,
              )
              refl
        | misses p g f h l ↦ rw (f, ◌>>=◌, h, ◌>>=◌, if◌then◌else◌, l) refl
      ]

  pub contains_lem : (key : List ℕ) → contains s key ≡ some (is_some (lookup key cs))
  unfolding contains
  contains_lem key =
      let sp = split_key key cs w.sorted in
      elim (outcome key sp.before sp.behind sp.is_split) [
        | hits b rest e q n f h l ↦ rw (f, ◌>>=◌, h, l) refl
        | misses p g f h l ↦ rw (f, ◌>>=◌, h, l) refl
      ]
