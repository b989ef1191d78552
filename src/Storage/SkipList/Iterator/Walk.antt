-- ===== src/Storage/SkipList/Iterator/Walk.antt =====
-- The iterator of a skip list goes through its entries in the order of their keys.
use ddbms.Base.{
  ℕ, ◌≤◌, ◌≡◌, refl, ap, sym, ◌∙◌, true, false, some, List, [], ◌∷◌, ◌++◌, ltb, ◌==◌, if◌then◌else◌,
  arith, append_assoc,
}
use ddbms.Storage.Block.{◌>>=◌}
use ddbms.Storage.SkipList.{Ptr, nullptr, SkipList, next_at}
use ddbms.Storage.SkipList.Chain.{Entry, first_ptr, IsSkipList}
use ddbms.Storage.SkipList.Lookup.{node_at, IsPlaced-at}
use ddbms.Storage.SkipList.Raise.{differs}
use ddbms.Storage.SkipList.Iterator.{Iterator, move_to, seek_to_first, next, key, value}

-- Where an iterator stands that has the entries ahead of it.
abbrev pub position : List Entry → Ptr
position [] = nullptr
position (c ∷ cs) = c.ptr

abbrev pub iterator_at : SkipList → Ptr → Iterator
iterator_at s p = record { skiplist = s; node = p }

pub first_level : (n : ℕ) → 1 ≤ n → ltb 0 n ≡ true
first_level n h = ground (arith, h)

module _ (s : SkipList) (height : ℕ) (cs : List Entry) (w : IsSkipList s height cs) where
  -- The lowest level links every entry.
  pub move_to-tail :
      (it : Iterator) (xs rest : List Entry)
      → cs ≡ xs ++ rest
      → it.skiplist ≡ s
      → move_to it (first_ptr s.tail 0 rest) s.tail ≡ record it { node = position rest }
  unfolding first_ptr
  move_to-tail it xs [] e q =
      ap (λ b. record it { node = if b then nullptr else s.tail }) (same s.tail)
    where
      same : (p : Ptr) → (p == p) ≡ true
      same p = ground arith
  move_to-tail it xs (c ∷ rest) e q =
      let p = IsPlaced-at s height cs w xs c rest e in
      rw
        (
          first_level c.height p.one_level,
          if◌then◌else◌,
          differs s.tail c.ptr (λ x. p.not_tail (sym x)),
          if◌then◌else◌,
        )
        refl

  pub is_valid :
      (xs : List Entry) (c : Entry) (rest : List Entry)
      → cs ≡ xs ++ c ∷ rest
      → (c.ptr == nullptr) ≡ false
  is_valid xs c rest e =
      differs nullptr c.ptr (λ x. (IsPlaced-at s height cs w xs c rest e).not_null (sym x))

  pub seek_to_first_lem :
      (p : Ptr) → seek_to_first (iterator_at s p) ≡ some (iterator_at s (position cs))
  unfolding seek_to_first next_at
  seek_to_first_lem p =
      rw (w.head_node, ◌>>=◌, first_level height w.one_level, if◌then◌else◌)
        (ap some (move_to-tail (iterator_at s p) [] cs refl refl))

  pub next_lem :
      (xs : List Entry) (c : Entry) (rest : List Entry)
      → cs ≡ xs ++ c ∷ rest
      → next (iterator_at s c.ptr) ≡ some (iterator_at s (position rest))
  unfolding next next_at
  next_lem xs c rest e =
      rw
        (
          is_valid xs c rest e,
          if◌then◌else◌,
          node_at s height cs w xs c rest e,
          ◌>>=◌,
          first_level c.height (IsPlaced-at s height cs w xs c rest e).one_level,
          if◌then◌else◌,
        )
        (ap some (
          move_to-tail (iterator_at s c.ptr) (xs ++ c ∷ []) rest
            (e ∙ sym (append_assoc xs (c ∷ []) rest)) refl))

  pub key_lem :
      (xs : List Entry) (c : Entry) (rest : List Entry)
      → cs ≡ xs ++ c ∷ rest
      → (key (iterator_at s c.ptr) ≡ some c.key) × (value (iterator_at s c.ptr) ≡ some c.value)
  unfolding key value
  key_lem xs c rest e = (
    rw (is_valid xs c rest e, if◌then◌else◌, node_at s height cs w xs c rest e, ◌>>=◌) refl,
    rw (is_valid xs c rest e, if◌then◌else◌, node_at s height cs w xs c rest e, ◌>>=◌) refl,
  )
