-- ===== src/Storage/SkipList/Iterator/Back.antt =====
-- The iterator of a skip list goes to a key, to the last entry, and back.
use ddbms.Base.{
  ℕ, ◌≡◌, refl, ap, sym, ◌∙◌, subst, Bool, true, false, some, List, [], ◌∷◌, ◌++◌, ◌==◌,
  if◌then◌else◌, All-append, All-map, arith, append_assoc, inl, inr, ◌⊎◌, Bool-cases,
}
use ddbms.Base.Bytes.{bytes_lt}
use ddbms.Base.Order.{bytes_lt_irrefl, bytes_lt_trans}
use ddbms.Storage.Block.{◌>>=◌}
use ddbms.Storage.SkipList.{Ptr, nullptr, SkipList}
use ddbms.Storage.SkipList.Chain.{Entry, last_ptr, IsSkipList, IsSorted}
use ddbms.Storage.SkipList.Search.{last_ptr-append}
use ddbms.Storage.SkipList.Key.{AllLess, NoneLess, IsSplit}
use ddbms.Storage.SkipList.Lookup.{
  node_at, IsPlaced-at, find_less_than_lem, find_greator_or_equal_lem,
}
use ddbms.Storage.SkipList.Raise.{differs}
use ddbms.Storage.SkipList.Iterator.{seek, prev}
use ddbms.Storage.SkipList.Iterator.Walk.{
  position, iterator_at, first_level, move_to-tail, is_valid,
}

not_both : (a b : List ℕ) → bytes_lt a b ≡ true → bytes_lt b a ≡ false
not_both a b l = elim (Bool-cases (bytes_lt b a)) [
  | inl t ↦ absurd (clash (bytes_lt_trans a b a l t) (bytes_lt_irrefl a))
  | inr f ↦ f
]
  where
    clash : {x : Bool} → x ≡ true → x ≡ false → ⊥
    clash p q = cc

-- A list is split at the key of each of its entries.
split_here :
    (xs : List Entry) (c : Entry) (rest : List Entry)
    → IsSorted (xs ++ c ∷ rest)
    → AllLess c.key xs × NoneLess c.key (c ∷ rest)
unfolding IsSorted
split_here [] c rest o = (
  tt,
  (
    bytes_lt_irrefl c.key,
    All-map (λ d. bytes_lt c.key d.key ≡ true) (λ d. bytes_lt d.key c.key ≡ false) rest
        (λ d l. not_both c.key d.key l) (o.0),
  ),
)
split_here (x ∷ xs) c rest o =
    let later = (All-append (λ d. bytes_lt x.key d.key ≡ true) xs (c ∷ rest) (o.0)).1 in
    let tail = split_here xs c rest (o.1) in ((later.0, tail.0), tail.1)

-- Where the last of the entries is, or `p` when there is none.
abbrev pub end_ptr : Ptr → List Entry → Ptr
end_ptr p [] = p
end_ptr p (c ∷ cs) = end_ptr c.ptr cs

end_ptr-snoc : (p : Ptr) (xs : List Entry) (b : Entry) → end_ptr p (xs ++ b ∷ []) ≡ b.ptr
end_ptr-snoc p [] b = refl
end_ptr-snoc p (x ∷ xs) b = end_ptr-snoc x.ptr xs b

from_back :
    (xs : List Entry) → (xs ≡ []) ⊎ ((front : List Entry) × (b : Entry) × (xs ≡ front ++ b ∷ []))
from_back [] = inl refl
from_back (x ∷ xs) = inr (elim (from_back xs) [
  | inl e ↦ ([], x, ap (λ l. x ∷ l) e)
  | inr (front, b, e) ↦ (x ∷ front, b, ap (λ l. x ∷ l) e)
])

module _ (s : SkipList) (height : ℕ) (cs : List Entry) (w : IsSkipList s height cs) where
  IsSplit-here :
      (xs : List Entry) (c : Entry) (rest : List Entry)
      → cs ≡ xs ++ c ∷ rest
      → IsSplit c.key cs xs (c ∷ rest)
  IsSplit-here xs c rest e =
      let parts = split_here xs c rest (subst IsSorted e w.sorted) in
      record { parts = e; less = parts.0; not_less = parts.1 }

  -- Seek on a well-formed list whose entries are split at a key returns, at the first entry whose key
  -- is not less, or nowhere when there is none.
  pub seek_lem :
      (p : Ptr) (k : List ℕ) (xs bs : List Entry)
      → IsSplit k cs xs bs
      → seek k (iterator_at s p) ≡ some (iterator_at s (position bs))
  unfolding seek
  seek_lem p k xs bs sp =
      rw (find_greator_or_equal_lem s height cs w k xs bs sp, ◌>>=◌)
        (ap some (move_to-tail s height cs w (iterator_at s p) xs bs sp.parts refl))

  prev_later :
      (xs : List Entry) (b c : Entry) (rest : List Entry)
      → cs ≡ xs ++ b ∷ c ∷ rest
      → prev (iterator_at s c.ptr) ≡ some (iterator_at s b.ptr)
  unfolding prev last_ptr
  prev_later xs b c rest e =
      let front = e ∙ sym (append_assoc xs (b ∷ []) (c ∷ rest)) in
      let p = IsPlaced-at s height cs w xs b (c ∷ rest) e in
      rw
        (
          is_valid s height cs w (xs ++ b ∷ []) c rest front,
          if◌then◌else◌,
          node_at s height cs w (xs ++ b ∷ []) c rest front,
          ◌>>=◌,
          find_less_than_lem s height cs w c.key (xs ++ b ∷ []) (c ∷ rest)
              (IsSplit-here (xs ++ b ∷ []) c rest front),
          ◌>>=◌,
          last_ptr-append s.head 0 xs b [] (first_level b.height p.one_level),
          differs s.head b.ptr (λ x. p.not_head (sym x)),
          if◌then◌else◌,
        )
        refl

  prev_first :
      (c : Entry) (rest : List Entry)
      → cs ≡ c ∷ rest
      → prev (iterator_at s c.ptr) ≡ some (iterator_at s nullptr)
  unfolding prev last_ptr
  prev_first c rest e =
      rw
        (
          is_valid s height cs w [] c rest e,
          if◌then◌else◌,
          node_at s height cs w [] c rest e,
          ◌>>=◌,
          find_less_than_lem s height cs w c.key [] (c ∷ rest) (IsSplit-here [] c rest e),
          ◌>>=◌,
        )
        (ap (λ b. some (iterator_at s (if b then nullptr else s.head))) (same s.head))
    where
      same : (p : Ptr) → (p == p) ≡ true
      same p = ground arith

  -- On a well-formed list, Prev goes from an entry to the one in front of it, and nowhere from the
  -- first one.
  pub prev_lem :
      (xs : List Entry) (c : Entry) (rest : List Entry)
      → cs ≡ xs ++ c ∷ rest
      → prev (iterator_at s c.ptr) ≡ some (iterator_at s (end_ptr nullptr xs))
  prev_lem xs c rest e = elim (from_back xs) [
    | inl empty ↦ rw empty (prev_first c rest (e ∙ ap (λ l. l ++ c ∷ rest) empty))
    | inr (front, b, parts) ↦
        rw (parts, end_ptr-snoc nullptr front b)
          (prev_later front b c rest
            (e ∙ ap (λ l. l ++ c ∷ rest) parts ∙ append_assoc front (b ∷ []) (c ∷ rest)))
  ]
