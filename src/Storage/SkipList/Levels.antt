-- ===== src/Storage/SkipList/Levels.antt =====
-- The last entry in front of a place, on each level, in a well-formed list.
use ddbms.Base.{
  ℕ, ◌≡◌, refl, sym, ◌∙◌, ◌≢◌, true, false, ◌&&◌, List, [], ◌∷◌, ◌++◌, ltb, ◌==◌, All, All-append,
}
use ddbms.Storage.SkipList.{Ptr, SkipList}
use ddbms.Storage.SkipList.Chain.{Entry, last_ptr, IsApart, IsPlaced, IsSkipList}
use ddbms.Storage.SkipList.Link.{==_refl}
use ddbms.Storage.SkipList.Arrays.{Out, lacks, IsLastOf, last_ptr-IsLastOf, ==-last_ptr}
use ddbms.Storage.SkipList.Sites.{Off}
use ddbms.Storage.SkipList.Raise.{Out-head, Out-tail, differs}
use ddbms.Storage.SkipList.Sorted.{IsApart-remove, Out-front}

abbrev pub before : Ptr → List Entry → ℕ → Ptr
before head xs j = last_ptr head j xs

IsApart-front : (xs bs : List Entry) → IsApart (xs ++ bs) → IsApart xs
unfolding IsApart
IsApart-front [] bs a = tt
IsApart-front (x ∷ xs) bs a =
    ((All-append (λ d. d.ptr ≢ x.ptr) xs bs (a.0)).0, IsApart-front xs bs (a.1))

module _ (s : SkipList) (height : ℕ) (xs bs : List Entry) (w : IsSkipList s height (xs ++ bs)) where
  abbrev Placed : List Entry → Type 0
  Placed cs = All (IsPlaced s.head s.tail height) cs

  pub IsPlaced-front : All (IsPlaced s.head s.tail height) xs
  IsPlaced-front = (All-append (IsPlaced s.head s.tail height) xs bs w.placed).0

  pub IsPlaced-behind : All (IsPlaced s.head s.tail height) bs
  IsPlaced-behind = (All-append (IsPlaced s.head s.tail height) xs bs w.placed).1

  pub off_one :
      (p : Ptr) → Out p xs → (p == s.head) ≡ false → (j : ℕ) → (p == before s.head xs j) ≡ false
  off_one p o n j = ==-last_ptr p s.head j xs o ∙ rw n refl

  Off-behind : (zs : List Entry) → IsApart (xs ++ zs) → Placed zs → Off (before s.head xs) zs
  Off-behind [] a p = tt
  Off-behind (z ∷ zs) a p = (
    off_one z.ptr (Out-front xs z zs a) (differs s.head z.ptr (λ e. p.0.not_head (sym e))),
    Off-behind zs (IsApart-remove xs z zs a) (p.1),
  )

  pub behind-Off : Off (before s.head xs) bs
  behind-Off = Off-behind bs w.apart IsPlaced-behind

  pub tail_off : (j : ℕ) → (s.tail == before s.head xs j) ≡ false
  tail_off =
      off_one s.tail (Out-tail s.head s.tail height xs IsPlaced-front)
        (differs s.head s.tail w.ends_apart)

  pub front_last : IsLastOf (before s.head xs) xs
  front_last =
      last_ptr-IsLastOf (before s.head xs) (λ j. s.head) xs (λ j. refl)
        (λ j. Out-head s.head s.tail height xs IsPlaced-front) (IsApart-front xs bs w.apart)

  pub head_last :
      (j : ℕ) → ltb j height ≡ true → (s.head == before s.head xs j) ≡ (ltb j height && lacks j xs)
  head_last j l =
      ==-last_ptr s.head s.head j xs (Out-head s.head s.tail height xs IsPlaced-front)
      ∙ rw (==_refl s.head, l) refl
