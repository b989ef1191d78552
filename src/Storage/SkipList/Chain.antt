-- ===== src/Storage/SkipList/Chain.antt =====
-- The well-formed skip lists: one sorted list of entries describes the links of every level.
use ddbms.Base.{
  ℕ, ◌+◌, ◌≤◌, ◌≡◌, refl, ap, ◌≢◌, ◌⊎◌, inl, inr, true, false, Option, none, some, List, [], ◌∷◌,
  ◌++◌, length, ltb, if◌then◌else◌, All, Bool-cases,
}
use ddbms.Base.Words.{u64}
use ddbms.Base.Bytes.{bytes_lt}
use ddbms.Storage.SkipList.{Ptr, nullptr, Node, Heap, SkipList, at, max_height}
use ddbms.Storage.SkipList.Update.{tail_nexts}

pub record Entry : Type 0 where
  pub ptr : Ptr
  pub key : List ℕ
  pub value : List ℕ
  pub height : ℕ

-- The first entry that has the level, or the tail.
unfoldable pub first_ptr : Ptr → ℕ → List Entry → Ptr
first_ptr tail i [] = tail
first_ptr tail i (c ∷ cs) = if ltb i c.height then c.ptr else first_ptr tail i cs

-- The last entry that has the level, or `p`.
unfoldable pub last_ptr : Ptr → ℕ → List Entry → Ptr
last_ptr p i [] = p
last_ptr p i (c ∷ cs) = if ltb i c.height then last_ptr c.ptr i cs else last_ptr p i cs

-- The array of a node of a height in front of the entries.
abbrev pub links : Ptr → ℕ → List Entry → ℕ → Option Ptr
links tail height cs j = if ltb j height then some (first_ptr tail j cs) else none

abbrev pub entry_node : Ptr → Entry → List Entry → Node
entry_node tail c cs = record {
  key = c.key;
  value = c.value;
  height = c.height;
  nexts = links tail c.height cs;
}

abbrev pub end_node : ℕ → (ℕ → Option Ptr) → Node
end_node height nexts = record { key = []; value = []; height = height; nexts = nexts }

-- The entries stand in the heap, each linked to the ones behind it.
unfoldable pub IsChain : Heap → Ptr → List Entry → Type 0
IsChain h tail [] = Unit
IsChain h tail (c ∷ cs) = (at h c.ptr ≡ some (entry_node tail c cs)) × IsChain h tail cs

unfoldable pub IsSorted : List Entry → Type 0
IsSorted [] = Unit
IsSorted (c ∷ cs) = All (λ d. bytes_lt c.key d.key ≡ true) cs × IsSorted cs

unfoldable pub IsApart : List Entry → Type 0
IsApart [] = Unit
IsApart (c ∷ cs) = All (λ d. d.ptr ≢ c.ptr) cs × IsApart cs

-- An entry is at an address of its own, and has a level at least.
pub record IsPlaced (head tail : Ptr) (height : ℕ) (c : Entry) : Type 0 where
  pub not_null : c.ptr ≢ nullptr
  pub not_head : c.ptr ≢ head
  pub not_tail : c.ptr ≢ tail
  pub one_level : 1 ≤ c.height
  pub in_levels : c.height ≤ height

unfoldable pub bytes_of : List Entry → ℕ
bytes_of [] = 0
bytes_of (c ∷ cs) = length c.key + length c.value + bytes_of cs

pub record IsSkipList (s : SkipList) (height : ℕ) (cs : List Entry) : Type 0 where
  pub head_node : at s.heap s.head ≡ some (end_node height (links s.tail height cs))
  pub tail_node : at s.heap s.tail ≡ some (end_node height (tail_nexts height))
  pub chain : IsChain s.heap s.tail cs
  pub sorted : IsSorted cs
  pub apart : IsApart cs
  pub placed : All (IsPlaced s.head s.tail height) cs
  pub ends_apart : s.head ≢ s.tail
  pub head_not_null : s.head ≢ nullptr
  pub tail_not_null : s.tail ≢ nullptr
  pub one_level : 1 ≤ height
  pub levels : height ≤ max_height
  pub room : length cs ≤ length s.heap
  pub count : s.num_entries ≡ u64 (length cs)
  pub size : s.num_bytes ≡ u64 (bytes_of cs)

-- A part of a list that lacks a level is passed over.
unfoldable pub Lacks : ℕ → List Entry → Type 0
Lacks i cs = All (λ c. ltb i c.height ≡ false) cs

pub first_ptr-append :
    (tail : Ptr) (i : ℕ) (xs ys : List Entry)
    → Lacks i xs
    → first_ptr tail i (xs ++ ys) ≡ first_ptr tail i ys
unfolding first_ptr Lacks
first_ptr-append tail i [] ys l = refl
first_ptr-append tail i (x ∷ xs) ys l =
    rw (l.0, if◌then◌else◌) (first_ptr-append tail i xs ys (l.1))

pub last_ptr-Lacks : (p : Ptr) (i : ℕ) (xs : List Entry) → Lacks i xs → last_ptr p i xs ≡ p
unfolding last_ptr Lacks
last_ptr-Lacks p i [] l = refl
last_ptr-Lacks p i (x ∷ xs) l = rw (l.0, if◌then◌else◌) (last_ptr-Lacks p i xs (l.1))

-- A list is split at the first entry that has the level.
pub record SplitAt (i : ℕ) (cs : List Entry) : Type 0 where
  pub before : List Entry
  pub here : Entry
  pub after : List Entry
  pub parts : cs ≡ before ++ here ∷ after
  pub passed : Lacks i before
  pub tall : ltb i here.height ≡ true

pub split_at : (i : ℕ) (cs : List Entry) → Lacks i cs ⊎ SplitAt i cs
unfolding Lacks
split_at i [] = inl tt
split_at i (c ∷ cs) = elim (Bool-cases (ltb i c.height)) [
  | inl t ↦ inr (record { before = []; here = c; after = cs; parts = refl; passed = tt; tall = t })
  | inr f ↦ elim (split_at i cs) [
    | inl l ↦ inl (f, l)
    | inr w ↦ inr (record {
      before = c ∷ w.before;
      here = w.here;
      after = w.after;
      parts = ap (λ t. c ∷ t) w.parts;
      passed = (f, w.passed);
      tall = w.tall;
    })
  ]
]

pub IsChain-append :
    (h : Heap) (tail : Ptr) (xs ys : List Entry) → IsChain h tail (xs ++ ys) → IsChain h tail ys
unfolding IsChain
IsChain-append h tail [] ys c = c
IsChain-append h tail (x ∷ xs) ys c = IsChain-append h tail xs ys (c.1)
