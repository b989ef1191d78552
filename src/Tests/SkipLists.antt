-- ===== src/Tests/SkipLists.antt =====
-- A skip list with three keys, of different heights, one of them deleted again.
use ddbms.Base.{
  ℕ, suc, ◌-◌, ◌<◌, ◌≡◌, refl, ◌≢◌, inl, inr, true, none, some, List, [], ◌∷◌, ltb, ◌==◌,
  if◌then◌else◌, arith, Bool-cases,
}
use ddbms.Storage.SkipList.{Ptr, nullptr, Heap, SkipList, at, init, find_greator_or_equal}
use ddbms.Storage.SkipList.Chain.{first_ptr}
use ddbms.Storage.SkipList.Search.{prevs_of}
use ddbms.Storage.SkipList.Key.{Split, split_key}
use ddbms.Storage.SkipList.Lookup.{no_prevs, find_greator_or_equal_lem}
use ddbms.Storage.SkipList.Insert.{IsAllocator}
use ddbms.Storage.SkipList.Clear.{Emptied, clear_lem}
use ddbms.Storage.SkipList.Refine.{
  Call, puts, gets, checks, deletes, run, map_run, empty_map, Refines, init-Refines, run-Refines,
}
use ddbms.Storage.SkipList.Iterator.{seek}
use ddbms.Storage.SkipList.Iterator.Walk.{position, iterator_at}
use ddbms.Storage.SkipList.Iterator.Back.{seek_lem}

-- An allocator: the address behind the greatest one in use.
abbrev pub greatest : Heap → ℕ
greatest [] = 0
greatest ((q, c) ∷ h) = if ltb (greatest h) q then q else greatest h

abbrev pub bump : Heap → Ptr
bump h = suc (greatest h)

above_free : (h : Heap) (p : Ptr) → greatest h < p → at h p ≡ none
unfolding at
above_free [] p l = refl
above_free ((q, c) ∷ h) p l = elim (Bool-cases (p == q)) [
  | inl t ↦ absurd (not_above q (greatest h) t l)
  | inr f ↦ rw (f, if◌then◌else◌) (above_free h p (under q (greatest h) l))
]
  where
    not_above : (a b : ℕ) → (p == a) ≡ true → (if ltb b a then a else b) < p → ⊥
    not_above a b t l = ground (arith, t, l)

    under : (a b : ℕ) → (if ltb b a then a else b) < p → b < p
    under a b l = ground (arith, l)

pub bump-IsAllocator : IsAllocator bump
bump-IsAllocator = record {
  fresh = λ h. above_free h (bump h) (omega arith);
  not_null = λ h. positive (greatest h);
}
  where
    positive : (n : ℕ) → suc n ≢ 0
    positive n = omega arith

abbrev start : SkipList
start = init bump []

start-Refines : Refines start empty_map
start-Refines = init-Refines bump [] bump-IsAllocator

abbrev calls : List Call
calls =
    puts 2 (98 ∷ []) (1 ∷ [])
    ∷ puts 0 (97 ∷ []) (2 ∷ [])
    ∷ puts 5 (99 ∷ []) (3 ∷ [])
    ∷ puts 1 (97 ∷ []) (4 ∷ 4 ∷ [])
    ∷ deletes (98 ∷ [])
    ∷ gets (97 ∷ [])
    ∷ checks (98 ∷ [])
    ∷ []

run-Refines_example :
    (s' : SkipList) × (run bump calls start ≡ some ((map_run calls empty_map).0, s'))
    × Refines s' ((map_run calls empty_map).1)
run-Refines_example = run-Refines bump calls start empty_map bump-IsAllocator start-Refines

-- The list behind the calls.
abbrev filled :
    (s' : SkipList) × (run bump calls start ≡ some ((map_run calls empty_map).0, s'))
    × Refines s' ((map_run calls empty_map).1)
filled = run-Refines bump calls start empty_map bump-IsAllocator start-Refines

abbrev split : Split (98 ∷ []) (filled.2.entries)
split = split_key (98 ∷ []) (filled.2.entries) (filled.2.is_list.sorted)

find_greator_or_equal_example :
    find_greator_or_equal (filled.0) (98 ∷ [])
    ≡ some (
      first_ptr (filled.0.tail) 0 split.behind,
      prevs_of (filled.2.height - 1) (filled.0.head) split.before no_prevs,
    )
find_greator_or_equal_example =
    find_greator_or_equal_lem (filled.0) (filled.2.height) (filled.2.entries) (filled.2.is_list)
      (98 ∷ []) split.before split.behind split.is_split

clear_example : Emptied bump (filled.0) (filled.2.entries)
clear_example = clear_lem bump (filled.0) (filled.2.height) (filled.2.entries) (filled.2.is_list)

seek_example :
    seek (98 ∷ []) (iterator_at (filled.0) nullptr)
    ≡ some (iterator_at (filled.0) (position split.behind))
seek_example =
    seek_lem (filled.0) (filled.2.height) (filled.2.entries) (filled.2.is_list) nullptr (98 ∷ [])
      split.before split.behind split.is_split
