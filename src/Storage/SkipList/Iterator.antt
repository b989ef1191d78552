-- ===== src/Storage/SkipList/Iterator.antt =====
-- src/storage/SkipList.cpp: SkipList::Iterator. A failed assertion is `none`.
pub mod Walk
pub mod Back
use ddbms.Base.{ℕ, Bool, not, Option, none, some, List, ◌==◌, if◌then◌else◌}
use ddbms.Storage.Block.{◌>>=◌}
use ddbms.Storage.SkipList.{
  Ptr, nullptr, SkipList, at, next_at, find_greator_or_equal, find_less_than, find_last,
}

pub record Iterator : Type 0 where
  pub skiplist : SkipList
  pub node : Ptr

abbrev pub new_iterator : SkipList → Iterator
new_iterator s = record { skiplist = s; node = nullptr }

abbrev pub valid : Iterator → Bool
valid it = not (it.node == nullptr)

-- The iterator at a node, or nowhere when the node is the given end.
abbrev pub move_to : Iterator → Ptr → Ptr → Iterator
move_to it p stop = record it { node = if p == stop then nullptr else p }

unfoldable pub seek_to_first : Iterator → Option Iterator
seek_to_first it = do
  p ← next_at it.skiplist.heap it.skiplist.head 0
  some (move_to it p it.skiplist.tail)

unfoldable pub seek_to_last : Iterator → Option Iterator
seek_to_last it = do p ← find_last it.skiplist; some (move_to it p it.skiplist.head)

unfoldable pub seek : List ℕ → Iterator → Option Iterator
seek key it = do r ← find_greator_or_equal it.skiplist key; some (move_to it (r.0) it.skiplist.tail)

unfoldable pub next : Iterator → Option Iterator
next it =
    if not (valid it)
    then none
    else (do p ← next_at it.skiplist.heap it.node 0; some (move_to it p it.skiplist.tail))

unfoldable pub prev : Iterator → Option Iterator
prev it = if not (valid it) then none else (do
  n ← at it.skiplist.heap it.node
  p ← find_less_than it.skiplist n.key
  some (move_to it p it.skiplist.head))

unfoldable pub key : Iterator → Option (List ℕ)
key it = if not (valid it) then none else (do n ← at it.skiplist.heap it.node; some n.key)

unfoldable pub value : Iterator → Option (List ℕ)
value it = if not (valid it) then none else (do n ← at it.skiplist.heap it.node; some n.value)
