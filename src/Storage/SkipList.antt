-- ===== src/Storage/SkipList.antt =====
-- src/storage/SkipList.cpp and include/storage/SkipList.h: the skip list over a heap of nodes.
-- Undefined behaviour (a read of a free address, of an uninitialised array entry or behind an
-- array's end) is `none`. `new` is the parameter `alloc`; the coin flips of random_height are its
-- argument. The fuel of a search is the number of writes to the heap, which is at least the number of
-- nodes, and of levels.
pub mod Update
pub mod Chain
pub mod Search
pub mod Find
pub mod Key
pub mod Lookup
pub mod Link
pub mod Unlink
pub mod Arrays
pub mod Splice
pub mod Sites
pub mod Raise
pub mod Sorted
pub mod Levels
pub mod Insert
pub mod Linked
pub mod Replace
pub mod Put
pub mod Remove
pub mod Delete
pub mod Clear
pub mod Refine
pub mod Iterator
use ddbms.Base.{
  ℕ, zero, suc, ◌+◌, ◌-◌, Bool, false, not, Option, none, some, List, [], ◌∷◌, length, ltb, ◌==◌,
  if◌then◌else◌,
}
use ddbms.Base.Bytes.{bytes_lt}
use ddbms.Storage.Block.{◌>>=◌}

abbrev pub Ptr : Type 0
Ptr = ℕ

abbrev pub nullptr : Ptr
nullptr = 0

-- An entry of `nexts` that is not initialised or not in the array is `none`.
pub record Node : Type 0 where
  pub key : List ℕ
  pub value : List ℕ
  pub height : ℕ
  pub nexts : ℕ → Option Ptr

-- Writes, the last one first; a free address holds `none`.
abbrev pub Heap : Type 0
Heap = List (Ptr × Option Node)

unfoldable pub at : Heap → Ptr → Option Node
at [] p = none
at ((q, c) ∷ h) p = if p == q then c else at h p

unfoldable pub write : Heap → Ptr → Option Node → Heap
write h p c = (p, c) ∷ h

abbrev pub max_height : ℕ
max_height = 12

pub record SkipList : Type 0 where
  pub heap : Heap
  pub head : Ptr
  pub tail : Ptr
  pub num_entries : ℕ
  pub num_bytes : ℕ

abbrev pub new_node : List ℕ → List ℕ → ℕ → Node
new_node key value height = record { key = key; value = value; height = height; nexts = λ j. none }

-- The array `nexts` with the entry `i` set.
abbrev pub update_at : (ℕ → Option Ptr) → ℕ → Ptr → ℕ → Option Ptr
update_at nexts i p j = if j == i then some p else nexts j

abbrev pub set_nexts : (ℕ → Option Ptr) → Node → Node
set_nexts f n = record n { nexts = f }

-- p->nexts_[i], and the assignment to it.
unfoldable pub next_at : Heap → Ptr → ℕ → Option Ptr
next_at h p i = do n ← at h p; n.nexts i

unfoldable pub set_next : Heap → Ptr → ℕ → Ptr → Option Heap
set_next h p i t = do
  n ← at h p
  if ltb i n.height then some (write h p (some (set_nexts (update_at n.nexts i t) n))) else none

unfoldable pub init : (Heap → Ptr) → Heap → SkipList
unfolding write
init alloc h =
    let head = alloc h in
    let with_head = write h head (some (new_node [] [] 1)) in
    let tail = alloc with_head in
    let head_node = record (new_node [] [] 1) { nexts = update_at (λ j. none) 0 tail } in
    let tail_node = record (new_node [] [] 1) { nexts = update_at (λ j. none) 0 nullptr } in
    record {
      heap = write (write with_head tail (some tail_node)) head (some head_node);
      head = head;
      tail = tail;
      num_entries = 0;
      num_bytes = 0;
    }

-- The loop adds one for each draw of 1 before the first 0.
unfoldable pub random_height : ℕ → ℕ
random_height ones = if ltb max_height (suc ones) then max_height else suc ones

unfoldable pub get_max_height : SkipList → Option ℕ
get_max_height s = do n ← at s.heap s.head; some n.height

-- The array `prevs` of the callers.
abbrev pub Prevs : Type 0
Prevs = ℕ → Option Ptr

-- What a round of a search does: go on to the next node, go down a level, or stop before `next`.
pub data Move : Type 0 where
  forward : Ptr → Move
  down : Move
  stop : Ptr → Move

-- next != tail_ && next->key_ < key
unfoldable pub is_less : SkipList → Ptr → List ℕ → Option Bool
is_less s next key =
    if next == s.tail then some false else (do n ← at s.heap next; some (bytes_lt n.key key))

unfoldable pub find_move : SkipList → List ℕ → Ptr → ℕ → Option Move
find_move s key x level = do
  next ← next_at s.heap x level
  less ← is_less s next key
  some (if less then forward next else if level == 0 then stop next else down)

unfoldable pub find_loop : ℕ → SkipList → List ℕ → Ptr → ℕ → Prevs → Option (Ptr × Prevs)
find_loop zero s key x level prevs = none
find_loop (suc fuel) s key x level prevs = elim (find_move s key x level) [
  | none ↦ none
  | some (forward next) ↦ find_loop fuel s key next level prevs
  | some down ↦ find_loop fuel s key x (level - 1) (update_at prevs level x)
  | some (stop next) ↦ some (next, update_at prevs level x)
]

unfoldable pub find_greator_or_equal : SkipList → List ℕ → Option (Ptr × Prevs)
find_greator_or_equal s key = do
  height ← get_max_height s
  find_loop (length s.heap + height) s key s.head (height - 1) (λ j. none)

unfoldable pub less_loop : ℕ → SkipList → List ℕ → Ptr → ℕ → Option Ptr
less_loop zero s key node level = none
less_loop (suc fuel) s key node level = elim (find_move s key node level) [
  | none ↦ none
  | some (forward next) ↦ less_loop fuel s key next level
  | some down ↦ less_loop fuel s key node (level - 1)
  | some (stop next) ↦ some node
]

unfoldable pub find_less_than : SkipList → List ℕ → Option Ptr
find_less_than s key = do
  height ← get_max_height s
  less_loop (length s.heap + height) s key s.head (height - 1)

unfoldable pub last_loop : ℕ → SkipList → Ptr → ℕ → Option Ptr
last_loop zero s node level = none
last_loop (suc fuel) s node level = do
  next ← next_at s.heap node level
  let further = last_loop fuel s next level
  let below = last_loop fuel s node (level - 1)
  if not (next == s.tail) then further else if level == 0 then some node else below

unfoldable pub find_last : SkipList → Option Ptr
find_last s = do height ← get_max_height s; last_loop (length s.heap + height) s s.head (height - 1)
