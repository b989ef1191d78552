-- ===== src/Storage/SkipList/Update.antt =====
-- src/storage/SkipList.cpp: put, del, get, contains and clear. Sizes are size_t and wrap around.
use ddbms.Base.{
  ℕ, zero, suc, ◌+◌, Bool, true, false, ◌&&◌, Option, none, some, List, [], length, ltb, leb, ◌==◌,
  if◌then◌else◌,
}
use ddbms.Base.Words.{u64, sub64}
use ddbms.Base.Bytes.{bytes_eq}
use ddbms.Storage.Block.{◌>>=◌}
use ddbms.Storage.SkipList.{
  Ptr, nullptr, Heap, SkipList, Prevs, at, write, new_node, next_at, set_next, init, random_height,
  get_max_height, find_greator_or_equal,
}

-- node != tail_ && node->key_ == key
unfoldable pub holds_key : SkipList → Ptr → List ℕ → Option Bool
holds_key s p key =
    if p == s.tail then some false else (do n ← at s.heap p; some (bytes_eq n.key key))

unfoldable pub get : SkipList → List ℕ → Option (Bool × List ℕ)
get s key = do
  r ← find_greator_or_equal s key
  hit ← holds_key s (r.0) key
  if hit then (do n ← at s.heap (r.0); some (true, n.value)) else some (false, [])

unfoldable pub contains : SkipList → List ℕ → Option Bool
contains s key = do r ← find_greator_or_equal s key; holds_key s (r.0) key

-- The branch of put that finds the key.
unfoldable pub update_value : Ptr → List ℕ → SkipList → Option SkipList
update_value p value s = do
  n ← at s.heap p
  some (record s {
    num_bytes = u64 (sub64 s.num_bytes (u64 (length n.value)) + length value);
    heap = write s.heap p (some (record n { value = value }));
  })

-- The two arrays that enlargeHeight fills.
abbrev pub head_nexts : ℕ → ℕ → Ptr → (ℕ → Option Ptr) → ℕ → Option Ptr
head_nexts old height tail nexts j =
    if ltb j old then nexts j else if ltb j height then some tail else none

abbrev pub tail_nexts : ℕ → ℕ → Option Ptr
tail_nexts height j = if ltb j height then some nullptr else none

unfoldable pub enlarge_height : ℕ → SkipList → Option SkipList
enlarge_height height s = do
  h ← at s.heap s.head
  t ← at s.heap s.tail
  let head_node = record h { height = height; nexts = head_nexts h.height height s.tail h.nexts }
  let tail_node = record t { height = height; nexts = tail_nexts height }
  some (record s { heap = write (write s.heap s.head (some head_node)) s.tail (some tail_node) })

-- The loop over the levels [old, height) of the new node, in front of enlargeHeight.
abbrev pub fill_prevs : ℕ → ℕ → Ptr → Prevs → Prevs
fill_prevs old height head prevs i = if leb old i && ltb i height then some head else prevs i

unfoldable pub raise : ℕ → ℕ → SkipList → Option SkipList
raise old height s = if ltb old height then enlarge_height height s else some s

-- The loops over the levels [0, n) that link a node in, and that take it out.
unfoldable pub link : ℕ → Ptr → Prevs → Heap → Option Heap
link zero node prevs h = some h
link (suc i) node prevs h = do
  h₁ ← link i node prevs h
  p ← prevs i
  t ← next_at h₁ p i
  h₂ ← set_next h₁ node i t
  set_next h₂ p i node

unfoldable pub unlink : ℕ → Ptr → Prevs → Heap → Option Heap
unlink zero node prevs h = some h
unlink (suc i) node prevs h = do
  h₁ ← unlink i node prevs h
  p ← prevs i
  t ← next_at h₁ node i
  set_next h₁ p i t

-- The branch of put that does not find the key.
unfoldable pub insert_node : (Heap → Ptr) → ℕ → List ℕ → List ℕ → Prevs → SkipList → Option SkipList
insert_node alloc height key value prevs s = do
  old ← get_max_height s
  s₁ ← raise old height s
  let node = alloc s₁.heap
  h ←
      link height node (fill_prevs old height s.head prevs)
        (write s₁.heap node (some (new_node key value height)))
  some (record s₁ {
    heap = h;
    num_entries = u64 (s₁.num_entries + 1);
    num_bytes = u64 (s₁.num_bytes + length key + length value);
  })

unfoldable pub put : (Heap → Ptr) → ℕ → List ℕ → List ℕ → SkipList → Option SkipList
put alloc ones key value s = do
  r ← find_greator_or_equal s key
  hit ← holds_key s (r.0) key
  if hit
      then update_value (r.0) value s
      else insert_node alloc (random_height ones) key value (r.1) s

-- The branch of del that finds the key.
unfoldable pub delete_node : Ptr → Prevs → SkipList → Option SkipList
delete_node p prevs s = do
  n ← at s.heap p
  h ← unlink n.height p prevs s.heap
  some (record s {
    heap = write h p none;
    num_entries = sub64 s.num_entries 1;
    num_bytes = sub64 (sub64 s.num_bytes (u64 (length n.key))) (u64 (length n.value));
  })

unfoldable pub del : List ℕ → SkipList → Option (Bool × SkipList)
del key s = do
  r ← find_greator_or_equal s key
  hit ← holds_key s (r.0) key
  if hit then (do s' ← delete_node (r.0) (r.1) s; some (true, s')) else some (false, s)

-- The loop of clear; the fuel is that of a search and the two ends.
unfoldable pub clear_loop : ℕ → Heap → Ptr → Option Heap
clear_loop zero h node = none
clear_loop (suc fuel) h node =
    if node == nullptr
    then some h
    else (do next ← next_at h node 0; clear_loop fuel (write h node none) next)

unfoldable pub clear : (Heap → Ptr) → SkipList → Option SkipList
clear alloc s = do h ← clear_loop (length s.heap + 3) s.heap s.head; some (init alloc h)
