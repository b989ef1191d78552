-- ===== src/Storage/SsTable.antt =====
-- src/storage/SSTable.cpp: a sorted table is read from a file. `uncompress` is snappy::Uncompress.
-- A read behind the end of the file, which leaves the buffer undefined, is `none`.
pub mod Walk
pub mod Search
pub mod RoundTrip
pub mod Ascending
pub mod Small
pub mod Whole
use ddbms.Base.{
  ℕ, zero, suc, ◌+◌, ◌-◌, Bool, false, not, Option, none, some, List, [], take, drop, length, leb,
  if◌then◌else◌,
}
use ddbms.Base.Bytes.{bytes_lt, read_u64}
use ddbms.Storage.Block.{
  ◌>>=◌, Block, Iter, open_block, get, new_iterator, valid, seek_to_first, next, iter_key,
  iter_value,
}

-- seekg and read: all of the bytes, or a failure.
unfoldable pub read_file : List ℕ → ℕ → ℕ → Option (List ℕ)
read_file file offset size =
    if leb (offset + size) (length file) then some (take size (drop offset file)) else none

-- The file, the iterator of the index block, and whether there is a block cache.
pub record SsTable : Type 0 where
  pub file : List ℕ
  pub index : Iter
  pub cached : Bool

module _ (uncompress : List ℕ → List ℕ) where
  unfoldable pub load_block : List ℕ → ℕ → ℕ → Option Block
  load_block file offset size = do
    buffer ← read_file file offset size
    open_block (uncompress buffer)

  unfoldable pub open_sstable : List ℕ → Bool → Option SsTable
  open_sstable file cached = if not (leb 16 (length file)) then none else (do
    offset ← read_u64 file (length file - 16)
    size ← read_u64 file (length file - 8)
    block ← load_block file offset size
    some (record { file = file; index = new_iterator block; cached = cached }))

  -- The loop of get. With a cache, the branch of a block that may hold the key does nothing.
  unfoldable pub search_loop : ℕ → SsTable → List ℕ → Iter → Option (Bool × List ℕ)
  search_loop zero t key it = none
  search_loop (suc fuel) t key it = if not (valid it) then some (false, []) else (do
    last_key ← iter_key it
    handle ← iter_value it
    let stuck = search_loop fuel t key it
    if bytes_lt last_key key
        then (do it' ← next it; search_loop fuel t key it')
        else if t.cached
        then stuck
        else (do
          offset ← read_u64 handle 0
          size ← read_u64 handle 8
          block ← load_block t.file offset size
          get block key))

  unfoldable pub search_table : SsTable → List ℕ → Option (Bool × List ℕ)
  search_table t key = do
    it ← seek_to_first t.index
    search_loop (suc t.index.block.restart_offset) t key it
