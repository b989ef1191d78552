-- ===== src/Storage/Table.antt =====
-- src/storage/TableBuilder.cpp: a sorted table is written to a file. The open file is the list of
-- the bytes written to it. `compress` is snappy::Compress; a failed assertion is `none`.
pub mod Layout
pub mod Written
pub mod Added
pub mod Created
use ddbms.Base.{ℕ, zero, suc, ◌+◌, Option, none, some, List, [], ◌++◌, length, leb, if◌then◌else◌}
use ddbms.Base.Words.{u64}
use ddbms.Base.Bytes.{bytes_le}
use ddbms.Storage.Builder.{
  BlockBuilder, new_builder, builder_empty, add, finish, reset, estimated_size,
}
use ddbms.Storage.Block.{◌>>=◌}
use ddbms.Storage.SkipList.{SkipList}
use ddbms.Storage.SkipList.Iterator.{Iterator, new_iterator, valid, seek_to_first, next, key, value}

-- Option::BLOCK_SPACE
abbrev pub block_space : ℕ
block_space = 4096

pub record TableBuilder : Type 0 where
  pub file : List ℕ
  pub offset : ℕ
  pub size : ℕ
  pub last_key : List ℕ
  pub num_entries : ℕ
  pub datablock : BlockBuilder
  pub indexblock : BlockBuilder

abbrev pub new_table : TableBuilder
new_table = record {
  file = [];
  offset = 0;
  size = 0;
  last_key = [];
  num_entries = 0;
  datablock = new_builder;
  indexblock = new_builder;
}

-- The two words that say where a block stands.
abbrev pub handle : ℕ → ℕ → List ℕ
handle offset size = bytes_le 8 offset ++ bytes_le 8 size

module _ (compress : List ℕ → List ℕ) where
  -- writeBlock on the data block, and on the index block. Option::BLOCK_COMPRESSED is true.
  unfoldable pub write_data_block : TableBuilder → Option TableBuilder
  write_data_block t = do
    let done = finish t.datablock
    let compressed = compress (done.0)
    index ← add t.last_key (handle t.offset (length compressed)) t.indexblock
    some (record t {
      file = t.file ++ compressed;
      size = length compressed;
      offset = u64 (t.offset + length compressed);
      indexblock = index;
      datablock = reset (done.1);
    })

  unfoldable pub write_index_block : TableBuilder → TableBuilder
  write_index_block t =
      let done = finish t.indexblock in
      let compressed = compress (done.0) in
      record t {
        file = t.file ++ (compressed ++ handle t.offset (length compressed));
        size = length compressed;
        offset = u64 (t.offset + length compressed);
        indexblock = reset (done.1);
      }

  unfoldable pub flush : TableBuilder → Option TableBuilder
  flush t = if builder_empty t.datablock then some t else write_data_block t

  unfoldable pub add_entry : List ℕ → List ℕ → TableBuilder → Option TableBuilder
  add_entry key value t = do
    block ← add key value t.datablock
    let t' = record t { last_key = key; datablock = block; num_entries = u64 (t.num_entries + 1) }
    if leb block_space (estimated_size block) then flush t' else some t'

  unfoldable pub finish_table : TableBuilder → Option TableBuilder
  finish_table t = do t' ← flush t; some (write_index_block t')

  -- The loop of create_sstable; the fuel is that of a search in the list.
  unfoldable pub add_loop : ℕ → Iterator → TableBuilder → Option TableBuilder
  add_loop zero it t = none
  add_loop (suc fuel) it t =
      if valid it
      then (do k ← key it; v ← value it; t' ← add_entry k v t; it' ← next it; add_loop fuel it' t')
      else some t

  -- The bytes of the file that create_sstable writes.
  unfoldable pub create_sstable : SkipList → Option (List ℕ)
  create_sstable memtable = do
    it ← seek_to_first (new_iterator memtable)
    t ← add_loop (suc (length memtable.heap)) it new_table
    done ← finish_table t
    some done.file
