-- ===== src/Storage/KvStore.antt =====
-- src/storage/KVStore_beta.cpp: the store of a memory table and of the tables on disk. A call runs
-- as a whole, since the mutex is held but for the search on disk.
pub mod Calls
use ddbms.Base.{ℕ, Bool, true, false, not, ◌&&◌, Option, some, List, [], ltb, ◌==◌, if◌then◌else◌}
use ddbms.Storage.Builder.{is_empty}
use ddbms.Storage.Block.{◌>>=◌}
use ddbms.Storage.SkipList.{Ptr, Heap, SkipList}
use ddbms.Storage.SkipList.Update
use ddbms.Storage.Levels.{DiskStorage, add_storage, search_storage}

-- Option::SSTABLE_SPACE
abbrev pub sstable_space : ℕ
sstable_space = 2097152

pub record KvStore : Type 0 where
  pub memtable : SkipList
  pub disk : DiskStorage

-- The test of get and del: a result that is there, and not the empty string of a deleted key.
abbrev pub is_live : Bool × List ℕ → Bool
is_live r = r.0 && not (is_empty (r.1))

module _ (alloc : Heap → Ptr) (compress uncompress : List ℕ → List ℕ) where
  unfoldable pub put : ℕ → List ℕ → List ℕ → KvStore → Option KvStore
  put ones key value s = do
    memtable ← Update.put alloc ones key value s.memtable
    if ltb sstable_space memtable.num_bytes
        then (do
          disk ← add_storage compress uncompress memtable s.disk
          empty ← Update.clear alloc memtable
          some (record { memtable = empty; disk = disk }))
        else some (record s { memtable = memtable })

  unfoldable pub get : KvStore → List ℕ → Option (Bool × List ℕ)
  get s key = do
    in_memory ← Update.contains s.memtable key
    result ←
        if in_memory
        then Update.get s.memtable key
        else search_storage compress uncompress s.disk key
    some (if is_live result then result else (false, []))

  unfoldable pub del : ℕ → List ℕ → KvStore → Option (Bool × KvStore)
  del ones key s = do
    in_memory ← Update.contains s.memtable key
    if in_memory
        then (do r ← Update.del key s.memtable; some (true, record s { memtable = r.1 }))
        else (do
          result ← search_storage compress uncompress s.disk key
          if is_live result
              then (do
                memtable ← Update.put alloc ones key [] s.memtable
                some (true, record s { memtable = memtable }))
              else some (false, s))

  unfoldable pub reset : KvStore → Option KvStore
  reset s = do memtable ← Update.clear alloc s.memtable; some (record s { memtable = memtable })

  unfoldable pub flush : KvStore → Option KvStore
  flush s = if s.memtable.num_entries == 0 then some s else (do
    disk ← add_storage compress uncompress s.memtable s.disk
    some (record s { disk = disk }))
