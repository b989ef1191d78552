-- ===== src/Storage/Levels.antt =====
-- src/storage/LevelZero.cpp, src/storage/DiskStorage.cpp and src/storage/SSTableId.cpp: the tables on
-- disk. A file is the list of its bytes; a table's file is named by its number. There is no table
-- cache and no block cache, as DiskStorage makes the level.
pub mod Meta
pub mod Oldest
use ddbms.Base.{
  ℕ, zero, suc, ◌+◌, Bool, false, Option, none, some, List, [], ◌∷◌, ◌++◌, ◌==◌, if◌then◌else◌,
}
use ddbms.Base.Words.{u64}
use ddbms.Base.Bytes.{bytes_le, read_u64}
use ddbms.Storage.Block.{◌>>=◌}
use ddbms.Storage.SkipList.{SkipList}
use ddbms.Storage.Table.{create_sstable}
use ddbms.Storage.SsTable.{open_sstable, search_table}

pub record LevelZero : Type 0 where
  pub ssts : List ℕ
  pub size : ℕ
  pub num_entries : ℕ

-- The directory: the tables by number, the index of the level, which its directory has from the
-- start, and the file `meta`.
pub record Files : Type 0 where
  pub tables : List (ℕ × List ℕ)
  pub index : Option (List ℕ)
  pub meta : Option (List ℕ)

pub record DiskStorage : Type 0 where
  pub files : Files
  pub no : ℕ
  pub level0 : LevelZero

-- The file of a number; the last write counts.
unfoldable pub table_file : List (ℕ × List ℕ) → ℕ → Option (List ℕ)
table_file [] number = none
table_file ((n, bytes) ∷ rest) number = if number == n then some bytes else table_file rest number

unfoldable pub words : List ℕ → List ℕ
words [] = []
words (n ∷ ns) = bytes_le 8 n ++ words ns

-- The bytes of LevelZero::save_meta.
unfoldable pub level_bytes : LevelZero → List ℕ
level_bytes l = bytes_le 8 l.size ++ (bytes_le 8 l.num_entries ++ words l.ssts)

-- The loop of the constructor over the numbers of the tables; `i` is the place of the next one.
unfoldable pub read_numbers : ℕ → List ℕ → ℕ → Option (List ℕ)
read_numbers zero bytes i = some []
read_numbers (suc n) bytes i = do
  number ← read_u64 bytes i
  rest ← read_numbers n bytes (i + 8)
  some (number ∷ rest)

-- The constructor of LevelZero.
abbrev pub new_level : LevelZero
new_level = record { ssts = []; size = 0; num_entries = 0 }

unfoldable pub open_level : Files → Option (LevelZero × Files)
open_level f = elim f.index [
  | none ↦ some (new_level, record f { index = some (level_bytes new_level) })
  | some bytes ↦ (do
    size ← read_u64 bytes 0
    num_entries ← read_u64 bytes 8
    ssts ← read_numbers size bytes 16
    some (record { ssts = ssts; size = size; num_entries = num_entries }, f))
]

-- DiskStorage::read_meta, with save_meta on a missing file.
unfoldable pub read_meta : Files → Option (ℕ × Files)
read_meta f = elim f.meta [
  | none ↦ some (0, record f { meta = some (bytes_le 8 0) })
  | some bytes ↦ (do number ← read_u64 bytes 0; some (number, f))
]

unfoldable pub open_storage : Files → Option DiskStorage
open_storage f = do
  l ← open_level f
  n ← read_meta (l.1)
  some (record { files = n.1; no = n.0; level0 = l.0 })

module _ (compress uncompress : List ℕ → List ℕ) where
  unfoldable pub add_level : SkipList → ℕ → LevelZero → Files → Option (LevelZero × Files)
  add_level memtable number l f = do
    bytes ← create_sstable compress memtable
    let l' = record l {
      ssts = l.ssts ++ number ∷ [];
      size = u64 (l.size + 1);
      num_entries = u64 (l.num_entries + memtable.num_entries);
    }
    some (l', record f { tables = (number, bytes) ∷ f.tables; index = some (level_bytes l') })

  -- What a round of search asks of the table of a number.
  unfoldable pub table_answer : Files → List ℕ → ℕ → Option (Bool × List ℕ)
  table_answer f key number = do
    bytes ← table_file f.tables number
    table ← open_sstable uncompress bytes false
    search_table uncompress table key

  -- The loop of search: the tables in the order in which they were added.
  unfoldable pub search_level : List ℕ → Files → List ℕ → Option (Bool × List ℕ)
  search_level [] f key = some (false, [])
  search_level (number ∷ ssts) f key = do
    result ← table_answer f key number
    if result.0 then some result else search_level ssts f key

  unfoldable pub add_storage : SkipList → DiskStorage → Option DiskStorage
  add_storage memtable d = do
    r ← add_level memtable d.no d.level0 d.files
    let number = u64 (d.no + 1)
    some (record {
      files = record (r.1) { meta = some (bytes_le 8 number) };
      no = number;
      level0 = r.0;
    })

  unfoldable pub search_storage : DiskStorage → List ℕ → Option (Bool × List ℕ)
  search_storage d key = search_level d.level0.ssts d.files key
