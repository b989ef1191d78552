-- ===== src/Tests/Stores.antt =====
-- A store whose memory table holds two keys, and a storage that is written twice.
use ddbms.Base.{
  ◌+◌, ◌≡◌, refl, sym, subst, ◌∙◌, true, false, Option, none, some, some_value, [], ◌∷◌, ◌++◌, ltb,
  arith,
}
use ddbms.Base.Bytes.{bytes_le, bytes_eq}
use ddbms.Storage.Block.{◌>>=◌}
use ddbms.Storage.SkipList.{SkipList}
use ddbms.Storage.SkipList.Update
use ddbms.Storage.SkipList.Key
use ddbms.Storage.SkipList.Refine.{Map, Refines}
use ddbms.Storage.SkipList.Put.{updated}
use ddbms.Storage.Levels.{
  DiskStorage, level_bytes, table_file, add_level, open_storage, add_storage, search_level,
  search_storage,
}
use ddbms.Storage.Levels.Meta.{open_storage-IsSaved}
use ddbms.Storage.KvStore.{sstable_space, KvStore, put, get, del}
use ddbms.Storage.KvStore.Calls.{answer, get-put, del-reveals}
use ddbms.Base.Words.{u64}
use ddbms.Storage.Levels.Oldest.{search_level-first, table_answer-created, search_storage-stale}
use ddbms.Storage.SsTable.Small.{weight}
use ddbms.Storage.Table.Created.{Created, create_sstable_lem, pairs}
use ddbms.Tests.SkipLists.{bump, bump-IsAllocator}
use ddbms.Tests.Tables.{keep-IsCodec, keep, two_keys, both, two_keys-IsSkipList}

abbrev saved : DiskStorage
saved = record {
  files = record {
    tables = [];
    index = some (level_bytes (record { ssts = 0 ∷ 1 ∷ []; size = 2; num_entries = 5 }));
    meta = some (bytes_le 8 2);
  };
  no = 2;
  level0 = record { ssts = 0 ∷ 1 ∷ []; size = 2; num_entries = 5 };
}

open_storage-IsSaved_example : open_storage saved.files ≡ some saved
open_storage-IsSaved_example = open_storage-IsSaved saved (record {
  index = refl;
  meta = refl;
  sizes = refl;
  numbers = (omega arith, (omega arith, tt));
  no_small = omega arith;
  size_small = omega arith;
  entries_small = omega arith;
})

abbrev table : Created keep two_keys (pairs both)
table = create_sstable_lem keep two_keys 2 both two_keys-IsSkipList

abbrev empty_storage : DiskStorage
empty_storage = record {
  files = record { tables = []; index = none; meta = none };
  no = 0;
  level0 = record { ssts = []; size = 0; num_entries = 0 };
}

-- The storage behind one table and another one.
abbrev with_table : DiskStorage → DiskStorage
with_table d =
    let l = record (d.level0) {
      ssts = d.level0.ssts ++ d.no ∷ [];
      size = u64 (d.level0.size + 1);
      num_entries = u64 (d.level0.num_entries + two_keys.num_entries);
    } in
    record {
      files = record {
        tables = (d.no, table.file) ∷ d.files.tables;
        index = some (level_bytes l);
        meta = some (bytes_le 8 (u64 (d.no + 1)));
      };
      no = u64 (d.no + 1);
      level0 = l;
    }

added_table : (d : DiskStorage) → add_storage keep keep two_keys d ≡ some (with_table d)
unfolding add_storage add_level
added_table d = rw (table.created, ◌>>=◌) refl

search_storage-stale_example :
    search_storage keep keep (with_table (with_table empty_storage)) (98 ∷ []) ≡ some (true, 3 ∷ [])
unfolding weight Key.lookup bytes_eq
search_storage-stale_example =
    search_storage-stale keep keep keep-IsCodec two_keys two_keys 2 both empty_storage
      (with_table empty_storage) (with_table (with_table empty_storage)) (98 ∷ []) (3 ∷ [])
      two_keys-IsSkipList (omega arith) refl refl (omega arith) (added_table empty_storage)
      (added_table (with_table empty_storage))

abbrev two_map : Map
two_map key = Key.lookup key both

two_keys-Refines : Refines two_keys two_map
two_keys-Refines = record {
  height = 2;
  entries = both;
  is_list = two_keys-IsSkipList;
  maps = λ k. refl;
}

abbrev store : KvStore
store = record { memtable = two_keys; disk = with_table empty_storage }

on_disk : search_storage keep keep (with_table empty_storage) (98 ∷ []) ≡ some (true, 3 ∷ [])
unfolding search_storage table_file weight Key.lookup bytes_eq
on_disk =
    search_level-first keep keep (with_table empty_storage).files (98 ∷ []) (3 ∷ []) [] 0 [] tt (
      table_answer-created keep keep keep-IsCodec two_keys 2 both (with_table empty_storage).files
        table.file (98 ∷ []) 0 two_keys-IsSkipList (omega arith) table.created refl)

del-reveals_example :
    (del bump keep keep 0 (98 ∷ []) store >>= λ r. get bump keep keep (r.1) (98 ∷ []))
    ≡ some (true, 3 ∷ [])
unfolding Key.lookup bytes_eq
del-reveals_example =
    del-reveals bump keep keep 0 store two_map (98 ∷ []) (3 ∷ []) (3 ∷ []) two_keys-Refines refl
      on_disk refl

abbrev put_result : Option SkipList → SkipList
put_result none = two_keys
put_result (some s) = s

abbrev three_keys : SkipList
three_keys = put_result (Update.put bump 0 (99 ∷ []) (7 ∷ []) two_keys)

three_keys_test :
    (Update.put bump 0 (99 ∷ []) (7 ∷ []) two_keys ≡ some three_keys)
    × (ltb sstable_space three_keys.num_bytes ≡ false)
unfolding Update.put ddbms.Storage.SkipList.find_greator_or_equal
    ddbms.Storage.SkipList.get_max_height ddbms.Storage.SkipList.at ddbms.Storage.SkipList.find_loop
    ddbms.Storage.SkipList.find_move ddbms.Storage.SkipList.next_at ddbms.Storage.SkipList.is_less
    ddbms.Storage.SkipList.Chain.first_ptr ddbms.Base.Bytes.bytes_lt Update.holds_key
    Update.insert_node Update.raise ddbms.Storage.SkipList.random_height Update.link
    ddbms.Storage.SkipList.write ddbms.Storage.SkipList.set_next
three_keys_test = (refl, refl)

three_keys_fit :
    (t : SkipList)
    → Update.put bump 0 (99 ∷ []) (7 ∷ []) two_keys ≡ some t
    → ltb sstable_space t.num_bytes ≡ false
three_keys_fit t p =
    subst (λ u. ltb sstable_space u.num_bytes ≡ false)
      (some_value three_keys t (sym (three_keys_test.0) ∙ p)) (three_keys_test.1)

nothing_on_disk : search_storage keep keep empty_storage (99 ∷ []) ≡ some (false, [])
unfolding search_storage search_level
nothing_on_disk = refl

get-put_example :
    (put bump keep keep 0 (99 ∷ []) (7 ∷ []) (record store { disk = empty_storage }) >>= λ s'.
    get bump keep keep s' (99 ∷ []))
    ≡ some (answer (updated (99 ∷ []) (7 ∷ []) two_map) (false, []) (99 ∷ []))
get-put_example =
    get-put bump keep keep 0 (record store { disk = empty_storage }) two_map (99 ∷ []) (7 ∷ [])
      (99 ∷ []) (false, []) bump-IsAllocator two_keys-Refines three_keys_fit (λ n. nothing_on_disk)
