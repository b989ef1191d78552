-- ===== src/Tests/Tables.antt =====
-- A table that is made of a skip list with two keys, with a compression that keeps its input.
use ddbms.Base.{ℕ, ◌≡◌, refl, false, some, List, [], ◌∷◌, arith}
use ddbms.Storage.Block.{◌>>=◌}
use ddbms.Storage.SkipList.{SkipList, at}
use ddbms.Storage.SkipList.Update.{tail_nexts}
use ddbms.Storage.SkipList.Chain.{
  Entry, first_ptr, links, end_node, entry_node, IsChain, IsSorted, IsApart, IsPlaced, bytes_of,
  IsSkipList,
}
use ddbms.Storage.SkipList.Key
use ddbms.Storage.SkipList.Lookup.{found}
use ddbms.Storage.SkipList.Iterator.{prev}
use ddbms.Storage.SkipList.Iterator.Walk.{iterator_at}
use ddbms.Storage.SkipList.Iterator.Back.{prev_lem}
use ddbms.Storage.Table.{create_sstable}
use ddbms.Storage.SsTable.{open_sstable, search_table}
use ddbms.Storage.SsTable.Search.{IsCodec}
use ddbms.Storage.SsTable.Small.{weight}
use ddbms.Storage.SsTable.Whole.{search-create_sstable}
use ddbms.Base.Bytes.{bytes_lt}

abbrev pub keep : List ℕ → List ℕ
keep c = c

pub keep-IsCodec : IsCodec keep keep
keep-IsCodec = record { gives_back = λ c l. refl; bounded = λ c. omega arith }

abbrev pub first : Entry
first = record { ptr = 3; key = 97 ∷ []; value = 1 ∷ 2 ∷ []; height = 2 }

abbrev pub second : Entry
second = record { ptr = 4; key = 98 ∷ []; value = 3 ∷ []; height = 1 }

abbrev pub both : List Entry
both = first ∷ second ∷ []

abbrev pub two_keys : SkipList
two_keys = record {
  heap =
      (1, some (end_node 2 (links 2 2 both)))
      ∷ (2, some (end_node 2 (tail_nexts 2)))
      ∷ (3, some (entry_node 2 first (second ∷ [])))
      ∷ (4, some (entry_node 2 second []))
      ∷ [];
  head = 1;
  tail = 2;
  num_entries = 2;
  num_bytes = 5;
}

pub two_keys-IsSkipList : IsSkipList two_keys 2 both
unfolding at first_ptr IsChain IsSorted IsApart bytes_of bytes_lt
two_keys-IsSkipList = record {
  head_node = refl;
  tail_node = refl;
  chain = (refl, (refl, tt));
  sorted = ((refl, tt), (tt, tt));
  apart = ((omega arith, tt), (tt, tt));
  placed = (placed first, (placed_second, tt));
  ends_apart = omega arith;
  head_not_null = omega arith;
  tail_not_null = omega arith;
  one_level = omega arith;
  levels = omega arith;
  room = omega arith;
  count = refl;
  size = refl;
}
  where
    placed : (e : Entry) → IsPlaced 1 2 2 first
    placed e = record {
      not_null = omega arith;
      not_head = omega arith;
      not_tail = omega arith;
      one_level = omega arith;
      in_levels = omega arith;
    }

    placed_second : IsPlaced 1 2 2 second
    placed_second = record {
      not_null = omega arith;
      not_head = omega arith;
      not_tail = omega arith;
      one_level = omega arith;
      in_levels = omega arith;
    }

search-create_sstable_example :
    (do
      file ← create_sstable keep two_keys
      t ← open_sstable keep file false
      search_table keep t (98 ∷ []))
    ≡ some (found (Key.lookup (98 ∷ []) both))
unfolding weight
search-create_sstable_example =
    search-create_sstable keep keep keep-IsCodec two_keys 2 both (98 ∷ []) two_keys-IsSkipList
      (omega arith)

prev_example : prev (iterator_at two_keys 4) ≡ some (iterator_at two_keys 3)
prev_example = prev_lem two_keys 2 both two_keys-IsSkipList (first ∷ []) second [] refl
