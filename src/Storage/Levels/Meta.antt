-- ===== src/Storage/Levels/Meta.antt =====
-- The files `index` and `meta` give back the state that was saved.
use ddbms.Base.{
  ℕ, ◌+◌, ◌^◌, ◌<◌, ◌≡◌, refl, ap, sym, ◌∙◌, some, List, [], ◌∷◌, ◌++◌, length, length-append,
  append_assoc, All, append-All, arith, subst, Option-cases, some_value, none_absurd, inl, inr,
}
use mathlib.Core.List.{append-nil}
use ddbms.Base.Bytes.{bytes_le, length-bytes_le, read_u64-at}
use ddbms.Storage.Block.{◌>>=◌}
use ddbms.Storage.SkipList.{SkipList}
use ddbms.Storage.Table.{create_sstable}
use ddbms.Storage.Levels.{
  DiskStorage, words, level_bytes, read_numbers, open_level, read_meta, open_storage, add_level,
  add_storage,
}

read_numbers-words :
    (ns : List ℕ) (pre bytes : List ℕ) (i : ℕ)
    → bytes ≡ pre ++ words ns
    → i ≡ length pre
    → All (λ n. n < 2 ^ 64) ns
    → read_numbers (length ns) bytes i ≡ some ns
unfolding read_numbers words
read_numbers-words [] pre bytes i e o a = refl
read_numbers-words (n ∷ ns) pre bytes i e o a =
    rw
      (
        read_u64-at pre (words ns) bytes i n e o (a.0),
        ◌>>=◌,
        read_numbers-words ns (pre ++ bytes_le 8 n) bytes (i + 8)
            (e ∙ sym (append_assoc pre (bytes_le 8 n) (words ns)))
            (omega (arith, o, length-append pre (bytes_le 8 n), length-bytes_le 8 n)) (a.1),
        ◌>>=◌,
      )
      refl

-- What is on disk is what is in memory.
pub record IsSaved (d : DiskStorage) : Type 0 where
  pub index : d.files.index ≡ some (level_bytes d.level0)
  pub meta : d.files.meta ≡ some (bytes_le 8 d.no)
  pub sizes : d.level0.size ≡ length d.level0.ssts
  pub numbers : All (λ n. n < 2 ^ 64) d.level0.ssts
  pub no_small : d.no < 2 ^ 64
  pub size_small : d.level0.size < 2 ^ 64
  pub entries_small : d.level0.num_entries < 2 ^ 64

-- A storage that is saved is opened again as it was: the numbers of the tables in their order, the
-- counts, and the number of the next table.
pub open_storage-IsSaved : (d : DiskStorage) → IsSaved d → open_storage d.files ≡ some d
unfolding open_storage open_level read_meta level_bytes
open_storage-IsSaved d w =
    rw
      (
        w.index,
        read_u64-at [] (bytes_le 8 d.level0.num_entries ++ words d.level0.ssts)
            (level_bytes d.level0) 0 d.level0.size refl refl w.size_small,
        ◌>>=◌,
        read_u64-at (bytes_le 8 d.level0.size) (words d.level0.ssts) (level_bytes d.level0) 8
            d.level0.num_entries refl (sym (length-bytes_le 8 d.level0.size)) w.entries_small,
        ◌>>=◌,
        numbers,
        ◌>>=◌,
        w.meta,
        read_u64-at [] [] (bytes_le 8 d.no) 0 d.no (sym (append-nil (bytes_le 8 d.no))) refl
            w.no_small,
        ◌>>=◌,
      )
      same
  where
    same :
        some d
        ≡ some (record d {
          files = record d.files {
            index = some (level_bytes d.level0);
            meta = some (bytes_le 8 d.no);
          };
        })
    same =
        ap (λ i. some (record d { files = record d.files { index = i } })) w.index
        ∙ ap
            (λ m. some (record d {
              files = record d.files { index = some (level_bytes d.level0); meta = m };
            }))
            w.meta

    numbers : read_numbers d.level0.size (level_bytes d.level0) 16 ≡ some d.level0.ssts
    numbers =
        subst (λ n. read_numbers n (level_bytes d.level0) 16 ≡ some d.level0.ssts) (sym w.sizes)
          (read_numbers-words d.level0.ssts
            (bytes_le 8 d.level0.size ++ bytes_le 8 d.level0.num_entries) (level_bytes d.level0) 16
            (sym (
              append_assoc (bytes_le 8 d.level0.size) (bytes_le 8 d.level0.num_entries)
                (words d.level0.ssts)))
            (omega (
              arith,
              length-append (bytes_le 8 d.level0.size) (bytes_le 8 d.level0.num_entries),
              length-bytes_le 8 d.level0.size,
              length-bytes_le 8 d.level0.num_entries,
            ))
            w.numbers)

-- Adding a table keeps the files in step with the memory, while the counts stay in their words.
pub add_storage-IsSaved :
    (compress uncompress : List ℕ → List ℕ) (memtable : SkipList) (d d' : DiskStorage)
    → add_storage compress uncompress memtable d ≡ some d'
    → IsSaved d
    → length d'.level0.ssts < 2 ^ 64
    → IsSaved d'
unfolding add_storage add_level
add_storage-IsSaved compress uncompress memtable d d' e w l =
    elim (Option-cases (create_sstable compress memtable)) [
      | inl p ↦ absurd (none_absurd d' (rw (p, ◌>>=◌) at e))
      | inr (bytes, p) ↦
          subst (λ x. length x.level0.ssts < 2 ^ 64 → IsSaved x)
            (some_value _ d' (rw (p, ◌>>=◌) at e))
            (λ small. record {
              index = refl;
              meta = refl;
              sizes = omega (arith, w.sizes, small, length-append d.level0.ssts (d.no ∷ []));
              numbers =
                  append-All (λ n. n < 2 ^ 64) d.level0.ssts (d.no ∷ []) w.numbers (w.no_small, tt);
              no_small = omega arith;
              size_small = omega arith;
              entries_small = omega arith;
            })
            l
    ]
