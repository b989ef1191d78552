-- ===== src/Storage/SsTable/Search.antt =====
-- src/storage/SSTable.cpp: the blocks of a table are found in its file.
use ddbms.Base.{
  ℕ, ◌+◌, ◌-◌, ◌*◌, ◌^◌, ◌≤◌, ◌<◌, ◌≡◌, refl, ap, sym, ◌∙◌, Bool, true, some, List, [], ◌++◌,
  length, length-append, take-append, append_assoc, leb, All, arith, if◌then◌else◌,
}
use ddbms.Base.Words.{u64}
use ddbms.Base.Bytes.{bytes_le, length-bytes_le, read_u64-at, drop-length}
use mathlib.Core.List.{append-nil}
use ddbms.Storage.Builder.{BlockBuilder, finish}
use ddbms.Storage.Block.{◌>>=◌, open_block, new_iterator}
use ddbms.Storage.Block.RoundTrip.{Entry}
use ddbms.Storage.Block.Built.{IsBuilt}
use ddbms.Storage.Block.Finish.{open_built}
use ddbms.Storage.Table.{handle}
use ddbms.Storage.Table.Layout.{Group, blocks_bytes, index_of}
use ddbms.Storage.Table.Created.{IsTable}
use ddbms.Storage.SsTable.{read_file, load_block, open_sstable}
use ddbms.Storage.SsTable.Walk.{opened}

-- What the library promises: it gives back what it compressed, below 2 ^ 32 bytes, and a bound of
-- the compressed size that is above snappy::MaxCompressedLength.
pub record IsCodec (compress uncompress : List ℕ → List ℕ) : Type 0 where
  pub gives_back : (c : List ℕ) → length c < 2 ^ 32 → uncompress (compress c) ≡ c
  pub bounded : (c : List ℕ) → length (compress c) ≤ 2 * length c + 32

-- The file has less than 2 ^ 64 bytes, and each block less than 2 ^ 32 before it is compressed.
pub record IsSmall (file : List ℕ) (groups : List Group) (index : BlockBuilder) : Type 0 where
  pub file_small : length file < 2 ^ 64
  pub blocks_small : All (λ g. length (finish g.builder).0 < 2 ^ 32) groups
  pub index_small : length (finish index).0 < 2 ^ 32

read_file-at :
    (pre s rest file : List ℕ) (offset : ℕ)
    → file ≡ pre ++ (s ++ rest)
    → offset ≡ length pre
    → read_file file offset (length s) ≡ some s
unfolding read_file
read_file-at pre s rest file offset e o =
    rw (e, o, drop-length pre (s ++ rest), take-append s rest, fits) refl
  where
    fits : leb (length pre + length s) (length (pre ++ (s ++ rest))) ≡ true
    fits = ground (arith, length-append pre (s ++ rest), length-append s rest)

module _ (compress uncompress : List ℕ → List ℕ) (codec : IsCodec compress uncompress) where
  pub load_block-at :
      (b : BlockBuilder) (es : List Entry) (pre rest file : List ℕ) (offset : ℕ)
      → IsBuilt b es
      → length (finish b).0 < 2 ^ 32
      → file ≡ pre ++ (compress ((finish b).0) ++ rest)
      → offset ≡ length pre
      → load_block uncompress file offset (length (compress ((finish b).0)))
        ≡ open_block ((finish b).0)
  unfolding load_block
  load_block-at b es pre rest file offset w small e o =
      rw
        (
          read_file-at pre (compress ((finish b).0)) rest file offset e o,
          ◌>>=◌,
          codec.gives_back ((finish b).0) small,
        )
        refl

  pub opened_small :
      (b : BlockBuilder) → length (finish b).0 < 2 ^ 32 → length (finish b).0 < 2 ^ 64
  opened_small b h = omega (arith, h)

  -- The index of a table, when it is opened.
  pub open_sstable_lem :
      (file : List ℕ) (groups : List Group) (cached : Bool) (t : IsTable compress file groups)
      (small : IsSmall file groups t.index) (built : IsBuilt t.index (index_of compress 0 groups))
      → open_sstable uncompress file cached
        ≡ some (record {
          file = file;
          index = new_iterator (
              opened t.index
                (index_of compress 0 groups)
                built
                (opened_small t.index small.index_small));
          cached = cached;
        })
  unfolding open_sstable
  open_sstable_lem file groups cached t small built =
      rw
        (
          long,
          if◌then◌else◌,
          read_u64-at (blocks ++ index) (bytes_le 8 (length index)) file (length file - 16) place
              (t.bytes ∙ sym (append_assoc blocks index _))
              (omega (arith, sizes, length-append blocks index)) (omega arith),
          ◌>>=◌,
          read_u64-at (blocks ++ (index ++ bytes_le 8 place)) [] file (length file - 8)
              (length index) (t.bytes ∙ last_word)
              (omega (
                arith,
                sizes,
                length-append blocks (index ++ bytes_le 8 place),
                length-append index (bytes_le 8 place),
                length-bytes_le 8 place,
              ))
              (omega (arith, sizes, small.file_small)),
          ◌>>=◌,
          load_block-at t.index (index_of compress 0 groups) blocks (handle place (length index))
              file place built small.index_small t.bytes (omega (arith, sizes, small.file_small)),
          open_built t.index (index_of compress 0 groups) built
              (opened_small t.index small.index_small),
          ◌>>=◌,
        )
        refl
    where
      blocks : List ℕ
      blocks = blocks_bytes compress groups

      index : List ℕ
      index = compress ((finish t.index).0)

      place : ℕ
      place = u64 (length blocks)

      sizes : length file ≡ length blocks + length index + 16
      sizes =
          ap length t.bytes
          ∙ omega (
            arith,
            length-append blocks (index ++ handle place (length index)),
            length-append index (handle place (length index)),
            length-append (bytes_le 8 place) (bytes_le 8 (length index)),
            length-bytes_le 8 place,
            length-bytes_le 8 (length index),
          )

      long : leb 16 (length file) ≡ true
      long = ground (arith, sizes)

      last_word :
          blocks ++ (index ++ (bytes_le 8 place ++ bytes_le 8 (length index)))
          ≡ (blocks ++ (index ++ bytes_le 8 place)) ++ (bytes_le 8 (length index) ++ [])
      last_word =
          ap (λ l. blocks ++ l)
            (sym (append_assoc index (bytes_le 8 place) (bytes_le 8 (length index))))
          ∙ sym (append_assoc blocks (index ++ bytes_le 8 place) (bytes_le 8 (length index)))
          ∙ ap (λ l. (blocks ++ (index ++ bytes_le 8 place)) ++ l)
              (sym (append-nil (bytes_le 8 (length index))))
