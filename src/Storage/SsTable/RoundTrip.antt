-- ===== src/Storage/SsTable/RoundTrip.antt =====
-- src/storage/SSTable.cpp and src/storage/TableBuilder.cpp: what create_sstable wrote is what get reads.
use ddbms.Base.{
  ℕ, zero, suc, ◌+◌, ◌^◌, ◌<◌, ◌≡◌, refl, ap, sym, ◌∙◌, Bool, false, some, List, [], ◌∷◌, ◌++◌,
  length, length-append, append_assoc, All, arith, inl, inr, Bool-cases, if◌then◌else◌,
}
use ddbms.Base.Words.{u64}
use ddbms.Base.Bytes.{bytes_le, length-bytes_le, bytes_lt, read_u64, read_u64-at}
use mathlib.Core.List.{append-nil}
use ddbms.Storage.Builder.{new_builder, finish}
use ddbms.Storage.Block.{◌>>=◌, Block, Iter, get, new_iterator}
use ddbms.Storage.Block.RoundTrip.{Entry, lookup}
use ddbms.Storage.Block.Built.{IsBuilt, add_all-IsBuilt}
use ddbms.Storage.Block.Finish.{new_builder-IsBuilt, get-finish}
use ddbms.Storage.Table.{handle}
use ddbms.Storage.Table.Layout.{Group, block_bytes, blocks_bytes, index_of}
use ddbms.Storage.Table.Created.{IsTable}
use ddbms.Storage.SsTable.{SsTable, load_block, search_loop}
use ddbms.Storage.SsTable.Walk.{
  Reads, opened, IsBetween, next-Between, valid-Between, invalid-Between,
}
use ddbms.Storage.SsTable.Search.{IsCodec, IsSmall, load_block-at, opened_small}

-- What the search finds: the first block whose last key is not less decides.
unfoldable pub table_lookup : List ℕ → List Group → Bool × List ℕ
table_lookup key [] = (false, [])
table_lookup key (g ∷ gs) =
    if bytes_lt g.last key then table_lookup key gs else lookup key g.entries

handle_offset :
    (offset size : ℕ) → offset < 2 ^ 64 → read_u64 (handle (u64 offset) size) 0 ≡ some offset
handle_offset offset size l =
    read_u64-at [] (bytes_le 8 size) (handle (u64 offset) size) 0 offset
      (ap (λ n. bytes_le 8 n ++ bytes_le 8 size) small) refl l
  where
    small : u64 offset ≡ offset
    small = omega (arith, l)

handle_size : (offset size : ℕ) → size < 2 ^ 64 → read_u64 (handle offset size) 8 ≡ some size
handle_size offset size l =
    read_u64-at (bytes_le 8 offset) [] (handle offset size) 8 size
      (ap (λ t. bytes_le 8 offset ++ t) (sym (append-nil (bytes_le 8 size))))
      (sym (length-bytes_le 8 offset)) l

module _ (compress uncompress : List ℕ → List ℕ) (codec : IsCodec compress uncompress)
    (file : List ℕ) (groups : List Group) (t : IsTable compress file groups)
    (small : IsSmall file groups t.index)
    (built : IsBuilt t.index (index_of compress 0 groups)) where
  abbrev pub index : List Entry
  index = index_of compress 0 groups

  abbrev pub index_block : Block
  index_block =
      opened t.index index built (opened_small compress uncompress codec t.index small.index_small)

  abbrev pub table : SsTable
  table = record { file = file; index = new_iterator index_block; cached = false }

  abbrev pub At : Iter → List Entry → List Entry → Type 0
  At =
      IsBetween t.index index built
        (opened_small compress uncompress codec t.index small.index_small)

  -- The block of the index entry that an iterator stands at answers the search.
  block_at :
      (key : List ℕ) (g : Group) (pre rest : List ℕ) (offset : ℕ)
      → file ≡ pre ++ (block_bytes compress g ++ rest)
      → offset ≡ length pre
      → length (finish g.builder).0 < 2 ^ 32
      → (do
        o ← read_u64 (handle (u64 offset) (length (block_bytes compress g))) 0
        n ← read_u64 (handle (u64 offset) (length (block_bytes compress g))) 8
        b ← load_block uncompress file o n
        get b key)
        ≡ some (lookup key g.entries)
  block_at key g pre rest offset e o l =
      rw
        (
          handle_offset offset (length (block_bytes compress g))
              (omega (arith, sizes, o, small.file_small)),
          ◌>>=◌,
          handle_size (u64 offset) (length (block_bytes compress g))
              (omega (arith, sizes, small.file_small)),
          ◌>>=◌,
          load_block-at compress uncompress codec g.builder g.entries pre rest file offset
              (add_all-IsBuilt g.entries [] new_builder g.builder g.built new_builder-IsBuilt) l e
              o,
        )
        (get-finish g.entries g.builder key g.built (omega (arith, l)))
    where
      sizes : length file ≡ length pre + length (block_bytes compress g) + length rest
      sizes =
          ap length e
          ∙ omega (
            arith,
            length-append pre (block_bytes compress g ++ rest),
            length-append (block_bytes compress g) rest,
          )

  pub search_loop_lem :
      (fuel : ℕ) (key : List ℕ) (it : Iter) (pre : List Entry) (gs : List Group)
      (before after : List ℕ) (offset : ℕ)
      → length gs < fuel
      → At it pre (index_of compress offset gs)
      → file ≡ before ++ (blocks_bytes compress gs ++ after)
      → offset ≡ length before
      → All (λ g. length (finish g.builder).0 < 2 ^ 32) gs
      → search_loop uncompress fuel table key it ≡ some (table_lookup key gs)
  unfolding search_loop table_lookup index_of blocks_bytes Reads
  search_loop_lem zero key it pre gs before after offset f w e o a = absurd (none_left gs f)
    where
      none_left : (gs : List Group) → length gs < zero → ⊥
      none_left gs f = omega (arith, f)
  search_loop_lem (suc fuel) key it pre [] before after offset f w e o a =
      rw
        (invalid-Between t.index index built
          (opened_small compress uncompress codec t.index small.index_small) it pre w)
        refl
  search_loop_lem (suc fuel) key it pre (g ∷ gs) before after offset f w e o a =
      let h = handle (u64 offset) (length (block_bytes compress g)) in
      let is_valid =
        valid-Between t.index index built
          (opened_small compress uncompress codec t.index small.index_small) it pre g.last h _ w in
      let step =
        next-Between t.index index built
          (opened_small compress uncompress codec t.index small.index_small) it pre g.last h _ w in
      elim (Bool-cases (bytes_lt g.last key)) [
        | inl less ↦
            rw (is_valid, step.result, w.reads.0, w.reads.1, less, if◌then◌else◌, ◌>>=◌)
              (search_loop_lem fuel key step.iter (pre ++ (g.last, h) ∷ []) gs
                (before ++ block_bytes compress g) after (offset + length (block_bytes compress g))
                (omega (arith, f)) step.between
                (e
                  ∙ ap (λ l. before ++ l) (append_assoc (block_bytes compress g) _ after)
                  ∙ sym (append_assoc before (block_bytes compress g) _))
                (omega (arith, o, length-append before (block_bytes compress g))) (a.1))
        | inr here ↦
            rw (is_valid, w.reads.0, w.reads.1, here, if◌then◌else◌)
              (block_at key g before (blocks_bytes compress gs ++ after) offset
                (e ∙ ap (λ l. before ++ l) (append_assoc (block_bytes compress g) _ after)) o (a.0))
      ]
