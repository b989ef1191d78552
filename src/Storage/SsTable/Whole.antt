-- ===== src/Storage/SsTable/Whole.antt =====
-- src/storage/SSTable.cpp: get on the table that create_sstable made of a memory table.
use ddbms.Base.{
  ℕ, suc, ◌+◌, ◌≤◌, ◌<◌, ◌≡◌, refl, ap, sym, ◌∙◌, subst, true, false, some, List, [], ◌∷◌, length,
  length-append, All, ◌^◌, arith, Bool-cases, inl, inr, if◌then◌else◌,
}
use ddbms.Base.Bytes.{bytes_lt, bytes_eq}
use ddbms.Base.Words.{u64}
use ddbms.Storage.Builder.{new_builder, entry_bytes}
use ddbms.Storage.Block.{◌>>=◌}
use ddbms.Storage.Block.RoundTrip.{lookup, encode, length-entry_bytes}
use ddbms.Storage.Block.Built.{add_all-IsBuilt}
use ddbms.Storage.Block.Finish.{new_builder-IsBuilt}
use ddbms.Storage.SkipList.{SkipList}
use ddbms.Storage.SkipList.Chain
use ddbms.Storage.SkipList.Chain.{IsSkipList, IsSorted}
use ddbms.Storage.SkipList.Key
use ddbms.Storage.SkipList.Lookup.{found}
use ddbms.Storage.Table.{create_sstable, handle}
use ddbms.Storage.Table.Layout.{Group, entries_of, block_bytes, index_of}
use ddbms.Storage.Table.Created.{IsTable, create_sstable_lem, pairs}
use ddbms.Storage.SsTable.{open_sstable, search_table}
use ddbms.Storage.SsTable.Walk.{seek_to_first-Between}
use ddbms.Storage.SsTable.Search.{IsCodec, IsSmall, opened_small, open_sstable_lem}
use ddbms.Storage.SsTable.RoundTrip.{search_loop_lem}
use ddbms.Storage.SsTable.Small.{weight, IsTable-IsSmall}
use ddbms.Storage.SsTable.Ascending.{IsAscending, table_lookup_lem}

-- The index has an entry of a byte and more for each block.
index_length :
    (compress : List ℕ → List ℕ) (offset : ℕ) (gs : List Group)
    → length gs ≤ length (encode (index_of compress offset gs))
unfolding index_of
index_length compress offset [] = omega arith
index_length compress offset (g ∷ gs) = omega (
  arith,
  index_length compress (offset + length (block_bytes compress g)) gs,
  length-append (entry_bytes g.last (handle (u64 offset) (length (block_bytes compress g))))
      (encode (index_of compress (offset + length (block_bytes compress g)) gs)),
  length-entry_bytes g.last (handle (u64 offset) (length (block_bytes compress g))),
)

module _ (compress uncompress : List ℕ → List ℕ) (codec : IsCodec compress uncompress) where
  search_table_lem :
      (file : List ℕ) (groups : List Group) (t : IsTable compress file groups) (key : List ℕ)
      (small : IsSmall file groups t.index)
      → IsAscending (entries_of groups)
      → (open_sstable uncompress file false >>= λ s. search_table uncompress s key)
        ≡ some (lookup key (entries_of groups))
  unfolding search_table
  search_table_lem file groups t key small a =
      let built =
        add_all-IsBuilt (index_of compress 0 groups) [] new_builder t.index t.index_built
          new_builder-IsBuilt in
      let first =
        seek_to_first-Between t.index (index_of compress 0 groups) built
          (opened_small compress uncompress codec t.index small.index_small) in
      rw
        (
          open_sstable_lem compress uncompress codec file groups false t small built,
          ◌>>=◌,
          first.result,
          ◌>>=◌,
        )
        (search_loop_lem compress uncompress codec file groups t small built
            (suc (length t.index.buffer)) key first.iter [] groups [] _ 0
            (omega (arith, index_length compress 0 groups, ap length built.bytes)) first.between
            t.bytes refl small.blocks_small
          ∙ ap some (table_lookup_lem key groups a))

  pairs-IsAscending : (cs : List Chain.Entry) → IsSorted cs → IsAscending (pairs cs)
  unfolding IsSorted IsAscending
  pairs-IsAscending [] o = tt
  pairs-IsAscending (c ∷ cs) o = (behind c cs (o.0), pairs-IsAscending cs (o.1))
    where
      behind :
          (c : Chain.Entry) (ds : List Chain.Entry)
          → All (λ d. bytes_lt c.key d.key ≡ true) ds
          → All (λ f. bytes_lt c.key (f.0) ≡ true) (pairs ds)
      behind c [] a = tt
      behind c (d ∷ ds) a = (a.0, behind c ds (a.1))

  lookup-pairs :
      (key : List ℕ) (cs : List Chain.Entry) → lookup key (pairs cs) ≡ found (Key.lookup key cs)
  unfolding Key.lookup
  lookup-pairs key [] = refl
  lookup-pairs key (c ∷ cs) = elim (Bool-cases (bytes_eq c.key key)) [
    | inl t ↦ rw (t, if◌then◌else◌) refl
    | inr f ↦ rw (f, if◌then◌else◌) (lookup-pairs key cs)
  ]

  -- create_sstable on a well-formed skip list returns a file; the file opens, and get without a
  -- block cache answers each key from it as the list does. The compression is assumed to give back
  -- what it got and to add no more than the library documents; the keys and values of the list,
  -- with 64 bytes for each of them, are below 2 ^ 31 bytes.
  pub search-create_sstable :
      (s : SkipList) (height : ℕ) (cs : List Chain.Entry) (key : List ℕ)
      → IsSkipList s height cs
      → weight (pairs cs) < 2 ^ 31
      → (do
        file ← create_sstable compress s
        t ← open_sstable uncompress file false
        search_table uncompress t key)
        ≡ some (found (Key.lookup key cs))
  search-create_sstable s height cs key w l =
      let c = create_sstable_lem compress s height cs w in
      rw (c.created, ◌>>=◌)
        (search_table_lem c.file c.groups c.is_table key
            (IsTable-IsSmall compress uncompress codec c.file c.groups c.is_table
              (subst (λ es. weight es < 2 ^ 31) (sym c.entries) l))
            (subst IsAscending (sym c.entries) (pairs-IsAscending cs w.sorted))
          ∙ ap (λ es. some (lookup key es)) c.entries
          ∙ ap some (lookup-pairs key cs))
