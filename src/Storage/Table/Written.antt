-- ===== src/Storage/Table/Written.antt =====
-- src/storage/TableBuilder.cpp: the state of the builder between the entries of an ascending run.
use ddbms.Base.{
  ℕ, ◌+◌, ◌≡◌, refl, ap, sym, ◌∙◌, subst, true, false, Option, none, some, List, [], ◌∷◌, ◌++◌,
  length, length-append, arith, if◌then◌else◌, some_value,
}
use ddbms.Base.Words.{u64}
use ddbms.Base.Bytes.{bytes_lt, bytes_le}
use mathlib.Core.List.{append-nil}
use ddbms.Storage.Builder.{
  BlockBuilder, new_builder, add_allowed, append_entry, write_restart, reset, is_empty,
  builder_empty, entry_bytes,
}
use ddbms.Storage.Block.{◌>>=◌}
use ddbms.Storage.Block.RoundTrip.{Entry}
use ddbms.Storage.Block.Built.{add_all, add_all-IsBuilt}
use ddbms.Storage.Block.Finish.{new_builder-IsBuilt}
use ddbms.Storage.Table.{TableBuilder, handle, new_table, write_data_block, flush}
use ddbms.Storage.Table.Layout.{
  Group, last_of, entries_of, entries_of-append, block_bytes, blocks_bytes, index_of,
  blocks_bytes-append, index_of-append, add_all-more, add_total, allowed_behind,
}

-- A key that comes behind all that were added.
abbrev pub Above : Option (List ℕ) → List ℕ → Type 0
Above none k = Unit
Above (some l) k = bytes_lt l k ≡ true

-- What the index block is ready for: the key of the open data block, or any key that may come.
unfoldable pub IndexReady : Option (List ℕ) → List Entry → TableBuilder → Type 0
IndexReady bound [] t = (k : List ℕ) → Above bound k → add_allowed k t.indexblock ≡ true
IndexReady bound (e ∷ es) t =
    (add_allowed t.last_key t.indexblock ≡ true)
    × (last_of (e ∷ es) ≡ some t.last_key)
    × (bound ≡ some t.last_key)

pub record IsWritten (compress : List ℕ → List ℕ) (t : TableBuilder) (bound : Option (List ℕ))
    (groups : List Group) (pending : List Entry) : Type 0 where
  pub file : t.file ≡ blocks_bytes compress groups
  pub offset : t.offset ≡ u64 (length t.file)
  pub index : add_all (index_of compress 0 groups) new_builder ≡ some t.indexblock
  pub block : add_all pending new_builder ≡ some t.datablock
  pub ready : (k : List ℕ) → Above bound k → add_allowed k t.datablock ≡ true
  pub index_ready : IndexReady bound pending t

pub new_table-IsWritten : (compress : List ℕ → List ℕ) → IsWritten compress new_table none [] []
unfolding blocks_bytes index_of add_all IndexReady
new_table-IsWritten compress = record {
  file = refl;
  offset = refl;
  index = refl;
  block = refl;
  ready = λ k a. refl;
  index_ready = λ k a. refl;
}

-- A data block that has entries is not empty.
pub filled_block :
    (e : Entry) (es : List Entry) (b : BlockBuilder)
    → add_all (e ∷ es) new_builder ≡ some b
    → builder_empty b ≡ false
unfolding entry_bytes bytes_le
filled_block (k, v) es b h =
    ap is_empty (add_all-IsBuilt ((k, v) ∷ es) [] new_builder b h new_builder-IsBuilt).bytes

-- The block that is written, and the state behind it.
pub record Flushed (compress : List ℕ → List ℕ) (t : TableBuilder) (bound : Option (List ℕ))
    (groups : List Group) (pending : List Entry) : Type 0 where
  pub table : TableBuilder
  pub groups_after : List Group
  pub flushed : flush compress t ≡ some table
  pub is_written : IsWritten compress table bound groups_after []
  pub entries : entries_of groups_after ≡ entries_of groups ++ pending

module _ (compress : List ℕ → List ℕ) (t : TableBuilder) (bound : Option (List ℕ))
    (groups : List Group) where
  flush_filled :
      (e : Entry) (es : List Entry)
      → IsWritten compress t bound groups (e ∷ es)
      → Flushed compress t bound groups (e ∷ es)
  unfolding flush write_data_block IndexReady reset entries_of blocks_bytes add_all
  flush_filled e es w =
      let g = group (w.index_ready.1) w.block in
      let h = handle t.offset (length (block_bytes compress g)) in
      record {
        table = record t {
          file = t.file ++ block_bytes compress g;
          size = length (block_bytes compress g);
          offset = u64 (t.offset + length (block_bytes compress g));
          indexblock = append_entry t.last_key h (write_restart t.indexblock);
          datablock = new_builder;
        };
        groups_after = groups ++ g ∷ [];
        flushed =
            rw
              (
                filled_block e es t.datablock w.block,
                if◌then◌else◌,
                add_total t.last_key t.indexblock h (w.index_ready.0),
                ◌>>=◌,
              )
              refl;
        is_written = record {
          file = rw (w.file) (sym (blocks_bytes-append compress groups (g ∷ []) ∙ no_more g));
          offset = omega (arith, w.offset, length-append t.file (block_bytes compress g));
          index = rw (index_of-append compress 0 groups g) (
              add_all-more (index_of compress 0 groups) t.last_key
                (handle (u64 (0 + length (blocks_bytes compress groups)))
                  (length (block_bytes compress g)))
                new_builder t.indexblock _ w.index
                (rw (sym place) (add_total t.last_key t.indexblock h (w.index_ready.0))));
          block = refl;
          ready = λ k a. refl;
          index_ready = λ k a.
              allowed_behind t.last_key t.indexblock h k (w.index_ready.0)
                (subst (λ b. Above b k) (w.index_ready.2) a);
        };
        entries = entries_of-append groups (g ∷ []) ∙ no_more_entries g;
      }
    where
      group :
          last_of (e ∷ es) ≡ some t.last_key
          → add_all (e ∷ es) new_builder ≡ some t.datablock
          → Group
      group l b = record {
        entries = e ∷ es;
        last = t.last_key;
        builder = t.datablock;
        built = b;
        ends = l;
      }

      no_more :
          (g : Group)
          → blocks_bytes compress groups ++ (block_bytes compress g ++ [])
            ≡ blocks_bytes compress groups ++ block_bytes compress g
      no_more g = ap (λ l. blocks_bytes compress groups ++ l) (append-nil (block_bytes compress g))

      no_more_entries :
          (g : Group) → entries_of groups ++ (g.entries ++ []) ≡ entries_of groups ++ g.entries
      no_more_entries g = ap (λ l. entries_of groups ++ l) (append-nil g.entries)

      place : t.offset ≡ u64 (0 + length (blocks_bytes compress groups))
      place = omega (arith, w.offset, ap length w.file)

-- flush on any state.
pub flush_lem :
    (compress : List ℕ → List ℕ) (t : TableBuilder) (bound : Option (List ℕ)) (groups : List Group)
    (pending : List Entry)
    → IsWritten compress t bound groups pending
    → Flushed compress t bound groups pending
unfolding flush add_all
flush_lem compress t bound groups [] w = record {
  table = t;
  groups_after = groups;
  flushed =
      rw (ap builder_empty (sym (some_value new_builder t.datablock w.block)), if◌then◌else◌) refl;
  is_written = w;
  entries = sym (append-nil (entries_of groups));
}
flush_lem compress t bound groups (e ∷ es) w = flush_filled compress t bound groups e es w
