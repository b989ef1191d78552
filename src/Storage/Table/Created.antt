-- ===== src/Storage/Table/Created.antt =====
-- src/storage/TableBuilder.cpp: create_sstable writes the entries of a well-formed skip list.
use ddbms.Base.{
  ℕ, zero, suc, ◌<◌, ◌≡◌, refl, ap, sym, ◌∙◌, Option, none, some, List, [], ◌∷◌, ◌++◌, length,
  append_assoc, arith, All, if◌then◌else◌,
}
use ddbms.Base.Words.{u64}
use mathlib.Core.List.{append-nil}
use ddbms.Storage.Builder.{BlockBuilder, new_builder, finish}
use ddbms.Storage.Block.{◌>>=◌}
use ddbms.Storage.Block.RoundTrip.{Entry}
use ddbms.Storage.Block.Built.{add_all}
use ddbms.Storage.SkipList.{SkipList, nullptr}
use ddbms.Storage.SkipList.Chain
use ddbms.Storage.SkipList.Chain.{IsSkipList, IsSorted}
use ddbms.Storage.SkipList.Iterator.Walk.{
  position, iterator_at, is_valid, seek_to_first_lem, next_lem, key_lem,
}
use ddbms.Storage.Table.{
  TableBuilder, new_table, handle, write_index_block, finish_table, add_loop, create_sstable,
}
use ddbms.Storage.Table.Layout.{Group, entries_of, index_of, blocks_bytes}
use ddbms.Storage.Table.Written.{Above, IsWritten, new_table-IsWritten, flush_lem}
use ddbms.Storage.Table.Added.{add_entry_lem}

-- The keys and values of a list.
abbrev pub pairs : List Chain.Entry → List Entry
pairs [] = []
pairs (c ∷ cs) = (c.key, c.value) ∷ pairs cs

record Looped (compress : List ℕ → List ℕ) (fuel : ℕ) (s : SkipList) (rest : List Chain.Entry)
    (t : TableBuilder) (groups : List Group) (pending : List Entry) : Type 0 where
  table : TableBuilder
  bound : Option (List ℕ)
  groups_after : List Group
  pending_after : List Entry
  looped : add_loop compress fuel (iterator_at s (position rest)) t ≡ some table
  is_written : IsWritten compress table bound groups_after pending_after
  entries : entries_of groups_after ++ pending_after ≡ (entries_of groups ++ pending) ++ pairs rest

module _ (compress : List ℕ → List ℕ) (s : SkipList) (height : ℕ) (cs : List Chain.Entry)
    (w : IsSkipList s height cs) where
  add_loop_lem :
      (fuel : ℕ) (xs rest : List Chain.Entry) (t : TableBuilder) (bound : Option (List ℕ))
      (groups : List Group) (pending : List Entry)
      → cs ≡ xs ++ rest
      → length rest < fuel
      → All (λ c. Above bound c.key) rest
      → IsSorted rest
      → IsWritten compress t bound groups pending
      → Looped compress fuel s rest t groups pending
  unfolding add_loop IsSorted
  add_loop_lem zero xs rest t bound groups pending e f a o v = absurd (none_left rest f)
    where
      none_left : (rest : List Chain.Entry) → length rest < 0 → ⊥
      none_left rest f = omega (arith, f)
  add_loop_lem (suc fuel) xs [] t bound groups pending e f a o v = record {
    table = t;
    bound = bound;
    groups_after = groups;
    pending_after = pending;
    looped = refl;
    is_written = v;
    entries = sym (append-nil (entries_of groups ++ pending));
  }
  add_loop_lem (suc fuel) xs (c ∷ rest) t bound groups pending e f a o v =
      let step = add_entry_lem compress t bound groups pending c.key c.value v (a.0) in
      let read = key_lem s height cs w xs c rest e in
      let more =
        add_loop_lem fuel (xs ++ c ∷ []) rest step.table (some c.key) step.groups_after
          step.pending_after (e ∙ sym (append_assoc xs (c ∷ []) rest)) (omega (arith, f)) (o.0)
          (o.1) step.is_written in
      record {
        table = more.table;
        bound = more.bound;
        groups_after = more.groups_after;
        pending_after = more.pending_after;
        looped =
            rw
              (
                is_valid s height cs w xs c rest e,
                if◌then◌else◌,
                read.0,
                ◌>>=◌,
                read.1,
                ◌>>=◌,
                step.added,
                ◌>>=◌,
                next_lem s height cs w xs c rest e,
                ◌>>=◌,
              )
              more.looped;
        is_written = more.is_written;
        entries =
            more.entries
            ∙ ap (λ l. l ++ pairs rest) step.entries
            ∙ append_assoc (entries_of groups ++ pending) ((c.key, c.value) ∷ []) (pairs rest);
      }

-- A file that holds the blocks of the groups, their index, and where the index stands.
pub record IsTable (compress : List ℕ → List ℕ) (file : List ℕ) (groups : List Group) : Type 0 where
  pub index : BlockBuilder
  pub index_built : add_all (index_of compress 0 groups) new_builder ≡ some index
  pub bytes :
      file
      ≡ blocks_bytes compress groups
        ++ (compress ((finish index).0)
            ++ handle
                (u64 (length (blocks_bytes compress groups)))
                (length (compress ((finish index).0))))

pub record Created (compress : List ℕ → List ℕ) (s : SkipList) (es : List Entry) : Type 0 where
  pub file : List ℕ
  pub groups : List Group
  pub created : create_sstable compress s ≡ some file
  pub is_table : IsTable compress file groups
  pub entries : entries_of groups ≡ es

pub create_sstable_lem :
    (compress : List ℕ → List ℕ) (s : SkipList) (height : ℕ) (cs : List Chain.Entry)
    → IsSkipList s height cs
    → Created compress s (pairs cs)
unfolding create_sstable finish_table write_index_block entries_of
create_sstable_lem compress s height cs w =
    let l =
      add_loop_lem compress s height cs w (suc (length s.heap)) [] cs new_table none [] [] refl
        (omega (arith, w.room)) (any cs) w.sorted (new_table-IsWritten compress) in
    let f = flush_lem compress l.table l.bound l.groups_after l.pending_after l.is_written in
    record {
      file =
          f.table.file
          ++ (compress ((finish f.table.indexblock).0)
              ++ handle f.table.offset (length (compress ((finish f.table.indexblock).0))));
      groups = f.groups_after;
      created =
          rw (seek_to_first_lem s height cs w nullptr, ◌>>=◌, l.looped, ◌>>=◌, f.flushed, ◌>>=◌)
            refl;
      is_table = record {
        index = f.table.indexblock;
        index_built = f.is_written.index;
        bytes =
            ap
              (λ o.
                f.table.file
                ++ (compress ((finish f.table.indexblock).0)
                    ++ handle o (length (compress ((finish f.table.indexblock).0)))))
              f.is_written.offset
            ∙ ap
                (λ b.
                  b
                  ++ (compress ((finish f.table.indexblock).0)
                      ++ handle (u64 (length b))
                          (length (compress ((finish f.table.indexblock).0)))))
                f.is_written.file;
      };
      entries = f.entries ∙ l.entries;
    }
  where
    any : (l : List Chain.Entry) → All (λ c. Above none c.key) l
    any [] = tt
    any (c ∷ l) = (tt, any l)
