-- ===== src/Storage/Table/Added.antt =====
-- src/storage/TableBuilder.cpp: `add` on an ascending run, and the file of a memory table.
use ddbms.Base.{
  ℕ, ◌+◌, ◌≡◌, refl, sym, ◌∙◌, subst, true, Option, some, List, [], ◌∷◌, ◌++◌, append_assoc, leb,
  inl, inr, Bool-cases, if◌then◌else◌,
}
use ddbms.Base.Words.{u64}
use mathlib.Core.List.{append-nil}
use ddbms.Storage.Builder.{
  BlockBuilder, new_builder, add, add_allowed, append_entry, write_restart, estimated_size,
}
use ddbms.Storage.Block.{◌>>=◌}
use ddbms.Storage.Block.RoundTrip.{Entry}
use ddbms.Storage.Table.{TableBuilder, block_space, add_entry}
use ddbms.Storage.Table.Layout.{
  Group, last_of-append, entries_of, add_all-more, add_total, allowed_more, allowed_behind,
}
use ddbms.Storage.Table.Written.{Above, IndexReady, IsWritten, flush_lem}

-- The state behind one entry more.
pub record Added (compress : List ℕ → List ℕ) (t : TableBuilder) (k v : List ℕ)
    (groups : List Group) (pending : List Entry) : Type 0 where
  pub table : TableBuilder
  pub groups_after : List Group
  pub pending_after : List Entry
  pub added : add_entry compress k v t ≡ some table
  pub is_written : IsWritten compress table (some k) groups_after pending_after
  pub entries :
      entries_of groups_after ++ pending_after ≡ (entries_of groups ++ pending) ++ (k, v) ∷ []

IndexReady-more :
    (bound : Option (List ℕ)) (pending : List Entry) (t : TableBuilder) (k v : List ℕ)
    (b : BlockBuilder) (n : ℕ)
    → Above bound k
    → IndexReady bound pending t
    → IndexReady
        (some k)
        (pending ++ (k, v) ∷ [])
        (record t { last_key = k; datablock = b; num_entries = n })
unfolding IndexReady
IndexReady-more bound [] t k v b n a r = (r k a, last_of-append [] k v, refl)
IndexReady-more bound (e ∷ es) t k v b n a r = (
  allowed_more t.last_key t.indexblock k (r.0) (subst (λ x. Above x k) (r.2) a),
  last_of-append (e ∷ es) k v,
  refl,
)

pub add_entry_lem :
    (compress : List ℕ → List ℕ) (t : TableBuilder) (bound : Option (List ℕ)) (groups : List Group)
    (pending : List Entry) (k v : List ℕ)
    → IsWritten compress t bound groups pending
    → Above bound k
    → Added compress t k v groups pending
unfolding add_entry
add_entry_lem compress t bound groups pending k v w a =
    let ok = w.ready k a in
    let total = add_total k t.datablock v ok in
    elim (Bool-cases (leb block_space (estimated_size block))) [
      | inl full ↦
          let f =
            flush_lem compress middle (some k) groups (pending ++ (k, v) ∷ []) (ready total ok) in
          record {
            table = f.table;
            groups_after = f.groups_after;
            pending_after = [];
            added = rw (total, ◌>>=◌, full, if◌then◌else◌) f.flushed;
            is_written = f.is_written;
            entries =
                append-nil (entries_of f.groups_after)
                ∙ f.entries
                ∙ sym (append_assoc (entries_of groups) pending ((k, v) ∷ []));
          }
      | inr room ↦ record {
        table = middle;
        groups_after = groups;
        pending_after = pending ++ (k, v) ∷ [];
        added = rw (total, ◌>>=◌, room, if◌then◌else◌) refl;
        is_written = ready total ok;
        entries = sym (append_assoc (entries_of groups) pending ((k, v) ∷ []));
      }
    ]
  where
    block : BlockBuilder
    block = append_entry k v (write_restart t.datablock)

    middle : TableBuilder
    middle = record t { last_key = k; datablock = block; num_entries = u64 (t.num_entries + 1) }

    ready :
        add k v t.datablock ≡ some block
        → add_allowed k t.datablock ≡ true
        → IsWritten compress middle (some k) groups (pending ++ (k, v) ∷ [])
    ready total ok = record {
      file = w.file;
      offset = w.offset;
      index = w.index;
      block = add_all-more pending k v new_builder t.datablock block w.block total;
      ready = λ k₂ l. allowed_behind k t.datablock v k₂ ok l;
      index_ready =
          IndexReady-more bound pending t k v block (u64 (t.num_entries + 1)) a w.index_ready;
    }
