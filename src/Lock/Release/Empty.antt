-- ===== src/Lock/Release/Empty.antt =====
-- ReleaseLocks leaves no entry in any of the twelve lock sets.
use ddbms.Base.{◌≡◌, refl, sym, subst, List, []}
use ddbms.Transaction.{LockSets}
use ddbms.Transaction.Id.{LockDataId}
use ddbms.Lock.State.{Session}
use ddbms.Lock.Release.{release_row, release_partition, release_table, release_set, release_locks}
use ddbms.Lock.Release.Erase.{
  row_of, partition_of, table_of, on_rows, on_partitions, on_tables, erase_each, rows_each,
  partitions_each, tables_each, Kind, erase_each-Kind, erase_each_self, erase_each-nil,
}

abbrev Field : Type 0
Field = LockSets → List LockDataId

abbrev rows_by : Field → LockSets → LockSets
rows_by of x = on_rows (erase_each row_of (of x)) x

abbrev partitions_by : Field → LockSets → LockSets
partitions_by of x = on_partitions (erase_each partition_of (of x)) x

abbrev tables_by : Field → LockSets → LockSets
tables_by of x = on_tables (erase_each table_of (of x)) x

abbrev rows_gone : LockSets → LockSets
rows_gone x = rows_by (λ y. y.row_x) (rows_by (λ y. y.row_s) x)

abbrev partitions_gone : LockSets → LockSets
partitions_gone x =
    partitions_by (λ y. y.partition_x)
      (partitions_by (λ y. y.partition_six)
        (partitions_by (λ y. y.partition_ix)
          (partitions_by (λ y. y.partition_is) (partitions_by (λ y. y.partition_s) x))))

abbrev tables_gone : LockSets → LockSets
tables_gone x =
    tables_by (λ y. y.table_x)
      (tables_by (λ y. y.table_six)
        (tables_by (λ y. y.table_ix) (tables_by (λ y. y.table_is) (tables_by (λ y. y.table_s) x))))

-- The entries of a set are names of its kind of data.
pub record IsSorted (x : LockSets) : Type 0 where
  pub table_s : Kind table_of x.table_s
  pub table_x : Kind table_of x.table_x
  pub table_is : Kind table_of x.table_is
  pub table_ix : Kind table_of x.table_ix
  pub table_six : Kind table_of x.table_six
  pub partition_s : Kind partition_of x.partition_s
  pub partition_x : Kind partition_of x.partition_x
  pub partition_is : Kind partition_of x.partition_is
  pub partition_ix : Kind partition_of x.partition_ix
  pub partition_six : Kind partition_of x.partition_six
  pub row_s : Kind row_of x.row_s
  pub row_x : Kind row_of x.row_x

module _ (key : LockDataId → LockDataId) where
  gone1 : (l1 xs : List LockDataId) → xs ≡ [] → erase_each key l1 xs ≡ []
  gone1 = erase_each-nil key

  gone2 : (l1 l2 xs : List LockDataId) → xs ≡ [] → erase_each key l2 (erase_each key l1 xs) ≡ []
  gone2 l1 l2 xs e = gone1 l2 _ (gone1 l1 xs e)

  gone3 :
      (l1 l2 l3 xs : List LockDataId)
      → xs ≡ []
      → erase_each key l3 (erase_each key l2 (erase_each key l1 xs)) ≡ []
  gone3 l1 l2 l3 xs e = gone1 l3 _ (gone2 l1 l2 xs e)

  gone4 :
      (l1 l2 l3 l4 xs : List LockDataId)
      → xs ≡ []
      → erase_each key l4 (erase_each key l3 (erase_each key l2 (erase_each key l1 xs))) ≡ []
  gone4 l1 l2 l3 l4 xs e = gone1 l4 _ (gone3 l1 l2 l3 xs e)

  self_after :
      (ls ys : List LockDataId)
      → Kind key ys
      → erase_each key (erase_each key ls ys) (erase_each key ls ys) ≡ []
  self_after ls ys k = erase_each_self key _ (erase_each-Kind key ls ys k)

module _ (key : LockDataId → LockDataId) where
  -- A set after it has been erased from a few times, and then by its own entries.
  self2 :
      (l1 l2 ys : List LockDataId)
      → Kind key ys
      → erase_each key
          (erase_each key l2 (erase_each key l1 ys))
          (erase_each key l2 (erase_each key l1 ys))
        ≡ []
  self2 l1 l2 ys k = self_after key l2 _ (erase_each-Kind key l1 ys k)

  self3 :
      (l1 l2 l3 ys : List LockDataId)
      → Kind key ys
      → erase_each key
          (erase_each key l3 (erase_each key l2 (erase_each key l1 ys)))
          (erase_each key l3 (erase_each key l2 (erase_each key l1 ys)))
        ≡ []
  self3 l1 l2 l3 ys k = self2 l2 l3 _ (erase_each-Kind key l1 ys k)

  self4 :
      (l1 l2 l3 l4 ys : List LockDataId)
      → Kind key ys
      → erase_each key
          (erase_each key l4 (erase_each key l3 (erase_each key l2 (erase_each key l1 ys))))
          (erase_each key l4 (erase_each key l3 (erase_each key l2 (erase_each key l1 ys))))
        ≡ []
  self4 l1 l2 l3 l4 ys k = self3 l2 l3 l4 _ (erase_each-Kind key l1 ys k)

rows_gone-row_s : (x : LockSets) → IsSorted x → (rows_gone x).row_s ≡ []
rows_gone-row_s x k = gone1 row_of _ _ (erase_each_self row_of x.row_s k.row_s)

rows_gone-row_x : (x : LockSets) → IsSorted x → (rows_gone x).row_x ≡ []
rows_gone-row_x x k = self_after row_of x.row_s x.row_x k.row_x

tables_gone-table_s : (x : LockSets) → IsSorted x → (tables_gone x).table_s ≡ []
tables_gone-table_s x k = gone4 table_of _ _ _ _ _ (erase_each_self table_of x.table_s k.table_s)

tables_gone-table_is : (x : LockSets) → IsSorted x → (tables_gone x).table_is ≡ []
tables_gone-table_is x k = gone3 table_of _ _ _ _ (self_after table_of _ x.table_is k.table_is)

tables_gone-table_ix : (x : LockSets) → IsSorted x → (tables_gone x).table_ix ≡ []
tables_gone-table_ix x k = gone2 table_of _ _ _ (self2 table_of _ _ x.table_ix k.table_ix)

tables_gone-table_six : (x : LockSets) → IsSorted x → (tables_gone x).table_six ≡ []
tables_gone-table_six x k = gone1 table_of _ _ (self3 table_of _ _ _ x.table_six k.table_six)

tables_gone-table_x : (x : LockSets) → IsSorted x → (tables_gone x).table_x ≡ []
tables_gone-table_x x k = self4 table_of _ _ _ _ x.table_x k.table_x

partitions_gone-partition_s : (x : LockSets) → IsSorted x → (partitions_gone x).partition_s ≡ []
partitions_gone-partition_s x k =
    gone4 partition_of _ _ _ _ _ (erase_each_self partition_of x.partition_s k.partition_s)

partitions_gone-partition_is : (x : LockSets) → IsSorted x → (partitions_gone x).partition_is ≡ []
partitions_gone-partition_is x k =
    gone3 partition_of _ _ _ _ (self_after partition_of _ x.partition_is k.partition_is)

partitions_gone-partition_ix : (x : LockSets) → IsSorted x → (partitions_gone x).partition_ix ≡ []
partitions_gone-partition_ix x k =
    gone2 partition_of _ _ _ (self2 partition_of _ _ x.partition_ix k.partition_ix)

partitions_gone-partition_six : (x : LockSets) → IsSorted x → (partitions_gone x).partition_six ≡ []
partitions_gone-partition_six x k =
    gone1 partition_of _ _ (self3 partition_of _ _ _ x.partition_six k.partition_six)

partitions_gone-partition_x : (x : LockSets) → IsSorted x → (partitions_gone x).partition_x ≡ []
partitions_gone-partition_x x k = self4 partition_of _ _ _ _ x.partition_x k.partition_x

-- No entry is left.
pub record IsEmpty (x : LockSets) : Type 0 where
  pub table_s : x.table_s ≡ []
  pub table_x : x.table_x ≡ []
  pub table_is : x.table_is ≡ []
  pub table_ix : x.table_ix ≡ []
  pub table_six : x.table_six ≡ []
  pub partition_s : x.partition_s ≡ []
  pub partition_x : x.partition_x ≡ []
  pub partition_is : x.partition_is ≡ []
  pub partition_ix : x.partition_ix ≡ []
  pub partition_six : x.partition_six ≡ []
  pub row_s : x.row_s ≡ []
  pub row_x : x.row_x ≡ []

all_gone-IsEmpty :
    (x : LockSets) → IsSorted x → IsEmpty (tables_gone (partitions_gone (rows_gone x)))
all_gone-IsEmpty x k = record {
  table_s = tables_gone-table_s x k;
  table_x = tables_gone-table_x x k;
  table_is = tables_gone-table_is x k;
  table_ix = tables_gone-table_ix x k;
  table_six = tables_gone-table_six x k;
  partition_s = partitions_gone-partition_s x k;
  partition_x = partitions_gone-partition_x x k;
  partition_is = partitions_gone-partition_is x k;
  partition_ix = partitions_gone-partition_ix x k;
  partition_six = partitions_gone-partition_six x k;
  row_s = rows_gone-row_s x k;
  row_x = rows_gone-row_x x k;
}

row_loop :
    (of : LockSets → List LockDataId)
    → (s : Session) → (release_set release_row of s).txn.sets ≡ rows_by of s.txn.sets
unfolding release_set
row_loop of s = rows_each (of s.txn.sets) s

partition_loop :
    (of : LockSets → List LockDataId)
    → (s : Session) → (release_set release_partition of s).txn.sets ≡ partitions_by of s.txn.sets
unfolding release_set
partition_loop of s = partitions_each (of s.txn.sets) s

table_loop :
    (of : LockSets → List LockDataId)
    → (s : Session) → (release_set release_table of s).txn.sets ≡ tables_by of s.txn.sets
unfolding release_set
table_loop of s = tables_each (of s.txn.sets) s

release_locks-sets :
    (s : Session)
    → (release_locks s).txn.sets ≡ tables_gone (partitions_gone (rows_gone s.txn.sets))
unfolding release_locks
release_locks-sets s =
    rw
      (
        table_loop (λ x. x.table_x) _,
        table_loop (λ x. x.table_six) _,
        table_loop (λ x. x.table_ix) _,
        table_loop (λ x. x.table_is) _,
        table_loop (λ x. x.table_s) _,
        partition_loop (λ x. x.partition_x) _,
        partition_loop (λ x. x.partition_six) _,
        partition_loop (λ x. x.partition_ix) _,
        partition_loop (λ x. x.partition_is) _,
        partition_loop (λ x. x.partition_s) _,
        row_loop (λ x. x.row_x) _,
        row_loop (λ x. x.row_s) s,
      )
      refl

-- ReleaseLocks leaves no entry in any of the twelve lock sets of the transaction, whatever the lock
-- table holds and whatever each unlock returns, if the entries of each set name data of its kind.
pub release_locks-IsEmpty : (s : Session) → IsSorted s.txn.sets → IsEmpty (release_locks s).txn.sets
release_locks-IsEmpty s k =
    subst IsEmpty (sym (release_locks-sets s)) (all_gone-IsEmpty s.txn.sets k)
