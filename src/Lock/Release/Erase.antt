-- ===== src/Lock/Release/Erase.antt =====
-- What one loop of ReleaseLocks does to the lock sets, and when it empties one.
use ddbms.Base.{
  ◌≡◌, refl, sym, ap, ◌∙◌, subst, true, List, [], ◌∷◌, All, In, arith, Bool-cases, inl, inr,
}
use ddbms.Transaction.{LockSets, erase, with_lock_set}
use ddbms.Transaction.Id.{LockDataId, lock_data_id_eq, table_id, partition_id, row_id}
use ddbms.Transaction.Sets.{lock_data_id_eq_refl}
use ddbms.Lock.State.{Session}
use ddbms.Lock.{unlock_table, unlock_partition, unlock_row, unlock}
use ddbms.Lock.Release.{release_row, release_partition, release_table, release_each}

unlock-sets : (l : LockDataId) (s : Session) → (unlock l s).1.txn.sets ≡ s.txn.sets
unfolding unlock
unlock-sets l s = ground arith

-- The names that the calls build from the parts of an entry.
abbrev pub row_of : LockDataId → LockDataId
row_of l = row_id l.oid l.p_id l.row_id

abbrev pub partition_of : LockDataId → LockDataId
partition_of l = partition_id l.oid l.p_id

abbrev pub table_of : LockDataId → LockDataId
table_of l = table_id l.oid

abbrev pub on_rows : (List LockDataId → List LockDataId) → LockSets → LockSets
on_rows f x = record x { row_s = f x.row_s; row_x = f x.row_x }

abbrev pub on_partitions : (List LockDataId → List LockDataId) → LockSets → LockSets
on_partitions f x = record x {
  partition_s = f x.partition_s;
  partition_x = f x.partition_x;
  partition_is = f x.partition_is;
  partition_ix = f x.partition_ix;
  partition_six = f x.partition_six;
}

abbrev pub on_tables : (List LockDataId → List LockDataId) → LockSets → LockSets
on_tables f x = record x {
  table_s = f x.table_s;
  table_x = f x.table_x;
  table_is = f x.table_is;
  table_ix = f x.table_ix;
  table_six = f x.table_six;
}

release_row-sets :
    (l : LockDataId) (s : Session)
    → (release_row l s).txn.sets ≡ on_rows (erase (row_of l)) s.txn.sets
unfolding release_row unlock_row with_lock_set
release_row-sets l s = rw (unlock-sets (row_of l) s) refl

release_partition-sets :
    (l : LockDataId) (s : Session)
    → (release_partition l s).txn.sets ≡ on_partitions (erase (partition_of l)) s.txn.sets
unfolding release_partition unlock_partition with_lock_set
release_partition-sets l s = rw (unlock-sets (partition_of l) s) refl

release_table-sets :
    (l : LockDataId) (s : Session)
    → (release_table l s).txn.sets ≡ on_tables (erase (table_of l)) s.txn.sets
unfolding release_table unlock_table with_lock_set
release_table-sets l s = rw (unlock-sets (table_of l) s) refl

unfoldable pub erase_each :
    (LockDataId → LockDataId) → List LockDataId → List LockDataId → List LockDataId
erase_each key [] xs = xs
erase_each key (l ∷ ls) xs = erase_each key ls (erase (key l) xs)

pub rows_each :
    (ls : List LockDataId) (s : Session)
    → (release_each release_row ls s).txn.sets ≡ on_rows (erase_each row_of ls) s.txn.sets
unfolding release_each erase_each release_row
rows_each [] s = refl
rows_each (l ∷ ls) s =
    rows_each ls (release_row l s) ∙ ap (on_rows (erase_each row_of ls)) (release_row-sets l s)

pub partitions_each :
    (ls : List LockDataId) (s : Session)
    → (release_each release_partition ls s).txn.sets
      ≡ on_partitions (erase_each partition_of ls) s.txn.sets
unfolding release_each erase_each release_partition
partitions_each [] s = refl
partitions_each (l ∷ ls) s =
    partitions_each ls (release_partition l s)
    ∙ ap (on_partitions (erase_each partition_of ls)) (release_partition-sets l s)

pub tables_each :
    (ls : List LockDataId) (s : Session)
    → (release_each release_table ls s).txn.sets ≡ on_tables (erase_each table_of ls) s.txn.sets
unfolding release_each erase_each release_table
tables_each [] s = refl
tables_each (l ∷ ls) s =
    tables_each ls (release_table l s)
    ∙ ap (on_tables (erase_each table_of ls)) (release_table-sets l s)

erase-In :
    (l : LockDataId) (ls ys : List LockDataId)
    → All (λ y. In y (l ∷ ls)) ys
    → All (λ y. In y ls) (erase l ys)
unfolding erase
erase-In l ls [] a = tt
erase-In l ls (y ∷ ys) (inl e, a) =
    rw (subst (λ z. lock_data_id_eq z l ≡ true) (sym e) (lock_data_id_eq_refl l))
      (erase-In l ls ys a)
erase-In l ls (y ∷ ys) (inr i, a) = elim (Bool-cases (lock_data_id_eq y l)) [
  | inl e ↦ rw e (erase-In l ls ys a)
  | inr e ↦ rw e (i, erase-In l ls ys a)
]

erase-All :
    (P : LockDataId → Type 0) (l : LockDataId) (ys : List LockDataId)
    → All P ys
    → All P (erase l ys)
unfolding erase
erase-All P l [] a = tt
erase-All P l (y ∷ ys) (p, a) = elim (Bool-cases (lock_data_id_eq y l)) [
  | inl e ↦ rw e (erase-All P l ys a)
  | inr e ↦ rw e (p, erase-All P l ys a)
]

All-map :
    (P Q : LockDataId → Type 0) (xs : List LockDataId)
    → ((x : LockDataId) → P x → Q x)
    → All P xs
    → All Q xs
All-map P Q [] f a = tt
All-map P Q (x ∷ xs) f (p, a) = (f x p, All-map P Q xs f a)

All-In : (xs : List LockDataId) → All (λ y. In y xs) xs
All-In [] = tt
All-In (x ∷ xs) =
    (inl refl, All-map (λ y. In y xs) (λ y. In y (x ∷ xs)) xs (λ y i. inr i) (All-In xs))

module _ (key : LockDataId → LockDataId) where
  -- Entries that are names of the kind that a call builds.
  abbrev pub Kind : List LockDataId → Type 0
  Kind xs = All (λ l. key l ≡ l) xs

  pub erase_each-Kind : (ls ys : List LockDataId) → Kind ys → Kind (erase_each key ls ys)
  unfolding erase_each
  erase_each-Kind [] ys k = k
  erase_each-Kind (l ∷ ls) ys k = erase_each-Kind ls _ (erase-All (λ y. key y ≡ y) (key l) ys k)

  erase_each-In :
      (ls ys : List LockDataId) → Kind ls → All (λ y. In y ls) ys → erase_each key ls ys ≡ []
  unfolding erase_each
  erase_each-In [] [] k a = refl
  erase_each-In [] (y ∷ ys) k (i, a) = absurd i
  erase_each-In (l ∷ ls) ys (e, k) a = rw e (erase_each-In ls (erase l ys) k (erase-In l ls ys a))

  pub erase_each_self : (xs : List LockDataId) → Kind xs → erase_each key xs xs ≡ []
  erase_each_self xs k = erase_each-In xs xs k (All-In xs)

  pub erase_each-nil : (ls ys : List LockDataId) → ys ≡ [] → erase_each key ls ys ≡ []
  unfolding erase_each erase
  erase_each-nil [] ys e = e
  erase_each-nil (l ∷ ls) ys e = erase_each-nil ls (erase (key l) ys) (rw e refl)
