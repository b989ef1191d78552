-- ===== src/Lock/Release.antt =====
-- src/transaction/transaction_manager.cpp: ReleaseLocks. An iterator is moved on before the element
-- under it is erased, so each loop visits the elements that its set has at the start.
pub mod Erase
pub mod Empty
use ddbms.Base.{List, [], ◌∷◌}
use ddbms.Transaction.{LockSets}
use ddbms.Transaction.Id.{LockDataId, row_id}
use ddbms.Lock.State.{Session}
use ddbms.Lock.{unlock_table, unlock_partition, unlock_row}

abbrev pub release_row : LockDataId → Session → Session
unfolding unlock_row
release_row l s = (unlock_row l.oid l.p_id l.row_id s).1

abbrev pub release_partition : LockDataId → Session → Session
unfolding unlock_partition
release_partition l s = (unlock_partition l.oid l.p_id s).1

abbrev pub release_table : LockDataId → Session → Session
unfolding unlock_table
release_table l s = (unlock_table l.oid s).1

unfoldable pub release_each : (LockDataId → Session → Session) → List LockDataId → Session → Session
release_each f [] s = s
release_each f (l ∷ ls) s = release_each f ls (f l s)

-- One loop: over the set that `of` takes at its start.
abbrev pub release_set :
    (LockDataId → Session → Session) → (LockSets → List LockDataId) → Session → Session
unfolding release_each
release_set f of s = release_each f (of s.txn.sets) s

unfoldable pub release_locks : Session → Session
unfolding release_set release_row release_partition release_table
release_locks s =
    let s1 = release_set release_row (λ x. x.row_s) s in
    let s2 = release_set release_row (λ x. x.row_x) s1 in
    let s3 = release_set release_partition (λ x. x.partition_s) s2 in
    let s4 = release_set release_partition (λ x. x.partition_is) s3 in
    let s5 = release_set release_partition (λ x. x.partition_ix) s4 in
    let s6 = release_set release_partition (λ x. x.partition_six) s5 in
    let s7 = release_set release_partition (λ x. x.partition_x) s6 in
    let s8 = release_set release_table (λ x. x.table_s) s7 in
    let s9 = release_set release_table (λ x. x.table_is) s8 in
    let s10 = release_set release_table (λ x. x.table_ix) s9 in
    let s11 = release_set release_table (λ x. x.table_six) s10 in
    release_set release_table (λ x. x.table_x) s11
