-- ===== src/Lib.antt =====
-- RucDDBMS: a distributed database of nodes that store key-value tables, lock and log the writes
-- of transactions, and ask one meta server for timestamps and for the places of partitions.
--
-- Parts, and the code that each models:
--   * Transaction: the transaction object (include/transaction/Transaction.h) and the names of
--     lockable data (include/transaction/txn.h).
--   * Lock: Lock_manager (src/transaction/Lock_manager.cpp, include/transaction/Lock_manager.h).
--     Lock.State holds the lock table, a heap of requests and a queue of their addresses for each
--     datum; Lock holds LockTable, LockPartition, LockRow, checkSameTxnLockRequest and the unlock
--     calls, each up to its return or to a wait on the condition variable; Lock.System has the
--     threads, with one step for a critical section of a queue's latch. A wake-up may come at any
--     time, and transactions may be changed by other threads at any time; a wake-up that reads an
--     element of a queue which an unlock has erased is `none`, and no step. Lock.Attempts is one call
--     with its wake-ups, and Lock.Alone the runs in which no two threads share a transaction. Lock.Release is ReleaseLocks (src/transaction/transaction_manager.cpp).
--   * Storage: BlockBuilder and Block (src/storage/BlockBuilder.cpp, src/storage/Block.cpp). Reads
--     outside of the content and failed assertions are `none`. Storage.SkipList is the memory table
--     (src/storage/SkipList.cpp), a heap of nodes with an array of links each; `new` is a parameter.
--     Storage.Table and Storage.SsTable write and read the file of a sorted table
--     (src/storage/TableBuilder.cpp, src/storage/SSTable.cpp), with the compression as a parameter;
--     Storage.Levels is the level of tables and its files (src/storage/LevelZero.cpp,
--     src/storage/DiskStorage.cpp), and Storage.KvStore the store of a memory table and a disk
--     (src/storage/KVStore_beta.cpp).
--   * Meta: the meta server. Meta.Oracle is the clock (meta_server/timestamp.h), with the system
--     clock and the directory as arguments. Meta.Catalog, Meta.Locate and Meta.Create are its maps
--     of databases, tables and partitions (meta_server/meta_server.h, table_location.h,
--     partition_location.h), the lookups of meta_server.cpp, and the creation of tables in
--     meta_server_rpc.cpp. `std::stoi` and `std::hash` are parameters.
--   * Log: log records (include/recovery/log_record.h) and the log manager
--     (src/recovery/log_manager.cpp). Log.Manager.System has the threads that append, and the
--     flush thread statement by statement; WriteLog (include/storage/LogStorage.h) extends a file, or
--     fails. A copy past the end of a log buffer is `none`, and no step.
--   * Base: shared names, Boolean tests, lists, byte strings and machine words. Tests: runs.
--
-- Integers of w bits are bit patterns below 2 ^ w, with the wrap-around and the casts written out.
-- Loops are structural, but for those over the bytes of a block, where one unit of fuel for each
-- byte is enough, since an entry has sixteen bytes and more, and those over a skip list, where the
-- fuel is the number of writes to its heap, of which each node has one and more, and its levels;
-- getTimeStamp has its own 100 rounds.
--
-- Not modelled: latches inside a step, messages to the console, the stream operators of the
-- catalogue and the files that they use, remote procedure calls, the caches and the stores with a log
-- of src/storage, the recovery from the log (its pointer to a store is never set), the rest of the
-- transaction manager, two-phase commit and the execution of plans.
pub mod Base
pub mod Transaction
pub mod Lock
pub mod Storage
pub mod Meta
pub mod Log
mod Tests
