-- ===== src/Storage.antt =====
-- src/storage: the blocks of a sorted table, written by `Builder` and read by `Block`.
pub mod Builder
pub mod Block
pub mod SkipList
pub mod Table
pub mod SsTable
pub mod Levels
pub mod KvStore
