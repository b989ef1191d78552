-- ===== src/Log.antt =====
-- include/recovery and src/recovery: the write-ahead log.
pub mod Record
pub mod Manager
