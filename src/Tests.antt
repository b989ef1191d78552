-- ===== src/Tests.antt =====
-- Runs of the definitions on concrete inputs, and an instance of each theorem that has conditions.
mod Locks
mod Blocks
mod Catalogs
mod Clocks
mod Logs
mod SkipLists
mod Tables
mod Stores
