-- ===== src/Meta.antt =====
-- meta_server: the timestamp oracle, and the catalogue of tables, partitions and replicas.
pub mod Error
pub mod Oracle
pub mod Catalog
pub mod Locate
pub mod Create
