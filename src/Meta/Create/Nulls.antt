-- ===== src/Meta/Create/Nulls.antt =====
-- What a lookup of a missing name leaves behind for the creation of a table: the subscripts of
-- meta_server/meta_server.cpp insert null pointers.
use ddbms.Base.{ℕ, ◌≡◌, refl, ap, Option, none, some, List}
use ddbms.Meta.Error.{no_table, no_database, meta_error, undefined, Result, ok, err}
use ddbms.Meta.Catalog.{TabMetaServer, find, put, touch, DbMetaServer, MetaServer}
use ddbms.Meta.Catalog.Map.{find-put, find-touch_new, deref-new, deref-found}
use ddbms.Meta.Locate.{table_in, table_of, get_partition_key}
use ddbms.Meta.Create.{guarded, CreateTableRequest, create_table}

module _ (db_name tab_name : List ℕ) (ms : MetaServer) where
  table_of-no_table :
      (d : DbMetaServer)
      → find db_name ms.db_map ≡ some (some d)
      → find tab_name d.tabs ≡ none
      → table_of db_name tab_name ms ≡ (
        err (meta_error no_table),
        record ms {
          db_map = put db_name (some (record d { tabs = touch tab_name d.tabs })) ms.db_map;
        },
      )
  unfolding table_of table_in
  table_of-no_table d e free =
      rw (deref-found db_name d ms.db_map e, table_of, deref-new tab_name d.tabs free, table_in)
        refl

  table_of-no_database :
      find db_name ms.db_map ≡ none
      → table_of db_name tab_name ms
        ≡ (err (meta_error no_database), record ms { db_map = touch db_name ms.db_map })
  unfolding table_of
  table_of-no_database e = rw (deref-new db_name ms.db_map e, table_of) refl

  guarded-taken :
      (make : DbMetaServer → Result (Option ℕ) × MetaServer) (d : DbMetaServer)
      (t : Option TabMetaServer)
      → find db_name ms.db_map ≡ some (some d)
      → find tab_name d.tabs ≡ some t
      → guarded db_name tab_name make ms ≡ (ok none, ms)
  unfolding guarded
  guarded-taken make d t e f = rw (e, guarded, f) refl

  guarded-null :
      (make : DbMetaServer → Result (Option ℕ) × MetaServer)
      → find db_name ms.db_map ≡ some none
      → guarded db_name tab_name make ms ≡ (err undefined, ms)
  unfolding guarded
  guarded-null make e = rw (e, guarded) refl

-- A lookup of a table that does not exist leaves a null pointer under its name, after which
-- CreateTable refuses the name, although no such table exists.
pub get_partition_key-blocks_create :
    (q : CreateTableRequest) (ms : MetaServer) (d : DbMetaServer)
    → find q.db_name ms.db_map ≡ some (some d)
    → find q.tab_name d.tabs ≡ none
    → ((get_partition_key q.db_name q.tab_name ms).0 ≡ err (meta_error no_table))
      × ((create_table q (get_partition_key q.db_name q.tab_name ms).1).0 ≡ ok none)
unfolding get_partition_key create_table
get_partition_key-blocks_create q ms d e free =
    rw (table_of-no_table q.db_name q.tab_name ms d e free, get_partition_key, create_table)
      (
        refl,
        ap (λ o. o.0)
            (guarded-taken q.db_name q.tab_name _ _ (record d { tabs = touch q.tab_name d.tabs })
              none
              (find-put q.db_name (some (record d { tabs = touch q.tab_name d.tabs })) ms.db_map)
              (find-touch_new q.tab_name d.tabs free)),
      )

-- A lookup in a database that does not exist leaves a null pointer under its name, which the next
-- CreateTable in this database dereferences.
pub get_partition_key-null_database :
    (q : CreateTableRequest) (ms : MetaServer)
    → find q.db_name ms.db_map ≡ none
    → ((get_partition_key q.db_name q.tab_name ms).0 ≡ err (meta_error no_database))
      × ((create_table q (get_partition_key q.db_name q.tab_name ms).1).0 ≡ err undefined)
unfolding get_partition_key create_table
get_partition_key-null_database q ms e =
    rw (table_of-no_database q.db_name q.tab_name ms e, get_partition_key, create_table)
      (
        refl,
        ap (λ o. o.0)
            (guarded-null q.db_name q.tab_name (record ms { db_map = touch q.db_name ms.db_map }) _
              (find-touch_new q.db_name ms.db_map e)),
      )
