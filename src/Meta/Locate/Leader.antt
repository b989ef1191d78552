-- ===== src/Meta/Locate/Leader.antt =====
-- What UpdatePartitionLeader leaves behind.
use ddbms.Base.{ℕ, ◌≡◌, refl, ap, some, List}
use ddbms.Meta.Error.{ok}
use ddbms.Meta.Catalog.{TabMetaServer, find, put, touch, DbMetaServer, MetaServer}
use ddbms.Meta.Catalog.Map.{find-put, deref-found}
use ddbms.Meta.Locate.{table_in, table_of, update_copy, update_partition_leader}

module _ (db_name tab_name : List ℕ) where
  touch-found :
      (d : DbMetaServer) (t : TabMetaServer)
      → find tab_name d.tabs ≡ some (some t)
      → touch tab_name d.tabs ≡ d.tabs
  unfolding touch
  touch-found d t e = rw (e, touch) refl

  abbrev pub kept : DbMetaServer → MetaServer → MetaServer
  kept d ms = record ms { db_map = put db_name (some d) ms.db_map }

  table_of-found :
      (ms : MetaServer) (d : DbMetaServer) (t : TabMetaServer)
      → find db_name ms.db_map ≡ some (some d)
      → find tab_name d.tabs ≡ some (some t)
      → table_of db_name tab_name ms ≡ (ok t, kept d ms)
  unfolding table_of table_in
  table_of-found ms d t e f =
      rw
        (
          deref-found db_name d ms.db_map e,
          table_of,
          deref-found tab_name t d.tabs f,
          table_in,
          touch-found d t f,
        )
        refl

-- UpdatePartitionLeader edits a copy of the table's location: whatever it returns for a table that
-- exists, the same table, with the old leader, is found afterwards.
pub update_partition_leader-no_effect :
    (db_name tab_name ip_addr : List ℕ) (p_id : ℕ) (ms : MetaServer) (d : DbMetaServer)
    (t : TabMetaServer)
    → find db_name ms.db_map ≡ some (some d)
    → find tab_name d.tabs ≡ some (some t)
    → ((update_partition_leader db_name tab_name p_id ip_addr ms).0
        ≡ ok (update_copy p_id ip_addr t.table_location).0)
      × ((table_of db_name tab_name (update_partition_leader db_name tab_name p_id ip_addr ms).1).0
          ≡ ok t)
unfolding update_partition_leader
update_partition_leader-no_effect db_name tab_name ip_addr p_id ms d t e f =
    rw (table_of-found db_name tab_name ms d t e f, update_partition_leader)
      (
        refl,
        ap (λ o. o.0)
            (table_of-found db_name tab_name (kept db_name tab_name d ms) d t
              (find-put db_name (some d) ms.db_map) f),
      )
