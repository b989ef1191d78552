-- ===== src/Tests/Catalogs.antt =====
-- A meta server with one database and two nodes.
use ddbms.Base.{
  ℕ, ◌+◌, ◌<◌, ◌^◌, ◌≡◌, refl, subst, true, Option, some, none, List, [], ◌∷◌, In, inl, length,
  arith,
}
use ddbms.Base.Bytes.{bytes_eq, bytes_lt}
use ddbms.Meta.Error.{no_table, no_database, meta_error, undefined, ok, err}
use ddbms.Meta.Catalog.{
  leader, follower, ReplicaLocation, get_replica_location, leader_of, duplicate, type_string,
  range_partition, hash_partition, ParMeta, Node, TabMetaServer, find, DbMetaServer, MetaServer,
}
use ddbms.Meta.Locate.{
  Located, located, set_located, locate, locate_if, string_overlaps, table_of, get_partition_key,
  by_range, update_copy, update_partition_leader,
}
use ddbms.Meta.Locate.Prune.{by_range_complete, by_range_sound}
use ddbms.Meta.Locate.Leader.{update_partition_leader-no_effect}
use ddbms.Meta.Create.{
  new_table, CreateTableRequest, create_table, CreatePartitionTableRequest, create_partition_table,
  columns, make_partitions, choose, member, change_node, place_followers, place, place_all,
  partitioned_table,
}
use ddbms.Meta.Create.Place.{IsPlaced, place-IsPlaced, created-leads}
use ddbms.Meta.Create.Oids.{
  AreNumbered, create_table-AreNumbered, create_partition_table-AreNumbered,
}
use ddbms.Meta.Create.Nulls.{get_partition_key-blocks_create, get_partition_key-null_database}

abbrev node : ℕ → Node
node ip = record {
  ip_addr = ip ∷ [];
  port = 8000;
  activate = true;
  leader_par_cnt = 0;
  follower_par_cnt = 0;
}

abbrev nodes : List (List ℕ × Node)
nodes = (1 ∷ [], node 1) ∷ (2 ∷ [], node 2) ∷ []

abbrev empty_database : DbMetaServer
empty_database = record { next_oid = 0; name = 100 ∷ []; tabs = [] }

abbrev server : MetaServer
server = record { db_map = (100 ∷ [], some empty_database) ∷ []; ip_node_map = nodes }

abbrev plain : CreateTableRequest
plain = record { db_name = 100 ∷ []; tab_name = 116 ∷ []; col_name = []; col_type = [] }

abbrev partitioned : CreatePartitionTableRequest
partitioned = record {
  db_name = 100 ∷ [];
  tab_name = 116 ∷ [];
  partition_type = range_partition;
  partition_key_name = [];
  partition_key_type = type_string;
  partition_cnt = 1;
  range = (97 ∷ [], 109 ∷ []) ∷ [];
  has_replica = true;
  replica_cnt = 2;
  col_name = [];
  col_type = [];
}

server_room :
    (d : DbMetaServer) → find (100 ∷ []) server.db_map ≡ some (some d) → d.next_oid + 1 < 2 ^ 31
unfolding find bytes_eq
server_room d e = room (find_value e)
  where
    find_value :
        ◌≡◌ {A = Option (Option DbMetaServer)} (some (some empty_database)) (some (some d))
        → empty_database ≡ d
    find_value e = cc

    room : empty_database ≡ d → d.next_oid + 1 < 2 ^ 31
    room e = subst (λ x. x.next_oid + 1 < 2 ^ 31) e (omega arith)

create_table-AreNumbered_example : AreNumbered (create_table plain server).1
create_table-AreNumbered_example = create_table-AreNumbered plain server server_room ((tt, tt), tt)

create_partition_table-AreNumbered_example :
    AreNumbered (create_partition_table partitioned server).1
create_partition_table-AreNumbered_example =
    create_partition_table-AreNumbered partitioned server server_room ((tt, tt), tt)

get_partition_key-blocks_create_example :
    ((get_partition_key (100 ∷ []) (116 ∷ []) server).0 ≡ err (meta_error no_table))
    × ((create_table plain (get_partition_key (100 ∷ []) (116 ∷ []) server).1).0 ≡ ok none)
unfolding find bytes_eq
get_partition_key-blocks_create_example =
    get_partition_key-blocks_create plain server empty_database refl refl

abbrev no_databases : MetaServer
no_databases = record { db_map = []; ip_node_map = [] }

get_partition_key-null_database_example :
    ((get_partition_key (100 ∷ []) (116 ∷ []) no_databases).0 ≡ err (meta_error no_database))
    × ((create_table plain (get_partition_key (100 ∷ []) (116 ∷ []) no_databases).1).0
        ≡ err undefined)
unfolding find
get_partition_key-null_database_example = get_partition_key-null_database plain no_databases refl

abbrev two_replicas : List ReplicaLocation
two_replicas =
    (record { ip_addr = 1 ∷ []; port = 8000; role = leader })
    ∷ (record { ip_addr = 2 ∷ []; port = 8000; role = follower })
    ∷ []

abbrev nodes_after : List (List ℕ × Node)
nodes_after =
    (1 ∷ [], record (node 1) { leader_par_cnt = 1 })
    ∷ (2 ∷ [], record (node 2) { follower_par_cnt = 1 })
    ∷ []

place-IsPlaced_example : IsPlaced two_replicas × (length two_replicas ≡ 2)
unfolding place place_followers choose change_node member bytes_eq
place-IsPlaced_example =
    place-IsPlaced 2 nodes (two_replicas, nodes_after) (omega arith) (omega arith) refl

abbrev first_half : ParMeta
first_half = record { name = 112 ∷ 48 ∷ []; p_id = 0; min_range = 97 ∷ []; max_range = 109 ∷ [] }

abbrev halves : TabMetaServer
halves = record new_table {
  partition_type = hash_partition;
  partition_key_type = type_string;
  partition_cnt = 1;
  partitions = first_half ∷ [];
  name = 116 ∷ [];
  table_location = record {
    table_oid = 0;
    duplicate_type = duplicate;
    partition_list =
        (record { table_oid = 0; p_id = 0; replica_cnt = 2; replica_location = two_replicas }) ∷ [];
  };
}

created-leads_example :
    (v : ReplicaLocation) × (leader_of 0 halves.table_location.partition_list ≡ some v)
unfolding partitioned_table columns make_partitions place_all place place_followers choose
    change_node member bytes_eq
created-leads_example =
    created-leads partitioned 0 nodes (halves, nodes_after) first_half refl (inl refl)

abbrev answer : Located
answer = (0, record { ip_addr = 1 ∷ []; port = 8000; role = leader }) ∷ []

abbrev no_number : List ℕ → Option ℕ
no_number s = none

by_range_complete_example :
    (v : ReplicaLocation) × (leader_of 0 halves.table_location.partition_list ≡ some v)
    × (located 0 answer ≡ some v)
unfolding by_range locate_if locate set_located leader_of get_replica_location bytes_lt
by_range_complete_example =
    by_range_complete no_number halves (98 ∷ []) (99 ∷ []) (98 ∷ []) answer first_half refl refl
      (inl refl) refl refl refl refl

by_range_sound_example :
    (par : ParMeta) × In par halves.partitions
    × (string_overlaps (98 ∷ []) (99 ∷ []) par ≡ true)
    × (par.p_id ≡ 0)
    × (leader_of 0 halves.table_location.partition_list
        ≡ some (record { ip_addr = 1 ∷ []; port = 8000; role = leader }))
unfolding by_range locate_if locate located set_located leader_of get_replica_location bytes_lt
by_range_sound_example =
    by_range_sound no_number halves (98 ∷ []) (99 ∷ []) answer 0
      (record { ip_addr = 1 ∷ []; port = 8000; role = leader }) refl refl refl

abbrev with_table : MetaServer
with_table = record server {
  db_map = (100 ∷ [], some (record empty_database { tabs = (116 ∷ [], some halves) ∷ [] })) ∷ [];
}

update_partition_leader-no_effect_example :
    ((update_partition_leader (100 ∷ []) (116 ∷ []) 0 (2 ∷ []) with_table).0
      ≡ ok (update_copy 0 (2 ∷ []) halves.table_location).0)
    × ((table_of
          (100 ∷ [])
          (116 ∷ [])
          (update_partition_leader (100 ∷ []) (116 ∷ []) 0 (2 ∷ []) with_table).1).0
        ≡ ok halves)
unfolding find bytes_eq
update_partition_leader-no_effect_example =
    update_partition_leader-no_effect (100 ∷ []) (116 ∷ []) (2 ∷ []) 0 with_table
      (record empty_database { tabs = (116 ∷ [], some halves) ∷ [] }) halves refl refl
