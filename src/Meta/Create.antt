-- ===== src/Meta/Create.antt =====
-- meta_server/meta_server_rpc.cpp: CreateTable and CreatePartitionTable. A response that does not
-- succeed is `none`; the nodes are listed in the order in which the map is walked.
pub mod Oids
pub mod Nulls
pub mod Place
use ddbms.Base.{
  ℕ, zero, suc, ◌+◌, ◌-◌, ◌/◌, ◌%◌, ◌^◌, Bool, true, false, not, ◌&&◌, ◌||◌, Option, none, some,
  List, [], ◌∷◌, ◌++◌, length, ltb, if◌then◌else◌,
}
use ddbms.Base.Bytes.{bytes_eq}
use ddbms.Base.Words.{signed32_lt, sign_extend}
use ddbms.Meta.Error.{undefined, Result, ok, err, ◌>>=◌}
use ddbms.Meta.Catalog.{
  leader, follower, ReplicaLocation, PhyPartitionLocation, duplicate, not_duplicate, ColType,
  type_int, type_float, type_string, PartitionType, none_partition, range_partition, hash_partition,
  ParMeta, ColumnInfo, Node, TabMetaServer, find, put, DbMetaServer, MetaServer,
}

-- `new TabMetaServer()`
abbrev pub new_table : TabMetaServer
new_table = record {
  oid = 0;
  name = [];
  col_info = record { column_name = []; column_type = [] };
  partition_type = none_partition;
  partition_key_name = [];
  partition_key_type = type_int;
  partition_cnt = 0;
  partitions = [];
  table_location = record { table_oid = 0; duplicate_type = not_duplicate; partition_list = [] };
}

-- The loop over the columns, which reads a type for each name.
unfoldable pub columns : List (List ℕ) → List ColType → Result ColumnInfo
columns [] types = ok (record { column_name = []; column_type = [] })
columns (n ∷ names) [] = err undefined
columns (n ∷ names) (t ∷ types) = do
  rest ← columns names types
  ok (record { column_name = n ∷ rest.column_name; column_type = t ∷ rest.column_type })

-- The table enters the database under its name, with the next oid.
unfoldable pub add_table : List ℕ → List ℕ → TabMetaServer → DbMetaServer → MetaServer → MetaServer
unfolding put
add_table db_name tab_name tms dms ms = record ms {
  db_map =
      put db_name
        (some (record dms {
          next_oid = (dms.next_oid + 1) % 2 ^ 32;
          tabs = put tab_name (some tms) dms.tabs;
        }))
        ms.db_map;
}

-- The guards that both calls begin with; `make` is the rest of the call.
unfoldable pub guarded :
    List ℕ
    → List ℕ
    → (DbMetaServer → Result (Option ℕ) × MetaServer)
    → MetaServer
    → Result (Option ℕ) × MetaServer
unfolding find
guarded db_name tab_name make ms = elim (find db_name ms.db_map) [
  | none ↦ (ok none, ms)
  | some none ↦ (err undefined, ms)
  | some (some dms) ↦ elim (find tab_name dms.tabs) [ some t ↦ (ok none, ms) | none ↦ make dms ]
]

-- The end of both calls.
abbrev pub created :
    List ℕ
    → List ℕ
    → DbMetaServer
    → MetaServer
    → Result TabMetaServer × List (List ℕ × Node)
    → Result (Option ℕ) × MetaServer
unfolding add_table
created db_name tab_name dms ms (ok tms, nodes) =
    (ok (some tms.oid), record (add_table db_name tab_name tms dms ms) { ip_node_map = nodes })
created db_name tab_name dms ms (err e, nodes) = (err e, ms)

pub record CreateTableRequest : Type 0 where
  pub db_name : List ℕ
  pub tab_name : List ℕ
  pub col_name : List (List ℕ)
  pub col_type : List ColType

unfoldable pub plain_table : CreateTableRequest → ℕ → Result TabMetaServer
unfolding columns
plain_table q oid = do
  c ← columns q.col_name q.col_type
  ok (record new_table {
    name = q.tab_name;
    col_info = c;
    oid = oid;
    partition_type = none_partition;
  })

unfoldable pub create_table : CreateTableRequest → MetaServer → Result (Option ℕ) × MetaServer
unfolding guarded add_table plain_table
create_table q ms =
    guarded q.db_name q.tab_name
      (λ dms. created q.db_name q.tab_name dms ms (plain_table q dms.next_oid, ms.ip_node_map)) ms

pub record CreatePartitionTableRequest : Type 0 where
  pub db_name : List ℕ
  pub tab_name : List ℕ
  pub partition_type : PartitionType
  pub partition_key_name : List ℕ
  pub partition_key_type : ColType
  pub partition_cnt : ℕ
  pub range : List (List ℕ × List ℕ)
  pub has_replica : Bool
  pub replica_cnt : ℕ
  pub col_name : List (List ℕ)
  pub col_type : List ColType

-- The first switch compares the key's type with the numbers of the partition types.
unfoldable pub stored_partition_type : ColType → PartitionType
stored_partition_type type_float = range_partition
stored_partition_type type_string = hash_partition
stored_partition_type type_int = none_partition

-- std::to_string, for numbers of at most `n` digits
unfoldable pub to_string : ℕ → ℕ → List ℕ
to_string zero i = []
to_string (suc n) i =
    let rest = to_string n (i / 10) in
    if ltb i 10 then (48 + i) ∷ [] else rest ++ (48 + i % 10) ∷ []

-- The loop over the partitions from `i`, `n` of them, which reads a range for each.
unfoldable pub make_partitions : ℕ → ℕ → List (List ℕ × List ℕ) → Result (List ParMeta)
unfolding to_string
make_partitions i zero ranges = ok []
make_partitions i (suc n) [] = err undefined
make_partitions i (suc n) ((min, max) ∷ ranges) = do
  rest ← make_partitions (i + 1) n ranges
  ok ((record { name = 112 ∷ to_string 10 i; p_id = i; min_range = min; max_range = max }) ∷ rest)

-- The loop that keeps the first node with the least count.
unfoldable pub choose :
    (Node → Bool)
    → (Node → ℕ)
    → ℕ
    → Option (List ℕ × Node)
    → List (List ℕ × Node)
    → Option (List ℕ × Node)
choose test cnt min_cnt best [] = best
choose test cnt min_cnt best ((k, n) ∷ nodes) =
    let taken = choose test cnt (cnt n) (some (k, n)) nodes in
    let left = choose test cnt min_cnt best nodes in
    if test n && signed32_lt (cnt n) min_cnt then taken else left

abbrev pub int32_max : ℕ
int32_max = 2 ^ 31 - 1

unfoldable pub change_node : List ℕ → (Node → Node) → List (List ℕ × Node) → List (List ℕ × Node)
change_node k f [] = []
change_node k f ((j, n) ∷ nodes) =
    if bytes_eq j k then (j, f n) ∷ nodes else (j, n) ∷ change_node k f nodes

unfoldable pub member : List ℕ → List (List ℕ) → Bool
member ip [] = false
member ip (x ∷ s) = bytes_eq x ip || member ip s

abbrev pub count_leader : Node → Node
count_leader n = record n { leader_par_cnt = (n.leader_par_cnt + 1) % 2 ^ 32 }

abbrev pub count_follower : Node → Node
count_follower n = record n { follower_par_cnt = (n.follower_par_cnt + 1) % 2 ^ 32 }

abbrev pub leader_choice : List (List ℕ × Node) → Option (List ℕ × Node)
unfolding choose
leader_choice nodes = choose (λ n. n.activate) (λ n. n.leader_par_cnt) int32_max none nodes

abbrev pub follower_choice : List (List ℕ) → List (List ℕ × Node) → Option (List ℕ × Node)
unfolding choose member
follower_choice s nodes =
    choose (λ n. n.activate && not (member n.ip_addr s)) (λ n. n.follower_par_cnt) int32_max none
      nodes

-- The pointer to the chosen node is not set when there is none.
abbrev pub chosen : Option (List ℕ × Node) → Result (List ℕ × Node)
chosen none = err undefined
chosen (some c) = ok c

unfoldable pub place_followers :
    ℕ → List (List ℕ) → List (List ℕ × Node) → Result (List ReplicaLocation × List (List ℕ × Node))
unfolding choose member change_node
place_followers zero s nodes = ok ([], nodes)
place_followers (suc n) s nodes = do
  c ← chosen (follower_choice s nodes)
  r ← place_followers n (c.1.ip_addr ∷ s) (change_node c.0 count_follower nodes)
  ok ((record { ip_addr = c.1.ip_addr; port = c.1.port; role = follower }) ∷ r.0, r.1)

-- The number of rounds of `for(j=0; j<n; j++)`.
abbrev pub rounds : ℕ → ℕ
rounds n = if ltb n (2 ^ 31) then n else 0

unfoldable pub place :
    ℕ → List (List ℕ × Node) → Result (List ReplicaLocation × List (List ℕ × Node))
unfolding choose change_node place_followers
place replica_cnt nodes = do
  c ← chosen (leader_choice nodes)
  r ←
      place_followers (rounds replica_cnt - 1) (c.1.ip_addr ∷ [])
        (change_node c.0 count_leader nodes)
  ok ((record { ip_addr = c.1.ip_addr; port = c.1.port; role = leader }) ∷ r.0, r.1)

unfoldable pub place_all :
    ℕ
    → ℕ
    → List ParMeta
    → List (List ℕ × Node)
    → Result (List PhyPartitionLocation × List (List ℕ × Node))
unfolding place
place_all oid replica_cnt [] nodes = ok ([], nodes)
place_all oid replica_cnt (par ∷ pars) nodes = do
  l ← place replica_cnt nodes
  r ← place_all oid replica_cnt pars l.1
  ok (
    (record { table_oid = oid; p_id = par.p_id; replica_cnt = replica_cnt; replica_location = l.0 })
        ∷ r.0,
    r.1,
  )

unfoldable pub partitioned_table :
    CreatePartitionTableRequest
    → ℕ
    → List (List ℕ × Node)
    → Result (TabMetaServer × List (List ℕ × Node))
unfolding columns make_partitions place_all stored_partition_type
partitioned_table q oid nodes = do
  c ← columns q.col_name q.col_type
  partitions ← make_partitions 0 (rounds q.partition_cnt) q.range
  l ← place_all oid q.replica_cnt partitions nodes
  ok (
    record {
      oid = oid;
      name = q.tab_name;
      col_info = c;
      partition_type = stored_partition_type q.partition_key_type;
      partition_key_name = q.partition_key_name;
      partition_key_type = q.partition_key_type;
      partition_cnt = q.partition_cnt;
      partitions = partitions;
      table_location = record {
        table_oid = oid;
        duplicate_type = if q.has_replica then duplicate else not_duplicate;
        partition_list = l.0;
      };
    },
    l.1,
  )

abbrev pub split_result :
    List (List ℕ × Node)
    → Result (TabMetaServer × List (List ℕ × Node))
    → Result TabMetaServer × List (List ℕ × Node)
split_result nodes (ok (t, n)) = (ok t, n)
split_result nodes (err e) = (err e, nodes)

abbrev pub is_none_partition : PartitionType → Bool
is_none_partition none_partition = true
is_none_partition _ = false

unfoldable pub create_partition_table :
    CreatePartitionTableRequest → MetaServer → Result (Option ℕ) × MetaServer
unfolding guarded add_table partitioned_table
create_partition_table q ms =
    guarded q.db_name q.tab_name
      (λ dms.
        if is_none_partition q.partition_type
        then (ok none, ms)
        else if ltb (sign_extend q.replica_cnt) (length ms.ip_node_map)
        then (ok none, ms)
        else created q.db_name q.tab_name dms ms
            (split_result ms.ip_node_map (partitioned_table q dms.next_oid ms.ip_node_map)))
      ms
