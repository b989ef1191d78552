-- ===== src/Meta/Catalog.antt =====
-- meta_server/partition_location.h, table_location.h and the types and maps of meta_server.h.
-- A string is the list of its bytes, an int32_t its bit pattern. A map of pointers is an association
-- list in which `none` is a null pointer; each object is reached through one pointer only.
pub mod Map
use ddbms.Base.{ℕ, Bool, Option, none, some, List, [], ◌∷◌, ◌==◌, if◌then◌else◌}
use ddbms.Base.Bytes.{bytes_eq}

pub data ReplicaRole : Type 0 where
  invalid_role leader follower : ReplicaRole

abbrev pub role_index : ReplicaRole → ℕ
role_index invalid_role = 0
role_index leader = 1
role_index follower = 2

pub record ReplicaLocation : Type 0 where
  pub ip_addr : List ℕ
  pub port : ℕ
  pub role : ReplicaRole

pub record PhyPartitionLocation : Type 0 where
  pub table_oid : ℕ
  pub p_id : ℕ
  pub replica_cnt : ℕ
  pub replica_location : List ReplicaLocation

-- PhyPartitionLocation::get_replica_location
unfoldable pub get_replica_location : ReplicaRole → List ReplicaLocation → Option ReplicaLocation
get_replica_location role [] = none
get_replica_location role (x ∷ xs) =
    if role_index x.role == role_index role then some x else get_replica_location role xs

pub data DuplicateType : Type 0 where
  not_duplicate duplicate : DuplicateType

pub record PhyTableLocation : Type 0 where
  pub table_oid : ℕ
  pub duplicate_type : DuplicateType
  pub partition_list : List PhyPartitionLocation

-- PhyTableLocation::getReplicaLocation
unfoldable pub leader_of : ℕ → List PhyPartitionLocation → Option ReplicaLocation
unfolding get_replica_location
leader_of p_id [] = none
leader_of p_id (x ∷ xs) =
    if x.p_id == p_id then get_replica_location leader x.replica_location else leader_of p_id xs

pub data ColType : Type 0 where
  type_int type_float type_string : ColType

pub data PartitionType : Type 0 where
  none_partition range_partition hash_partition : PartitionType

pub record ParMeta : Type 0 where
  pub name : List ℕ
  pub p_id : ℕ
  pub min_range : List ℕ
  pub max_range : List ℕ

pub record ColumnInfo : Type 0 where
  pub column_name : List (List ℕ)
  pub column_type : List ColType

pub record Node : Type 0 where
  pub ip_addr : List ℕ
  pub port : ℕ
  pub activate : Bool
  pub leader_par_cnt : ℕ
  pub follower_par_cnt : ℕ

pub record TabMetaServer : Type 0 where
  pub oid : ℕ
  pub name : List ℕ
  pub col_info : ColumnInfo
  pub partition_type : PartitionType
  pub partition_key_name : List ℕ
  pub partition_key_type : ColType
  pub partition_cnt : ℕ
  pub partitions : List ParMeta
  pub table_location : PhyTableLocation

-- std::unordered_map<std::string, A*>
abbrev pub PtrMap : Type 0 → Type 0
PtrMap A = List (List ℕ × Option A)

unfoldable pub find : {A : Type 0} → List ℕ → PtrMap A → Option (Option A)
find k [] = none
find k ((j, v) ∷ m) = if bytes_eq j k then some v else find k m

-- m[k] = v
unfoldable pub put : {A : Type 0} → List ℕ → Option A → PtrMap A → PtrMap A
put k v [] = (k, v) ∷ []
put k v ((j, w) ∷ m) = if bytes_eq j k then (j, v) ∷ m else (j, w) ∷ put k v m

-- What m[k] leaves behind: a missing key is inserted with a null pointer.
unfoldable pub touch : {A : Type 0} → List ℕ → PtrMap A → PtrMap A
unfolding find put
touch k m = elim (find k m) [ none ↦ put k none m | some v ↦ m ]

-- The pointer that m[k] names.
unfoldable pub deref : {A : Type 0} → List ℕ → PtrMap A → Option A
unfolding find
deref k m = elim (find k m) [ none ↦ none | some v ↦ v ]

pub record DbMetaServer : Type 0 where
  pub next_oid : ℕ
  pub name : List ℕ
  pub tabs : PtrMap TabMetaServer

pub record MetaServer : Type 0 where
  pub db_map : PtrMap DbMetaServer
  pub ip_node_map : List (List ℕ × Node)
