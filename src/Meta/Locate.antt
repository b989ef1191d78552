-- ===== src/Meta/Locate.antt =====
-- meta_server/meta_server.cpp: the calls that look tables and partitions up, and
-- UpdatePartitionLeader. `stoi`, and the two `std::hash`, are arguments.
pub mod Leader
pub mod Prune
use ddbms.Base.{
  ℕ, ◌+◌, ◌-◌, ◌%◌, ◌^◌, Bool, true, false, not, ◌&&◌, Option, none, some, List, [], ◌∷◌, ltb, ◌==◌,
  if◌then◌else◌,
}
use ddbms.Base.Bytes.{bytes_eq, bytes_lt}
use ddbms.Base.Words.{signed32_lt, sign_extend}
use ddbms.Meta.Error.{
  no_database, no_table, partition_key_not_true, no_partition_or_replica, meta_error,
  invalid_number, undefined, Result, ok, err, ◌>>=◌,
}
use ddbms.Meta.Catalog.{
  leader, follower, ReplicaLocation, PhyPartitionLocation, leader_of, PhyTableLocation, duplicate,
  not_duplicate, type_string, none_partition, range_partition, hash_partition, ParMeta, ColumnInfo,
  TabMetaServer, put, touch, deref, DbMetaServer, MetaServer,
}

-- The head of each call: the table that two names lead to, and the maps behind the two subscripts.
unfoldable pub table_in :
    List ℕ → List ℕ → DbMetaServer → MetaServer → Result TabMetaServer × MetaServer
unfolding put touch deref
table_in db_name table_name dms ms =
    let ms' = record ms {
      db_map = put db_name (some (record dms { tabs = touch table_name dms.tabs })) ms.db_map;
    } in
    elim (deref table_name dms.tabs) [
      | none ↦ (err (meta_error no_table), ms')
      | some tms ↦ (ok tms, ms')
    ]

unfoldable pub table_of : List ℕ → List ℕ → MetaServer → Result TabMetaServer × MetaServer
unfolding table_in touch deref
table_of db_name table_name ms = elim (deref db_name ms.db_map) [
  | none ↦ (err (meta_error no_database), record ms { db_map = touch db_name ms.db_map })
  | some dms ↦ table_in db_name table_name dms ms
]

unfoldable pub get_partition_key : List ℕ → List ℕ → MetaServer → Result (List ℕ) × MetaServer
unfolding table_of
get_partition_key db_name table_name ms =
    let (r, ms') = table_of db_name table_name ms in ((do tms ← r; ok tms.partition_key_name), ms')

unfoldable pub get_col_infor : List ℕ → List ℕ → MetaServer → Result ColumnInfo × MetaServer
unfolding table_of
get_col_infor db_name table_name ms =
    let (r, ms') = table_of db_name table_name ms in ((do tms ← r; ok tms.col_info), ms')

-- std::unordered_map<partition_id_t, ReplicaLocation>, and res[p_id] = v
abbrev pub Located : Type 0
Located = List (ℕ × ReplicaLocation)

unfoldable pub located : ℕ → Located → Option ReplicaLocation
located p_id [] = none
located p_id ((q, v) ∷ res) = if q == p_id then some v else located p_id res

unfoldable pub set_located : ℕ → ReplicaLocation → Located → Located
set_located p_id v [] = (p_id, v) ∷ []
set_located p_id v ((q, w) ∷ res) =
    if q == p_id then (q, v) ∷ res else (q, w) ∷ set_located p_id v res

-- The body that all the loops share.
unfoldable pub locate : TabMetaServer → ℕ → Located → Result Located
unfolding leader_of set_located
locate tms p_id res = elim (leader_of p_id tms.table_location.partition_list) [
  | none ↦ err (meta_error no_partition_or_replica)
  | some v ↦ ok (set_located p_id v res)
]

-- for(auto par : tms->partitions) if(test) ...
unfoldable pub locate_if :
    (ParMeta → Result Bool) → TabMetaServer → List ParMeta → Located → Result Located
unfolding locate
locate_if test tms [] res = ok res
locate_if test tms (par ∷ pars) res = do
  b ← test par
  res' ← (if b then locate tms par.p_id res else ok res)
  locate_if test tms pars res'

abbrev pub locate_all : TabMetaServer → Result Located
locate_all tms = locate_if (λ par. ok true) tms tms.partitions []

abbrev pub int_le : ℕ → ℕ → Bool
int_le x y = not (signed32_lt y x)

abbrev pub string_le : List ℕ → List ℕ → Bool
string_le x y = not (bytes_lt y x)

-- size_t % int32_t, cut to int32_t
unfoldable pub hash_partition_id : ℕ → ℕ → Result ℕ
hash_partition_id cnt h =
    if cnt == 0
    then err undefined
    else if ltb cnt (2 ^ 31)
    then ok (h % cnt)
    else ok ((h % (cnt + 2 ^ 64 - 2 ^ 32)) % 2 ^ 32)

abbrev pub string_overlaps : List ℕ → List ℕ → ParMeta → Bool
string_overlaps min_range max_range par =
    string_le par.min_range max_range && string_le min_range par.max_range

module _ (stoi : List ℕ → Option ℕ) where
  abbrev pub parse_int : List ℕ → Result ℕ
  parse_int s = elim (stoi s) [ none ↦ err invalid_number | some x ↦ ok x ]

  -- The two conditions of getReplicaLocationListByRange.
  unfoldable pub int_overlaps : List ℕ → List ℕ → ParMeta → Result Bool
  int_overlaps min_range max_range par = do
    par_min ← parse_int par.min_range
    max ← parse_int max_range
    (if int_le par_min max
        then (do
          par_max ← parse_int par.max_range
          min ← parse_int min_range
          ok (int_le min par_max))
        else ok false)

  unfoldable pub by_range : TabMetaServer → List ℕ → List ℕ → Result Located
  unfolding locate_if int_overlaps
  by_range tms min_range max_range = elim tms.partition_key_type [
    | type_string ↦
        locate_if (λ par. ok (string_overlaps min_range max_range par)) tms tms.partitions []
    | _ ↦ locate_if (int_overlaps min_range max_range) tms tms.partitions []
  ]

  module _ (hash_int : ℕ → ℕ) (hash_string : List ℕ → ℕ) where
    abbrev pub locate_hash : TabMetaServer → ℕ → Result Located
    unfolding hash_partition_id locate
    locate_hash tms h = do p_id ← hash_partition_id tms.partition_cnt h; locate tms p_id []

    unfoldable pub by_hash_int : TabMetaServer → List ℕ → List ℕ → Result Located
    unfolding hash_partition_id locate locate_if
    by_hash_int tms min_range max_range = do
      int_min_range ← parse_int min_range
      int_max_range ← parse_int max_range
      (if int_max_range == int_min_range
          then locate_hash tms (hash_int (sign_extend int_min_range))
          else locate_all tms)

    unfoldable pub by_hash : TabMetaServer → List ℕ → List ℕ → Result Located
    unfolding by_hash_int hash_partition_id locate locate_if
    by_hash tms min_range max_range = elim tms.partition_key_type [
      | type_string ↦
          if bytes_eq max_range min_range
          then locate_hash tms (hash_string min_range)
          else locate_all tms
      | _ ↦ by_hash_int tms min_range max_range
    ]

    unfoldable pub locations : TabMetaServer → List ℕ → List ℕ → List ℕ → Result Located
    unfolding by_range by_hash locate_if
    locations tms partition_key_name min_range max_range =
        if not (bytes_eq partition_key_name tms.partition_key_name)
        then err (meta_error partition_key_not_true)
        else elim tms.partition_type [
          | range_partition ↦ by_range tms min_range max_range
          | hash_partition ↦ by_hash tms min_range max_range
          | none_partition ↦ locate_all tms
        ]

    unfoldable pub get_replica_location_list :
        List ℕ → List ℕ → List ℕ → List ℕ → List ℕ → MetaServer → Result Located × MetaServer
    unfolding table_of locations
    get_replica_location_list db_name table_name partition_key_name min_range max_range ms =
        let (r, ms') = table_of db_name table_name ms in
        ((do tms ← r; locations tms partition_key_name min_range max_range), ms')

-- UpdatePartitionLeader edits `tab_loc`, a copy of the table's location.
unfoldable pub set_roles : List ℕ → List ReplicaLocation → List ReplicaLocation
set_roles ip_addr [] = []
set_roles ip_addr (x ∷ xs) =
    (record x { role = if bytes_eq x.ip_addr ip_addr then leader else follower })
    ∷ set_roles ip_addr xs

unfoldable pub update_leader :
    ℕ → List ℕ → List PhyPartitionLocation → Option (List PhyPartitionLocation)
unfolding set_roles
update_leader p_id ip_addr [] = none
update_leader p_id ip_addr (x ∷ xs) =
    let rest = update_leader p_id ip_addr xs in
    if x.p_id == p_id
    then some ((record x { replica_location = set_roles ip_addr x.replica_location }) ∷ xs)
    else (elim rest [ none ↦ none | some ys ↦ some (x ∷ ys) ])

-- The returned value, with the copy that is dropped at the return.
unfoldable pub update_copy : ℕ → List ℕ → PhyTableLocation → Bool × PhyTableLocation
unfolding update_leader
update_copy p_id ip_addr tab_loc = elim tab_loc.duplicate_type [
  | not_duplicate ↦ (false, tab_loc)
  | duplicate ↦ elim (update_leader p_id ip_addr tab_loc.partition_list) [
    | none ↦ (false, tab_loc)
    | some l ↦ (true, record tab_loc { partition_list = l })
  ]
]

unfoldable pub update_partition_leader :
    List ℕ → List ℕ → ℕ → List ℕ → MetaServer → Result Bool × MetaServer
unfolding table_of update_copy
update_partition_leader db_name tab_name p_id ip_addr ms =
    let (r, ms') = table_of db_name tab_name ms in
    ((do tms ← r; ok (update_copy p_id ip_addr tms.table_location).0), ms')
