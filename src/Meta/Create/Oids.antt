-- ===== src/Meta/Create/Oids.antt =====
-- The numbers of the tables, and what a lookup does to a later creation.
use ddbms.Base.{
  ℕ, ◌+◌, ◌%◌, ◌^◌, ◌<◌, ◌≡◌, refl, sym, ap, Bool, true, false, Option, none, some, List, [], ◌∷◌,
  ◌++◌, length, ltb, All, In, In-append, inl, inr, Option-cases, if◌then◌else◌, arith,
}
use ddbms.Base.Words.{sign_extend}
use ddbms.Meta.Error.{Result, ok, err, Result-cases, err_absurd, ok_value}
use ddbms.Meta.Catalog.{Node, TabMetaServer, PtrMap, find, put, DbMetaServer, MetaServer}
use ddbms.Meta.Catalog.Map.{put-new, AllOf, AllOf-put, AllOf-find}
use ddbms.Meta.Create.{
  add_table, guarded, created, columns, CreateTableRequest, plain_table, create_table,
  CreatePartitionTableRequest, make_partitions, rounds, place_all, partitioned_table, split_result,
  is_none_partition, create_partition_table,
}

abbrev pub oids : PtrMap TabMetaServer → List ℕ
oids [] = []
oids ((k, none) ∷ m) = oids m
oids ((k, some t) ∷ m) = t.oid ∷ oids m

abbrev pub Unique : List ℕ → Type 0
Unique [] = Unit
Unique (x ∷ xs) = (In x xs → ⊥) × Unique xs

-- The tables of a database have different numbers, below the next one.
abbrev pub IsNumbered : DbMetaServer → Type 0
IsNumbered dms = Unique (oids dms.tabs) × All (λ o. o < dms.next_oid) (oids dms.tabs)

abbrev pub AreNumbered : MetaServer → Type 0
AreNumbered ms = AllOf IsNumbered ms.db_map

oids-snoc :
    (m : PtrMap TabMetaServer) (k : List ℕ) (t : TabMetaServer)
    → oids (m ++ (k, some t) ∷ []) ≡ oids m ++ t.oid ∷ []
oids-snoc [] k t = refl
oids-snoc ((j, none) ∷ m) k t = oids-snoc m k t
oids-snoc ((j, some u) ∷ m) k t = ap (λ l. u.oid ∷ l) (oids-snoc m k t)

below_fresh : (n : ℕ) (xs : List ℕ) → All (λ o. o < n) xs → In n xs → ⊥
below_fresh n [] b i = absurd i
below_fresh n (x ∷ xs) (a, b) (inl e) = omega (arith, a, e)
below_fresh n (x ∷ xs) (a, b) (inr i) = below_fresh n xs b i

not-In_snoc : (x y : ℕ) (xs : List ℕ) → (In x xs → ⊥) → (x ≡ y → ⊥) → In x (xs ++ y ∷ []) → ⊥
not-In_snoc x y xs f g i = elim (In-append x xs (y ∷ []) i) [
  | inl a ↦ f a
  | inr (inl e) ↦ g e
  | inr (inr b) ↦ absurd b
]

Unique-snoc : (n : ℕ) (xs : List ℕ) → Unique xs → All (λ o. o < n) xs → Unique (xs ++ n ∷ [])
Unique-snoc n [] u b = (λ i. i, tt)
Unique-snoc n (x ∷ xs) (f, u) (a, b) =
    (not-In_snoc x n xs f (λ e. omega (arith, a, e)), Unique-snoc n xs u b)

All-snoc : (n : ℕ) (xs : List ℕ) → All (λ o. o < n) xs → All (λ o. o < n + 1) (xs ++ n ∷ [])
All-snoc n [] b = (omega arith, tt)
All-snoc n (x ∷ xs) (a, b) = (omega (arith, a), All-snoc n xs b)

module _ (db_name tab_name : List ℕ) (dms : DbMetaServer) (ms : MetaServer) where
  added :
      (t : TabMetaServer)
      → t.oid ≡ dms.next_oid
      → dms.next_oid + 1 < 2 ^ 31
      → find tab_name dms.tabs ≡ none
      → IsNumbered dms
      → IsNumbered (record dms {
        next_oid = (dms.next_oid + 1) % 2 ^ 32;
        tabs = put tab_name (some t) dms.tabs;
      })
  added t e small free (u, b) =
      rw (put-new tab_name (some t) dms.tabs free, oids-snoc dms.tabs tab_name t, e, no_wrap)
        (Unique-snoc dms.next_oid (oids dms.tabs) u b, All-snoc dms.next_oid (oids dms.tabs) b)
    where
      no_wrap : (dms.next_oid + 1) % 2 ^ 32 ≡ dms.next_oid + 1
      no_wrap = omega (arith, small)

  created-AreNumbered :
      (r : Result TabMetaServer) (nodes : List (List ℕ × Node))
      → ((t : TabMetaServer) → r ≡ ok t → t.oid ≡ dms.next_oid)
      → dms.next_oid + 1 < 2 ^ 31
      → find tab_name dms.tabs ≡ none
      → IsNumbered dms
      → AreNumbered ms
      → AreNumbered (created db_name tab_name dms ms (r, nodes)).1
  unfolding add_table
  created-AreNumbered (ok t) nodes o small free n k =
      AllOf-put IsNumbered db_name _ ms.db_map (added t (o t refl) small free n) k
  created-AreNumbered (err e) nodes o small free n k = k

module _ (db_name tab_name : List ℕ) (ms : MetaServer) where
  guarded-AreNumbered :
      (make : DbMetaServer → Result (Option ℕ) × MetaServer)
      → ((d : DbMetaServer)
          → find db_name ms.db_map ≡ some (some d)
          → find tab_name d.tabs ≡ none
          → AreNumbered (make d).1)
      → AreNumbered ms
      → AreNumbered (guarded db_name tab_name make ms).1
  unfolding guarded
  guarded-AreNumbered make f k = elim (Option-cases (find db_name ms.db_map)) [
    | inl n ↦ rw (n, guarded) k
    | inr (none, e) ↦ rw (e, guarded) k
    | inr (some d, e) ↦ elim (Option-cases (find tab_name d.tabs)) [
      | inl n ↦ rw (e, guarded, n) (f d e n)
      | inr (t, g) ↦ rw (e, guarded, g) k
    ]
  ]

plain_table-oid :
    (q : CreateTableRequest) (oid : ℕ) (t : TabMetaServer) → plain_table q oid ≡ ok t → t.oid ≡ oid
unfolding plain_table
plain_table-oid q oid t h = elim (Result-cases (columns q.col_name q.col_type)) [
  | inr (g, e) ↦ absurd (err_absurd (rw e at h))
  | inl (c, e) ↦ ap (λ x. x.oid) (sym (ok_value _ t (rw e at h)))
]

-- CreateTable keeps the tables of every database numbered by different numbers below the next
-- one, whatever it returns, while the next number of the named database is below 2 ^ 31 - 1.
pub create_table-AreNumbered :
    (q : CreateTableRequest) (ms : MetaServer)
    → ((d : DbMetaServer) → find q.db_name ms.db_map ≡ some (some d) → d.next_oid + 1 < 2 ^ 31)
    → AreNumbered ms
    → AreNumbered (create_table q ms).1
unfolding create_table
create_table-AreNumbered q ms small k =
    guarded-AreNumbered q.db_name q.tab_name ms
      (λ d. created q.db_name q.tab_name d ms (plain_table q d.next_oid, ms.ip_node_map))
      (λ d e free.
        created-AreNumbered q.db_name q.tab_name d ms (plain_table q d.next_oid) ms.ip_node_map
          (plain_table-oid q d.next_oid) (small d e) free
          (AllOf-find IsNumbered q.db_name d ms.db_map e k) k)
      k

partitioned_table-oid :
    (q : CreatePartitionTableRequest) (oid : ℕ) (nodes : List (List ℕ × Node)) (t : TabMetaServer)
    → (split_result nodes (partitioned_table q oid nodes)).0 ≡ ok t
    → t.oid ≡ oid
unfolding partitioned_table
partitioned_table-oid q oid nodes t h = elim (Result-cases (columns q.col_name q.col_type)) [
  | inr (g, e) ↦ absurd (err_absurd (rw e at h))
  | inl (c, e) ↦
      let h1 = rw e at h in
      elim (Result-cases (make_partitions 0 (rounds q.partition_cnt) q.range)) [
        | inr (g, f) ↦ absurd (err_absurd (rw f at h1))
        | inl (ps, f) ↦
            let h2 = rw f at h1 in
            elim (Result-cases (place_all oid q.replica_cnt ps nodes)) [
              | inr (g, k) ↦ absurd (err_absurd (rw k at h2))
              | inl (l, k) ↦ ap (λ x. x.oid) (sym (ok_value _ t (rw k at h2)))
            ]
      ]
]

-- CreatePartitionTable, too, keeps the tables of every database numbered by different numbers
-- below the next one, whatever it returns, while the next number of the named database is below
-- 2 ^ 31 - 1.
pub create_partition_table-AreNumbered :
    (q : CreatePartitionTableRequest) (ms : MetaServer)
    → ((d : DbMetaServer) → find q.db_name ms.db_map ≡ some (some d) → d.next_oid + 1 < 2 ^ 31)
    → AreNumbered ms
    → AreNumbered (create_partition_table q ms).1
unfolding create_partition_table
create_partition_table-AreNumbered q ms small k =
    guarded-AreNumbered q.db_name q.tab_name ms
      (λ d.
        if is_none_partition q.partition_type
        then (ok none, ms)
        else if ltb (sign_extend q.replica_cnt) (length ms.ip_node_map)
        then (ok none, ms)
        else created q.db_name q.tab_name d ms
            (split_result ms.ip_node_map (partitioned_table q d.next_oid ms.ip_node_map)))
      (λ d e free. either (is_none_partition q.partition_type) _ _ k (
        either (ltb (sign_extend q.replica_cnt) (length ms.ip_node_map)) _ _ k (
          created-AreNumbered q.db_name q.tab_name d ms
            (split_result ms.ip_node_map (partitioned_table q d.next_oid ms.ip_node_map)).0
            (split_result ms.ip_node_map (partitioned_table q d.next_oid ms.ip_node_map)).1
            (partitioned_table-oid q d.next_oid ms.ip_node_map) (small d e) free
            (AllOf-find IsNumbered q.db_name d ms.db_map e k) k)))
      k
  where
    either :
        (b : Bool) (x y : Result (Option ℕ) × MetaServer)
        → AreNumbered x.1
        → AreNumbered y.1
        → AreNumbered (if b then x else y).1
    either true x y p q = p
    either false x y p q = q
