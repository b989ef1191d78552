-- ===== src/Meta/Create/Place.antt =====
-- Where the replicas of a new table's partitions are placed.
use ddbms.Base.{
  ℕ, zero, suc, ◌-◌, ◌^◌, ◌<◌, ◌≡◌, refl, sym, ap, ◌∙◌, subst, Bool, true, false, not, ◌&&◌, Option,
  none, some, List, [], ◌∷◌, length, In, inl, inr, ◌⊎◌, Bool-cases, ◌==◌, arith, some_value,
  none_absurd,
}
use ddbms.Base.Words.{signed32_lt}
use ddbms.Meta.Error.{ok, Result-cases, err_absurd, ok_value}
use ddbms.Meta.Catalog.{
  leader, follower, role_index, ReplicaLocation, PhyPartitionLocation, get_replica_location,
  leader_of, ParMeta, Node, TabMetaServer,
}
use ddbms.Meta.Create.{
  choose, member, change_node, chosen, leader_choice, follower_choice, count_follower, count_leader,
  place_followers, rounds, place, place_all, partitioned_table, columns, make_partitions,
  CreatePartitionTableRequest,
}

abbrev Nodes : Type 0
Nodes = List (List ℕ × Node)

choose_test :
    (test : Node → Bool) (cnt : Node → ℕ) (m : ℕ) (best : Option (List ℕ × Node)) (nodes : Nodes)
    (c : List ℕ × Node)
    → choose test cnt m best nodes ≡ some c
    → (best ≡ some c) ⊎ (test c.1 ≡ true)
unfolding choose
choose_test test cnt m best [] c h = inl h
choose_test test cnt m best ((k, n) ∷ nodes) c h =
    elim (Bool-cases (test n && signed32_lt (cnt n) m)) [
      | inl t ↦ elim (choose_test test cnt (cnt n) (some (k, n)) nodes c (rw t at h)) [
        | inl e ↦ inr (
            subst (λ x. test x.1 ≡ true) (some_value (k, n) c e)
              (and_left (test n) (signed32_lt (cnt n) m) t))
        | inr p ↦ inr p
      ]
      | inr f ↦ choose_test test cnt m best nodes c (rw f at h)
    ]
  where
    and_left : (a b : Bool) → (a && b) ≡ true → a ≡ true
    and_left true b h = refl
    and_left false b h = h

chosen_value : (o : Option (List ℕ × Node)) (c : List ℕ × Node) → chosen o ≡ ok c → o ≡ some c
chosen_value none c h = cc
chosen_value (some d) c h = cc

-- Followers with addresses outside `s`, and different from each other.
abbrev pub AreFollowers : List (List ℕ) → List ReplicaLocation → Type 0
AreFollowers s [] = Unit
AreFollowers s (x ∷ xs) =
    (x.role ≡ follower) × (member x.ip_addr s ≡ false) × AreFollowers (x.ip_addr ∷ s) xs

-- A leader, and followers on other nodes.
abbrev pub IsPlaced : List ReplicaLocation → Type 0
IsPlaced [] = ⊥
IsPlaced (x ∷ xs) = (x.role ≡ leader) × AreFollowers (x.ip_addr ∷ []) xs

not_member : (a b : Bool) → (a && not b) ≡ true → b ≡ false
not_member true false h = refl
not_member true true h = cc
not_member false b h = cc

follower_choice-new :
    (s : List (List ℕ)) (nodes : Nodes) (c : List ℕ × Node)
    → follower_choice s nodes ≡ some c
    → member c.1.ip_addr s ≡ false
unfolding choose member
follower_choice-new s nodes c h =
    elim (choose_test (λ n. n.activate && not (member n.ip_addr s)) (λ n. n.follower_par_cnt) _ none
      nodes c h) [
        | inl n ↦ absurd (none_absurd c n)
        | inr t ↦ not_member c.1.activate (member c.1.ip_addr s) t
      ]

PlacedFollowers : List (List ℕ) → ℕ → List ReplicaLocation × Nodes → Type 0
PlacedFollowers s n out = AreFollowers s out.0 × (length out.0 ≡ n)

place_followers-placed :
    (n : ℕ) (s : List (List ℕ)) (nodes : Nodes) (out : List ReplicaLocation × Nodes)
    → place_followers n s nodes ≡ ok out
    → PlacedFollowers s n out
unfolding place_followers PlacedFollowers
place_followers-placed zero s nodes out h =
    subst (PlacedFollowers s zero) (ok_value _ out h) (tt, refl)
place_followers-placed (suc n) s nodes out h =
    elim (Result-cases (chosen (follower_choice s nodes))) [
      | inr (g, e) ↦ absurd (err_absurd (rw e at h))
      | inl (c, e) ↦
          let h1 = rw e at h in
          elim (Result-cases
            (place_followers n (c.1.ip_addr ∷ s) (change_node c.0 count_follower nodes))) [
              | inr (g, f) ↦ absurd (err_absurd (rw f at h1))
              | inl (r, f) ↦
                  let (a, l) = place_followers-placed n (c.1.ip_addr ∷ s) _ r f in
                  subst (PlacedFollowers s (suc n)) (ok_value _ out (rw f at h1))
                    ((refl, follower_choice-new s nodes c (chosen_value _ c e), a), ap suc l)
            ]
    ]

-- What a placement consists of.
Placement : ℕ → List ReplicaLocation × Nodes → Type 0
Placement replica_cnt out =
    (x : ReplicaLocation) × (xs : List ReplicaLocation) × (out.0 ≡ x ∷ xs)
    × (x.role ≡ leader)
    × AreFollowers (x.ip_addr ∷ []) xs
    × (length xs ≡ rounds replica_cnt - 1)

place-Placement :
    (replica_cnt : ℕ) (nodes : Nodes) (out : List ReplicaLocation × Nodes)
    → place replica_cnt nodes ≡ ok out
    → Placement replica_cnt out
unfolding place Placement PlacedFollowers
place-Placement replica_cnt nodes out h = elim (Result-cases (chosen (leader_choice nodes))) [
  | inr (g, e) ↦ absurd (err_absurd (rw e at h))
  | inl (c, e) ↦
      let h1 = rw e at h in
      elim (Result-cases (
        place_followers (rounds replica_cnt - 1) (c.1.ip_addr ∷ [])
          (change_node c.0 count_leader nodes))) [
            | inr (g, f) ↦ absurd (err_absurd (rw f at h1))
            | inl (r, f) ↦
                let (a, l) =
                  place_followers-placed (rounds replica_cnt - 1) (c.1.ip_addr ∷ []) _ r f in
                (_, r.0, ap (λ o. o.0) (sym (ok_value _ out (rw f at h1))), refl, a, l)
          ]
]

-- When the placement of a partition succeeds, for a number of replicas that is an int32_t above
-- 0, it names as many replicas as were asked for, whose addresses all differ: a leader first,
-- then followers.
pub place-IsPlaced :
    (replica_cnt : ℕ) (nodes : Nodes) (out : List ReplicaLocation × Nodes)
    → 0 < replica_cnt
    → replica_cnt < 2 ^ 31
    → place replica_cnt nodes ≡ ok out
    → IsPlaced out.0 × (length out.0 ≡ replica_cnt)
unfolding Placement
place-IsPlaced replica_cnt nodes out pos small h =
    let (x, xs, e, l, a, n) = place-Placement replica_cnt nodes out h in
    (subst IsPlaced (sym e) (l, a), ap length e ∙ ground (arith, n, pos, small))

HasLeader : List ReplicaLocation → Type 0
HasLeader l = (v : ReplicaLocation) × (get_replica_location leader l ≡ some v)

place-HasLeader :
    (replica_cnt : ℕ) (nodes : Nodes) (out : List ReplicaLocation × Nodes)
    → place replica_cnt nodes ≡ ok out
    → HasLeader out.0
unfolding Placement HasLeader get_replica_location
place-HasLeader replica_cnt nodes out h =
    let (x, xs, e, l, a, n) = place-Placement replica_cnt nodes out h in
    (x, rw e (ground (arith, ap role_index l)))

Leads : List ParMeta → List PhyPartitionLocation → Type 0
Leads pars l =
    (par : ParMeta) → In par pars → (v : ReplicaLocation) × (leader_of par.p_id l ≡ some v)

leader_of-here :
    (p : ℕ) (x : PhyPartitionLocation) (xs : List PhyPartitionLocation)
    → HasLeader x.replica_location
    → x.p_id ≡ p
    → (v : ReplicaLocation) × (leader_of p (x ∷ xs) ≡ some v)
unfolding leader_of HasLeader
leader_of-here p x xs (v, h) e = (v, ground (arith, h, e))

leader_of-later :
    (p : ℕ) (x : PhyPartitionLocation) (xs : List PhyPartitionLocation)
    → HasLeader x.replica_location
    → (v : ReplicaLocation) × (leader_of p xs ≡ some v)
    → (v : ReplicaLocation) × (leader_of p (x ∷ xs) ≡ some v)
unfolding leader_of HasLeader
leader_of-later p x xs (v, h) (w, g) = elim (Bool-cases (x.p_id == p)) [
  | inl e ↦ (v, ground (arith, h, e))
  | inr e ↦ (w, ground (arith, g, e))
]

Leads-both :
    (q : ParMeta) (pars : List ParMeta) (x : PhyPartitionLocation) (xs : List PhyPartitionLocation)
    → HasLeader x.replica_location
    → x.p_id ≡ q.p_id
    → Leads pars xs
    → Leads (q ∷ pars) (x ∷ xs)
unfolding Leads
Leads-both q pars x xs has e rest par (inl s) =
    leader_of-here par.p_id x xs has (e ∙ ap (λ y. y.p_id) (sym s))
Leads-both q pars x xs has e rest par (inr j) = leader_of-later par.p_id x xs has (rest par j)

place_all-Leads :
    (oid replica_cnt : ℕ) (pars : List ParMeta) (nodes : Nodes)
    (out : List PhyPartitionLocation × Nodes)
    → place_all oid replica_cnt pars nodes ≡ ok out
    → Leads pars out.0
unfolding place_all Leads
place_all-Leads oid replica_cnt [] nodes out h = λ par i. absurd i
place_all-Leads oid replica_cnt (q ∷ pars) nodes out h =
    elim (Result-cases (place replica_cnt nodes)) [
      | inr (g, e) ↦ absurd (err_absurd (rw e at h))
      | inl (l, e) ↦
          let h1 = rw e at h in
          elim (Result-cases (place_all oid replica_cnt pars l.1)) [
            | inr (g, f) ↦ absurd (err_absurd (rw f at h1))
            | inl (r, f) ↦
                subst (λ o. Leads (q ∷ pars) o.0) (ok_value _ out (rw f at h1))
                  (Leads-both q pars _ r.0 (place-HasLeader replica_cnt nodes l e) refl
                    (place_all-Leads oid replica_cnt pars l.1 r f))
          ]
    ]

-- When the building of a partitioned table succeeds, each of its partitions has a leader, whose
-- location getReplicaLocation finds by the partition's number.
pub created-leads :
    (q : CreatePartitionTableRequest) (oid : ℕ) (nodes : Nodes) (out : TabMetaServer × Nodes)
    (par : ParMeta)
    → partitioned_table q oid nodes ≡ ok out
    → In par out.0.partitions
    → (v : ReplicaLocation) × (leader_of par.p_id out.0.table_location.partition_list ≡ some v)
unfolding partitioned_table Leads
created-leads q oid nodes out par h = elim (Result-cases (columns q.col_name q.col_type)) [
  | inr (g, e) ↦ absurd (err_absurd (rw e at h))
  | inl (c, e) ↦
      let h1 = rw e at h in
      elim (Result-cases (make_partitions 0 (rounds q.partition_cnt) q.range)) [
        | inr (g, f) ↦ absurd (err_absurd (rw f at h1))
        | inl (ps, f) ↦
            let h2 = rw f at h1 in
            elim (Result-cases (place_all oid q.replica_cnt ps nodes)) [
              | inr (g, k) ↦ absurd (err_absurd (rw k at h2))
              | inl (l, k) ↦
                  subst
                    (λ o.
                      In par o.0.partitions
                      → (v : ReplicaLocation) × (leader_of par.p_id
                            o.0.table_location.partition_list
                          ≡ some v))
                    (ok_value _ out (rw k at h2))
                    (place_all-Leads oid q.replica_cnt ps nodes l k par)
            ]
      ]
]
