-- ===== src/Meta/Locate/Prune.antt =====
-- Which partitions a lookup returns.
use ddbms.Base.{
  ℕ, ◌≡◌, refl, sym, ◌∙◌, subst, Bool, true, false, ◌&&◌, Option, none, some, List, [], ◌∷◌, ◌==◌,
  arith, In, ◌⊎◌, inl, inr, Bool-cases, Option-cases, ==_iff, none_absurd,
}
use ddbms.Base.Bytes.{bytes_lt}
use ddbms.Meta.Error.{Failure, meta_error, no_partition_or_replica, Result, ok, err}
use ddbms.Meta.Catalog.{ReplicaLocation, leader_of, ParMeta, TabMetaServer, type_string}
use ddbms.Meta.Locate.{
  Located, located, set_located, locate, locate_if, string_le, string_overlaps, by_range,
}

located_same :
    (p : ℕ) (v : ReplicaLocation) (res : Located) → located p (set_located p v res) ≡ some v
unfolding located set_located
located_same p v [] = ground arith
located_same p v ((q, w) ∷ res) = ground (arith, located_same p v res)

located_other :
    (p q : ℕ) (v : ReplicaLocation) (res : Located)
    → (p == q) ≡ false
    → located q (set_located p v res) ≡ located q res
unfolding located set_located
located_other p q v [] h = ground (arith, h)
located_other p q v ((j, w) ∷ res) h = ground (arith, h, located_other p q v res h)

string_le_trans :
    (x y z : List ℕ) → string_le x y ≡ true → string_le y z ≡ true → string_le x z ≡ true
unfolding bytes_lt
string_le_trans [] y [] a b = refl
string_le_trans [] y (z ∷ zs) a b = refl
string_le_trans (x ∷ xs) [] z a b = ground (arith, a)
string_le_trans (x ∷ xs) (y ∷ ys) [] a b = ground (arith, b)
string_le_trans (x ∷ xs) (y ∷ ys) (z ∷ zs) a b = ground (arith, a, b, string_le_trans xs ys zs)

module _ (test : ParMeta → Bool) (tms : TabMetaServer) where
  abbrev loop : List ParMeta → Located → Result Located
  unfolding locate_if
  loop pars res = locate_if (λ par. ok (test par)) tms pars res

  abbrev leader_at : ℕ → Option ReplicaLocation
  leader_at p = leader_of p tms.table_location.partition_list

  err_absurd : {A : Type 0} {f : Failure} {x : A} → ok x ≡ err f → ⊥
  err_absurd e = cc

  true-not_false : true ≡ false → ⊥
  true-not_false e = cc

  ok_inj : (x y : Located) → ok x ≡ ok y → x ≡ y
  ok_inj x y e = cc

  Stepped : ParMeta → List ParMeta → Located → Located → Type 0
  Stepped par pars res out =
      ((test par ≡ false) × (loop pars res ≡ ok out))
      ⊎ ((v : ReplicaLocation) × (test par ≡ true)
          × (leader_at par.p_id ≡ some v)
          × (loop pars (set_located par.p_id v res) ≡ ok out))

  locate_missing :
      (p : ℕ) (res : Located)
      → leader_at p ≡ none
      → locate tms p res ≡ err (meta_error no_partition_or_replica)
  unfolding locate
  locate_missing p res n = rw (n, locate) refl

  locate_found :
      (p : ℕ) (res : Located) (v : ReplicaLocation)
      → leader_at p ≡ some v
      → locate tms p res ≡ ok (set_located p v res)
  unfolding locate
  locate_found p res v l = rw (l, locate) refl

  loop_step :
      (par : ParMeta) (pars : List ParMeta) (res out : Located)
      → loop (par ∷ pars) res ≡ ok out
      → Stepped par pars res out
  unfolding Stepped locate_if
  loop_step par pars res out e = elim (Bool-cases (test par)) [
    | inl t ↦ elim (Option-cases (leader_at par.p_id)) [
      | inl n ↦ absurd (err_absurd (sym (rw (t, locate_missing par.p_id res n) at e)))
      | inr (v, l) ↦ inr (v, t, l, rw (t, locate_found par.p_id res v l) at e)
    ]
    | inr t ↦ inl (t, rw t at e)
  ]

  -- A location that is there stays the leader's.
  loop_keeps :
      (pars : List ParMeta) (res out : Located) (p : ℕ) (v : ReplicaLocation)
      → leader_at p ≡ some v
      → located p res ≡ some v
      → loop pars res ≡ ok out
      → located p out ≡ some v
  unfolding locate_if Stepped
  loop_keeps [] res out p v l h e = subst (λ o. located p o ≡ some v) (ok_inj res out e) h
  loop_keeps (par ∷ pars) res out p v l h e = elim (loop_step par pars res out e) [
    | inl (t, r) ↦ loop_keeps pars res out p v l h r
    | inr (w, t, m, r) ↦
        loop_keeps pars (set_located par.p_id w res) out p v l
          (kept w m (Bool-cases (par.p_id == p))) r
  ]
    where
      kept :
          (w : ReplicaLocation)
          → leader_at par.p_id ≡ some w
          → ((par.p_id == p) ≡ true) ⊎ ((par.p_id == p) ≡ false)
          → located p (set_located par.p_id w res) ≡ some v
      kept w m (inl s) =
          subst (λ j. located p (set_located j w res) ≡ some v) (sym ((==_iff par.p_id p).0 s))
            (located_same p w res
              ∙ (sym (subst (λ j. leader_at j ≡ some w) ((==_iff par.p_id p).0 s) m) ∙ l))
      kept w m (inr s) = located_other par.p_id p w res s ∙ h

  -- Every partition that passes the test is found.
  Finds : ParMeta → Located → Type 0
  Finds par out =
      (v : ReplicaLocation) × (leader_at par.p_id ≡ some v) × (located par.p_id out ≡ some v)

  Finds-first :
      (par : ParMeta) (pars : List ParMeta) (res out : Located)
      → test par ≡ true
      → loop (par ∷ pars) res ≡ ok out
      → Finds par out
  unfolding locate_if Stepped Finds
  Finds-first par pars res out t e = elim (loop_step par pars res out e) [
    | inl (f, r) ↦ absurd (true-not_false (sym t ∙ f))
    | inr (w, g, m, r) ↦ (
      w,
      m,
      loop_keeps pars (set_located par.p_id w res) out par.p_id w m (located_same par.p_id w res) r,
    )
  ]

  loop-Finds :
      (pars : List ParMeta) (res out : Located) (par : ParMeta)
      → In par pars
      → test par ≡ true
      → loop pars res ≡ ok out
      → Finds par out
  unfolding locate_if Stepped
  loop-Finds [] res out par i t e = absurd i
  loop-Finds (q ∷ pars) res out par (inl s) t e =
      subst (λ x. Finds x out) (sym s)
        (Finds-first q pars res out (subst (λ x. test x ≡ true) s t) e)
  loop-Finds (q ∷ pars) res out par (inr i) t e = elim (loop_step q pars res out e) [
    | inl (f, r) ↦ loop-Finds pars res out par i t r
    | inr (w, g, m, r) ↦ loop-Finds pars (set_located q.p_id w res) out par i t r
  ]

  -- Nothing else is.
  From : List ParMeta → ℕ → ReplicaLocation → Type 0
  From pars p v =
      (par : ParMeta) × In par pars × (test par ≡ true) × (par.p_id ≡ p) × (leader_at p ≡ some v)

  From-later :
      (q : ParMeta) (pars : List ParMeta) (p : ℕ) (v : ReplicaLocation)
      → From pars p v
      → From (q ∷ pars) p v
  unfolding From
  From-later q pars p v (par, i, t, s, l) = (par, inr i, t, s, l)

  set_only :
      (q : ParMeta) (pars : List ParMeta) (res : Located) (p : ℕ) (w v : ReplicaLocation)
      → test q ≡ true
      → leader_at q.p_id ≡ some w
      → located p (set_located q.p_id w res) ≡ some v
      → (located p res ≡ some v) ⊎ From (q ∷ pars) p v
  unfolding From
  set_only q pars res p w v t m h = elim (Bool-cases (q.p_id == p)) [
    | inl s ↦
        let same = (==_iff q.p_id p).0 s in
        inr (
          q,
          inl refl,
          t,
          same,
          subst (λ j. leader_at j ≡ some w) same m
              ∙ (sym (located_same p w res)
                  ∙ subst (λ j. located p (set_located j w res) ≡ some v) same h),
        )
    | inr s ↦ inl (sym (located_other q.p_id p w res s) ∙ h)
  ]

  loop_only :
      (pars : List ParMeta) (res out : Located) (p : ℕ) (v : ReplicaLocation)
      → loop pars res ≡ ok out
      → located p out ≡ some v
      → (located p res ≡ some v) ⊎ From pars p v
  unfolding locate_if Stepped
  loop_only [] res out p v e h = inl (subst (λ o. located p o ≡ some v) (sym (ok_inj res out e)) h)
  loop_only (q ∷ pars) res out p v e h = elim (loop_step q pars res out e) [
    | inl (f, r) ↦ elim (loop_only pars res out p v r h) [
      | inl a ↦ inl a
      | inr b ↦ inr (From-later q pars p v b)
    ]
    | inr (w, t, m, r) ↦ elim (loop_only pars (set_located q.p_id w res) out p v r h) [
      | inl a ↦ set_only q pars res p w v t m a
      | inr b ↦ inr (From-later q pars p v b)
    ]
  ]

-- Partition pruning for a string key loses no row: when the lookup by a range in a table with a
-- string key returns, each partition of the table whose bounds contain a key of the queried
-- range is in the answer, with its leader's location.
pub by_range_complete :
    (stoi : List ℕ → Option ℕ) (tms : TabMetaServer) (min_range max_range key : List ℕ)
    (res : Located) (par : ParMeta)
    → tms.partition_key_type ≡ type_string
    → by_range stoi tms min_range max_range ≡ ok res
    → In par tms.partitions
    → string_le par.min_range key ≡ true
    → string_le key par.max_range ≡ true
    → string_le min_range key ≡ true
    → string_le key max_range ≡ true
    → (v : ReplicaLocation) × (leader_of par.p_id tms.table_location.partition_list ≡ some v)
      × (located par.p_id res ≡ some v)
unfolding by_range Finds
by_range_complete stoi tms min_range max_range key res par ty e i a b c d =
    loop-Finds (string_overlaps min_range max_range) tms tms.partitions [] res par i
      (overlap (string_le par.min_range max_range) (string_le min_range par.max_range)
        (string_le_trans par.min_range key max_range a d)
        (string_le_trans min_range key par.max_range c b))
      (rw ty at e)
  where
    overlap : (x y : Bool) → x ≡ true → y ≡ true → (x && y) ≡ true
    overlap x y p q = ground (arith, p, q)

-- The lookup by a range of a table with a string key returns nothing but leaders' locations of
-- partitions of the table whose bounds overlap the queried range.
pub by_range_sound :
    (stoi : List ℕ → Option ℕ) (tms : TabMetaServer) (min_range max_range : List ℕ) (res : Located)
    (p : ℕ) (v : ReplicaLocation)
    → tms.partition_key_type ≡ type_string
    → by_range stoi tms min_range max_range ≡ ok res
    → located p res ≡ some v
    → (par : ParMeta) × In par tms.partitions
      × (string_overlaps min_range max_range par ≡ true)
      × (par.p_id ≡ p)
      × (leader_of p tms.table_location.partition_list ≡ some v)
unfolding by_range From located
by_range_sound stoi tms min_range max_range res p v ty e h =
    elim (loop_only (string_overlaps min_range max_range) tms tms.partitions [] res p v (rw ty at e)
      h) [ inl n ↦ absurd (none_absurd v n) | inr f ↦ f ]
