-- ===== src/Storage/Table/Layout.antt =====
-- What the file of a table holds: its blocks, the entries of its index, and the order of its keys.
use ddbms.Base.{
  ℕ, ◌+◌, ◌≡◌, refl, ap, ◌∙◌, true, Option, none, some, List, [], ◌∷◌, ◌++◌, length, append_assoc,
  arith, inl, inr, Bool-cases, if◌then◌else◌, subst, sym, some_value, none_absurd, Option-cases,
  length-append, ◌==◌,
}
use ddbms.Base.Words.{u64}
use ddbms.Base.Bytes.{bytes_lt}
use ddbms.Base.Order.{bytes_lt_trans}
use ddbms.Storage.Builder.{
  BlockBuilder, new_builder, add, add_allowed, append_entry, write_restart, finish,
  restart_interval,
}
use ddbms.Storage.Block.{◌>>=◌}
use ddbms.Storage.Block.RoundTrip.{Entry}
use ddbms.Storage.Block.Built.{add_all}
use ddbms.Storage.Table.{handle}

-- The key of the last entry.
unfoldable pub last_of : List Entry → Option (List ℕ)
last_of [] = none
last_of ((k, v) ∷ []) = some k
last_of (e ∷ f ∷ es) = last_of (f ∷ es)

pub last_of-append : (es : List Entry) (k v : List ℕ) → last_of (es ++ (k, v) ∷ []) ≡ some k
unfolding last_of
last_of-append [] k v = refl
last_of-append (e ∷ []) k v = refl
last_of-append (e ∷ f ∷ es) k v = last_of-append (f ∷ es) k v

-- A data block: its builder, the entries that were added to it, and the last key.
pub record Group : Type 0 where
  pub entries : List Entry
  pub last : List ℕ
  pub builder : BlockBuilder
  pub built : add_all entries new_builder ≡ some builder
  pub ends : last_of entries ≡ some last

unfoldable pub entries_of : List Group → List Entry
entries_of [] = []
entries_of (g ∷ gs) = g.entries ++ entries_of gs

module _ (compress : List ℕ → List ℕ) where
  abbrev pub block_bytes : Group → List ℕ
  block_bytes g = compress (finish g.builder).0

  unfoldable pub blocks_bytes : List Group → List ℕ
  blocks_bytes [] = []
  blocks_bytes (g ∷ gs) = block_bytes g ++ blocks_bytes gs

  -- The index: the last key and the place of each block, from an offset on.
  unfoldable pub index_of : ℕ → List Group → List Entry
  index_of offset [] = []
  index_of offset (g ∷ gs) =
      (g.last, handle (u64 offset) (length (block_bytes g)))
      ∷ index_of (offset + length (block_bytes g)) gs

  pub blocks_bytes-append :
      (xs ys : List Group) → blocks_bytes (xs ++ ys) ≡ blocks_bytes xs ++ blocks_bytes ys
  unfolding blocks_bytes
  blocks_bytes-append [] ys = refl
  blocks_bytes-append (g ∷ xs) ys =
      rw
        (
          append_assoc (block_bytes g) (blocks_bytes xs) (blocks_bytes ys),
          blocks_bytes-append xs ys,
        )
        refl

pub entries_of-append :
    (xs ys : List Group) → entries_of (xs ++ ys) ≡ entries_of xs ++ entries_of ys
unfolding entries_of
entries_of-append [] ys = refl
entries_of-append (g ∷ xs) ys =
    rw (append_assoc g.entries (entries_of xs) (entries_of ys), entries_of-append xs ys) refl

-- The index with one block more.
pub index_of-append :
    (compress : List ℕ → List ℕ) (offset : ℕ) (xs : List Group) (g : Group)
    → index_of compress offset (xs ++ g ∷ [])
      ≡ index_of compress offset xs
        ++ (
          g.last,
          handle
              (u64 (offset + length (blocks_bytes compress xs)))
              (length (block_bytes compress g)),
        )
          ∷ []
unfolding index_of blocks_bytes
index_of-append compress offset [] g =
    ap (λ n. (g.last, handle (u64 n) (length (block_bytes compress g))) ∷ []) (add_zero offset)
  where
    add_zero : (n : ℕ) → n ≡ n + 0
    add_zero n = omega arith
index_of-append compress offset (x ∷ xs) g =
    ap (λ t. (x.last, handle (u64 offset) (length (block_bytes compress x))) ∷ t)
      (index_of-append compress (offset + length (block_bytes compress x)) xs g
        ∙ ap
            (λ n.
              index_of compress (offset + length (block_bytes compress x)) xs
              ++ (g.last, handle (u64 n) (length (block_bytes compress g))) ∷ [])
            (omega (arith, length-append (block_bytes compress x) (blocks_bytes compress xs))))

-- Adding more entries to a block.
pub add_all-more :
    (es : List Entry) (k v : List ℕ) (b c d : BlockBuilder)
    → add_all es b ≡ some c
    → add k v c ≡ some d
    → add_all (es ++ (k, v) ∷ []) b ≡ some d
unfolding add_all
add_all-more [] k v b c d e f =
    subst (λ x. (add k v x >>= (λ y. some y)) ≡ some d) (sym (some_value b c e))
      (rw (f, ◌>>=◌) refl)
add_all-more ((k', v') ∷ es) k v b c d e f = elim (Option-cases (add k' v' b)) [
  | inl p ↦ absurd (none_absurd c (rw p at e))
  | inr (b', p) ↦ rw (p, ◌>>=◌) (add_all-more es k v b' c d (rw p at e) f)
]

module _ (k : List ℕ) (b : BlockBuilder) where
  pub add_total :
      (v : List ℕ) → add_allowed k b ≡ true → add k v b ≡ some (append_entry k v (write_restart b))
  unfolding add
  add_total v a = rw (a, if◌then◌else◌) refl

  -- A greater key may be added where a key may be, and behind it.
  pub allowed_more :
      (k₂ : List ℕ) → add_allowed k b ≡ true → bytes_lt k k₂ ≡ true → add_allowed k₂ b ≡ true
  allowed_more k₂ a l = ground (arith, a, l, bytes_lt_trans b.last_key k k₂)

  pub allowed_behind :
      (v k₂ : List ℕ)
      → add_allowed k b ≡ true
      → bytes_lt k k₂ ≡ true
      → add_allowed k₂ (append_entry k v (write_restart b)) ≡ true
  allowed_behind v k₂ a l = elim (Bool-cases (b.counter == restart_interval)) [
    | inl t ↦ rw (t, if◌then◌else◌, l) (ground (arith, a, t))
    | inr f ↦ rw (f, if◌then◌else◌, l) (ground (arith, a, f))
  ]
