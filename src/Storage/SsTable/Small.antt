-- ===== src/Storage/SsTable/Small.antt =====
-- The sizes of the blocks and of the file of a table, from the sizes of its entries.
use ddbms.Base.{
  ℕ, ◌+◌, ◌*◌, ◌^◌, ◌≤◌, ◌<◌, ◌≡◌, ap, subst, true, false, some, List, [], ◌∷◌, ◌++◌, length,
  length-append, All, ◌==◌, arith, Bool-cases, Option-cases, inl, inr, if◌then◌else◌, if_some,
  some_value, none_absurd, ◌⊎◌,
}
use ddbms.Base.Words.{u64}
use ddbms.Base.Bytes.{bytes_le, length-bytes_le}
use ddbms.Storage.Builder.{
  BlockBuilder, new_builder, add, add_allowed, append_entry, write_restart, finish, entry_bytes,
  estimated_size, restart_interval,
}
use ddbms.Storage.Block.RoundTrip.{Entry, encode, length-entry_bytes}
use ddbms.Storage.Block.Built.{add_all, add_all-IsBuilt}
use ddbms.Storage.Block.Finish.{new_builder-IsBuilt, length-finish}
use ddbms.Storage.Table.{handle}
use ddbms.Storage.Table.Layout.{Group, last_of, entries_of, block_bytes, blocks_bytes, index_of}
use ddbms.Storage.Table.Created.{IsTable}
use ddbms.Storage.SsTable.Search.{IsCodec, IsSmall}

-- The bytes of the entries, and 64 for each.
unfoldable pub weight : List Entry → ℕ
weight [] = 0
weight ((k, v) ∷ es) = length k + length v + 64 + weight es

pub weight-append : (xs ys : List Entry) → weight (xs ++ ys) ≡ weight xs + weight ys
unfolding weight
weight-append [] ys = omega arith
weight-append ((k, v) ∷ xs) ys = omega (arith, weight-append xs ys)

add_restarts :
    (k v : List ℕ) (b c : BlockBuilder)
    → add k v b ≡ some c
    → length c.restarts ≤ length b.restarts + 1
unfolding add
add_restarts k v b c e =
    subst (λ d. length d.restarts ≤ length b.restarts + 1) ((if_some (add_allowed k b) _ c e).1)
      (one (Bool-cases (b.counter == restart_interval)))
  where
    one :
        (((b.counter == restart_interval) ≡ true) ⊎ ((b.counter == restart_interval) ≡ false))
        → length (append_entry k v (write_restart b)).restarts ≤ length b.restarts + 1
    one (inl t) =
        rw (t, if◌then◌else◌) (omega (arith, length-append b.restarts (length b.buffer ∷ [])))
    one (inr f) = rw (f, if◌then◌else◌) (omega arith)

add_all_restarts :
    (es : List Entry) (b c : BlockBuilder)
    → add_all es b ≡ some c
    → length c.restarts ≤ length b.restarts + length es
unfolding add_all
add_all_restarts [] b c e =
    subst (λ d. length d.restarts ≤ length b.restarts + 0) (some_value b c e) (omega arith)
add_all_restarts ((k, v) ∷ es) b c e = elim (Option-cases (add k v b)) [
  | inl p ↦ absurd (none_absurd c (rw p at e))
  | inr (b', p) ↦ omega (arith, add_restarts k v b b' p, add_all_restarts es b' c (rw p at e))
]

encode-weight : (es : List Entry) → length (encode es) + 48 * length es ≤ weight es
unfolding weight
encode-weight [] = omega arith
encode-weight ((k, v) ∷ es) =
    omega
      (arith, encode-weight es, length-append (entry_bytes k v) (encode es), length-entry_bytes k v)

content_weight :
    (es : List Entry) (b : BlockBuilder)
    → add_all es new_builder ≡ some b
    → length (finish b).0 + 40 * length es ≤ weight es + 24
unfolding estimated_size
content_weight es b e = omega (
  arith,
  length-finish b,
  add_all_restarts es new_builder b e,
  ap length (add_all-IsBuilt es [] new_builder b e new_builder-IsBuilt).bytes,
  encode-weight es,
)

last_weight : (es : List Entry) (l : List ℕ) → last_of es ≡ some l → length l + 64 ≤ weight es
unfolding last_of weight
last_weight [] l h = absurd (none_absurd l h)
last_weight ((k, v) ∷ []) l h = omega (arith, ap length (some_value k l h))
last_weight ((k, v) ∷ f ∷ es) l h = omega (arith, last_weight (f ∷ es) l h)

some_entry : (es : List Entry) (l : List ℕ) → last_of es ≡ some l → 1 ≤ length es
unfolding last_of
some_entry [] l h = absurd (none_absurd l h)
some_entry (e ∷ es) l h = omega arith

group_weight : (g : Group) → length (finish g.builder).0 + 16 ≤ weight g.entries
group_weight g =
    omega (arith, content_weight g.entries g.builder g.built, some_entry g.entries g.last g.ends)

groups_small :
    (gs : List Group) (n : ℕ)
    → weight (entries_of gs) < n
    → All (λ g. length (finish g.builder).0 < n) gs
unfolding entries_of
groups_small [] n l = tt
groups_small (g ∷ gs) n l = (
  omega (arith, l, group_weight g, weight-append g.entries (entries_of gs)),
  groups_small gs n (omega (arith, l, weight-append g.entries (entries_of gs))),
)

index_weight :
    (compress : List ℕ → List ℕ) (offset : ℕ) (gs : List Group)
    → length (encode (index_of compress offset gs)) + 8 * length (index_of compress offset gs)
      ≤ weight (entries_of gs)
unfolding index_of entries_of
index_weight compress offset [] = omega arith
index_weight compress offset (g ∷ gs) =
    let h = handle (u64 offset) (length (block_bytes compress g)) in
    omega (
      arith,
      index_weight compress (offset + length (block_bytes compress g)) gs,
      length-append (entry_bytes g.last h)
          (encode (index_of compress (offset + length (block_bytes compress g)) gs)),
      length-entry_bytes g.last h,
      length-append (bytes_le 8 (u64 offset)) (bytes_le 8 (length (block_bytes compress g))),
      length-bytes_le 8 (u64 offset),
      length-bytes_le 8 (length (block_bytes compress g)),
      last_weight g.entries g.last g.ends,
      weight-append g.entries (entries_of gs),
    )

module _ (compress uncompress : List ℕ → List ℕ) (codec : IsCodec compress uncompress) where
  blocks_weight : (gs : List Group) → length (blocks_bytes compress gs) ≤ 3 * weight (entries_of gs)
  unfolding blocks_bytes entries_of
  blocks_weight [] = omega arith
  blocks_weight (g ∷ gs) = omega (
    arith,
    blocks_weight gs,
    length-append (block_bytes compress g) (blocks_bytes compress gs),
    codec.bounded ((finish g.builder).0),
    group_weight g,
    last_weight g.entries g.last g.ends,
    weight-append g.entries (entries_of gs),
  )

  pub IsTable-IsSmall :
      (file : List ℕ) (groups : List Group) (t : IsTable compress file groups)
      → weight (entries_of groups) < 2 ^ 31
      → IsSmall file groups t.index
  unfolding estimated_size
  IsTable-IsSmall file groups t l = record {
    file_small = omega (
      arith,
      l,
      index_size,
      blocks_weight groups,
      codec.bounded ((finish t.index).0),
      ap length t.bytes,
      length-append (blocks_bytes compress groups) (index ++ place),
      length-append index place,
      length-append (bytes_le 8 (u64 (length (blocks_bytes compress groups))))
          (bytes_le 8 (length index)),
      length-bytes_le 8 (u64 (length (blocks_bytes compress groups))),
      length-bytes_le 8 (length index),
    );
    blocks_small = groups_small groups (2 ^ 32) (omega (arith, l));
    index_small = omega (arith, l, index_size);
  }
    where
      index : List ℕ
      index = compress ((finish t.index).0)

      place : List ℕ
      place = handle (u64 (length (blocks_bytes compress groups))) (length index)

      index_size : length (finish t.index).0 ≤ weight (entries_of groups) + 24
      index_size = omega (
        arith,
        length-finish t.index,
        add_all_restarts (index_of compress 0 groups) new_builder t.index t.index_built,
        ap length
            (add_all-IsBuilt (index_of compress 0 groups) [] new_builder t.index t.index_built
              new_builder-IsBuilt).bytes,
        index_weight compress 0 groups,
      )
