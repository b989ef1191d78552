-- ===== src/Storage/Levels/Oldest.antt =====
-- The search of a level asks the oldest table first.
use ddbms.Base.{
  ℕ, ◌+◌, ◌^◌, ◌<◌, ◌≡◌, refl, ap, sym, ◌∙◌, true, false, some, List, [], ◌∷◌, ◌++◌, ◌==◌, All,
  arith, Option-cases, some_value, none_absurd, inl, inr, if◌then◌else◌,
}
use ddbms.Base.Words.{u64}
use ddbms.Storage.Block.{◌>>=◌}
use ddbms.Storage.SkipList.{SkipList}
use ddbms.Storage.SkipList.Chain
use ddbms.Storage.SkipList.Chain.{IsSkipList}
use ddbms.Storage.SkipList.Key
use ddbms.Storage.SkipList.Lookup.{found}
use ddbms.Storage.Table.{create_sstable}
use ddbms.Storage.Table.Created.{pairs}
use ddbms.Storage.SsTable.Search.{IsCodec}
use ddbms.Storage.SsTable.Small.{weight}
use ddbms.Storage.SsTable.Whole.{search-create_sstable}
use ddbms.Storage.Levels.{
  Files, DiskStorage, table_file, table_answer, search_level, add_level, add_storage,
  search_storage,
}

module _ (compress uncompress : List ℕ → List ℕ) where
  -- The first table that has the key answers the search, whatever the later ones hold.
  pub search_level-first :
      (f : Files) (key value : List ℕ) (older : List ℕ) (number : ℕ) (newer : List ℕ)
      → All (λ n. table_answer compress uncompress f key n ≡ some (false, [])) older
      → table_answer compress uncompress f key number ≡ some (true, value)
      → search_level compress uncompress (older ++ number ∷ newer) f key ≡ some (true, value)
  unfolding search_level
  search_level-first f key value [] number newer a e = rw (e, ◌>>=◌, if◌then◌else◌) refl
  search_level-first f key value (n ∷ older) number newer a e =
      rw (a.0, ◌>>=◌, if◌then◌else◌) (search_level-first f key value older number newer (a.1) e)

  -- What a table answers is what the list answers that it was made of.
  pub table_answer-created :
      (codec : IsCodec compress uncompress) (s : SkipList) (height : ℕ) (cs : List Chain.Entry)
      (f : Files) (bytes key : List ℕ) (number : ℕ)
      → IsSkipList s height cs
      → weight (pairs cs) < 2 ^ 31
      → create_sstable compress s ≡ some bytes
      → table_file f.tables number ≡ some bytes
      → table_answer compress uncompress f key number ≡ some (found (Key.lookup key cs))
  unfolding table_answer
  table_answer-created codec s height cs f bytes key number w l c t =
      rw (t, ◌>>=◌)
        (rw (c, ◌>>=◌) at (search-create_sstable compress uncompress codec s height cs key w l))

  -- What a new table changes.
  added :
      (s : SkipList) (d d' : DiskStorage)
      → add_storage compress uncompress s d ≡ some d'
      → (bytes : List ℕ) × (create_sstable compress s ≡ some bytes)
        × (d'.level0.ssts ≡ d.level0.ssts ++ d.no ∷ [])
        × (d'.files.tables ≡ (d.no, bytes) ∷ d.files.tables)
        × (d'.no ≡ u64 (d.no + 1))
  unfolding add_storage add_level
  added s d d' e = elim (Option-cases (create_sstable compress s)) [
    | inl p ↦ absurd (none_absurd d' (rw (p, ◌>>=◌) at e))
    | inr (bytes, p) ↦
        let q = some_value _ d' (rw (p, ◌>>=◌) at e) in
        (
          bytes,
          p,
          sym (ap (λ x. x.level0.ssts) q),
          sym (ap (λ x. x.files.tables) q),
          sym (ap (λ x. x.no) q),
        )
  ]

  -- Two memory tables are written to a storage without tables, and both hold a key: the search
  -- answers the value of the first one, which is the older value. The compression is assumed to
  -- keep its promises, and the first list to be below 2 ^ 31 bytes.
  pub search_storage-stale :
      (codec : IsCodec compress uncompress) (s₁ s₂ : SkipList) (height : ℕ) (cs : List Chain.Entry)
      (d d₁ d₂ : DiskStorage) (key value : List ℕ)
      → IsSkipList s₁ height cs
      → weight (pairs cs) < 2 ^ 31
      → Key.lookup key cs ≡ some value
      → d.level0.ssts ≡ []
      → d.no + 1 < 2 ^ 64
      → add_storage compress uncompress s₁ d ≡ some d₁
      → add_storage compress uncompress s₂ d₁ ≡ some d₂
      → search_storage compress uncompress d₂ key ≡ some (true, value)
  unfolding search_storage table_file
  search_storage-stale codec s₁ s₂ height cs d d₁ d₂ key value w l k e n a₁ a₂ =
      let first = added s₁ d d₁ a₁ in
      let second = added s₂ d₁ d₂ a₂ in
      rw (second.2, first.2, e)
        (search_level-first d₂.files key value [] d.no (d₁.no ∷ []) tt (
          table_answer-created codec s₁ height cs d₂.files (first.0) key d.no w l (first.1) (
            rw (second.3, first.3, other d₁.no (first.4), if◌then◌else◌, same d.no, if◌then◌else◌)
              refl)
          ∙ rw k refl))
    where
      other : (m : ℕ) → m ≡ u64 (d.no + 1) → (d.no == m) ≡ false
      other m q = ground (arith, q, n)

      same : (m : ℕ) → (m == m) ≡ true
      same m = ground arith
