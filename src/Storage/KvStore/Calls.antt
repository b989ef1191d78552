-- ===== src/Storage/KvStore/Calls.antt =====
-- src/storage/KVStore_beta.cpp: what get answers behind put and del.
use ddbms.Base.{
  ℕ, ◌≡◌, refl, ap, ◌∙◌, Bool, true, false, none, some, List, [], ltb, if◌then◌else◌, Option-cases,
  inl, inr,
}
use ddbms.Base.Bytes.{bytes_eq, bytes_eq_refl}
use ddbms.Storage.Block.{◌>>=◌}
use ddbms.Storage.SkipList.{Ptr, Heap, SkipList}
use ddbms.Storage.SkipList.Update
use ddbms.Storage.SkipList.Lookup.{found, is_some, get_lem, contains_lem}
use ddbms.Storage.SkipList.Insert.{IsAllocator}
use ddbms.Storage.SkipList.Refine.{Map, Refines}
use ddbms.Storage.SkipList.Put.{updated, put_lem}
use ddbms.Storage.SkipList.Delete.{removed_key, del_lem}
use ddbms.Storage.Levels.{search_storage}
use ddbms.Storage.KvStore.{KvStore, sstable_space, is_live, put, get, del}

-- What a store answers when the memory table holds the map, and the disk answers `d`.
abbrev pub answer : Map → (Bool × List ℕ) → List ℕ → Bool × List ℕ
answer m d key =
    let r = if is_some (m key) then found (m key) else d in if is_live r then r else (false, [])

module _ (alloc : Heap → Ptr) (compress uncompress : List ℕ → List ℕ) where
  -- get on a memory table that refines a map: the map answers, and the disk only for a key that the
  -- map lacks; the empty string counts as no value. For a key that the map lacks, the search on disk
  -- is assumed to return.
  pub get_lem_map :
      (s : KvStore) (m : Map) (key : List ℕ) (d : Bool × List ℕ)
      → Refines s.memtable m
      → (m key ≡ none → search_storage compress uncompress s.disk key ≡ some d)
      → get alloc compress uncompress s key ≡ some (answer m d key)
  unfolding get
  get_lem_map s m key d w e = elim (Option-cases (m key)) [
    | inl n ↦
        rw
          (
            contains_lem s.memtable w.height w.entries w.is_list key,
            ◌>>=◌,
            w.maps key,
            n,
            if◌then◌else◌,
            e n,
            ◌>>=◌,
          )
          refl
    | inr (v, h) ↦
        rw
          (
            contains_lem s.memtable w.height w.entries w.is_list key,
            ◌>>=◌,
            w.maps key,
            h,
            if◌then◌else◌,
            get_lem s.memtable w.height w.entries w.is_list key,
            ◌>>=◌,
            w.maps key,
            h,
          )
          refl
  ]

  -- On a memory table that refines a map, put returns when the table behind it is within its space,
  -- and get behind it answers from the map with the key set to the value, the empty string counting
  -- as no value; for a key that this map lacks, it answers what the search on disk answers, which is
  -- assumed to return for such a key alone. The allocator is assumed to return free addresses.
  pub get-put :
      (ones : ℕ) (s : KvStore) (m : Map) (key value k : List ℕ) (d : Bool × List ℕ)
      → IsAllocator alloc
      → Refines s.memtable m
      → ((t : SkipList)
          → Update.put alloc ones key value s.memtable ≡ some t
          → ltb sstable_space t.num_bytes ≡ false)
      → (updated key value m k ≡ none → search_storage compress uncompress s.disk k ≡ some d)
      → (put alloc compress uncompress ones key value s >>= λ s'.
          get alloc compress uncompress s' k)
        ≡ some (answer (updated key value m) d k)
  unfolding put
  get-put ones s m key value k d a w l e =
      let r = put_lem alloc ones key value s.memtable w.height w.entries a w.is_list in
      rw (r.1, ◌>>=◌, l (r.0) (r.1), if◌then◌else◌, ◌>>=◌)
        (get_lem_map (record s { memtable = r.0 }) (updated key value m) k d
          (record {
            height = r.2.height;
            entries = r.2.entries;
            is_list = r.2.is_list;
            maps = λ z. r.2.maps z ∙ ap (λ t. if bytes_eq key z then some value else t) (w.maps z);
          })
          e)

  -- del of a key that the memory table holds, when the disk has an older value of the key that is not
  -- empty: both calls return, and get answers the older value behind the del.
  pub del-reveals :
      (ones : ℕ) (s : KvStore) (m : Map) (key value older : List ℕ)
      → Refines s.memtable m
      → m key ≡ some value
      → search_storage compress uncompress s.disk key ≡ some (true, older)
      → is_live (true, older) ≡ true
      → (del alloc compress uncompress ones key s >>= λ r. get alloc compress uncompress (r.1) key)
        ≡ some (true, older)
  unfolding del
  del-reveals ones s m key value older w h e live =
      let r = del_lem key s.memtable w.height w.entries w.is_list in
      rw
        (
          contains_lem s.memtable w.height w.entries w.is_list key,
          ◌>>=◌,
          w.maps key,
          h,
          if◌then◌else◌,
          r.1,
          ◌>>=◌,
          get_lem_map (record s { memtable = r.0 }) (removed_key key m) key (true, older)
              (record {
                height = r.2.height;
                entries = r.2.entries;
                is_list = r.2.is_list;
                maps = λ z. r.2.maps z ∙ ap (λ t. if bytes_eq key z then none else t) (w.maps z);
              })
              (λ n. e),
          bytes_eq_refl key,
          if◌then◌else◌,
          live,
          if◌then◌else◌,
        )
        refl
