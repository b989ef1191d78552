-- ===== src/Storage/SkipList/Put.antt =====
-- src/storage/SkipList.cpp: put refines the update of a map.
use ddbms.Base.{
  ℕ, ◌≡◌, refl, ap, sym, ◌∙◌, subst, inl, inr, Bool, true, false, Option, some, List, [], ◌∷◌, ◌++◌,
  if◌then◌else◌, Bool-cases,
}
use ddbms.Base.Bytes.{bytes_lt, bytes_eq, bytes_eq_sound}
use ddbms.Storage.Block.{◌>>=◌}
use ddbms.Storage.SkipList.{Ptr, Heap, SkipList, random_height}
use ddbms.Storage.SkipList.Update.{put}
use ddbms.Storage.SkipList.Chain.{Entry, IsSkipList}
use ddbms.Storage.SkipList.Lookup.{hits, misses, outcome}
use ddbms.Storage.SkipList.Key.{lookup, AllLess, split_key, greater_not_equal}
use ddbms.Storage.SkipList.Raise.{levels}
use ddbms.Storage.SkipList.Insert.{IsAllocator, random_height_bounds, insert_node_lem}
use ddbms.Storage.SkipList.Replace.{with_value, replaced, update_value_lem, replaced-IsSkipList}

clash : {b : Bool} → b ≡ true → b ≡ false → ⊥
clash p q = cc

-- A map with one key set.
abbrev pub updated : List ℕ → List ℕ → (List ℕ → Option (List ℕ)) → List ℕ → Option (List ℕ)
updated key value m k = if bytes_eq key k then some value else m k

-- What lies in front of the key does not answer for it.
passes : (x key k : List ℕ) → bytes_lt x key ≡ true → bytes_eq x k ≡ true → bytes_eq key k ≡ false
passes x key k l e =
    subst (λ z. bytes_eq key z ≡ false) (bytes_eq_sound x k e) (greater_not_equal key x l)

lookup-insert :
    (k : List ℕ) (xs : List Entry) (new : Entry) (bs : List Entry)
    → AllLess new.key xs
    → lookup k (xs ++ new ∷ bs) ≡ updated new.key new.value (λ z. lookup z (xs ++ bs)) k
unfolding lookup
lookup-insert k [] new bs l = refl
lookup-insert k (x ∷ xs) new bs l = elim (Bool-cases (bytes_eq x.key k)) [
  | inl t ↦ rw (t, if◌then◌else◌, passes x.key new.key k (l.0) t) refl
  | inr f ↦ rw (f, if◌then◌else◌) (lookup-insert k xs new bs (l.1))
]

lookup-replace :
    (k : List ℕ) (xs : List Entry) (b : Entry) (value : List ℕ) (rest : List Entry)
    → AllLess b.key xs
    → lookup k (xs ++ with_value value b ∷ rest)
      ≡ updated b.key value (λ z. lookup z (xs ++ b ∷ rest)) k
unfolding lookup
lookup-replace k [] b value rest l = elim (Bool-cases (bytes_eq b.key k)) [
  | inl t ↦ rw (t, if◌then◌else◌) refl
  | inr f ↦ rw (f, if◌then◌else◌) refl
]
lookup-replace k (x ∷ xs) b value rest l = elim (Bool-cases (bytes_eq x.key k)) [
  | inl t ↦ rw (t, if◌then◌else◌, passes x.key b.key k (l.0) t) refl
  | inr f ↦ rw (f, if◌then◌else◌) (lookup-replace k xs b value rest (l.1))
]

pub record Updated (s' : SkipList) (key value : List ℕ) (cs : List Entry) : Type 0 where
  pub height : ℕ
  pub entries : List Entry
  pub is_list : IsSkipList s' height entries
  pub maps : (k : List ℕ) → lookup k entries ≡ updated key value (λ z. lookup z cs) k

pub put_lem :
    (alloc : Heap → Ptr) (ones : ℕ) (key value : List ℕ) (s : SkipList) (height : ℕ)
    (cs : List Entry)
    → IsAllocator alloc
    → IsSkipList s height cs
    → (s' : SkipList) × (put alloc ones key value s ≡ some s') × Updated s' key value cs
unfolding put
put_lem alloc ones key value s height cs a w =
    let sp = split_key key cs w.sorted in
    elim (outcome s height cs w key sp.before sp.behind sp.is_split) [
      | hits b rest e q n f h l ↦
          let parts = sp.is_split.parts ∙ ap (λ t. sp.before ++ t) e in
          let w' = subst (IsSkipList s height) parts w in
          let less =
            subst (λ k. AllLess k sp.before) (sym (bytes_eq_sound b.key key q)) sp.is_split.less in
          (
            replaced s height sp.before b rest value w' less,
            rw (f, ◌>>=◌, h, ◌>>=◌, if◌then◌else◌)
                (update_value_lem s height sp.before b rest value w' less),
            record {
              height = height;
              entries = sp.before ++ with_value value b ∷ rest;
              is_list = replaced-IsSkipList s height sp.before b rest value w' less;
              maps = λ k.
                  subst
                    (λ z.
                      lookup k (sp.before ++ with_value value b ∷ rest)
                      ≡ updated z value (λ y. lookup y cs) k)
                    (bytes_eq_sound b.key key q)
                    (lookup-replace k sp.before b value rest less
                      ∙ ap (λ t. updated b.key value (λ y. lookup y t) k) (sym parts));
            },
          )
      | misses p g f h l ↦
          let parts = sp.is_split.parts in
          let w' = subst (IsSkipList s height) parts w in
          let bounds = random_height_bounds ones in
          let r =
            insert_node_lem alloc s height (random_height ones) key value sp.before sp.behind a w'
              sp.is_split.less g (bounds.0) (bounds.1) in
          (
            r.list,
            rw (f, ◌>>=◌, h, ◌>>=◌, if◌then◌else◌) (r.inserted),
            record {
              height = levels height (random_height ones);
              entries = sp.before ++ r.new ∷ sp.behind;
              is_list = r.is_list;
              maps = λ k.
                  inserted_maps k r.new sp.before sp.behind sp.is_split.less parts r.new_key
                    r.new_value;
            },
          )
    ]
  where
    inserted_maps :
        (k : List ℕ) (new : Entry) (xs bs : List Entry)
        → AllLess key xs
        → cs ≡ xs ++ bs
        → new.key ≡ key
        → new.value ≡ value
        → lookup k (xs ++ new ∷ bs) ≡ updated key value (λ z. lookup z cs) k
    inserted_maps k new xs bs l e p q =
        lookup-insert k xs new bs (subst (λ z. AllLess z xs) (sym p) l)
        ∙ ap (λ z. updated z new.value (λ y. lookup y (xs ++ bs)) k) p
        ∙ ap (λ z. updated key z (λ y. lookup y (xs ++ bs)) k) q
        ∙ ap (λ t. updated key value (λ y. lookup y t) k) (sym e)
