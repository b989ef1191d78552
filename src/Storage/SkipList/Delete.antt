-- ===== src/Storage/SkipList/Delete.antt =====
-- src/storage/SkipList.cpp: del refines the removal from a map.
use ddbms.Base.{
  ℕ, ◌≡◌, refl, ap, sym, ◌∙◌, subst, inl, inr, true, false, Option, none, some, List, [], ◌∷◌, ◌++◌,
  if◌then◌else◌, append-All, Bool-cases,
}
use ddbms.Base.Bytes.{bytes_eq, bytes_eq_sound}
use ddbms.Storage.Block.{◌>>=◌}
use ddbms.Storage.SkipList.{SkipList}
use ddbms.Storage.SkipList.Update.{del}
use ddbms.Storage.SkipList.Chain.{Entry, IsSkipList}
use ddbms.Storage.SkipList.Lookup.{is_some, hits, misses, outcome}
use ddbms.Storage.SkipList.Key.{lookup, NoneEqual, split_key, lookup-none, AllLess-NoneEqual}
use ddbms.Storage.SkipList.Remove.{removed, delete_node_lem, removed-IsSkipList}

-- A map without a key.
abbrev pub removed_key : List ℕ → (List ℕ → Option (List ℕ)) → List ℕ → Option (List ℕ)
removed_key key m k = if bytes_eq key k then none else m k

-- The list behind del, and what del answers.
pub record Deleted (s' : SkipList) (key : List ℕ) (cs : List Entry) : Type 0 where
  pub height : ℕ
  pub entries : List Entry
  pub is_list : IsSkipList s' height entries
  pub maps : (k : List ℕ) → lookup k entries ≡ removed_key key (λ z. lookup z cs) k

lookup-remove :
    (k key : List ℕ) (xs : List Entry) (b : Entry) (rest : List Entry)
    → bytes_eq b.key key ≡ true
    → NoneEqual key (xs ++ rest)
    → lookup k (xs ++ rest) ≡ removed_key key (λ z. lookup z (xs ++ b ∷ rest)) k
unfolding lookup
lookup-remove k key xs b rest e n = elim (Bool-cases (bytes_eq key k)) [
  | inl t ↦
      rw (t, if◌then◌else◌)
        (subst (λ z. lookup z (xs ++ rest) ≡ none) (bytes_eq_sound key k t)
          (lookup-none key (xs ++ rest) n))
  | inr f ↦ rw (f, if◌then◌else◌) (skip xs f)
]
  where
    skip :
        (ys : List Entry)
        → bytes_eq key k ≡ false
        → lookup k (ys ++ rest) ≡ lookup k (ys ++ b ∷ rest)
    skip [] f =
        rw (subst (λ z. bytes_eq z k ≡ false) (sym (bytes_eq_sound b.key key e)) f, if◌then◌else◌)
          refl
    skip (y ∷ ys) f = ap (λ t. if bytes_eq y.key k then some y.value else t) (skip ys f)

pub del_lem :
    (key : List ℕ) (s : SkipList) (height : ℕ) (cs : List Entry)
    → IsSkipList s height cs
    → (s' : SkipList) × (del key s ≡ some (is_some (lookup key cs), s')) × Deleted s' key cs
unfolding del
del_lem key s height cs w =
    let sp = split_key key cs w.sorted in
    let before = sp.before in
    elim (outcome s height cs w key before sp.behind sp.is_split) [
      | hits b rest e q n f h l ↦
          let parts = sp.is_split.parts ∙ ap (λ t. before ++ t) e in
          let w' = subst (IsSkipList s height) parts w in
          (
            removed s height before b rest w',
            rw (f, ◌>>=◌, h, ◌>>=◌, if◌then◌else◌, delete_node_lem s height before b rest w', l)
                refl,
            record {
              height = height;
              entries = before ++ rest;
              is_list = removed-IsSkipList s height before b rest w';
              maps = λ k.
                  lookup-remove k key before b rest q (
                    append-All (λ c. bytes_eq c.key key ≡ false) before rest
                      (AllLess-NoneEqual key before sp.is_split.less) n)
                  ∙ ap (λ t. removed_key key (λ z. lookup z t) k) (sym parts);
            },
          )
      | misses p g f h l ↦ (
        s,
        rw (f, ◌>>=◌, h, ◌>>=◌, if◌then◌else◌, l) refl,
        record { height = height; entries = cs; is_list = w; maps = λ k. absent k l },
      )
    ]
  where
    absent :
        (k : List ℕ) → lookup key cs ≡ none → lookup k cs ≡ removed_key key (λ z. lookup z cs) k
    absent k l = elim (Bool-cases (bytes_eq key k)) [
      | inl t ↦ rw (t, if◌then◌else◌) (subst (λ z. lookup z cs ≡ none) (bytes_eq_sound key k t) l)
      | inr f ↦ rw (f, if◌then◌else◌) refl
    ]
