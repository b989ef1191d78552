-- ===== src/Storage/SkipList/Splice.antt =====
-- A chain whose nodes got new arrays is the chain with the entry put in, or taken out.
use ddbms.Base.{
  ℕ, ◌≡◌, refl, ap, fun_ext, inl, inr, Bool, true, false, ◌&&◌, Option, none, some, List, [], ◌∷◌,
  ◌++◌, ltb, ◌==◌, if◌then◌else◌, Bool-cases,
}
use ddbms.Storage.SkipList.{Ptr}
use ddbms.Storage.SkipList.Chain.{Entry, first_ptr, last_ptr, links, Lacks, last_ptr-Lacks}
use ddbms.Storage.SkipList.Link.{link_nexts}
use ddbms.Storage.SkipList.Unlink.{unlink_nexts}
use ddbms.Storage.SkipList.Arrays.{lacks}

first_ptr-lacks :
    (tail : Ptr) (j : ℕ) (ys zs : List Entry)
    → first_ptr tail j (ys ++ zs)
      ≡ (if lacks j ys then first_ptr tail j zs else first_ptr tail j ys)
unfolding first_ptr lacks
first_ptr-lacks tail j [] zs = refl
first_ptr-lacks tail j (y ∷ ys) zs = elim (Bool-cases (ltb j y.height)) [
  | inl t ↦ rw (t, if◌then◌else◌) refl
  | inr f ↦ rw (f, if◌then◌else◌) (first_ptr-lacks tail j ys zs)
]

link_table :
    (a b l : Bool) (node f g : Ptr)
    → (if a
        then if b && l then some node else if b then some (if l then f else g) else none
        else if b
        then some (if l then f else g)
        else none)
      ≡ (if b then some (if l then if a then node else f else g) else none)
link_table true true true node f g = refl
link_table true true false node f g = refl
link_table true false l node f g = refl
link_table false b true node f g = refl
link_table false b false node f g = refl

unlink_table :
    (a b l : Bool) (node f g : Ptr)
    → (if a
        then if b && l
          then some f
          else if b
          then some (if l then if a then node else f else g)
          else none
        else if b
        then some (if l then if a then node else f else g)
        else none)
      ≡ (if b then some (if l then f else g) else none)
unlink_table true true true node f g = refl
unlink_table true true false node f g = refl
unlink_table true false l node f g = refl
unlink_table false b true node f g = refl
unlink_table false b false node f g = refl

-- What follows on each level.
abbrev pub targets : Ptr → List Entry → ℕ → Ptr
targets tail bs j = first_ptr tail j bs

module _ (tail : Ptr) (at_p : ℕ → Ptr) (new : Entry) (bs : List Entry) where
  pub link_nexts-links :
      (p : Ptr) (height : ℕ) (ys : List Entry)
      → (p == new.ptr) ≡ false
      → ((j : ℕ) → ltb j new.height ≡ true → (p == at_p j) ≡ (ltb j height && lacks j ys))
      → link_nexts new.height new.ptr at_p (targets tail bs) p (links tail height (ys ++ bs))
        ≡ links tail height (ys ++ new ∷ bs)
  unfolding first_ptr
  link_nexts-links p height ys o f = fun_ext λ j. elim (Bool-cases (ltb j new.height)) [
    | inl t ↦
        rw
          (
            o,
            t,
            if◌then◌else◌,
            f j t,
            first_ptr-lacks tail j ys bs,
            first_ptr-lacks tail j ys (new ∷ bs),
            t,
            if◌then◌else◌,
          )
          (link_table true (ltb j height) (lacks j ys) new.ptr (first_ptr tail j bs)
            (first_ptr tail j ys))
    | inr n ↦
        rw
          (
            n,
            if◌then◌else◌,
            first_ptr-lacks tail j ys bs,
            first_ptr-lacks tail j ys (new ∷ bs),
            n,
            if◌then◌else◌,
          )
          refl
  ]

  pub unlink_nexts-links :
      (p : Ptr) (height : ℕ) (ys : List Entry)
      → ((j : ℕ) → ltb j new.height ≡ true → (p == at_p j) ≡ (ltb j height && lacks j ys))
      → unlink_nexts new.height at_p (targets tail bs) p (links tail height (ys ++ new ∷ bs))
        ≡ links tail height (ys ++ bs)
  unfolding first_ptr
  unlink_nexts-links p height ys f = fun_ext λ j. elim (Bool-cases (ltb j new.height)) [
    | inl t ↦
        rw
          (
            t,
            if◌then◌else◌,
            f j t,
            first_ptr-lacks tail j ys bs,
            first_ptr-lacks tail j ys (new ∷ bs),
            t,
            if◌then◌else◌,
          )
          (unlink_table true (ltb j height) (lacks j ys) new.ptr (first_ptr tail j bs)
            (first_ptr tail j ys))
    | inr n ↦
        rw
          (
            n,
            if◌then◌else◌,
            first_ptr-lacks tail j ys bs,
            first_ptr-lacks tail j ys (new ∷ bs),
            n,
            if◌then◌else◌,
          )
          refl
  ]

-- A node that no level names keeps its array.
pub link_nexts-off :
    (n node : ℕ) (at_p at_t : ℕ → Ptr) (p : Ptr) (x : ℕ → Option Ptr)
    → (p == node) ≡ false
    → ((j : ℕ) → (p == at_p j) ≡ false)
    → link_nexts n node at_p at_t p x ≡ x
link_nexts-off n node at_p at_t p x o f =
    fun_ext λ j. rw (o, f j, if◌then◌else◌) (same (ltb j n) (x j))
  where
    same : (b : Bool) (y : Option Ptr) → (if b then y else y) ≡ y
    same true y = refl
    same false y = refl

pub unlink_nexts-off :
    (n : ℕ) (at_p at_t : ℕ → Ptr) (p : Ptr) (x : ℕ → Option Ptr)
    → ((j : ℕ) → (p == at_p j) ≡ false)
    → unlink_nexts n at_p at_t p x ≡ x
unlink_nexts-off n at_p at_t p x f = fun_ext λ j. rw (f j, if◌then◌else◌) (same (ltb j n) (x j))
  where
    same : (b : Bool) (y : Option Ptr) → (if b then y else y) ≡ y
    same true y = refl
    same false y = refl

-- Where the last entry of a level stands.
pub data LastOf (p : Ptr) (i : ℕ) (xs : List Entry) : Type 0 where
  at_start : Lacks i xs → LastOf p i xs
  at_entry :
      (u : List Entry) (c : Entry) (v : List Entry)
      → xs ≡ u ++ c ∷ v
      → ltb i c.height ≡ true
      → Lacks i v
      → last_ptr p i xs ≡ c.ptr
      → LastOf p i xs

pub last_of : (p : Ptr) (i : ℕ) (xs : List Entry) → LastOf p i xs
unfolding Lacks last_ptr
last_of p i [] = at_start tt
last_of p i (x ∷ xs) = elim (Bool-cases (ltb i x.height)) [
  | inl t ↦ elim (last_of x.ptr i xs) [
    | at_start l ↦ at_entry [] x xs refl t l (rw (t, if◌then◌else◌) (last_ptr-Lacks x.ptr i xs l))
    | at_entry u c v e t' l q ↦
        at_entry (x ∷ u) c v (ap (λ s. x ∷ s) e) t' l (rw (t, if◌then◌else◌) q)
  ]
  | inr f ↦ elim (last_of p i xs) [
    | at_start l ↦ at_start (f, l)
    | at_entry u c v e t' l q ↦
        at_entry (x ∷ u) c v (ap (λ s. x ∷ s) e) t' l (rw (f, if◌then◌else◌) q)
  ]
]
