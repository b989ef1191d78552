-- ===== src/Storage/SkipList/Key.antt =====
-- A sorted list of entries around a key.
use ddbms.Base.{
  ℕ, ◌≡◌, refl, ap, sym, subst, inl, inr, Bool, true, false, Option, none, some, List, [], ◌∷◌,
  ◌++◌, if◌then◌else◌, All, All-append, All-map, Bool-cases,
}
use ddbms.Base.Bytes.{bytes_lt, bytes_eq, bytes_eq_sound}
use ddbms.Base.Order.{bytes_lt_irrefl, bytes_lt_trans, bytes_lt_total}
use ddbms.Storage.SkipList.Chain.{Entry, IsSorted}

-- The value under a key, the abstract view of the entries.
unfoldable pub lookup : List ℕ → List Entry → Option (List ℕ)
lookup key [] = none
lookup key (c ∷ cs) = if bytes_eq c.key key then some c.value else lookup key cs

abbrev pub AllLess : List ℕ → List Entry → Type 0
AllLess key cs = All (λ c. bytes_lt c.key key ≡ true) cs

abbrev pub NoneLess : List ℕ → List Entry → Type 0
NoneLess key cs = All (λ c. bytes_lt c.key key ≡ false) cs

abbrev pub NoneEqual : List ℕ → List Entry → Type 0
NoneEqual key cs = All (λ c. bytes_eq c.key key ≡ false) cs

abbrev pub AllGreater : List ℕ → List Entry → Type 0
AllGreater key cs = All (λ c. bytes_lt key c.key ≡ true) cs

pub record IsSplit (key : List ℕ) (cs xs bs : List Entry) : Type 0 where
  pub parts : cs ≡ xs ++ bs
  pub less : AllLess key xs
  pub not_less : NoneLess key bs

pub record Split (key : List ℕ) (cs : List Entry) : Type 0 where
  pub before : List Entry
  pub behind : List Entry
  pub is_split : IsSplit key cs before behind

not_less_trans :
    (key : List ℕ) (b c : List ℕ)
    → bytes_lt b key ≡ false
    → bytes_lt b c ≡ true
    → bytes_lt c key ≡ false
not_less_trans key b c n l = elim (Bool-cases (bytes_lt c key)) [
  | inl t ↦ absurd (clash (bytes_lt_trans b c key l t) n)
  | inr f ↦ f
]
  where
    clash : {x : Bool} → x ≡ true → x ≡ false → ⊥
    clash p q = cc

pub split_key : (key : List ℕ) (cs : List Entry) → IsSorted cs → Split key cs
unfolding IsSorted
split_key key [] o = record {
  before = [];
  behind = [];
  is_split = record { parts = refl; less = tt; not_less = tt };
}
split_key key (c ∷ cs) o = elim (Bool-cases (bytes_lt c.key key)) [
  | inl t ↦
      let rest = split_key key cs (o.1) in
      record {
        before = c ∷ rest.before;
        behind = rest.behind;
        is_split = record {
          parts = ap (λ l. c ∷ l) rest.is_split.parts;
          less = (t, rest.is_split.less);
          not_less = rest.is_split.not_less;
        };
      }
  | inr f ↦ record {
    before = [];
    behind = c ∷ cs;
    is_split = record {
      parts = refl;
      less = tt;
      not_less = (
        f,
        All-map (λ d. bytes_lt c.key d.key ≡ true) (λ d. bytes_lt d.key key ≡ false) cs
            (λ d l. not_less_trans key c.key d.key f l) (o.0),
      );
    };
  }
]

pub IsSorted-append : (xs ys : List Entry) → IsSorted (xs ++ ys) → IsSorted xs × IsSorted ys
unfolding IsSorted
IsSorted-append [] ys o = (tt, o)
IsSorted-append (x ∷ xs) ys o =
    let rest = IsSorted-append xs ys (o.1) in
    (((All-append (λ d. bytes_lt x.key d.key ≡ true) xs ys (o.0)).0, rest.0), rest.1)

less_not_equal : (a b : List ℕ) → bytes_lt a b ≡ true → bytes_eq a b ≡ false
less_not_equal a b l = elim (Bool-cases (bytes_eq a b)) [
  | inl t ↦
      absurd (clash (bytes_lt_irrefl b) (subst (λ x. bytes_lt x b ≡ true) (bytes_eq_sound a b t) l))
  | inr f ↦ f
]
  where
    clash : {x : Bool} → x ≡ false → x ≡ true → ⊥
    clash p q = cc

pub greater_not_equal : (a b : List ℕ) → bytes_lt b a ≡ true → bytes_eq a b ≡ false
greater_not_equal a b l = elim (Bool-cases (bytes_eq a b)) [
  | inl t ↦
      absurd (
        clash (bytes_lt_irrefl a) (subst (λ x. bytes_lt x a ≡ true) (sym (bytes_eq_sound a b t)) l))
  | inr f ↦ f
]
  where
    clash : {x : Bool} → x ≡ false → x ≡ true → ⊥
    clash p q = cc

pub AllLess-NoneEqual : (key : List ℕ) (xs : List Entry) → AllLess key xs → NoneEqual key xs
AllLess-NoneEqual key xs a =
    All-map (λ c. bytes_lt c.key key ≡ true) (λ c. bytes_eq c.key key ≡ false) xs
      (λ c l. less_not_equal c.key key l) a

-- The entries that are not less start with the key, or lack it.
pub data Search (key : List ℕ) (bs : List Entry) : Type 0 where
  hit :
      (b : Entry) (rest : List Entry)
      → bs ≡ b ∷ rest
      → bytes_eq b.key key ≡ true
      → NoneEqual key rest
      → Search key bs
  miss : NoneEqual key bs → AllGreater key bs → Search key bs

AllGreater-NoneEqual : (key : List ℕ) (xs : List Entry) → AllGreater key xs → NoneEqual key xs
AllGreater-NoneEqual key xs a =
    All-map (λ c. bytes_lt key c.key ≡ true) (λ c. bytes_eq c.key key ≡ false) xs
      (λ c l. greater_not_equal c.key key l) a

pub search : (key : List ℕ) (bs : List Entry) → IsSorted bs → NoneLess key bs → Search key bs
unfolding IsSorted
search key [] o n = miss tt tt
search key (b ∷ bs) o n = elim (Bool-cases (bytes_eq b.key key)) [
  | inl t ↦ hit b bs refl t (
      AllGreater-NoneEqual key bs (subst (λ k. AllGreater k bs) (bytes_eq_sound b.key key t) (o.0)))
  | inr f ↦
      let first = bytes_lt_total b.key key (n.0) f in
      let rest =
        All-map (λ d. bytes_lt b.key d.key ≡ true) (λ d. bytes_lt key d.key ≡ true) bs
          (λ d l. bytes_lt_trans key b.key d.key first l) (o.0) in
      miss (f, AllGreater-NoneEqual key bs rest) (first, rest)
]

pub lookup-NoneEqual :
    (key : List ℕ) (xs bs : List Entry) → NoneEqual key xs → lookup key (xs ++ bs) ≡ lookup key bs
unfolding lookup
lookup-NoneEqual key [] bs a = refl
lookup-NoneEqual key (x ∷ xs) bs a = rw (a.0, if◌then◌else◌) (lookup-NoneEqual key xs bs (a.1))

pub lookup-none : (key : List ℕ) (xs : List Entry) → NoneEqual key xs → lookup key xs ≡ none
unfolding lookup
lookup-none key [] a = refl
lookup-none key (x ∷ xs) a = rw (a.0, if◌then◌else◌) (lookup-none key xs (a.1))
