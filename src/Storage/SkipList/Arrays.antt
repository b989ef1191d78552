-- ===== src/Storage/SkipList/Arrays.antt =====
-- How the arrays of a chain change when an entry is put between two parts of it, or taken out.
use ddbms.Base.{
  ℕ, ◌≡◌, refl, ◌∙◌, ◌≢◌, inl, inr, Bool, true, false, not, ◌&&◌, List, [], ◌∷◌, ltb, ◌==◌,
  if◌then◌else◌, All, arith, Bool-cases,
}
use ddbms.Storage.SkipList.{Ptr}
use ddbms.Storage.SkipList.Chain.{Entry, last_ptr, IsApart, Lacks}
use ddbms.Storage.SkipList.Link.{==_refl}

-- The test of `Lacks`.
unfoldable pub lacks : ℕ → List Entry → Bool
lacks j [] = true
lacks j (c ∷ cs) = not (ltb j c.height) && lacks j cs

-- An address that no entry has.
abbrev pub Out : Ptr → List Entry → Type 0
Out p cs = All (λ c. (p == c.ptr) ≡ false) cs

pub Lacks-lacks : (j : ℕ) (cs : List Entry) → lacks j cs ≡ true → Lacks j cs
unfolding Lacks lacks
Lacks-lacks j [] h = tt
Lacks-lacks j (c ∷ cs) h = elim (Bool-cases (ltb j c.height)) [
  | inl t ↦ absurd (clash (ltb j c.height) (lacks j cs) t h)
  | inr f ↦ (f, Lacks-lacks j cs (low (ltb j c.height) (lacks j cs) h))
]
  where
    clash : (a b : Bool) → a ≡ true → (not a && b) ≡ true → ⊥
    clash a b p q = ground (arith, p, q)

    low : (a b : Bool) → (not a && b) ≡ true → b ≡ true
    low true b q = cc
    low false b q = q

-- The last entry of a level is at `p` if the search starts from there and passes nothing over.
pub ==-last_ptr :
    (p q : Ptr) (j : ℕ) (cs : List Entry)
    → Out p cs
    → (p == last_ptr q j cs) ≡ ((p == q) && lacks j cs)
unfolding last_ptr lacks
==-last_ptr p q j [] o = right_true (p == q)
  where
    right_true : (b : Bool) → b ≡ (b && true)
    right_true true = refl
    right_true false = refl
==-last_ptr p q j (c ∷ cs) o = elim (Bool-cases (ltb j c.height)) [
  | inl t ↦ rw (t, if◌then◌else◌) (==-last_ptr p c.ptr j cs (o.1) ∙ rw (o.0) (right_false (p == q)))
  | inr f ↦ rw (f, if◌then◌else◌) (==-last_ptr p q j cs (o.1))
]
  where
    right_false : (b : Bool) → false ≡ (b && false)
    right_false true = refl
    right_false false = refl

-- `at_p` names the last entry of each level among those that are passed.
unfoldable pub IsLastOf : (ℕ → Ptr) → List Entry → Type 0
IsLastOf at_p [] = Unit
IsLastOf at_p (c ∷ cs) =
    ((j : ℕ) → (c.ptr == at_p j) ≡ (ltb j c.height && lacks j cs)) × IsLastOf at_p cs

Apart-Out : (c : Entry) (cs : List Entry) → All (λ d. d.ptr ≢ c.ptr) cs → Out c.ptr cs
Apart-Out c [] a = tt
Apart-Out c (d ∷ cs) a = (differs d.ptr c.ptr (a.0), Apart-Out c cs (a.1))
  where
    differs : (x y : ℕ) → x ≢ y → (y == x) ≡ false
    differs x y n = ground (arith, n)

pub last_ptr-IsLastOf :
    (at_p q : ℕ → Ptr) (cs : List Entry)
    → ((j : ℕ) → at_p j ≡ last_ptr (q j) j cs)
    → ((j : ℕ) → Out (q j) cs)
    → IsApart cs
    → IsLastOf at_p cs
unfolding IsLastOf last_ptr IsApart
last_ptr-IsLastOf at_p q [] e o a = tt
last_ptr-IsLastOf at_p q (c ∷ cs) e o a = (here, last_ptr-IsLastOf at_p q' cs there out (a.1))
  where
    q' : ℕ → Ptr
    q' j = if ltb j c.height then c.ptr else q j

    there : (j : ℕ) → at_p j ≡ last_ptr (q' j) j cs
    there j = elim (Bool-cases (ltb j c.height)) [
      | inl t ↦ rw (e j, t, if◌then◌else◌) refl
      | inr f ↦ rw (e j, f, if◌then◌else◌) refl
    ]

    out : (j : ℕ) → Out (q' j) cs
    out j = elim (Bool-cases (ltb j c.height)) [
      | inl t ↦ rw (t, if◌then◌else◌) (Apart-Out c cs (a.0))
      | inr f ↦ rw (f, if◌then◌else◌) ((o j).1)
    ]

    flip : (x y : ℕ) → (x == y) ≡ (y == x)
    flip x y = ground arith

    here : (j : ℕ) → (c.ptr == at_p j) ≡ (ltb j c.height && lacks j cs)
    here j = rw (there j) (
        ==-last_ptr c.ptr (q' j) j cs (Apart-Out c cs (a.0)) ∙ elim (Bool-cases (ltb j c.height)) [
          | inl t ↦ rw (t, if◌then◌else◌, ==_refl c.ptr) refl
          | inr f ↦ rw (f, if◌then◌else◌, flip c.ptr (q j), (o j).0) refl
        ])
