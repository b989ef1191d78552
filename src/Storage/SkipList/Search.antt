-- ===== src/Storage/SkipList/Search.antt =====
-- src/storage/SkipList.cpp: the loop of findGreatorOrEqual from a node in the middle of the chain.
use ddbms.Base.{
  ℕ, zero, suc, ◌≡◌, refl, ap, sym, fun_ext, inl, inr, true, false, some, List, [], ◌∷◌, ◌++◌, ltb,
  leb, ◌==◌, if◌then◌else◌, All, arith, Bool-cases,
}
use ddbms.Base.Bytes.{bytes_lt}
use ddbms.Storage.Block.{◌>>=◌}
use ddbms.Storage.SkipList.{
  Ptr, Node, Heap, SkipList, Prevs, forward, down, stop, at, next_at, update_at, is_less, find_move,
}
use ddbms.Storage.SkipList.Chain.{
  Entry, first_ptr, last_ptr, links, entry_node, IsChain, Lacks, first_ptr-append, last_ptr-Lacks,
}

-- What the search leaves in `prevs`.
abbrev pub prevs_of : ℕ → Ptr → List Entry → Prevs → Prevs
prevs_of level x xs prevs j = if leb j level then some (last_ptr x j xs) else prevs j

pub last_ptr-append :
    (p : Ptr) (j : ℕ) (u : List Entry) (y : Entry) (v : List Entry)
    → ltb j y.height ≡ true
    → last_ptr p j (u ++ y ∷ v) ≡ last_ptr y.ptr j v
unfolding last_ptr
last_ptr-append p j [] y v t = rw (t, if◌then◌else◌) refl
last_ptr-append p j (c ∷ u) y v t = elim (Bool-cases (ltb j c.height)) [
  | inl e ↦ rw (e, if◌then◌else◌) (last_ptr-append c.ptr j u y v t)
  | inr e ↦ rw (e, if◌then◌else◌) (last_ptr-append p j u y v t)
]

pub prevs_of-Lacks :
    (level : ℕ) (x : Ptr) (xs : List Entry) (prevs : Prevs)
    → Lacks (suc level) xs
    → prevs_of level x xs (update_at prevs (suc level) x) ≡ prevs_of (suc level) x xs prevs
prevs_of-Lacks level x xs prevs l = fun_ext λ j. elim (Bool-cases (j == suc level)) [
  | inl e ↦ let k = j_is j (suc level) e in rw (k, last_ptr-Lacks x (suc level) xs l) (ground arith)
  | inr e ↦ ground arith
]
  where
    j_is : (a b : ℕ) → (a == b) ≡ true → a ≡ b
    j_is a b h = ground arith

pub prevs_of-zero :
    (x : Ptr) (xs : List Entry) (prevs : Prevs)
    → Lacks 0 xs
    → update_at prevs 0 x ≡ prevs_of 0 x xs prevs
prevs_of-zero x xs prevs l = fun_ext λ j. at_zero j
  where
    at_zero : (j : ℕ) → update_at prevs 0 x j ≡ prevs_of 0 x xs prevs j
    at_zero zero = ap some (sym (last_ptr-Lacks x 0 xs l))
    at_zero (suc j) = ground arith

pub prevs_of-forward :
    (level : ℕ) (x : Ptr) (u : List Entry) (y : Entry) (v : List Entry) (prevs : Prevs)
    → ltb level y.height ≡ true
    → prevs_of level y.ptr v prevs ≡ prevs_of level x (u ++ y ∷ v) prevs
prevs_of-forward level x u y v prevs t = fun_ext λ j. elim (Bool-cases (leb j level)) [
  | inl e ↦ rw (e, if◌then◌else◌, last_ptr-append x j u y v (lower j e)) refl
  | inr e ↦ rw (e, if◌then◌else◌) refl
]
  where
    lower : (j : ℕ) → leb j level ≡ true → ltb j y.height ≡ true
    lower j e = ground arith

-- The node at `x` is linked to the entries.
pub record IsLinked (h : Heap) (tail x : Ptr) (level : ℕ) (cs : List Entry) : Type 0 where
  pub node : Node
  pub here : at h x ≡ some node
  pub level_in : ltb level node.height ≡ true
  pub linked : node.nexts ≡ links tail node.height cs

module _ (s : SkipList) (key : List ℕ) (bs : List Entry) where
  abbrev pub Less : List Entry → Type 0
  Less cs = All (λ c. bytes_lt c.key key ≡ true) cs

  abbrev pub NotLess : List Entry → Type 0
  NotLess cs = All (λ c. bytes_lt c.key key ≡ false) cs

  abbrev pub OffTail : List Entry → Type 0
  OffTail cs = All (λ c. (c.ptr == s.tail) ≡ false) cs

  pub next_at-IsLinked :
      (x : Ptr) (level : ℕ) (cs : List Entry)
      → IsLinked s.heap s.tail x level cs
      → next_at s.heap x level ≡ some (first_ptr s.tail level cs)
  unfolding next_at
  next_at-IsLinked x level cs w = rw (w.here, ◌>>=◌, w.linked, w.level_in, if◌then◌else◌) refl

  pub is_less-first_ptr :
      (level : ℕ) (cs : List Entry)
      → NotLess cs
      → OffTail cs
      → IsChain s.heap s.tail cs
      → is_less s (first_ptr s.tail level cs) key ≡ some false
  unfolding is_less first_ptr IsChain
  is_less-first_ptr level [] g o c = ground arith
  is_less-first_ptr level (b ∷ cs) g o c = elim (Bool-cases (ltb level b.height)) [
    | inl e ↦ rw (e, if◌then◌else◌, o.0, c.0, ◌>>=◌, g.0) refl
    | inr e ↦ rw (e, if◌then◌else◌) (is_less-first_ptr level cs (g.1) (o.1) (c.1))
  ]

  -- A round that finds no entry of the level before the key.
  pub find_move-Lacks :
      (x : Ptr) (level : ℕ) (xs : List Entry)
      → IsLinked s.heap s.tail x level (xs ++ bs)
      → Lacks level xs
      → NotLess bs
      → OffTail bs
      → IsChain s.heap s.tail bs
      → find_move s key x level
        ≡ some (if level == 0 then stop (first_ptr s.tail level bs) else down)
  unfolding find_move
  find_move-Lacks x level xs w l g o c =
      rw
        (
          next_at-IsLinked x level (xs ++ bs) w,
          first_ptr-append s.tail level xs bs l,
          ◌>>=◌,
          is_less-first_ptr level bs g o c,
          if◌then◌else◌,
        )
        refl

  -- A round that goes on.
  pub find_move-forward :
      (x : Ptr) (level : ℕ) (u : List Entry) (y : Entry) (rest : List Entry)
      → IsLinked s.heap s.tail x level (u ++ y ∷ rest)
      → Lacks level u
      → ltb level y.height ≡ true
      → bytes_lt y.key key ≡ true
      → (y.ptr == s.tail) ≡ false
      → at s.heap y.ptr ≡ some (entry_node s.tail y rest)
      → find_move s key x level ≡ some (forward y.ptr)
  unfolding find_move is_less first_ptr
  find_move-forward x level u y rest w l t less o a =
      rw
        (
          next_at-IsLinked x level (u ++ y ∷ rest) w,
          first_ptr-append s.tail level u (y ∷ rest) l,
          t,
          if◌then◌else◌,
          ◌>>=◌,
          o,
          if◌then◌else◌,
          a,
          ◌>>=◌,
          less,
          if◌then◌else◌,
        )
        refl
