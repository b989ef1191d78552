-- ===== src/Storage/SsTable/Ascending.antt =====
-- In an ascending table the first block whose last key is not less holds the key, if any does.
use ddbms.Base.{
  ℕ, not, ◌≡◌, refl, ap, sym, ◌∙◌, subst, Bool, true, false, some, List, [], ◌∷◌, ◌++◌, All,
  All-append, All-map, inl, inr, Bool-cases, if◌then◌else◌, some_value, none_absurd,
}
use ddbms.Base.Bytes.{bytes_lt, bytes_eq, bytes_eq_sound}
use ddbms.Base.Order.{bytes_lt_irrefl, bytes_lt_trans}
use ddbms.Storage.Block.RoundTrip.{Entry, lookup}
use ddbms.Storage.Table.Layout.{Group, last_of, entries_of}
use ddbms.Storage.SsTable.RoundTrip.{table_lookup}

unfoldable pub IsAscending : List Entry → Type 0
IsAscending [] = Unit
IsAscending (e ∷ es) = All (λ f. bytes_lt (e.0) (f.0) ≡ true) es × IsAscending es

IsAscending-append : (xs ys : List Entry) → IsAscending (xs ++ ys) → IsAscending xs × IsAscending ys
unfolding IsAscending
IsAscending-append [] ys a = (tt, a)
IsAscending-append (x ∷ xs) ys a =
    let rest = IsAscending-append xs ys (a.1) in
    (((All-append (λ f. bytes_lt (x.0) (f.0) ≡ true) xs ys (a.0)).0, rest.0), rest.1)

clash : {x : Bool} → x ≡ true → x ≡ false → ⊥
clash p q = cc

asymmetric : (a b : List ℕ) → bytes_lt a b ≡ true → bytes_lt b a ≡ false
asymmetric a b l = elim (Bool-cases (bytes_lt b a)) [
  | inl t ↦ absurd (clash (bytes_lt_trans a b a l t) (bytes_lt_irrefl a))
  | inr f ↦ f
]

-- What holds of every entry holds of the last one.
last-All :
    (P : List ℕ → Type 0) (es : List Entry) (l : List ℕ)
    → last_of es ≡ some l
    → All (λ e. P (e.0)) es
    → P l
unfolding last_of
last-All P [] l h a = absurd (none_absurd l h)
last-All P ((k, v) ∷ []) l h a = subst P (some_value k l h) (a.0)
last-All P (e ∷ f ∷ es) l h a = last-All P (f ∷ es) l h (a.1)

last_greatest :
    (es : List Entry) (l : List ℕ)
    → last_of es ≡ some l
    → IsAscending es
    → All (λ e. bytes_lt l (e.0) ≡ false) es
unfolding last_of IsAscending
last_greatest [] l h a = tt
last_greatest ((k, v) ∷ []) l h a =
    (subst (λ x. bytes_lt x k ≡ false) (some_value k l h) (bytes_lt_irrefl k), tt)
last_greatest (e ∷ f ∷ es) l h a = (
  asymmetric (e.0) l (last-All (λ x. bytes_lt (e.0) x ≡ true) (f ∷ es) l h (a.0)),
  last_greatest (f ∷ es) l h (a.1),
)

later_greater :
    (es rest : List Entry) (l : List ℕ)
    → last_of es ≡ some l
    → IsAscending (es ++ rest)
    → All (λ e. bytes_lt l (e.0) ≡ true) rest
unfolding last_of IsAscending
later_greater [] rest l h a = absurd (none_absurd l h)
later_greater ((k, v) ∷ []) rest l h a =
    subst (λ x. All (λ e. bytes_lt x (e.0) ≡ true) rest) (some_value k l h) (a.0)
later_greater (e ∷ f ∷ es) rest l h a = later_greater (f ∷ es) rest l h (a.1)

-- A bound that parts the key from an entry tells them apart.
other_key :
    (l key k : List ℕ) (b : Bool)
    → bytes_lt l k ≡ b
    → bytes_lt l key ≡ not b
    → bytes_eq k key ≡ false
other_key l key k b p q = elim (Bool-cases (bytes_eq k key)) [
  | inl t ↦ absurd (opposite b (sym p ∙ ap (bytes_lt l) (bytes_eq_sound k key t) ∙ q))
  | inr f ↦ f
]
  where
    opposite : (b : Bool) → b ≡ not b → ⊥
    opposite true e = cc
    opposite false e = cc

lookup-other :
    (key : List ℕ) (es rest : List Entry)
    → All (λ e. bytes_eq (e.0) key ≡ false) es
    → lookup key (es ++ rest) ≡ lookup key rest
lookup-other key [] rest a = refl
lookup-other key ((k, v) ∷ es) rest a = rw (a.0, if◌then◌else◌) (lookup-other key es rest (a.1))

lookup-front :
    (key : List ℕ) (es rest : List Entry)
    → All (λ e. bytes_eq (e.0) key ≡ false) rest
    → lookup key (es ++ rest) ≡ lookup key es
lookup-front key [] [] a = refl
lookup-front key [] ((k, v) ∷ rest) a = rw (a.0, if◌then◌else◌) (lookup-front key [] rest (a.1))
lookup-front key ((k, v) ∷ es) rest a =
    ap (λ t. if bytes_eq k key then (true, v) else t) (lookup-front key es rest a)

pub table_lookup_lem :
    (key : List ℕ) (gs : List Group)
    → IsAscending (entries_of gs)
    → table_lookup key gs ≡ lookup key (entries_of gs)
unfolding table_lookup entries_of
table_lookup_lem key [] a = refl
table_lookup_lem key (g ∷ gs) a =
    let parts = IsAscending-append g.entries (entries_of gs) a in
    elim (Bool-cases (bytes_lt g.last key)) [
      | inl t ↦
          rw (t, if◌then◌else◌)
            (table_lookup_lem key gs (parts.1)
              ∙ sym (
                  lookup-other key g.entries (entries_of gs) (
                    All-map (λ e. bytes_lt g.last (e.0) ≡ false) (λ e. bytes_eq (e.0) key ≡ false)
                      g.entries (λ e l. other_key g.last key (e.0) false l t)
                      (last_greatest g.entries g.last g.ends (parts.0)))))
      | inr f ↦
          rw (f, if◌then◌else◌)
            (sym (
              lookup-front key g.entries (entries_of gs) (
                All-map (λ e. bytes_lt g.last (e.0) ≡ true) (λ e. bytes_eq (e.0) key ≡ false)
                  (entries_of gs) (λ e l. other_key g.last key (e.0) true l f)
                  (later_greater g.entries (entries_of gs) g.last g.ends a))))
    ]
