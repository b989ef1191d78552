-- ===== src/Meta/Catalog/Map.antt =====
-- Laws of the maps of pointers.
use ddbms.Base.{
  ℕ, ◌≡◌, refl, sym, ap, subst, Option, none, some, List, [], ◌∷◌, ◌++◌, Bool-cases, inl, inr,
  arith, some_value, none_absurd,
}
use ddbms.Base.Bytes.{bytes_eq, bytes_eq_refl}
use ddbms.Meta.Catalog.{PtrMap, find, put, touch, deref}

module _ {A : Type 0} where
  pub put-new :
      (k : List ℕ) (v : Option A) (m : PtrMap A) → find k m ≡ none → put k v m ≡ m ++ (k, v) ∷ []
  unfolding find put
  put-new k v [] h = refl
  put-new k v ((j, w) ∷ m) h = elim (Bool-cases (bytes_eq j k)) [
    | inl e ↦ absurd (none_absurd w (sym (rw e at h)))
    | inr e ↦ rw e (ap (λ l. (j, w) ∷ l) (put-new k v m (rw e at h)))
  ]

  pub find-put : (k : List ℕ) (v : Option A) (m : PtrMap A) → find k (put k v m) ≡ some v
  unfolding find put
  find-put k v [] = rw (bytes_eq_refl k) refl
  find-put k v ((j, w) ∷ m) = ground (arith, find-put k v m)

  -- A predicate on the objects.
  abbrev pub AllOf : (A → Type 0) → PtrMap A → Type 0
  AllOf P [] = Unit
  AllOf P ((k, none) ∷ m) = AllOf P m
  AllOf P ((k, some a) ∷ m) = P a × AllOf P m

  abbrev pub OrNull : (A → Type 0) → Option A → Type 0
  OrNull P none = Unit
  OrNull P (some a) = P a

  AllOf-cons :
      (P : A → Type 0) (k : List ℕ) (v : Option A) (m : PtrMap A)
      → OrNull P v
      → AllOf P m
      → AllOf P ((k, v) ∷ m)
  AllOf-cons P k none m p h = h
  AllOf-cons P k (some a) m p h = (p, h)

  AllOf-tail :
      (P : A → Type 0) (k : List ℕ) (v : Option A) (m : PtrMap A)
      → AllOf P ((k, v) ∷ m)
      → OrNull P v × AllOf P m
  AllOf-tail P k none m h = (tt, h)
  AllOf-tail P k (some a) m h = h

  pub AllOf-put :
      (P : A → Type 0) (k : List ℕ) (v : Option A) (m : PtrMap A)
      → OrNull P v
      → AllOf P m
      → AllOf P (put k v m)
  unfolding put
  AllOf-put P k v [] p h = AllOf-cons P k v [] p h
  AllOf-put P k v ((j, w) ∷ m) p h = elim (Bool-cases (bytes_eq j k)) [
    | inl e ↦ rw e (AllOf-cons P j v m p (AllOf-tail P j w m h).1)
    | inr e ↦ rw e (
        AllOf-cons P j w (put k v m) (AllOf-tail P j w m h).0
          (AllOf-put P k v m p (AllOf-tail P j w m h).1))
  ]

  pub AllOf-find :
      (P : A → Type 0) (k : List ℕ) (a : A) (m : PtrMap A)
      → find k m ≡ some (some a)
      → AllOf P m
      → P a
  unfolding find
  AllOf-find P k a [] e h = absurd (none_absurd (some a) e)
  AllOf-find P k a ((j, w) ∷ m) e h = elim (Bool-cases (bytes_eq j k)) [
    | inl s ↦ subst (OrNull P) (some_value w (some a) (rw s at e)) (AllOf-tail P j w m h).0
    | inr s ↦ AllOf-find P k a m (rw s at e) (AllOf-tail P j w m h).1
  ]

  -- A key that is missing is there, with a null pointer, after a subscript.
  pub find-touch_new :
      (k : List ℕ) (m : PtrMap A) → find k m ≡ none → find k (touch k m) ≡ some none
  unfolding touch
  find-touch_new k m h = rw (h, touch) (find-put k none m)

  pub deref-new : (k : List ℕ) (m : PtrMap A) → find k m ≡ none → deref k m ≡ none
  unfolding deref
  deref-new k m h = rw (h, deref) refl

  pub deref-found :
      (k : List ℕ) (a : A) (m : PtrMap A) → find k m ≡ some (some a) → deref k m ≡ some a
  unfolding deref
  deref-found k a m h = rw (h, deref) refl
