-- ===== src/Storage/SkipList/Sorted.antt =====
-- An entry put between the smaller and the greater ones, and an entry taken out.
use ddbms.Base.{
  ◌+◌, ◌≡◌, ◌≢◌, true, false, List, [], ◌∷◌, ◌++◌, ◌==◌, All, All-append, append-All, All-map,
  arith,
}
use ddbms.Base.Bytes.{bytes_lt}
use ddbms.Storage.SkipList.{Ptr}
use ddbms.Storage.SkipList.Chain.{Entry, IsSorted, IsApart, bytes_of}
use ddbms.Storage.SkipList.Key.{AllLess, AllGreater}
use ddbms.Storage.SkipList.Arrays.{Out}

pub IsSorted-insert :
    (xs : List Entry) (new : Entry) (bs : List Entry)
    → IsSorted (xs ++ bs)
    → AllLess new.key xs
    → AllGreater new.key bs
    → IsSorted (xs ++ new ∷ bs)
unfolding IsSorted
IsSorted-insert [] new bs o l g = (g, o)
IsSorted-insert (x ∷ xs) new bs o l g =
    let parts = All-append (λ d. bytes_lt x.key d.key ≡ true) xs bs (o.0) in
    (
      append-All (λ d. bytes_lt x.key d.key ≡ true) xs (new ∷ bs) (parts.0) (l.0, parts.1),
      IsSorted-insert xs new bs (o.1) (l.1) g,
    )

pub IsSorted-remove :
    (xs : List Entry) (old : Entry) (bs : List Entry)
    → IsSorted (xs ++ old ∷ bs)
    → IsSorted (xs ++ bs)
unfolding IsSorted
IsSorted-remove [] old bs o = o.1
IsSorted-remove (x ∷ xs) old bs o =
    let parts = All-append (λ d. bytes_lt x.key d.key ≡ true) xs (old ∷ bs) (o.0) in
    (
      append-All (λ d. bytes_lt x.key d.key ≡ true) xs bs (parts.0) (parts.1.1),
      IsSorted-remove xs old bs (o.1),
    )

Out-Apart : (p : Ptr) (cs : List Entry) → Out p cs → All (λ d. d.ptr ≢ p) cs
Out-Apart p cs o = All-map (λ c. (p == c.ptr) ≡ false) (λ d. d.ptr ≢ p) cs (λ c e. other c.ptr e) o
  where
    other : (q : Ptr) → (p == q) ≡ false → q ≢ p
    other q e = ground (arith, e)

pub IsApart-insert :
    (xs : List Entry) (new : Entry) (bs : List Entry)
    → IsApart (xs ++ bs)
    → Out new.ptr (xs ++ bs)
    → IsApart (xs ++ new ∷ bs)
unfolding IsApart
IsApart-insert [] new bs a o = (Out-Apart new.ptr bs o, a)
IsApart-insert (x ∷ xs) new bs a o =
    let parts = All-append (λ d. d.ptr ≢ x.ptr) xs bs (a.0) in
    (
      append-All (λ d. d.ptr ≢ x.ptr) xs (new ∷ bs) (parts.0) (other new.ptr x.ptr (o.0), parts.1),
      IsApart-insert xs new bs (a.1) (o.1),
    )
  where
    other : (p q : Ptr) → (p == q) ≡ false → p ≢ q
    other p q e = ground (arith, e)

pub IsApart-remove :
    (xs : List Entry) (old : Entry) (bs : List Entry)
    → IsApart (xs ++ old ∷ bs)
    → IsApart (xs ++ bs)
unfolding IsApart
IsApart-remove [] old bs a = a.1
IsApart-remove (x ∷ xs) old bs a =
    let parts = All-append (λ d. d.ptr ≢ x.ptr) xs (old ∷ bs) (a.0) in
    (append-All (λ d. d.ptr ≢ x.ptr) xs bs (parts.0) (parts.1.1), IsApart-remove xs old bs (a.1))

Out-one : (p q : Ptr) → p ≢ q → (q == p) ≡ false
Out-one p q n = ground (arith, n)

-- An entry behind the others has an address that they do not have, and the other way round.
pub Out-front :
    (xs : List Entry) (b : Entry) (bs : List Entry) → IsApart (xs ++ b ∷ bs) → Out b.ptr xs
unfolding IsApart
Out-front [] b bs a = tt
Out-front (x ∷ xs) b bs a =
    let parts = All-append (λ d. d.ptr ≢ x.ptr) xs (b ∷ bs) (a.0) in
    (other x.ptr (parts.1.0), Out-front xs b bs (a.1))
  where
    other : (q : Ptr) → b.ptr ≢ q → (b.ptr == q) ≡ false
    other q n = ground (arith, n)

pub Out-behind :
    (xs : List Entry) (b : Entry) (bs : List Entry) → IsApart (xs ++ b ∷ bs) → Out b.ptr bs
unfolding IsApart
Out-behind [] b bs a =
    All-map (λ d. d.ptr ≢ b.ptr) (λ d. (b.ptr == d.ptr) ≡ false) bs (λ d n. Out-one d.ptr b.ptr n)
      (a.0)
Out-behind (x ∷ xs) b bs a = Out-behind xs b bs (a.1)

pub bytes_of-append : (xs bs : List Entry) → bytes_of (xs ++ bs) ≡ bytes_of xs + bytes_of bs
unfolding bytes_of
bytes_of-append [] bs = omega arith
bytes_of-append (x ∷ xs) bs = omega (arith, bytes_of-append xs bs)
