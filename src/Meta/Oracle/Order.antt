-- ===== src/Meta/Oracle/Order.antt =====
-- The timestamps that one oracle issues grow strictly, whatever updates come between them.
use ddbms.Base.{
  ℕ, ◌+◌, ◌*◌, ◌^◌, ◌≤◌, ◌<◌, ◌≡◌, ◌⊎◌, inl, inr, refl, Option, none, some, List, [], ◌∷◌, ltb,
  if◌then◌else◌, arith, All,
}
use ddbms.Meta.Error.{Result, ok, err}
use ddbms.Meta.Oracle.{
  Oracle, Env, max_logical, update_next, update_timestamp, update_to, save_timestamp_to_path,
  attempt,
}

-- What happens to `current_`: a round of getTimeStamp, or an update by the background thread, whose
-- exception leaves the oracle as it is.
pub data Event : Type 0 where
  get : ℕ → Event
  update : Env → Event

abbrev pub or_kept : Oracle → Result Oracle → Oracle
or_kept o (ok p) = p
or_kept o (err e) = o

unfoldable pub react : Event → Oracle → Option ℕ × Oracle
react (get seen) o = attempt seen o
react (update e) o = (none, or_kept o (update_timestamp e o))

abbrev pub maybe_cons : Option ℕ → List ℕ → List ℕ
maybe_cons none ts = ts
maybe_cons (some t) ts = t ∷ ts

-- The timestamps issued in a run, in order.
unfoldable pub issued : List Event → Oracle → List ℕ
issued [] o = []
issued (e ∷ es) o = let (t, p) = react e o in maybe_cons t (issued es p)

-- No physical time of the run needs more than the 45 bits left for it, and no counter overflows.
abbrev pub Fits : List Event → Oracle → Type 0
Fits [] o = (o.physical < 2 ^ 45) × (o.logical < 2 ^ 62)
Fits (e ∷ es) o = (o.physical < 2 ^ 45) × (o.logical < 2 ^ 62) × Fits es (react e o).1

abbrev pub IsIncreasing : List ℕ → Type 0
IsIncreasing [] = Unit
IsIncreasing (t ∷ ts) = All (λ u. t < u) ts × IsIncreasing ts

-- The greatest timestamp that may have been issued.
abbrev high : Oracle → ℕ
high o = o.physical * 2 ^ 18 + (if ltb max_logical o.logical then max_logical else o.logical)

attempt-high :
    (seen : ℕ) (o : Oracle)
    → o.physical < 2 ^ 45
    → o.logical < 2 ^ 62
    → high o ≤ high (attempt seen o).1
unfolding attempt
attempt-high seen o p l = ground arith

attempt_issues :
    (seen : ℕ) (o : Oracle) (t : ℕ)
    → o.physical < 2 ^ 45
    → o.logical < 2 ^ 62
    → (attempt seen o).0 ≡ some t
    → (high o < t) × (t ≤ high (attempt seen o).1)
unfolding attempt
attempt_issues seen o t p l h = ground arith

update_next_grows :
    (now next : ℕ) (o : Oracle)
    → update_next now o ≡ some next
    → o.physical < 2 ^ 45
    → next < 2 ^ 45
    → o.physical < next
unfolding update_next
update_next_grows now next o h p n = ground arith

-- An update keeps `current_`, or starts it again at a time that `update_next` gives.
update_cases :
    (e : Env) (o : Oracle) (found : Option ℕ)
    → let p = or_kept o (update_to e o found) in
      ((p.physical ≡ o.physical) × (p.logical ≡ o.logical))
      ⊎ ((p.logical ≡ 0) × (found ≡ some p.physical))
unfolding save_timestamp_to_path
update_cases e o none = inl (refl, refl)
update_cases e o (some next) = ground arith

update-high :
    (e : Env) (o : Oracle)
    → o.physical < 2 ^ 45
    → (react (update e) o).1.physical < 2 ^ 45
    → high o ≤ high (react (update e) o).1
unfolding react update_timestamp
update-high e o p q = elim (update_cases e o (update_next e.now o)) [
  | inl same ↦ rw (same.0, same.1) (omega arith)
  | inr new ↦ ground (arith, update_next_grows e.now _ o new.1 p q)
]

Fits-head :
    (es : List Event) (o : Oracle) → Fits es o → (o.physical < 2 ^ 45) × (o.logical < 2 ^ 62)
Fits-head [] o f = f
Fits-head (e ∷ es) o f = (f.0, f.1)

react-high :
    (e : Event) (es : List Event) (o : Oracle) → Fits (e ∷ es) o → high o ≤ high (react e o).1
react-high (get seen) es o f = unfold react in attempt-high seen o f.0 f.1
react-high (update e) es o f = update-high e o f.0 (Fits-head es _ f.2).0

react_issues :
    (e : Event) (o : Oracle) (t : ℕ)
    → o.physical < 2 ^ 45
    → o.logical < 2 ^ 62
    → (react e o).0 ≡ some t
    → (high o < t) × (t ≤ high (react e o).1)
unfolding react
react_issues (get seen) o t p l h = attempt_issues seen o t p l h
react_issues (update e) o t p l h = cc

All-above : (a b : ℕ) (ts : List ℕ) → a ≤ b → All (λ u. b < u) ts → All (λ u. a < u) ts
All-above a b [] h all = tt
All-above a b (t ∷ ts) h (p, all) = (omega arith, All-above a b ts h all)

issued-above : (es : List Event) (o : Oracle) → Fits es o → All (λ u. high o < u) (issued es o)
unfolding issued
issued-above [] o f = tt
issued-above (e ∷ es) o f =
    cons_above (react e o).0 refl
      (All-above (high o) (high (react e o).1) _ (react-high e es o f) (issued-above es _ f.2))
  where
    cons_above :
        (t : Option ℕ)
        → (react e o).0 ≡ t
        → All (λ u. high o < u) (issued es (react e o).1)
        → All (λ u. high o < u) (maybe_cons t (issued es (react e o).1))
    cons_above none h later = later
    cons_above (some t) h later = ((react_issues e o t f.0 f.1 h).0, later)

-- The timestamps of a run grow strictly: over any sequence of rounds of getTimeStamp and
-- updates, failed ones included, in which the physical time stays below 2 ^ 45 and the logical
-- counter below 2 ^ 62.
pub issued-IsIncreasing : (es : List Event) (o : Oracle) → Fits es o → IsIncreasing (issued es o)
unfolding issued
issued-IsIncreasing [] o f = tt
issued-IsIncreasing (e ∷ es) o f = cons_increasing (react e o).0 refl (issued-IsIncreasing es _ f.2)
  where
    cons_increasing :
        (t : Option ℕ)
        → (react e o).0 ≡ t
        → IsIncreasing (issued es (react e o).1)
        → IsIncreasing (maybe_cons t (issued es (react e o).1))
    cons_increasing none h later = later
    cons_increasing (some t) h later = (
      All-above t (high (react e o).1) _ (react_issues e o t f.0 f.1 h).1 (issued-above es _ f.2),
      later,
    )
