-- ===== src/Meta/Error.antt =====
-- meta_server/defs.h
use ddbms.Base.{◌≡◌, refl, ◌⊎◌, inl, inr}

pub data MetaServerError : Type 0 where
  no_database no_table partition_key_not_true partition_type_not_true : MetaServerError
  no_partition_or_replica no_meta_dir unix_error : MetaServerError

-- How a call fails: a MetaServerErrorException, the exceptions of std::stoi, or a statement whose
-- behaviour is undefined, as a null pointer's dereference.
pub data Failure : Type 0 where
  meta_error : MetaServerError → Failure
  invalid_number undefined : Failure

pub data Result {ℓ} (A : Type ℓ) : Type ℓ where
  ok : A → Result A
  err : Failure → Result A

infixl 5 ◌>>=◌
abbrev pub ◌>>=◌ {ℓ κ} : {A : Type ℓ} {B : Type κ} → Result A → (A → Result B) → Result B
ok a >>= f = f a
err e >>= f = err e

pub err_absurd {ℓ} : {A : Type ℓ} {f : Failure} {x : A} → err f ≡ ok x → ⊥
err_absurd e = cc

pub Result-cases {ℓ} :
    {A : Type ℓ} (r : Result A) → ((a : A) × (r ≡ ok a)) ⊎ ((f : Failure) × (r ≡ err f))
Result-cases (ok a) = inl (a, refl)
Result-cases (err f) = inr (f, refl)

pub ok_value {ℓ} : {A : Type ℓ} (x y : A) → ok x ≡ ok y → x ≡ y
ok_value x y e = cc
