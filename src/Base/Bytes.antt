-- ===== src/Base/Bytes.antt =====
-- Byte strings: little-endian numbers, std::string comparison, and reads from a buffer. A read out
-- of bounds, which C++ leaves undefined or answers by an exception, is `none`.
use Prim.Native.Nat.{ℕ, zero, suc, ◌+◌, ◌*◌, ◌/◌, ◌%◌, ◌^◌, ◌<◌}
use mathlib.Core.Path.{◌≡◌, refl, ap, ◌∙◌, subst}
use mathlib.Core.Logic.{◌↔◌}
use mathlib.Core.Bool.{Bool, true, false, ◌&&◌}
use mathlib.Core.Option.{Option, none, some}
use mathlib.Core.List.{List, [], ◌∷◌, ◌++◌}
use native.Mathlib.Omega.{arith}
use native.Mathlib.Nat.{pow-suc}
use ddbms.Base.Tests.{ltb, leb, ◌==◌, if◌then◌else◌}
use ddbms.Base.Lists.{length, take, drop, length-append, take-append}

-- The object representation of an unsigned integer of `k` bytes on a little-endian machine.
unfoldable pub bytes_le : ℕ → ℕ → List ℕ
bytes_le zero x = []
bytes_le (suc k) x = (x % 256) ∷ bytes_le k (x / 256)

unfoldable pub value_le : List ℕ → ℕ
value_le [] = 0
value_le (b ∷ bs) = b + 256 * value_le bs

pub length-bytes_le : (k x : ℕ) → length (bytes_le k x) ≡ k
unfolding bytes_le
length-bytes_le zero x = refl
length-bytes_le (suc k) x = ap suc (length-bytes_le k (x / 256))

pub value_le-bytes_le : (k x : ℕ) → x < 256 ^ k → value_le (bytes_le k x) ≡ x
unfolding bytes_le value_le
value_le-bytes_le zero x h = omega arith
value_le-bytes_le (suc k) x h =
    omega (arith, value_le-bytes_le k (x / 256) (omega (arith, pow-suc 256 k)))

-- operator== of std::string.
unfoldable pub bytes_eq : List ℕ → List ℕ → Bool
bytes_eq [] [] = true
bytes_eq [] (y ∷ ys) = false
bytes_eq (x ∷ xs) [] = false
bytes_eq (x ∷ xs) (y ∷ ys) = (x == y) && bytes_eq xs ys

pub bytes_eq_sound : (xs ys : List ℕ) → bytes_eq xs ys ≡ true → xs ≡ ys
unfolding bytes_eq
bytes_eq_sound [] [] h = refl
bytes_eq_sound [] (y ∷ ys) h = cc
bytes_eq_sound (x ∷ xs) [] h = cc
bytes_eq_sound (x ∷ xs) (y ∷ ys) h = ground (arith, bytes_eq_sound xs ys)

pub bytes_eq_refl : (xs : List ℕ) → bytes_eq xs xs ≡ true
unfolding bytes_eq
bytes_eq_refl [] = refl
bytes_eq_refl (x ∷ xs) = ground (arith, bytes_eq_refl xs)

pub bytes_eq_iff : (xs ys : List ℕ) → (bytes_eq xs ys ≡ true) ↔ (xs ≡ ys)
bytes_eq_iff xs ys =
    (bytes_eq_sound xs ys, λ e. subst (λ l. bytes_eq xs l ≡ true) e (bytes_eq_refl xs))

-- operator< of std::string: lexicographic, by unsigned bytes.
unfoldable pub bytes_lt : List ℕ → List ℕ → Bool
bytes_lt xs [] = false
bytes_lt [] (y ∷ ys) = true
bytes_lt (x ∷ xs) (y ∷ ys) = if ltb x y then true else if x == y then bytes_lt xs ys else false

-- memcpy of a uint64_t out of a buffer.
unfoldable pub read_u64 : List ℕ → ℕ → Option ℕ
read_u64 c off = if leb (off + 8) (length c) then some (value_le (take 8 (drop off c))) else none

-- std::string::substr.
unfoldable pub substr : List ℕ → ℕ → ℕ → Option (List ℕ)
substr c off n = if leb off (length c) then some (take n (drop off c)) else none

pub drop-length-add {ℓ} :
    {A : Type ℓ} (pre rest : List A) (n : ℕ) → drop (length pre + n) (pre ++ rest) ≡ drop n rest
drop-length-add [] rest n = ap (λ t. drop t rest) (omega arith)
drop-length-add (x ∷ pre) rest n =
    ap (λ t. drop t (x ∷ (pre ++ rest))) (suc_add (length pre) n) ∙ drop-length-add pre rest n
  where
    suc_add : (a b : ℕ) → suc a + b ≡ suc (a + b)
    suc_add a b = omega arith

pub drop-length {ℓ} : {A : Type ℓ} (pre rest : List A) → drop (length pre) (pre ++ rest) ≡ rest
drop-length [] rest = refl
drop-length (x ∷ pre) rest = drop-length pre rest

pub read_u64-bytes_le :
    (pre rest : List ℕ) (x : ℕ)
    → x < 2 ^ 64
    → read_u64 (pre ++ (bytes_le 8 x ++ rest)) (length pre) ≡ some x
unfolding read_u64
read_u64-bytes_le pre rest x h = ground (
  arith,
  drop-length pre (bytes_le 8 x ++ rest),
  subst (λ n. take n (bytes_le 8 x ++ rest) ≡ bytes_le 8 x) (length-bytes_le 8 x)
      (take-append (bytes_le 8 x) rest),
  value_le-bytes_le 8 x (omega arith),
  length-append pre (bytes_le 8 x ++ rest),
  length-append (bytes_le 8 x) rest,
  length-bytes_le 8 x,
)

pub substr-append :
    (pre s rest : List ℕ) → substr (pre ++ (s ++ rest)) (length pre) (length s) ≡ some s
unfolding substr
substr-append pre s rest =
    ground (arith, drop-length pre (s ++ rest), take-append s rest, length-append pre (s ++ rest))

-- The same reads at a place that is given by equations.
pub read_u64-at :
    (pre rest c : List ℕ) (off x : ℕ)
    → c ≡ pre ++ (bytes_le 8 x ++ rest)
    → off ≡ length pre
    → x < 2 ^ 64
    → read_u64 c off ≡ some x
read_u64-at pre rest c off x p q h = rw (p, q) (read_u64-bytes_le pre rest x h)

pub substr-at :
    (pre s rest c : List ℕ) (off : ℕ)
    → c ≡ pre ++ (s ++ rest)
    → off ≡ length pre
    → substr c off (length s) ≡ some s
substr-at pre s rest c off p q = rw (p, q) (substr-append pre s rest)
