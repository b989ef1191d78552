-- ===== src/Storage/Block/Built.antt =====
-- What a sequence of accepted calls of `add` leaves in the builder (src/storage/BlockBuilder.cpp).
use ddbms.Base.{
  ℕ, zero, suc, ◌+◌, ◌*◌, ◌^◌, ◌≤◌, ◌<◌, ◌≡◌, refl, sym, ap, ◌∙◌, subst, true, Option, some, List,
  [], ◌∷◌, ◌++◌, length, length-append, ltb, ◌==◌, arith, All, Bool-cases, Option-cases, if_some,
  some_value, none_absurd, inl, inr,
}
use ddbms.Base.Words.{u64}
use ddbms.Base.Bytes.{bytes_le, length-bytes_le, read_u64, read_u64-at}
use ddbms.Storage.Builder.{
  BlockBuilder, entry_bytes, add, add_allowed, append_entry, write_restart, words_bytes,
  restart_interval,
}
use ddbms.Storage.Block.{◌>>=◌, read_restarts}
use ddbms.Storage.Block.RoundTrip.{Entry, encode}
use mathlib.Core.List.{append_assoc, append-nil}

-- What every sequence of accepted `add`s leaves: the entries' bytes, and restart points within.
pub record IsBuilt (b : BlockBuilder) (es : List Entry) : Type 0 where
  pub bytes : b.buffer ≡ encode es
  pub within : All (λ r. r ≤ length b.buffer) b.restarts

-- `add` on each entry in turn.
unfoldable pub add_all : List Entry → BlockBuilder → Option BlockBuilder
add_all [] b = some b
add_all ((k, v) ∷ es) b = do b' ← add k v b; add_all es b'

pub All-weaken : (m n : ℕ) (rs : List ℕ) → m ≤ n → All (λ r. r ≤ m) rs → All (λ r. r ≤ n) rs
All-weaken m n [] h a = tt
All-weaken m n (r ∷ rs) h (p, a) = (omega arith, All-weaken m n rs h a)

All-append {κ} : (P : ℕ → Type κ) (xs ys : List ℕ) → All P xs → All P ys → All P (xs ++ ys)
All-append P [] ys a b = b
All-append P (x ∷ xs) ys (p, a) b = (p, All-append P xs ys a b)

pub encode-append : (xs ys : List Entry) → encode (xs ++ ys) ≡ encode xs ++ encode ys
encode-append [] ys = refl
encode-append ((k, v) ∷ xs) ys =
    ap (λ l. entry_bytes k v ++ l) (encode-append xs ys) ∙ simp append_assoc

write_restart-IsBuilt :
    (b : BlockBuilder) (es : List Entry) → IsBuilt b es → IsBuilt (write_restart b) es
write_restart-IsBuilt b es h = elim (Bool-cases (b.counter == restart_interval)) [
  | inl due ↦ rw due (record {
    bytes = h.bytes;
    within = All-append (λ r. r ≤ length b.buffer) b.restarts _ h.within (omega arith, tt);
  })
  | inr early ↦ rw early h
]

append_entry-IsBuilt :
    (k v : List ℕ) (b : BlockBuilder) (es : List Entry)
    → IsBuilt b es
    → IsBuilt (append_entry k v b) (es ++ (k, v) ∷ [])
append_entry-IsBuilt k v b es h = record {
  bytes =
      ap (λ l. l ++ entry_bytes k v) h.bytes
      ∙ sym (encode-append es ((k, v) ∷ []) ∙ simp append-nil);
  within =
      All-weaken (length b.buffer) (length (b.buffer ++ entry_bytes k v)) b.restarts
        (omega (arith, length-append b.buffer (entry_bytes k v))) h.within;
}

add-IsBuilt :
    (k v : List ℕ) (b c : BlockBuilder) (es : List Entry)
    → add k v b ≡ some c
    → IsBuilt b es
    → IsBuilt c (es ++ (k, v) ∷ [])
unfolding add
add-IsBuilt k v b c es e h =
    subst (λ d. IsBuilt d (es ++ (k, v) ∷ [])) (if_some (add_allowed k b) _ c e).1
      (append_entry-IsBuilt k v (write_restart b) es (write_restart-IsBuilt b es h))

pub add_all-IsBuilt :
    (es pre : List Entry) (b c : BlockBuilder)
    → add_all es b ≡ some c
    → IsBuilt b pre
    → IsBuilt c (pre ++ es)
unfolding add_all
add_all-IsBuilt [] pre b c e h =
    subst (λ d. IsBuilt d (pre ++ [])) (some_value b c e) (rw append-nil h)
add_all-IsBuilt ((k, v) ∷ es) pre b c e h = elim (Option-cases (add k v b)) [
  | inl p ↦ absurd (none_absurd c (rw p at e))
  | inr (b', p) ↦
      rw (← append_assoc pre ((k, v) ∷ []) es)
        (add_all-IsBuilt es (pre ++ (k, v) ∷ []) b' c (rw p at e) (add-IsBuilt k v b b' pre p h))
]

pub read_restarts-words :
    (fuel : ℕ) (rs pre content tail : List ℕ) (end : ℕ)
    → content ≡ pre ++ (words_bytes rs ++ tail)
    → end ≡ length pre + 8 * length rs
    → end + 8 ≤ length content
    → length content < 2 ^ 64
    → All (λ r. r ≤ length content) rs
    → length rs < fuel
    → read_restarts fuel content (length pre) end ≡ some rs
unfolding read_restarts words_bytes
read_restarts-words zero rs pre content tail end c e s small a f = absurd (omega arith)
read_restarts-words (suc fuel) [] pre content tail end c e s small a f = ground arith
read_restarts-words (suc fuel) (r ∷ rs) pre content tail end c e s small (p, a) f = rw (
  before,
  first,
  onward,
  read_restarts-words fuel rs (pre ++ bytes_le 8 r) content tail end (c ∙ simp append_assoc)
      (omega (arith, e, step)) s small a (omega arith),
)
  where
    step : length (pre ++ bytes_le 8 r) ≡ length pre + 8
    step = omega (arith, length-append pre (bytes_le 8 r), length-bytes_le 8 r)

    before : ltb (length pre) end ≡ true
    before = ground (arith, e)

    first : read_u64 content (length pre) ≡ some r
    first =
        read_u64-at pre (words_bytes rs ++ tail) content (length pre) r (c ∙ simp append_assoc) refl
          (omega arith)

    onward : u64 (length pre + 8) ≡ length (pre ++ bytes_le 8 r)
    onward = omega (arith, e, step)

pub length-words_bytes : (rs : List ℕ) → length (words_bytes rs) ≡ 8 * length rs
unfolding words_bytes
length-words_bytes [] = omega arith
length-words_bytes (r ∷ rs) = omega (
  arith,
  length-append (bytes_le 8 r) (words_bytes rs),
  length-bytes_le 8 r,
  length-words_bytes rs,
)
