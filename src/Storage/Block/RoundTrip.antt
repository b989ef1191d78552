-- ===== src/Storage/Block/RoundTrip.antt =====
-- What a builder wrote is what `Block::get` reads.
use ddbms.Base.{
  ℕ, zero, suc, ◌+◌, ◌^◌, ◌<◌, ◌≡◌, refl, sym, ap, ◌∙◌, Bool, true, false, some, List, [], ◌∷◌,
  ◌++◌, length, length-append, ltb, if◌then◌else◌, arith, Bool-cases, inl, inr,
}
use ddbms.Base.Words.{u64}
use ddbms.Base.Bytes.{bytes_le, length-bytes_le, read_u64, substr, read_u64-at, substr-at, bytes_eq}
use ddbms.Storage.Builder.{entry_bytes}
use ddbms.Storage.Block.{Block, read_entry, get_loop}
use mathlib.Core.List.{append_assoc}

abbrev pub Entry : Type 0
Entry = List ℕ × List ℕ

-- The entries of a block, one after the other.
abbrev pub encode : List Entry → List ℕ
encode [] = []
encode ((key, value) ∷ es) = entry_bytes key value ++ encode es

pub length-entry_bytes : (k v : List ℕ) → length (entry_bytes k v) ≡ length k + length v + 16
unfolding entry_bytes
length-entry_bytes k v = omega (
  arith,
  length-append (bytes_le 8 (length k)) (k ++ (bytes_le 8 (length v) ++ v)),
  length-append k (bytes_le 8 (length v) ++ v),
  length-append (bytes_le 8 (length v)) v,
  length-bytes_le 8 (length k),
  length-bytes_le 8 (length v),
)

-- An entry that stands in a content at the end of `pre`.
module _ (pre k v more c : List ℕ) (here : c ≡ pre ++ (entry_bytes k v ++ more))
    (small : length c < 2 ^ 64) where
  abbrev ks : List ℕ
  ks = bytes_le 8 (length k)

  abbrev vs : List ℕ
  vs = bytes_le 8 (length v)

  -- The content split before the key, before the size of the value, and before the value.
  at_key_size : c ≡ pre ++ (ks ++ (k ++ (vs ++ (v ++ more))))
  unfolding entry_bytes
  at_key_size = here ∙ simp append_assoc

  at_key : c ≡ (pre ++ ks) ++ (k ++ (vs ++ (v ++ more)))
  at_key = at_key_size ∙ simp append_assoc

  at_value_size : c ≡ (pre ++ (ks ++ k)) ++ (vs ++ (v ++ more))
  at_value_size = at_key_size ∙ simp append_assoc

  at_value : c ≡ (pre ++ (ks ++ (k ++ vs))) ++ (v ++ more)
  at_value = at_key_size ∙ simp append_assoc

  sizes : (length ks ≡ 8) × (length vs ≡ 8)
  sizes = (length-bytes_le 8 (length k), length-bytes_le 8 (length v))

  pub size : length c ≡ length pre + (length k + length v + 16) + length more
  size =
      ap length here
      ∙ omega (
        arith,
        length-append pre (entry_bytes k v ++ more),
        length-append (entry_bytes k v) more,
        length-entry_bytes k v,
      )

  pub read_key_size : read_u64 c (length pre) ≡ some (length k)
  read_key_size =
      read_u64-at pre (k ++ (vs ++ (v ++ more))) c (length pre) (length k) at_key_size refl
        (omega (arith, size))

  pub read_key : substr c (u64 (length pre + 8)) (length k) ≡ some k
  read_key =
      substr-at (pre ++ ks) k (vs ++ (v ++ more)) c _ at_key
        (omega (arith, size, sizes, length-append pre ks))

  pub read_value_size : read_u64 c (u64 (length pre + 8 + length k)) ≡ some (length v)
  read_value_size =
      read_u64-at (pre ++ (ks ++ k)) (v ++ more) c _ (length v) at_value_size
        (omega (arith, size, sizes, length-append pre (ks ++ k), length-append ks k))
        (omega (arith, size))

  pub read_value : substr c (u64 (u64 (length pre + 8 + length k) + 8)) (length v) ≡ some v
  read_value = substr-at (pre ++ (ks ++ (k ++ vs))) v more c _ at_value (
      omega (
        arith,
        size,
        sizes,
        length-append pre (ks ++ (k ++ vs)),
        length-append ks (k ++ vs),
        length-append k vs,
      ))

  pub next_at :
      u64 (u64 (length pre + 8 + length k) + length v + 8) ≡ length (pre ++ entry_bytes k v)
  next_at = omega (arith, size, length-append pre (entry_bytes k v), length-entry_bytes k v)

  -- The round of `get` at the entry.
  pub read_entry_at :
      read_entry c (length pre)
      ≡ some (record {
        key = k;
        value_offset = u64 (length pre + 8 + length k);
        value_size = length v;
        next = length (pre ++ entry_bytes k v);
      })
  unfolding read_entry
  read_entry_at = rw (read_key_size, read_value_size, read_key, next_at)

-- The first value that the entries give a key, as `Block::get` answers it.
abbrev pub lookup : List ℕ → List Entry → Bool × List ℕ
lookup key [] = (false, [])
lookup key ((k, v) ∷ es) = if bytes_eq k key then (true, v) else lookup key es

pub get_loop-lookup :
    (fuel : ℕ) (b : Block) (key pre : List ℕ) (es : List Entry) (tail : List ℕ)
    → b.block_content ≡ pre ++ (encode es ++ tail)
    → length b.block_content < 2 ^ 64
    → b.restart_offset ≡ length (pre ++ encode es)
    → b.restart_offset < fuel + length pre
    → get_loop fuel b key (length pre) ≡ some (lookup key es)
unfolding get_loop
get_loop-lookup zero b key pre es tail c small r enough =
    absurd (omega (arith, length-append pre (encode es)))
get_loop-lookup (suc fuel) b key pre [] tail c small r enough =
    ground (arith, length-append pre (encode []))
get_loop-lookup (suc fuel) b key pre ((k, v) ∷ es) tail c small r enough =
    rw (before, read_entry_at pre k v (encode es ++ tail) b.block_content here small)
      (elim (Bool-cases (bytes_eq k key)) [
        | inl same ↦ rw (same, read_value pre k v (encode es ++ tail) b.block_content here small)
        | inr other ↦ rw other (
            get_loop-lookup fuel b key (pre ++ entry_bytes k v) es tail (c ∙ simp append_assoc)
              small
              (r
                ∙ ap (λ (l : List ℕ). length l)
                    (sym (append_assoc pre (entry_bytes k v) (encode es))))
              (omega (arith, enough, length-append pre (entry_bytes k v), length-entry_bytes k v)))
      ])
  where
    here : b.block_content ≡ pre ++ (entry_bytes k v ++ (encode es ++ tail))
    here = c ∙ simp append_assoc

    before : ltb (length pre) b.restart_offset ≡ true
    before = ground (
      arith,
      length-append pre (entry_bytes k v ++ encode es),
      length-append (entry_bytes k v) (encode es),
      length-entry_bytes k v,
    )
