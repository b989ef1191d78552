-- ===== src/Storage/SsTable/Walk.antt =====
-- src/storage/Block.cpp: the iterator of a block that a builder made goes through its entries.
use ddbms.Base.{
  ℕ, ◌+◌, ◌^◌, ◌<◌, ◌≡◌, refl, ap, sym, ◌∙◌, subst, true, false, Option, some, List, [], ◌∷◌, ◌++◌,
  length, length-append, append_assoc, ltb, arith, if◌then◌else◌,
}
use ddbms.Base.Bytes.{bytes_le}
use ddbms.Storage.Builder.{BlockBuilder, entry_bytes, words_bytes, finish, estimated_size}
use ddbms.Storage.Block.{
  ◌>>=◌, Block, Iter, new_iterator, valid, when_valid, extract_keyvalue, seek_to_first, next,
  next_offset,
}
use ddbms.Storage.Block.RoundTrip.{
  Entry, encode, length-entry_bytes, read_key_size, read_key, read_value_size, read_value,
}
use ddbms.Storage.Block.Built.{IsBuilt, encode-append}
use ddbms.Storage.Block.Finish.{length-finish}

-- What an iterator holds that has entries ahead of it.
unfoldable pub Reads : List Entry → Iter → Type 0
Reads [] it = Unit
Reads ((k, v) ∷ es) it = (it.key ≡ k) × (it.value ≡ v)

module _ (b : BlockBuilder) (all : List Entry) (built : IsBuilt b all)
    (small : length (finish b).0 < 2 ^ 64) where
  abbrev pub opened : Block
  opened = record {
    block_content = (finish b).0;
    restart_offset = length b.buffer;
    restart_size = length b.restarts;
    restarts = b.restarts;
  }

  -- The iterator between two parts of the entries.
  pub record IsBetween (it : Iter) (pre es : List Entry) : Type 0 where
    pub parts : all ≡ pre ++ es
    pub block : it.block ≡ opened
    pub current : it.current ≡ length (encode pre)
    pub reads : Reads es it

  content_at :
      (pre : List Entry) (k v : List ℕ) (es : List Entry)
      → all ≡ pre ++ (k, v) ∷ es
      → (more : List ℕ) × ((finish b).0 ≡ encode pre ++ (entry_bytes k v ++ more))
  unfolding finish
  content_at pre k v es e = (
    encode es ++ tail,
    ap (λ l. l ++ tail) (built.bytes ∙ ap encode e ∙ encode-append pre ((k, v) ∷ es))
        ∙ append_assoc (encode pre) (entry_bytes k v ++ encode es) tail
        ∙ ap (λ l. encode pre ++ l) (append_assoc (entry_bytes k v) (encode es) tail),
  )
    where
      tail : List ℕ
      tail =
          bytes_le 8 (length b.restarts) ++ (words_bytes b.restarts ++ bytes_le 8 (length b.buffer))

  size_before :
      (pre es : List Entry)
      → all ≡ pre ++ es
      → length b.buffer ≡ length (encode pre) + length (encode es)
  size_before pre es e =
      ap length (built.bytes ∙ ap encode e ∙ encode-append pre es)
      ∙ length-append (encode pre) (encode es)

  -- The offset of an iterator between two parts.
  abbrev iter_at : List Entry → List ℕ → List ℕ → Iter
  iter_at pre k v = record { block = opened; current = length (encode pre); key = k; value = v }

  valid_at :
      (pre : List Entry) (k v : List ℕ) (es : List Entry)
      → all ≡ pre ++ (k, v) ∷ es
      → ltb (length (encode pre)) (length b.buffer) ≡ true
  valid_at pre k v es e = ground (
    arith,
    size_before pre ((k, v) ∷ es) e,
    length-append (entry_bytes k v) (encode es),
    length-entry_bytes k v,
  )

  at_end :
      (pre : List Entry) → all ≡ pre ++ [] → ltb (length (encode pre)) (length b.buffer) ≡ false
  at_end pre e = ground (arith, size_before pre [] e)

  extract_at :
      (pre : List Entry) (k v : List ℕ) (es : List Entry) (k₀ v₀ : List ℕ)
      → all ≡ pre ++ (k, v) ∷ es
      → extract_keyvalue (iter_at pre k₀ v₀) ≡ some (iter_at pre k v)
  unfolding extract_keyvalue
  extract_at pre k v es k₀ v₀ e =
      let c = content_at pre k v es e in
      rw
        (
          valid_at pre k v es e,
          if◌then◌else◌,
          read_key_size (encode pre) k v (c.0) ((finish b).0) (c.1) small,
          ◌>>=◌,
          read_key (encode pre) k v (c.0) ((finish b).0) (c.1) small,
          ◌>>=◌,
          read_value_size (encode pre) k v (c.0) ((finish b).0) (c.1) small,
          ◌>>=◌,
          read_value (encode pre) k v (c.0) ((finish b).0) (c.1) small,
          ◌>>=◌,
        )
        refl

  pub record Between (o : Option Iter) (pre es : List Entry) : Type 0 where
    pub iter : Iter
    pub result : o ≡ some iter
    pub between : IsBetween iter pre es

  when_valid_lem :
      (pre es : List Entry) (k₀ v₀ : List ℕ)
      → all ≡ pre ++ es
      → Between (when_valid (iter_at pre k₀ v₀)) pre es
  unfolding Reads
  when_valid_lem pre [] k₀ v₀ e = record {
    iter = iter_at pre k₀ v₀;
    result = rw (at_end pre e, if◌then◌else◌) refl;
    between = record { parts = e; block = refl; current = refl; reads = tt };
  }
  when_valid_lem pre ((k, v) ∷ es) k₀ v₀ e = record {
    iter = iter_at pre k v;
    result = rw (valid_at pre k v es e, if◌then◌else◌) (extract_at pre k v es k₀ v₀ e);
    between = record { parts = e; block = refl; current = refl; reads = (refl, refl) };
  }

  pub seek_to_first-Between : Between (seek_to_first (new_iterator opened)) [] all
  unfolding seek_to_first
  seek_to_first-Between = when_valid_lem [] all [] [] refl

  pub next-Between :
      (it : Iter) (pre : List Entry) (k v : List ℕ) (es : List Entry)
      → IsBetween it pre ((k, v) ∷ es)
      → Between (next it) (pre ++ (k, v) ∷ []) es
  unfolding next Reads estimated_size
  next-Between it pre k v es w =
      let parts = w.parts ∙ sym (append_assoc pre ((k, v) ∷ []) es) in
      subst (λ n. Between (when_valid (record it { current = n })) (pre ++ (k, v) ∷ []) es)
        (sym place)
        (subst
          (λ bl.
            Between
              (when_valid (record {
                block = bl;
                current = length (encode (pre ++ (k, v) ∷ []));
                key = it.key;
                value = it.value;
              }))
              (pre ++ (k, v) ∷ []) es)
          (sym w.block) (when_valid_lem (pre ++ (k, v) ∷ []) es it.key it.value parts))
    where
      place : next_offset it ≡ length (encode (pre ++ (k, v) ∷ []))
      place = omega (
        arith,
        w.current,
        ap length (w.reads.0),
        ap length (w.reads.1),
        ap length (encode-append pre ((k, v) ∷ [])),
        length-append (encode pre) (entry_bytes k v ++ []),
        length-append (entry_bytes k v) [],
        length-entry_bytes k v,
        size_before pre ((k, v) ∷ es) w.parts,
        length-append (entry_bytes k v) (encode es),
        length-finish b,
        small,
      )

  pub valid-Between :
      (it : Iter) (pre : List Entry) (k v : List ℕ) (es : List Entry)
      → IsBetween it pre ((k, v) ∷ es)
      → valid it ≡ true
  valid-Between it pre k v es w = rw (w.current, w.block) (valid_at pre k v es w.parts)

  pub invalid-Between : (it : Iter) (pre : List Entry) → IsBetween it pre [] → valid it ≡ false
  invalid-Between it pre w = rw (w.current, w.block) (at_end pre w.parts)
