-- ===== src/Storage/Block/Finish.antt =====
-- What a builder wrote is what a block reads: the round trip through `finish` and the constructor.
use ddbms.Base.{
  ℕ, suc, ◌+◌, ◌*◌, ◌-◌, ◌^◌, ◌<◌, ◌≡◌, refl, ap, some, List, [], ◌++◌, length, length-append,
  arith,
}
use ddbms.Base.Words.{u64}
use ddbms.Base.Bytes.{bytes_le, length-bytes_le, read_u64, read_u64-at}
use ddbms.Storage.Builder.{BlockBuilder, new_builder, words_bytes, finish, estimated_size}
use ddbms.Storage.Block.{◌>>=◌, get, read_restarts, open_block}
use ddbms.Storage.Block.RoundTrip.{Entry, lookup, get_loop-lookup}
use mathlib.Core.List.{append_assoc, append-nil}
use ddbms.Storage.Block.Built.{
  IsBuilt, add_all, All-weaken, add_all-IsBuilt, read_restarts-words, length-words_bytes,
}

-- The content of a finished block and what its constructor reads from it.
module _ (b : BlockBuilder) (es : List Entry) (built : IsBuilt b es)
    (small : length (finish b).0 < 2 ^ 64) where
  abbrev content : List ℕ
  content = (finish b).0

  abbrev num : List ℕ
  num = bytes_le 8 (length b.restarts)

  abbrev last : List ℕ
  last = bytes_le 8 (length b.buffer)

  length-content : length content ≡ length b.buffer + 8 * length b.restarts + 16
  unfolding finish
  length-content = omega (
    arith,
    length-append b.buffer (num ++ (words_bytes b.restarts ++ last)),
    length-append num (words_bytes b.restarts ++ last),
    length-append (words_bytes b.restarts) last,
    length-words_bytes b.restarts,
    length-bytes_le 8 (length b.restarts),
    length-bytes_le 8 (length b.buffer),
  )

  read_offset : read_u64 content (length content - 8) ≡ some (length b.buffer)
  unfolding finish
  read_offset =
      read_u64-at (b.buffer ++ (num ++ words_bytes b.restarts)) [] content _ (length b.buffer)
        (simp (append_assoc, append-nil)) place (omega (arith, length-content))
    where
      place : length content - 8 ≡ length (b.buffer ++ (num ++ words_bytes b.restarts))
      place = omega (
        arith,
        length-content,
        length-append b.buffer (num ++ words_bytes b.restarts),
        length-append num (words_bytes b.restarts),
        length-words_bytes b.restarts,
        length-bytes_le 8 (length b.restarts),
      )

  read_num : read_u64 content (length b.buffer) ≡ some (length b.restarts)
  unfolding finish
  read_num =
      read_u64-at b.buffer (words_bytes b.restarts ++ last) content _ (length b.restarts) refl refl
        (omega (arith, length-content))

  read_all :
      read_restarts (length content) content (u64 (length b.buffer + 8)) (length content - 8)
      ≡ some b.restarts
  unfolding finish
  read_all = rw start (
      read_restarts-words (length content) b.restarts (b.buffer ++ num) content last
        (length content - 8) (simp append_assoc) (omega (arith, length-content, start))
        (omega (arith, length-content)) small
        (All-weaken (length b.buffer) (length content) b.restarts (omega (arith, length-content))
          built.within)
        (omega (arith, length-content)))
    where
      start : u64 (length b.buffer + 8) ≡ length (b.buffer ++ num)
      start = omega (
        arith,
        small,
        length-content,
        length-append b.buffer num,
        length-bytes_le 8 (length b.restarts),
      )

  -- The constructor finds the restart array that `finish` wrote.
  pub open_built :
      open_block content
      ≡ some (record {
        block_content = content;
        restart_offset = length b.buffer;
        restart_size = length b.restarts;
        restarts = b.restarts;
      })
  unfolding open_block
  open_built = rw (read_offset, read_num, read_all)

pub new_builder-IsBuilt : IsBuilt new_builder []
new_builder-IsBuilt = record { bytes = refl; within = (omega arith, tt) }

-- A block that is built by accepted `add`s and finished, and stays below 2 ^ 64 bytes, is opened
-- without a fault, and `get` answers each key with its first value in it, or that there is none.
pub get-finish :
    (es : List Entry) (b : BlockBuilder) (key : List ℕ)
    → add_all es new_builder ≡ some b
    → length (finish b).0 < 2 ^ 64
    → (open_block (finish b).0 >>= λ block. get block key) ≡ some (lookup key es)
unfolding get finish
get-finish es b key e small = rw (open_built b es built small) (
    get_loop-lookup (suc (length b.buffer)) _ key [] es
      (bytes_le 8 (length b.restarts) ++ (words_bytes b.restarts ++ bytes_le 8 (length b.buffer)))
      (ap
        (λ (l : List ℕ).
          l
          ++ (bytes_le 8 (length b.restarts)
              ++ (words_bytes b.restarts ++ bytes_le 8 (length b.buffer))))
        built.bytes)
      small (ap (λ (l : List ℕ). length l) built.bytes) (omega arith))
  where
    built : IsBuilt b es
    built = add_all-IsBuilt es [] new_builder b e new_builder-IsBuilt

-- `estimated_size` is the exact size of the string that `finish` returns.
pub length-finish : (b : BlockBuilder) → length (finish b).0 ≡ estimated_size b
unfolding finish estimated_size
length-finish b = omega (
  arith,
  length-append b.buffer
      (bytes_le 8 (length b.restarts) ++ (words_bytes b.restarts ++ bytes_le 8 (length b.buffer))),
  length-append (bytes_le 8 (length b.restarts))
      (words_bytes b.restarts ++ bytes_le 8 (length b.buffer)),
  length-append (words_bytes b.restarts) (bytes_le 8 (length b.buffer)),
  length-words_bytes b.restarts,
  length-bytes_le 8 (length b.restarts),
  length-bytes_le 8 (length b.buffer),
)
