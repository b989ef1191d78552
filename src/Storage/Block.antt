-- ===== src/Storage/Block.antt =====
-- src/storage/Block.cpp: the reader of a block, and its iterator. Undefined behaviour, an
-- exception and a failed assertion are `none`; offsets are uint64_t and wrap around.
pub mod RoundTrip
pub mod Built
pub mod Finish
use ddbms.Base.{
  ℕ, zero, suc, ◌+◌, ◌-◌, Bool, true, false, not, Option, none, some, List, [], ◌∷◌, length, leb,
  ltb, if◌then◌else◌,
}
use mathlib.Core.Option
use ddbms.Base.Words.{u64}
use ddbms.Base.Bytes.{bytes_eq, bytes_lt, read_u64, substr}

infixl 5 ◌>>=◌
abbrev pub ◌>>=◌ {ℓ κ} : {A : Type ℓ} {B : Type κ} → Option A → (A → Option B) → Option B
none >>= f = none
some a >>= f = f a

pub record Block : Type 0 where
  pub block_content : List ℕ
  pub restart_offset : ℕ
  pub restart_size : ℕ
  pub restarts : List ℕ

-- The constructor's loop over [i, end); the fuel is the size of the content.
unfoldable pub read_restarts : ℕ → List ℕ → ℕ → ℕ → Option (List ℕ)
read_restarts zero content i end = none
read_restarts (suc fuel) content i end =
    let rest = read_restarts fuel content (u64 (i + 8)) end in
    if ltb i end then (do r ← read_u64 content i; rs ← rest; some (r ∷ rs)) else some []

unfoldable pub open_block : List ℕ → Option Block
open_block content = do
  restart_offset ← read_u64 content (length content - 8)
  restart_size ← read_u64 content restart_offset
  restarts ← read_restarts (length content) content (u64 (restart_offset + 8)) (length content - 8)
  some (record {
    block_content = content;
    restart_offset = restart_offset;
    restart_size = restart_size;
    restarts = restarts;
  })

-- What one round of `get` reads at an offset: the key, its value, and the offset of the next entry.
pub record EntryAt : Type 0 where
  pub key : List ℕ
  pub value_offset : ℕ
  pub value_size : ℕ
  pub next : ℕ

unfoldable pub read_entry : List ℕ → ℕ → Option EntryAt
read_entry content pos = do
  key_size ← read_u64 content pos
  let value_offset = u64 (pos + 8 + key_size)
  value_size ← read_u64 content value_offset
  key ← substr content (u64 (pos + 8)) key_size
  some (record {
    key = key;
    value_offset = value_offset;
    value_size = value_size;
    next = u64 (value_offset + value_size + 8);
  })

abbrev pub found : List ℕ → Bool × List ℕ
found value = (true, value)

-- The loop of `get`; each round goes on by 16 bytes at least, so the restart offset is fuel enough.
unfoldable pub get_loop : ℕ → Block → List ℕ → ℕ → Option (Bool × List ℕ)
get_loop zero b key pos = none
get_loop (suc fuel) b key pos =
    if ltb pos b.restart_offset
    then (do
      e ← read_entry b.block_content pos
      let rest = get_loop fuel b key e.next
      if bytes_eq e.key key
          then Option.map found (substr b.block_content (u64 (e.value_offset + 8)) e.value_size)
          else rest)
    else some (false, [])

unfoldable pub get : Block → List ℕ → Option (Bool × List ℕ)
get b key = get_loop (suc b.restart_offset) b key 0

-- Block::Iter
pub record Iter : Type 0 where
  pub block : Block
  pub current : ℕ
  pub key : List ℕ
  pub value : List ℕ

abbrev pub new_iterator : Block → Iter
new_iterator b = record { block = b; current = b.restart_offset; key = []; value = [] }

abbrev pub valid : Iter → Bool
valid it = ltb it.current it.block.restart_offset

unfoldable pub extract_keyvalue : Iter → Option Iter
extract_keyvalue it = if not (valid it) then none else (do
  key_size ← read_u64 it.block.block_content it.current
  key ← substr it.block.block_content (u64 (it.current + 8)) key_size
  let value_offset = u64 (it.current + 8 + key_size)
  value_size ← read_u64 it.block.block_content value_offset
  value ← substr it.block.block_content (u64 (value_offset + 8)) value_size
  some (record it { key = key; value = value }))

abbrev pub when_valid : Iter → Option Iter
when_valid it = if valid it then extract_keyvalue it else some it

unfoldable pub seek_to_first : Iter → Option Iter
seek_to_first it = when_valid (record it { current = 0 })

abbrev pub next_offset : Iter → ℕ
next_offset it = u64 (it.current + 16 + length it.key + length it.value)

unfoldable pub next : Iter → Option Iter
next it = when_valid (record it { current = next_offset it })

-- Prev does nothing.
unfoldable pub prev : Iter → Option Iter
prev it = some it

-- The loop of SeekToLast.
unfoldable pub last_loop : ℕ → Iter → Option Iter
last_loop zero it = none
last_loop (suc fuel) it =
    if leb it.block.restart_offset (next_offset it)
    then some it
    else (do it' ← next it; last_loop fuel it')

abbrev pub get_last? : List ℕ → Option ℕ
get_last? [] = none
get_last? (x ∷ []) = some x
get_last? (x ∷ y ∷ ys) = get_last? (y ∷ ys)

unfoldable pub seek_to_last : Iter → Option Iter
seek_to_last it = do
  restart ← get_last? it.block.restarts
  it' ← extract_keyvalue (record it { current = restart })
  last_loop (suc it.block.restart_offset) it'

-- The loop of Seek.
unfoldable pub seek_loop : ℕ → List ℕ → Iter → Option Iter
seek_loop zero key it = none
seek_loop (suc fuel) key it =
    if bytes_lt it.key key
    then (do it' ← next it; if not (valid it') then some it' else seek_loop fuel key it')
    else some it

-- Past the last key there is no position; otherwise the search runs from the first entry.
unfoldable pub seek_from_first : List ℕ → Iter → Option Iter
seek_from_first key last =
    if bytes_lt last.key key
    then some (record last { current = last.block.restart_offset })
    else (do first ← seek_to_first last; seek_loop (suc last.block.restart_offset) key first)

unfoldable pub seek : List ℕ → Iter → Option Iter
seek key it = do last ← seek_to_last it; seek_from_first key last

abbrev pub iter_key : Iter → Option (List ℕ)
iter_key it = if valid it then some it.key else none

abbrev pub iter_value : Iter → Option (List ℕ)
iter_value it = if valid it then some it.value else none
