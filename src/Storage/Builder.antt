-- ===== src/Storage/Builder.antt =====
-- src/storage/BlockBuilder.cpp. A failed assertion is `none`.
use ddbms.Base.{
  ℕ, ◌+◌, ◌*◌, Bool, true, false, not, ◌&&◌, ◌||◌, Option, none, some, List, [], ◌∷◌, ◌++◌, length,
  leb, ◌==◌, if◌then◌else◌,
}
use ddbms.Base.Bytes.{bytes_le, bytes_lt}

-- Option::RESTART_INTERVAL
abbrev pub restart_interval : ℕ
restart_interval = 20

pub record BlockBuilder : Type 0 where
  pub buffer : List ℕ
  pub last_key : List ℕ
  pub restarts : List ℕ
  pub counter : ℕ
  pub finished : Bool

-- The constructor; `reset` leaves the same state.
abbrev pub new_builder : BlockBuilder
new_builder = record {
  buffer = [];
  last_key = [];
  restarts = 0 ∷ [];
  counter = 0;
  finished = false;
}

abbrev pub is_empty {ℓ} : {A : Type ℓ} → List A → Bool
is_empty [] = true
is_empty (x ∷ xs) = false

abbrev pub builder_empty : BlockBuilder → Bool
builder_empty b = is_empty b.buffer

-- One key and value as they stand in a block.
unfoldable pub entry_bytes : List ℕ → List ℕ → List ℕ
entry_bytes key value = bytes_le 8 (length key) ++ (key ++ (bytes_le 8 (length value) ++ value))

-- The restart point before an entry, where one is due.
abbrev pub write_restart : BlockBuilder → BlockBuilder
write_restart b =
    if b.counter == restart_interval
    then record b { restarts = b.restarts ++ length b.buffer ∷ []; counter = 0 }
    else b

abbrev pub append_entry : List ℕ → List ℕ → BlockBuilder → BlockBuilder
append_entry key value b = record b {
  buffer = b.buffer ++ entry_bytes key value;
  last_key = key;
  counter = b.counter + 1;
}

-- The three assertions of `add`.
abbrev pub add_allowed : List ℕ → BlockBuilder → Bool
add_allowed key b =
    not b.finished
    && (leb b.counter restart_interval && (builder_empty b || bytes_lt b.last_key key))

unfoldable pub add : List ℕ → List ℕ → BlockBuilder → Option BlockBuilder
add key value b =
    if add_allowed key b then some (append_entry key value (write_restart b)) else none

unfoldable pub words_bytes : List ℕ → List ℕ
words_bytes [] = []
words_bytes (r ∷ rs) = bytes_le 8 r ++ words_bytes rs

-- The string that `finish` returns, and the builder that it leaves.
unfoldable pub finish : BlockBuilder → List ℕ × BlockBuilder
finish b =
    let buffer =
      b.buffer
      ++ (bytes_le 8 (length b.restarts)
          ++ (words_bytes b.restarts ++ bytes_le 8 (length b.buffer))) in
    (buffer, record b { buffer = buffer; finished = true })

unfoldable pub reset : BlockBuilder → BlockBuilder
reset b = new_builder

unfoldable pub estimated_size : BlockBuilder → ℕ
estimated_size b = length b.buffer + length b.restarts * 8 + 8 * 2
