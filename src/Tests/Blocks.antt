-- ===== src/Tests/Blocks.antt =====
-- A block of one entry.
use ddbms.Base.{◌≡◌, refl, false, some, List, [], ◌∷◌, length, arith}
use ddbms.Base.Bytes.{bytes_le}
use ddbms.Storage.Builder.{
  BlockBuilder, new_builder, entry_bytes, add, words_bytes, finish, estimated_size,
}
use ddbms.Storage.Block.{◌>>=◌, open_block, get}
use ddbms.Storage.Block.RoundTrip.{Entry, lookup}
use ddbms.Storage.Block.Finish.{get-finish, length-finish}
use ddbms.Storage.Block.Built.{add_all}

abbrev entries : List Entry
entries = (97 ∷ [], 1 ∷ 2 ∷ []) ∷ []

abbrev built : BlockBuilder
unfolding entry_bytes
built = record {
  buffer = entry_bytes (97 ∷ []) (1 ∷ 2 ∷ []);
  last_key = 97 ∷ [];
  restarts = 0 ∷ [];
  counter = 1;
  finished = false;
}

add_all_test : add_all entries new_builder ≡ some built
unfolding add_all add entry_bytes
add_all_test = refl

get-finish_example :
    (open_block (finish built).0 >>= λ block. get block (97 ∷ [])) ≡ some (lookup (97 ∷ []) entries)
unfolding finish words_bytes entry_bytes bytes_le
get-finish_example = get-finish entries built (97 ∷ []) add_all_test (omega arith)

length-finish_example : length (finish built).0 ≡ estimated_size built
length-finish_example = length-finish built
