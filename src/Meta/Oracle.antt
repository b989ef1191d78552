-- ===== src/Meta/Oracle.antt =====
-- meta_server/timestamp.h: the hybrid clock that numbers transactions. The system clock and the
-- state of the data directory are arguments; the file `last_timestamp` is a field.
pub mod Order
pub mod Save
use ddbms.Base.{
  ℕ, zero, suc, ◌+◌, ◌*◌, ◌/◌, ◌^◌, Bool, not, Option, none, some, ltb, ◌==◌, if◌then◌else◌,
}
use ddbms.Base.Words.{u64, sub64, signed64_gt, signed32_le}
use ddbms.Meta.Error.{meta_error, no_meta_dir, unix_error, Result, ok, err, ◌>>=◌}

abbrev pub physical_shift_bits : ℕ
physical_shift_bits = 18

abbrev pub max_retry_count : ℕ
max_retry_count = 100

abbrev pub save_timestamp_interval : ℕ
save_timestamp_interval = 1

abbrev pub update_timestamp_guard : ℕ
update_timestamp_guard = 1

abbrev pub max_logical : ℕ
max_logical = 2 ^ 18

-- `current_`, `lastTS`, and the number that the file holds, if it can be read.
pub record Oracle : Type 0 where
  pub last_ts : ℕ
  pub physical : ℕ
  pub logical : ℕ
  pub file : Option ℕ

abbrev pub new_oracle : Option ℕ → Oracle
new_oracle file = record { last_ts = 0; physical = 0; logical = 0; file = file }

-- Whether DATA_DIR is a directory, whether chdir succeeds, and GetPhysical().
pub record Env : Type 0 where
  pub is_dir : Bool
  pub can_enter : Bool
  pub now : ℕ

abbrev pub enter_dir : Env → Result (Unit {0})
enter_dir e =
    if not e.is_dir
    then err (meta_error no_meta_dir)
    else if not e.can_enter
    then err (meta_error unix_error)
    else ok tt

abbrev pub read_number : ℕ → Option ℕ → ℕ
read_number old none = old
read_number old (some n) = n

unfoldable pub get_timestamp_from_path : Env → Oracle → Result Oracle
get_timestamp_from_path e o =
    enter_dir e >>= λ _. ok (record o { last_ts = read_number o.last_ts o.file })

unfoldable pub save_timestamp_to_path : Env → ℕ → Oracle → Result Oracle
save_timestamp_to_path e ts o = enter_dir e >>= λ _. ok (record o { file = some ts })

-- The physical time to start from; the difference is unsigned.
unfoldable pub sync_next : ℕ → ℕ → ℕ
sync_next now last_ts =
    if ltb (sub64 now last_ts) update_timestamp_guard
    then u64 (last_ts + update_timestamp_guard)
    else now

abbrev pub restart_at : ℕ → Oracle → Oracle
restart_at next o = record o { physical = next; logical = 0 }

unfoldable pub sync_timestamp : Env → Oracle → Result Oracle
unfolding get_timestamp_from_path save_timestamp_to_path
sync_timestamp e o = do
  read ← get_timestamp_from_path e o
  let next = sync_next e.now read.last_ts
  saved ← save_timestamp_to_path e (u64 (next + save_timestamp_interval)) read
  ok (restart_at next saved)

-- The physical time to go on to, if it is time to.
unfoldable pub update_next : ℕ → Oracle → Option ℕ
update_next now o =
    if signed64_gt (sub64 now o.physical) update_timestamp_guard
    then some now
    else if ltb (max_logical / 2) o.logical
    then some (u64 (o.physical + 1))
    else none

-- signed(lastTS - next) <= signed(updateTimestampGuard), where `signed` is `int`.
unfoldable pub save_due : ℕ → ℕ → Bool
save_due last_ts next = signed32_le (sub64 last_ts next) update_timestamp_guard

abbrev pub save_if_due : Env → ℕ → Oracle → Result Oracle
save_if_due e next o =
    if save_due o.last_ts next
    then save_timestamp_to_path e (u64 (next + save_timestamp_interval)) o
    else ok o

abbrev pub update_to : Env → Oracle → Option ℕ → Result Oracle
update_to e o none = ok o
update_to e o (some next) = save_if_due e next o >>= λ saved. ok (restart_at next saved)

unfoldable pub update_timestamp : Env → Oracle → Result Oracle
unfolding update_next
update_timestamp e o = update_to e o (update_next e.now o)

unfoldable pub compose_ts : ℕ → ℕ → ℕ
compose_ts physical logical = u64 (u64 (physical * 2 ^ 18) + logical)

unfoldable pub extract_physical : ℕ → ℕ
extract_physical ts = ts / 2 ^ 18

-- One round of getTimeStamp. `seen` is `current_.physiacl` when it is read again after the latch
-- has been released.
unfoldable pub attempt : ℕ → Oracle → Option ℕ × Oracle
unfolding compose_ts
attempt seen o =
    let logic = u64 (o.logical + 1) in
    let o' = record o { logical = logic } in
    if seen == 0
    then (none, o')
    else if ltb max_logical logic
    then (none, o')
    else (some (compose_ts o.physical logic), o')

abbrev pub after_attempt : (Oracle → ℕ × Oracle) → Option ℕ × Oracle → ℕ × Oracle
after_attempt again (some ts, o) = (ts, o)
after_attempt again (none, o) = again o

-- The rounds that are left, where `seen i` is what a round reads, and `asleep i` what the other
-- threads do while it sleeps.
unfoldable pub retry : ℕ → (ℕ → ℕ) → (ℕ → Oracle → Oracle) → Oracle → ℕ × Oracle
unfolding attempt
retry zero seen asleep o = (0, o)
retry (suc n) seen asleep o =
    after_attempt (λ p. retry n seen asleep (asleep n p)) (attempt (seen n) o)

unfoldable pub get_timestamp : (ℕ → ℕ) → (ℕ → Oracle → Oracle) → Oracle → ℕ × Oracle
get_timestamp = retry max_retry_count
