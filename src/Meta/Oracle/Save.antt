-- ===== src/Meta/Oracle/Save.antt =====
-- The physical time across a restart, and the file that it is saved in.
use ddbms.Base.{ℕ, ◌+◌, ◌-◌, ◌^◌, ◌≤◌, ◌<◌, ◌≡◌, true, some, ltb, if◌then◌else◌, arith}
use ddbms.Meta.Error.{ok}
use ddbms.Meta.Oracle.{
  Oracle, Env, max_logical, sync_next, sync_timestamp, get_timestamp_from_path, update_next,
  update_timestamp, save_timestamp_to_path, save_due, compose_ts, extract_physical,
}

-- ExtractPhysical returns the physical time that ComposeTS was given, if this is below 2 ^ 46 and the
-- logical counter is below 2 ^ 18.
pub extract_physical-compose_ts :
    (physical logical : ℕ)
    → physical < 2 ^ 46
    → logical < max_logical
    → extract_physical (compose_ts physical logical) ≡ physical
unfolding extract_physical compose_ts
extract_physical-compose_ts physical logical p l = omega arith

-- A directory that can be entered.
abbrev pub IsReady : Env → Type 0
IsReady e = (e.is_dir ≡ true) × (e.can_enter ≡ true)

-- After a start with a clock that has passed the time of the file, the oracle stands at the clock's
-- time, and the file holds a later one. With a clock that shows the time of the file, the oracle
-- stands one after it.
pub sync_timestamp_forward :
    (e : Env) (o : Oracle) (saved : ℕ)
    → IsReady e
    → o.file ≡ some saved
    → saved ≤ e.now
    → e.now < 2 ^ 63
    → sync_timestamp e o
      ≡ ok (record {
        last_ts = saved;
        physical = if ltb saved e.now then e.now else saved + 1;
        logical = 0;
        file = some ((if ltb saved e.now then e.now else saved + 1) + 1);
      })
unfolding sync_timestamp get_timestamp_from_path save_timestamp_to_path sync_next
sync_timestamp_forward e o saved ready f le small = ground arith

-- With a clock that is behind the file, the guard against that does not hold, since the difference
-- is unsigned: the oracle starts at a time before the one that it saved.
pub sync_timestamp_back :
    (e : Env) (o : Oracle) (saved : ℕ)
    → IsReady e
    → o.file ≡ some saved
    → e.now < saved
    → saved < 2 ^ 63
    → sync_timestamp e o
      ≡ ok (record { last_ts = saved; physical = e.now; logical = 0; file = some (e.now + 1) })
unfolding sync_timestamp get_timestamp_from_path save_timestamp_to_path sync_next
sync_timestamp_back e o saved ready f lt small = ground arith

-- The cast to int drops bits: when the clock, below 2 ^ 63, is more than one millisecond ahead of the
-- oracle, and from 2 ^ 31 + 1 to 2 ^ 32 - 2 milliseconds ahead of the time that was read at the start,
-- an update moves the oracle to the clock's time and does not save it.
pub update_timestamp_not_saved :
    (e : Env) (o : Oracle)
    → o.physical + 1 < e.now
    → e.now < 2 ^ 63
    → o.last_ts + 2 ^ 31 < e.now
    → e.now < o.last_ts + (2 ^ 32 - 1)
    → update_timestamp e o ≡ ok (record o { physical = e.now; logical = 0 })
unfolding update_timestamp update_next save_due
update_timestamp_not_saved e o ahead small far near = ground arith
