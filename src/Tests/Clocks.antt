-- ===== src/Tests/Clocks.antt =====
-- An oracle that starts, updates and issues timestamps.
use ddbms.Base.{ℕ, ◌+◌, ◌≡◌, refl, true, some, none, List, [], ◌∷◌, ltb, if◌then◌else◌, arith}
use ddbms.Meta.Error.{ok}
use ddbms.Meta.Oracle.{
  Oracle, Env, compose_ts, extract_physical, attempt, sync_timestamp, update_timestamp,
}
use ddbms.Meta.Oracle.Order.{Event, get, issued, react, IsIncreasing, issued-IsIncreasing}
use ddbms.Meta.Oracle.Save.{
  extract_physical-compose_ts, sync_timestamp_forward, sync_timestamp_back,
  update_timestamp_not_saved,
}

abbrev ready : ℕ → Env
ready now = record { is_dir = true; can_enter = true; now = now }

abbrev saved_at : ℕ → Oracle
saved_at ts = record { last_ts = 0; physical = 0; logical = 0; file = some ts }

extract_physical-compose_ts_example : extract_physical (compose_ts 1000 5) ≡ 1000
extract_physical-compose_ts_example = extract_physical-compose_ts 1000 5 (omega arith) (omega arith)

sync_timestamp_forward_example :
    sync_timestamp (ready 20) (saved_at 10)
    ≡ ok (record {
      last_ts = 10;
      physical = if ltb 10 20 then 20 else 10 + 1;
      logical = 0;
      file = some ((if ltb 10 20 then 20 else 10 + 1) + 1);
    })
sync_timestamp_forward_example =
    sync_timestamp_forward (ready 20) (saved_at 10) 10 (refl, refl) refl (omega arith) (omega arith)

sync_timestamp_back_example :
    sync_timestamp (ready 10) (saved_at 20)
    ≡ ok (record { last_ts = 20; physical = 10; logical = 0; file = some (10 + 1) })
sync_timestamp_back_example =
    sync_timestamp_back (ready 10) (saved_at 20) 20 (refl, refl) refl (omega arith) (omega arith)

update_timestamp_not_saved_example :
    update_timestamp (ready 0x8000_0100) (saved_at 20)
    ≡ ok (record (saved_at 20) { physical = 0x8000_0100; logical = 0 })
update_timestamp_not_saved_example =
    update_timestamp_not_saved (ready 0x8000_0100) (saved_at 20) (omega arith) (omega arith)
      (omega arith) (omega arith)

abbrev two_gets : List Event
two_gets = get 5 ∷ get 5 ∷ []

abbrev clock : Oracle
clock = record { last_ts = 0; physical = 5; logical = 0; file = none }

issued-IsIncreasing_example : IsIncreasing (issued two_gets clock)
unfolding react attempt
issued-IsIncreasing_example =
    issued-IsIncreasing two_gets clock
      (omega arith, omega arith, (omega arith, omega arith, (omega arith, omega arith)))
