-- ===== src/Tests/Locks.antt =====
-- Two transactions that lock one table.
use ddbms.Base.{ℕ, ◌≡◌, ◌≢◌, ◌↔◌, refl, ap, true, false, ◌&&◌, not, inl, inr, some, arith}
use ddbms.Transaction.{state_index, default, aborted}
use ddbms.Transaction.Id.{
  shared, exlucsive, intention_exclusive, s_ix, table_id, lock_data_id_eq, lock_data_id_eq_iff,
  mode_eq,
}
use ddbms.Lock.Mode.{
  is_lock_compatible, is_update_compatible, permits, conflicts, weaker,
  is_lock_compatible-eq-not-conflicts, is_update_compatible-eq-weaker,
}
use ddbms.Lock.State.{
  Session, set_state, check_queue_compatible, find_request, find_granted, remove_request,
}
use ddbms.Lock.Release.{release_locks}
use ddbms.Lock.Release.Empty.{IsSorted, IsEmpty, release_locks-IsEmpty}
use ddbms.Base.{◌∷◌, []}
use ddbms.Transaction.{no_lock_sets}
use ddbms.Transaction.Id.{row_id}
use ddbms.Lock.System.{
  LockCall, on_table, perform, of_table, release, System, session, after_call, call, init, Reach,
  start, later,
}
use ddbms.Lock.Safety.{granted_requests_do_not_conflict}
use ddbms.Lock.Grants.{datum_of, target_of}
use ddbms.Lock.Alone.{AloneReach, begin, next, wake-returns}
use ddbms.Lock.Attempts.{enters, wakes_up, lock_success_holds}
use ddbms.Lock.Held.{IsHeld}
use ddbms.Lock.NoWait.{no_wait_never_blocks}
use ddbms.Lock.TwoPhase.{lock-release}
use ddbms.Lock.{
  Wait, Outcome, new_request, upgrade, returned, blocked, wait_predicate, lock_table, unlock_table,
  unlock, wake_new, wake,
}

lock_data_id_eq_iff_example :
    (lock_data_id_eq (table_id 7) (table_id 7) ≡ true) ↔ (table_id 7 ≡ table_id 7)
lock_data_id_eq_iff_example = lock_data_id_eq_iff (table_id 7) (table_id 7)

is_lock_compatible_example :
    is_lock_compatible shared intention_exclusive
    ≡ not (conflicts (permits shared) (permits intention_exclusive))
is_lock_compatible_example = is_lock_compatible-eq-not-conflicts shared intention_exclusive

is_update_compatible_example :
    is_update_compatible shared s_ix
    ≡ (weaker (permits shared) (permits s_ix) && not (mode_eq shared s_ix))
is_update_compatible_example = is_update_compatible-eq-weaker shared s_ix

abbrev lock_it : LockCall
lock_it = on_table shared 7

abbrev first : System
first = after_call 1 1 (init false) (perform lock_it (session (init false) 1))

abbrev second : System
second = after_call 2 2 first (perform lock_it (session first 2))

Reach-second : Reach false second
unfolding perform
Reach-second = later (later start (call 1 1 lock_it refl)) (call 2 2 lock_it refl)

granted_requests_do_not_conflict_example :
    conflicts (permits (second.mgr.heap 0).lock_mode) (permits (second.mgr.heap 1).lock_mode)
    ≡ false
unfolding perform lock_table find_request wait_predicate check_queue_compatible lock_data_id_eq
    is_lock_compatible
granted_requests_do_not_conflict_example =
    granted_requests_do_not_conflict Reach-second (table_id 7) 0 1 (inl refl) (inr (inl refl))
      (omega arith) refl refl

abbrev alone : Session
alone = session (init false) 1

-- Another transaction waits for the table in exclusive mode, until the first one releases it.
abbrev exclusively : LockCall
exclusively = on_table exlucsive 7

abbrev other_session : Session
other_session = session first 2

abbrev blocked_call : Outcome × Session
blocked_call = perform exclusively other_session

abbrev table_wait : Wait
table_wait = record { l_id = table_id 7; addr = 1; kind = new_request; target = exlucsive }

abbrev released : Session
released = record blocked_call.1 {
  mgr = (release (of_table 7) (session (after_call 2 2 first blocked_call) 1)).1.mgr;
}

abbrev woken : Outcome × Session
woken = wake_new (table_id 7) 1 exlucsive released

lock_success_holds_example : IsHeld woken.1.mgr (datum_of exclusively) (target_of exclusively) 2
unfolding perform lock_table find_request wait_predicate check_queue_compatible lock_data_id_eq
    is_lock_compatible release unlock_table unlock find_granted remove_request wake
lock_success_holds_example = lock_success_holds {c = exclusively} (
    wakes_up table_wait released woken (enters other_session refl) refl
      (record { queued = inl refl; owner = refl; in_mode = refl }) refl)

-- Two holders of the table, of which the first one asks for an upgrade and waits.
abbrev upgrading : System
upgrading = after_call 1 1 second (perform exclusively (session second 1))

abbrev upgrade_wait : Wait
upgrade_wait = record { l_id = table_id 7; addr = 0; kind = upgrade; target = exlucsive }

reach_upgrading : AloneReach (λ p. p) false upgrading
unfolding perform lock_table find_request wait_predicate check_queue_compatible lock_data_id_eq
    is_lock_compatible is_update_compatible
reach_upgrading =
    next (call 1 1 exclusively refl)
      (next (call 2 2 lock_it refl) (next (call 1 1 lock_it refl) begin refl) refl) refl

wake-returns_example : (r : Outcome × Session) × (wake upgrade_wait (session upgrading 1) ≡ some r)
unfolding perform lock_table find_request wait_predicate check_queue_compatible lock_data_id_eq
    is_lock_compatible is_update_compatible
wake-returns_example = wake-returns 1 1 upgrade_wait reach_upgrading refl

abbrev new_wait : Wait
new_wait = record { l_id = table_id 7; addr = 0; kind = new_request; target = shared }

no_wait_never_blocks_example : (perform lock_it (session (init true) 1)).0 ≢ blocked new_wait
no_wait_never_blocks_example = no_wait_never_blocks lock_it (session (init true) 1) new_wait refl

-- A transaction that holds the table's lock.
abbrev holder : Session
holder = session first 1

one-ne-zero : ◌≡◌ {A = ℕ} 1 0 → ⊥
one-ne-zero e = omega (arith, e)

growing-ne-default : holder.txn.state ≢ default
unfolding perform lock_table find_request wait_predicate check_queue_compatible lock_data_id_eq
    is_lock_compatible
growing-ne-default e = one-ne-zero (ap state_index e)

lock-release_example :
    perform lock_it (release (of_table 7) holder).1
    ≡ (returned false, set_state aborted (release (of_table 7) holder).1)
unfolding perform
lock-release_example = lock-release (of_table 7) lock_it holder growing-ne-default

-- A transaction whose lock on a row has been noted.
abbrev noted : Session
noted = record alone {
  txn = record alone.txn { sets = record no_lock_sets { row_s = row_id 7 0 3 ∷ [] } };
}

noted-IsSorted : IsSorted noted.txn.sets
noted-IsSorted = record {
  table_s = tt;
  table_x = tt;
  table_is = tt;
  table_ix = tt;
  table_six = tt;
  partition_s = tt;
  partition_x = tt;
  partition_is = tt;
  partition_ix = tt;
  partition_six = tt;
  row_s = (refl, tt);
  row_x = tt;
}

release_locks-IsEmpty_example : IsEmpty (release_locks noted).txn.sets
release_locks-IsEmpty_example = release_locks-IsEmpty noted noted-IsSorted
