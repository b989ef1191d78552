-- ===== src/Log/Manager/Durable.antt =====
-- What the log file holds when a flush is over, in every interleaving of the calls.
use ddbms.Base.{
  ℕ, zero, suc, ◌^◌, ◌<◌, ◌≤◌, ◌≡◌, refl, sym, ap, subst, ◌∙◌, true, false, List, [], ◌∷◌, ◌++◌,
  length, take, drop, if◌then◌else◌, arith, length-append,
}
use ddbms.Base.Words.{signed32_lt}
use ddbms.Log.Manager.{is_flushed}
use ddbms.Log.Manager.System.{LogSystem, LogReach, log_bytes, numbers, lsns}
use ddbms.Log.Manager.Invariant.{reach-IsLogged}
use ddbms.Log.Manager.Logged.{last_lsn, log_bytes-append, IsLogged}

take-drop : {A : Type 0} (n : ℕ) (xs : List A) → take n xs ++ drop n xs ≡ xs
take-drop zero xs = refl
take-drop (suc n) [] = refl
take-drop (suc n) (x ∷ xs) = ap (λ l. x ∷ l) (take-drop n xs)

take-append_le :
    {A : Type 0} (n : ℕ) (xs ys : List A) → n ≤ length xs → take n (xs ++ ys) ≡ take n xs
take-append_le zero xs ys h = refl
take-append_le (suc n) [] ys h = ground (arith, h)
take-append_le (suc n) (x ∷ xs) ys h = ap (λ l. x ∷ l) (take-append_le n xs ys (omega (arith, h)))

flushed_lt :
    (stored n lsn : ℕ)
    → stored ≤ n
    → n < 2 ^ 31
    → lsn < n
    → (if signed32_lt (last_lsn stored) lsn then false else true) ≡ true
    → suc lsn ≤ stored
flushed_lt stored n lsn a b c d = ground (arith, a, b, c, d)

-- In every reachable state, the number of each appended record is its position among them, from
-- 0, modulo 2 ^ 32.
pub reach-lsns : {s : LogSystem} → LogReach s → lsns s.appended ≡ numbers (length s.appended)
reach-lsns h = (reach-IsLogged h).numbered

-- When `Flush` has ended for the number of an appended record, in any interleaving of appending
-- threads and the flush thread, and no write has failed so that the log file's stream is bad, the
-- log file holds what it held when it was opened, and behind it the bytes of that record and of all
-- records before it, in order. Fewer than 2 ^ 31 records have been appended, and no copy has gone past
-- the end of the log buffer, which is undefined.
pub flush-is_durable :
    {s : LogSystem} (lsn : ℕ)
    → LogReach s
    → length s.appended < 2 ^ 31
    → lsn < length s.appended
    → is_flushed lsn s.mgr ≡ true
    → s.mgr.bad ≡ false
    → (rest : List ℕ) × (s.mgr.file ≡ s.old ++ (log_bytes (take (suc lsn) s.appended) ++ rest))
unfolding is_flushed
flush-is_durable {s} lsn h small l e good = (log_bytes (drop (suc lsn) k.written), file_split)
  where
    k : IsLogged s
    k = reach-IsLogged h

    written_small : length k.written ≤ length s.appended
    written_small =
        omega (arith, ap length k.split, length-append k.written (k.in_hand ++ k.buffered))

    is_stored : suc lsn ≤ k.stored
    is_stored =
        flushed_lt k.stored (length s.appended) lsn (omega (arith, k.stored_written, written_small))
          small l (subst (λ p. (if signed32_lt p lsn then false else true) ≡ true) k.persistent e)

    same_take : take (suc lsn) s.appended ≡ take (suc lsn) k.written
    same_take = rw k.split (
        take-append_le (suc lsn) k.written (k.in_hand ++ k.buffered)
          (omega (arith, is_stored, k.stored_written)))

    written_split :
        log_bytes k.written
        ≡ log_bytes (take (suc lsn) s.appended) ++ log_bytes (drop (suc lsn) k.written)
    written_split =
        ap log_bytes (sym (take-drop (suc lsn) k.written))
        ∙ (log_bytes-append (take (suc lsn) k.written) (drop (suc lsn) k.written)
            ∙ ap (λ t. log_bytes t ++ log_bytes (drop (suc lsn) k.written)) (sym same_take))

    file_split :
        s.mgr.file
        ≡ s.old ++ (log_bytes (take (suc lsn) s.appended) ++ log_bytes (drop (suc lsn) k.written))
    file_split = k.file_bytes good ∙ ap (λ b. s.old ++ b) written_split
