-- ===== src/Examples/Locking.antt =====
-- Locks of a table and of records, and two records of one number.
use uni_base.Base.{ℕ, [], ◌∷◌, some, ◌≡◌, refl, pos, arith, lookup, ℤ-discrete, ℕ_discrete}
use uni_base.Errors.{ok}
use uni_base.Bytes.Bits.{bit_or, shift_left}
use uni_base.Record.Scan.{rid_at}
use uni_base.Transaction.{
  LockDataId, tuple, record_lock, get, get_transaction, new_transaction, serializable,
}
use uni_base.Transaction.LockIds.{of_record, get-injective}

abbrev lock : ℕ → ℕ → ℕ → LockDataId
lock f p s = record { fd = pos f; rid = rid_at p s; type = tuple }

get-injective_example : lock 5 32767 65535 ≡ lock 5 32767 65535
unfolding get bit_or shift_left
get-injective_example =
    get-injective (lock 5 32767 65535) (lock 5 32767 65535)
      (of_record 5 32767 65535 (omega arith) (omega arith) (omega arith))
      (of_record 5 32767 65535 (omega arith) (omega arith) (omega arith)) refl

-- Page 32768 of one file and page 0 of another.
overlap : get (lock 0 32768 3) ≡ get (lock 1 0 3)
unfolding get bit_or shift_left
overlap = refl

locked : record_lock (pos 5) (rid_at 1 2) tuple ≡ ok (lock 5 1 2)
unfolding record_lock
locked = refl

found :
    get_transaction ((pos 3, some (new_transaction 7 (pos 3) serializable)) ∷ []) 7 (pos 3)
    ≡ ok (some (new_transaction 7 (pos 3) serializable))
unfolding get_transaction new_transaction lookup ℤ-discrete ℕ_discrete
found = refl
