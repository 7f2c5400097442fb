-- ===== src/Transaction.antt =====
-- src/transaction/txn_defs.h, transaction.h and transaction_manager.h: transactions, and what identifies the object
-- of a lock. A thread is known by its number. `begin`, `commit` and `abort` are empty in the source.
pub mod LockIds
use uni_base.Base.{
  ℕ, suc, ◌-◌, ◌%◌, ◌^◌, List, [], ◌∷◌, ◌++◌, Option, none, some, Bool, true, false, ◌==◌,
  if◌then◌else◌, ℤ, pos, negsuc, minus_one, ite, ℤ-discrete, lookup,
}
use uni_base.Errors.{Str, Result, ok, throw, assertion_failed, undefined_behaviour}
use uni_base.Outcome.{◌>>=◌}
use uni_base.Bytes.Bits.{bit_or, shift_left}
use uni_base.Record.{Rid}
use uni_base.Record.Scan.{no_rid}

pub data TransactionState : Type 0 where
  default growing shrinking committed aborted : TransactionState

pub data IsolationLevel : Type 0 where
  read_uncommitted repeatable_read read_committed serializable : IsolationLevel

pub data WType : Type 0 where
  insert_tuple delete_tuple update_tuple : WType

-- The record is there for deletions and updates.
pub record WriteRecord : Type 0 where
  pub wtype : WType
  pub tab_name : Str
  pub rid : Rid
  pub tuple : Option (List ℕ)

pub data LockDataType : Type 0 where
  table tuple : LockDataType

pub record LockDataId : Type 0 where
  pub fd : ℤ
  pub rid : Rid
  pub type : LockDataType

-- The two constructors, with their assertions.
unfoldable pub table_lock : ℤ → LockDataType → Result LockDataId
table_lock fd table = ok (record { fd = fd; rid = no_rid; type = table })
table_lock fd tuple = throw assertion_failed

unfoldable pub record_lock : ℤ → Rid → LockDataType → Result LockDataId
record_lock fd rid table = throw assertion_failed
record_lock fd rid tuple = ok (record { fd = fd; rid = rid; type = tuple })

-- The 64 bits of an `int64_t`.
abbrev pub word : ℕ
word = 18446744073709551616

abbrev pub bits64 : ℤ → ℕ
bits64 (pos n) = n % word
bits64 (negsuc n) = word - 1 - n % word

-- `<<`, which drops what does not fit.
abbrev pub shl : ℕ → ℕ → ℕ
shl a n = shift_left a n % word

abbrev pub type_bit : LockDataType → ℕ
type_bit table = 0
type_bit tuple = 1

-- `Get`, as its 64 bits.
unfoldable pub get : LockDataId → ℕ
get id = elim id.type [
  | table ↦ bits64 id.fd
  | tuple ↦
      bit_or 64
        (bit_or 64 (bit_or 64 (shl (type_bit id.type) 63) (shl (bits64 id.fd) 31))
          (shl (bits64 id.rid.page_no) 16))
        (bits64 id.rid.slot_no)
]

-- The members of a transaction. `txn_mode_`, `thread_id_` and `start_ts_` have no value until they are set.
pub record Transaction : Type 0 where
  pub txn_mode : Option Bool
  pub state : TransactionState
  pub isolation_level : IsolationLevel
  pub thread_id : ℕ
  pub prev_lsn : ℤ
  pub txn_id : ℤ
  pub start_ts : Option ℤ
  pub write_set : List WriteRecord
  pub lock_set : List LockDataId

-- The constructor, on a thread.
unfoldable pub new_transaction : ℕ → ℤ → IsolationLevel → Transaction
new_transaction thread txn_id isolation_level = record {
  txn_mode = none;
  state = default;
  isolation_level = isolation_level;
  thread_id = thread;
  prev_lsn = minus_one;
  txn_id = txn_id;
  start_ts = none;
  write_set = [];
  lock_set = [];
}

-- `push_back`
unfoldable pub append_write_record : WriteRecord → Transaction → Transaction
append_write_record w t = record t { write_set = t.write_set ++ (w ∷ []) }

-- The global table of transactions; a pointer in it may be null.
abbrev pub TxnMap : Type 0
TxnMap = List (ℤ × Option Transaction)

-- `TransactionManager::get_transaction`, called on a thread; `none` is the null pointer.
unfoldable pub get_transaction : TxnMap → ℕ → ℤ → Result (Option Transaction)
get_transaction txn_map thread txn_id =
    ite (ℤ-discrete txn_id minus_one) (ok none) (elim (lookup ℤ-discrete txn_id txn_map) [
      | none ↦ throw assertion_failed
      | some none ↦ throw assertion_failed
      | some (some t) ↦ if t.thread_id == thread then ok (some t) else throw assertion_failed
    ])
