-- ===== src/Recovery.antt =====
-- src/recovery/log_manager.h: the records of the write-ahead log and their bytes. A `LogType` is its
-- number; a name and a record's data are lists of bytes.
pub mod Memory
pub mod RoundTrip
use uni_base.Base.{
  ℕ, zero, suc, ◌+◌, ◌*◌, ◌/◌, ◌%◌, List, [], ◌∷◌, ℤ, pos, minus_one, length, ◌==◌, if◌then◌else◌,
}
use uni_base.Bytes.{get_int, put_int, slice}
use uni_base.Storage.Page.{Block}
use uni_base.Record.{Rid}

-- An unsigned number of so many bytes, the lowest first.
unfoldable pub get_unsigned : Block → ℕ → ℕ → ℕ
get_unsigned b i zero = 0
get_unsigned b i (suc w) = b i + 256 * get_unsigned b (suc i) w

unfoldable pub put_unsigned : Block → ℕ → ℕ → ℕ → Block
put_unsigned b i zero n j = b j
put_unsigned b i (suc w) n j =
    let rest = put_unsigned b (suc i) w (n / 256) j in if j == i then n % 256 else rest

-- `memcpy` of bytes that are given as a list.
unfoldable pub put_bytes : Block → ℕ → List ℕ → Block
put_bytes b i [] j = b j
put_bytes b i (x ∷ xs) j = let rest = put_bytes b (suc i) xs j in if j == i then x else rest

abbrev pub log_insert : ℤ
log_insert = pos 1

pub record LogRecord : Type 0 where
  pub log_type : ℤ
  pub lsn : ℤ
  pub log_tot_len : ℕ
  pub log_tid : ℤ
  pub prev_lsn : ℤ

abbrev pub offset_log_data : ℕ
offset_log_data = 20

unfoldable pub serialize : LogRecord → Block → Block
unfolding put_unsigned
serialize r dest =
    let b1 = put_int dest 0 r.log_type in
    let b2 = put_int b1 4 r.lsn in
    let b3 = put_unsigned b2 8 4 r.log_tot_len in
    let b4 = put_int b3 12 r.log_tid in put_int b4 16 r.prev_lsn

unfoldable pub deserialize : Block → LogRecord
unfolding get_unsigned
deserialize src = record {
  log_type = get_int src 0;
  lsn = get_int src 4;
  log_tot_len = get_unsigned src 8 4;
  log_tid = get_int src 12;
  prev_lsn = get_int src 16;
}

pub record InsertLogRecord : Type 0 where
  pub header : LogRecord
  pub insert_value : List ℕ
  pub rid : Rid
  pub table_name : List ℕ

-- The record as its constructor makes it; the length is an unsigned number of 32 bits.
unfoldable pub new_insert_record : ℤ → List ℕ → Rid → List ℕ → InsertLogRecord
new_insert_record txn_id insert_value rid table_name = record {
  header = record {
    log_type = log_insert;
    lsn = minus_one;
    log_tot_len =
        (offset_log_data + 4 + length insert_value + 8 + 8 + length table_name) % 4294967296;
    log_tid = txn_id;
    prev_lsn = minus_one;
  };
  insert_value = insert_value;
  rid = rid;
  table_name = table_name;
}

unfoldable pub serialize_insert : InsertLogRecord → Block → Block
unfolding serialize put_bytes
serialize_insert r dest =
    let n = length r.insert_value in
    let b0 = serialize r.header dest in
    let b1 = put_int b0 20 (pos n) in
    let b2 = put_bytes b1 24 r.insert_value in
    let b3 = put_int b2 (24 + n) r.rid.page_no in
    let b4 = put_int b3 (28 + n) r.rid.slot_no in
    let b5 = put_unsigned b4 (32 + n) 8 (length r.table_name) in put_bytes b5 (40 + n) r.table_name

-- A size that an `int` gives, which `new char[size]` needs to be no negative number.
abbrev pub size_of : ℤ → ℕ
size_of (pos n) = n
size_of _ = 0

unfoldable pub deserialize_insert : Block → InsertLogRecord
unfolding deserialize
deserialize_insert src =
    let n = size_of (get_int src 20) in
    record {
      header = deserialize src;
      insert_value = slice src 24 n;
      rid = record { page_no = get_int src (24 + n); slot_no = get_int src (28 + n) };
      table_name = slice src (40 + n) (get_unsigned src (32 + n) 8);
    }
