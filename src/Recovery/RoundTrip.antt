-- ===== src/Recovery/RoundTrip.antt =====
-- What is read back of a log record that was written.
use uni_base.Base.{ℕ, ◌+◌, ◌^◌, ◌≤◌, ◌<◌, ◌≡◌, refl, ap, ◌∙◌, List, ℤ, pos, length, arith, inr}
use uni_base.Bytes.{get_int, put_int, slice, IsInt, put_int-outside}
use uni_base.Storage.Page.{Block}
use uni_base.Record.{Rid}
use uni_base.Recovery.{
  LogRecord, InsertLogRecord, get_unsigned, put_unsigned, put_bytes, serialize, deserialize,
  serialize_insert, deserialize_insert, size_of, new_insert_record,
}
use uni_base.Recovery.Memory.{
  IsBelow, IsBelow-trans, put_unsigned-IsBelow, put_bytes-IsBelow, put_int-IsBelow, read_int,
  read_unsigned, read_slice, put_unsigned-above, put_bytes-above,
}

-- The fields are numbers of their widths.
pub record IsRecord (r : LogRecord) : Type 0 where
  pub type_bound : IsInt r.log_type
  pub lsn_bound : IsInt r.lsn
  pub len_bound : r.log_tot_len < 4294967296
  pub tid_bound : IsInt r.log_tid
  pub prev_bound : IsInt r.prev_lsn

-- The header is read back wherever the memory behind it was changed.
header-read :
    (r : LogRecord) (dest c : Block)
    → IsRecord r
    → IsBelow 20 c (serialize r dest)
    → deserialize c ≡ r
unfolding serialize deserialize
header-read r dest c w h =
    let b1 : Block = put_int dest 0 r.log_type in
    let b2 : Block = put_int b1 4 r.lsn in
    let b3 : Block = put_unsigned b2 8 4 r.log_tot_len in
    let b4 : Block = put_int b3 12 r.log_tid in
    let b5 : Block = put_int b4 16 r.prev_lsn in
    let to4 : IsBelow 16 c b4 =
      IsBelow-trans 16 20 c b5 b4 (omega arith) h (put_int-IsBelow b4 16 r.prev_lsn) in
    let to3 : IsBelow 12 c b3 =
      IsBelow-trans 12 16 c b4 b3 (omega arith) to4 (put_int-IsBelow b3 12 r.log_tid) in
    let to2 : IsBelow 8 c b2 =
      IsBelow-trans 8 12 c b3 b2 (omega arith) to3 (put_unsigned-IsBelow b2 8 4 r.log_tot_len) in
    let to1 : IsBelow 4 c b1 =
      IsBelow-trans 4 8 c b2 b1 (omega arith) to2 (put_int-IsBelow b1 4 r.lsn) in
    let e1 = read_int dest c 0 4 r.log_type w.type_bound (omega arith) to1 in
    let e2 = read_int b1 c 4 8 r.lsn w.lsn_bound (omega arith) to2 in
    let e3 =
      read_unsigned b2 c 8 12 4 r.log_tot_len (omega (arith, w.len_bound)) (omega arith) to3 in
    let e4 = read_int b3 c 12 16 r.log_tid w.tid_bound (omega arith) to4 in
    let e5 = read_int b4 c 16 20 r.prev_lsn w.prev_bound (omega arith) h in
    λ i. record { log_type = e1 i; lsn = e2 i; log_tot_len = e3 i; log_tid = e4 i; prev_lsn = e5 i }

-- A log record of an insertion whose numbers have their widths, and whose sizes fit theirs.
pub record IsInsertRecord (r : InsertLogRecord) : Type 0 where
  pub header_bound : IsRecord r.header
  pub value_bound : length r.insert_value < 2147483648
  pub page_bound : IsInt r.rid.page_no
  pub slot_bound : IsInt r.rid.slot_no
  pub name_bound : length r.table_name < 256 ^ 8

-- `InsertLogRecord::deserialize` of the bytes that `InsertLogRecord::serialize` wrote gives the record
-- back, whatever the memory held, if its numbers have the ranges of their types and its sizes fit.
pub deserialize_insert-serialize_insert :
    (r : InsertLogRecord) (dest : Block)
    → IsInsertRecord r
    → deserialize_insert (serialize_insert r dest) ≡ r
unfolding serialize_insert deserialize_insert
deserialize_insert-serialize_insert r dest w =
    let n = length r.insert_value in
    let m = length r.table_name in
    let b0 : Block = serialize r.header dest in
    let b1 : Block = put_int b0 20 (pos n) in
    let b2 : Block = put_bytes b1 24 r.insert_value in
    let b3 : Block = put_int b2 (24 + n) r.rid.page_no in
    let b4 : Block = put_int b3 (28 + n) r.rid.slot_no in
    let b5 : Block = put_unsigned b4 (32 + n) 8 m in
    let c : Block = put_bytes b5 (40 + n) r.table_name in
    let to5 : IsBelow (40 + n) c b5 = put_bytes-IsBelow b5 (40 + n) r.table_name in
    let to4 : IsBelow (32 + n) c b4 =
      IsBelow-trans (32 + n) (40 + n) c b5 b4 (omega arith) to5
        (put_unsigned-IsBelow b4 (32 + n) 8 m) in
    let to3 : IsBelow (28 + n) c b3 =
      IsBelow-trans (28 + n) (32 + n) c b4 b3 (omega arith) to4
        (put_int-IsBelow b3 (28 + n) r.rid.slot_no) in
    let to2 : IsBelow (24 + n) c b2 =
      IsBelow-trans (24 + n) (28 + n) c b3 b2 (omega arith) to3
        (put_int-IsBelow b2 (24 + n) r.rid.page_no) in
    let to1 : IsBelow 24 c b1 =
      IsBelow-trans 24 (24 + n) c b2 b1 (omega arith) to2
        (put_bytes-IsBelow b1 24 r.insert_value) in
    let to0 : IsBelow 20 c b0 =
      IsBelow-trans 20 24 c b1 b0 (omega arith) to1 (put_int-IsBelow b0 20 (pos n)) in
    let e0 = header-read r.header dest c w.header_bound to0 in
    let size : get_int c 20 ≡ pos n = read_int b0 c 20 24 (pos n) w.value_bound (omega arith) to1 in
    let e2 = read_slice b1 c 24 (24 + n) r.insert_value (omega arith) to2 in
    let e3 = read_int b2 c (24 + n) (28 + n) r.rid.page_no w.page_bound (omega arith) to3 in
    let e4 = read_int b3 c (28 + n) (32 + n) r.rid.slot_no w.slot_bound (omega arith) to4 in
    let e5 = read_unsigned b4 c (32 + n) (40 + n) 8 m w.name_bound (omega arith) to5 in
    let e6 = read_slice b5 c (40 + n) (40 + n + m) r.table_name (omega arith) (λ j _. refl) in
    let rest : ℕ → InsertLogRecord = λ s. record {
      header = deserialize c;
      insert_value = slice c 24 s;
      rid = record { page_no = get_int c (24 + s); slot_no = get_int c (28 + s) };
      table_name = slice c (40 + s) (get_unsigned c (32 + s) 8);
    } in
    ap (λ v. rest (size_of v)) size
    ∙ (λ i. record {
      header = e0 i;
      insert_value = e2 i;
      rid = record { page_no = e3 i; slot_no = e4 i };
      table_name = slice c (40 + n) (e5 i);
    })
    ∙ (λ i. record {
      header = r.header;
      insert_value = r.insert_value;
      rid = r.rid;
      table_name = e6 i;
    })

header-above : (r : LogRecord) (dest : Block) (j : ℕ) → 20 ≤ j → serialize r dest j ≡ dest j
unfolding serialize
header-above r dest j h =
    let b1 : Block = put_int dest 0 r.log_type in
    let b2 : Block = put_int b1 4 r.lsn in
    let b3 : Block = put_unsigned b2 8 4 r.log_tot_len in
    let b4 : Block = put_int b3 12 r.log_tid in
    put_int-outside b4 16 r.prev_lsn j (inr (omega (arith, h)))
    ∙ put_int-outside b3 12 r.log_tid j (inr (omega (arith, h)))
    ∙ put_unsigned-above b2 8 4 r.log_tot_len j (omega (arith, h))
    ∙ put_int-outside b1 4 r.lsn j (inr (omega (arith, h)))
    ∙ put_int-outside dest 0 r.log_type j (inr (omega (arith, h)))

-- `serialize` of a log record of an insertion, made by its constructor for sizes whose sum with the
-- fixed parts is below 2 ^ 32, writes no byte behind the length that the record states.
pub serialize_insert-extent :
    (txn_id : ℤ) (insert_value : List ℕ) (rid : Rid) (table_name : List ℕ) (dest : Block) (j : ℕ)
    → 40 + length insert_value + length table_name < 4294967296
    → let r = new_insert_record txn_id insert_value rid table_name in
      r.header.log_tot_len ≤ j → serialize_insert r dest j ≡ dest j
unfolding serialize_insert new_insert_record
serialize_insert-extent txn_id insert_value rid table_name dest j f h =
    let r = new_insert_record txn_id insert_value rid table_name in
    let n = length insert_value in
    let m = length table_name in
    let l : 40 + n + m ≤ j = omega (arith, f, h) in
    let b0 : Block = serialize r.header dest in
    let b1 : Block = put_int b0 20 (pos n) in
    let b2 : Block = put_bytes b1 24 insert_value in
    let b3 : Block = put_int b2 (24 + n) rid.page_no in
    let b4 : Block = put_int b3 (28 + n) rid.slot_no in
    let b5 : Block = put_unsigned b4 (32 + n) 8 m in
    put_bytes-above b5 (40 + n) table_name j l
    ∙ put_unsigned-above b4 (32 + n) 8 m j (omega (arith, l))
    ∙ put_int-outside b3 (28 + n) rid.slot_no j (inr (omega (arith, l)))
    ∙ put_int-outside b2 (24 + n) rid.page_no j (inr (omega (arith, l)))
    ∙ put_bytes-above b1 24 insert_value j (omega (arith, l))
    ∙ put_int-outside b0 20 (pos n) j (inr (omega (arith, l)))
    ∙ header-above r.header dest j (omega (arith, l))
