-- ===== src/Examples/Logging.antt =====
-- The log record of an insertion into the table `t`.
use uni_base.Base.{◌≡◌, [], ◌∷◌, pos, arith}
use uni_base.Recovery.{
  InsertLogRecord, log_insert, serialize_insert, deserialize_insert, new_insert_record,
}
use uni_base.Recovery.RoundTrip.{
  IsInsertRecord, deserialize_insert-serialize_insert, serialize_insert-extent,
}

abbrev insertion : InsertLogRecord
insertion = record {
  header = record {
    log_type = log_insert;
    lsn = pos 7;
    log_tot_len = 45;
    log_tid = pos 2;
    prev_lsn = pos 6;
  };
  insert_value = 65 ∷ 66 ∷ 67 ∷ 68 ∷ [];
  rid = record { page_no = pos 1; slot_no = pos 3 };
  table_name = 116 ∷ [];
}

insertion-IsInsertRecord : IsInsertRecord insertion
insertion-IsInsertRecord = record {
  header_bound = record {
    type_bound = omega arith;
    lsn_bound = omega arith;
    len_bound = omega arith;
    tid_bound = omega arith;
    prev_bound = omega arith;
  };
  value_bound = omega arith;
  page_bound = omega arith;
  slot_bound = omega arith;
  name_bound = omega arith;
}

deserialize_insert-serialize_insert_example :
    deserialize_insert (serialize_insert insertion (λ _. 9)) ≡ insertion
deserialize_insert-serialize_insert_example =
    deserialize_insert-serialize_insert insertion (λ _. 9) insertion-IsInsertRecord

serialize_insert-extent_example :
    serialize_insert
      (new_insert_record (pos 2) (65 ∷ []) (record { page_no = pos 1; slot_no = pos 3 }) (116 ∷ []))
      (λ _. 9)
      42
    ≡ 9
unfolding new_insert_record
serialize_insert-extent_example =
    serialize_insert-extent (pos 2) (65 ∷ []) (record { page_no = pos 1; slot_no = pos 3 })
      (116 ∷ []) (λ _. 9) 42 (omega arith) (omega arith)
