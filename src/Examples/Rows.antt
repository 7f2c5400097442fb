-- ===== src/Examples/Rows.antt =====
-- A table of one number created, a row inserted into it, and the columns of a projection and a join.
use uni_base.Base.{
  ℕ, ◌+◌, List, [], ◌∷◌, none, false, ite, ◌≡◌, refl, arith, lookup, ℕ_discrete, ℤ-discrete,
}
use uni_base.Errors.{Str, Str-discrete, ok}
use uni_base.Defs.{type_int}
use uni_base.Common.{Value, init_raw, raw_of}
use uni_base.Defs.{ColType-discrete}
use uni_base.Meta.Text.{write_db}
use uni_base.Meta.{ColMeta, ColDef, TabMeta, DbMeta, is_table, get_table}
use uni_base.Storage.Page.{PageId-discrete}
use uni_base.Record.{RmFile, new_file_hdr, get_slot, holds_record}
use uni_base.Record.Bitmap
use uni_base.Record.Slots.{slot}
use uni_base.Record.Resident.{record_in}
use uni_base.Outcome.{◌>>=◌}
use uni_base.Bytes.{slice}
use uni_base.Bytes.Bits.{bit_and, shift_right}
use uni_base.Replacer.Lru.{LruReplacer}
use uni_base.Replacer.Lru.Laws.{lru}
use uni_base.System.{RmManager, SmManager, create_table, tab_of, col_metas}
use uni_base.System.Created.{IsTiled, create_table-IsTiled}
use uni_base.Execution.{InsertExecutor, fill, project, Projected, get_col, insert_next, col_bytes}
use uni_base.Execution.Columns.{project-IsTiled}
use uni_base.Execution.Rows.{row, fill-row_bytes}
use uni_base.Execution.Inserts.{IsNext, insert_next-IsNext}
use uni_base.Examples.Tables.{empty_table, file_of-IsResident}

-- Files that are counted, with their numbers as handles.
abbrev files : RmManager ℕ ℕ
files = record { create_file = λ name size n. (ok tt, n + 1); open_file = λ name n. (ok n, n) }

abbrev pub defs : List ColDef
defs =
    record { name = 107 ∷ []; type = type_int; len = 4 }
    ∷ record { name = 108 ∷ []; type = type_int; len = 4 }
    ∷ []

abbrev pub empty_db : DbMeta
empty_db = record { name = 100 ∷ []; tabs = [] }

abbrev opened : SmManager ℕ ℕ
opened = record { db = empty_db; fhs = []; meta_file = []; files = 0 }

create_table-IsTiled_example :
    (let u = create_table files (98 ∷ []) defs opened in
      (u.0 ≡ ok tt)
      × IsTiled 0 (tab_of (98 ∷ []) defs).cols (col_metas (98 ∷ []) 0 defs).1
      × ((t : Str)
          → get_table u.1.db t
            ≡ ite (Str-discrete (98 ∷ []) t) (ok (tab_of (98 ∷ []) defs)) (get_table opened.db t))
      × (u.1.meta_file ≡ write_db u.1.db))
unfolding is_table lookup
create_table-IsTiled_example = create_table-IsTiled files (98 ∷ []) defs opened 1 1 1 refl refl refl

abbrev pub table_of_one : TabMeta
table_of_one = record {
  name = 98 ∷ [];
  cols =
      record {
        tab_name = 98 ∷ [];
        name = 107 ∷ [];
        type = type_int;
        len = 4;
        offset = 0;
        index = false;
      }
      ∷ [];
  indexes = [];
}

abbrev seven : Value
seven = record { type = type_int; word = 7; str_val = []; raw = none }

abbrev handles : List (Str × ℕ)
handles = []

abbrev statement : InsertExecutor (RmFile LruReplacer)
statement = record { tab = table_of_one; values = seven ∷ []; fh = empty_table; tab_name = 98 ∷ [] }

insert_next-IsNext_example :
    IsNext empty_table 1
      (row table_of_one.cols (seven ∷ []))
      (insert_next lru 3 (λ _. 9) handles statement empty_table)
unfolding IsTiled new_file_hdr get_slot record_in slot lookup PageId-discrete ℤ-discrete ℕ_discrete
    holds_record Bitmap.is_set Bitmap.get_bit bit_and shift_right
insert_next-IsNext_example =
    insert_next-IsNext lru empty_table 1 0 2 (λ _. 9) handles statement
      (file_of-IsResident (λ _. 0)) refl (omega arith) (omega arith) (omega arith) (omega arith)
      refl (refl, refl) refl

abbrev prev : List ColMeta
prev = (tab_of (98 ∷ []) defs).cols

abbrev projected : Projected
projected = record {
  sel_idxs = 1 ∷ [];
  cols =
      record {
        tab_name = 98 ∷ [];
        name = 108 ∷ [];
        type = type_int;
        len = 4;
        offset = 0;
        index = false;
      }
      ∷ [];
  len = 4;
}

project-IsTiled_example : IsTiled 0 projected.cols projected.len
unfolding project get_col Str-discrete ℕ_discrete col_metas
project-IsTiled_example =
    project-IsTiled prev 0 (record { tab_name = 98 ∷ []; col_name = 108 ∷ [] } ∷ []) projected refl

fill-row_bytes_example :
    (fill (λ _. 9) table_of_one.cols (seven ∷ []) >>= λ rec. ok (slice rec 0 4))
    ≡ row table_of_one.cols (seven ∷ [])
unfolding IsTiled
fill-row_bytes_example = fill-row_bytes (λ _. 9) 4 table_of_one.cols (seven ∷ []) (refl, refl)

-- The bytes of the number 7.
row-seven : row table_of_one.cols (seven ∷ []) ≡ ok (7 ∷ 0 ∷ 0 ∷ 0 ∷ [])
unfolding row col_bytes init_raw raw_of ColType-discrete
row-seven = refl
