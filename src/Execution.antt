-- ===== src/Execution.antt =====
-- src/execution: the executors. `executor_insert.h` makes a row and inserts it; the constructors of the
-- others lay out the columns that they produce.
pub mod Rows
pub mod Columns
pub mod Inserts
pub mod Manager
pub mod Trees
pub mod Answers
use uni_base.Base.{
  ℕ, suc, ◌+◌, List, [], ◌∷◌, ◌++◌, Option, none, some, Bool, true, false, ite, if◌then◌else◌, ◌==◌,
  lookup, length,
}
use uni_base.Errors.{
  Str, Str-discrete, Step, Result, ok, throw, invalid_value_count, incompatible_type, out_of_range,
  undefined_behaviour, column_not_found,
}
use uni_base.Outcome.{◌>>=◌, str_eq}
use uni_base.Defs.{ColType-discrete, coltype2str}
use uni_base.Common.{TabCol, Value, init_raw}
use uni_base.Meta.{ColMeta, IndexMeta, TabMeta, DbMeta, get_table}
use uni_base.Bytes.{slice}
use uni_base.Storage.Page.{Block}
use uni_base.Recovery.{put_bytes}
use uni_base.Replacer.{Replacer}
use uni_base.Record.{RmFile, Rid}
use uni_base.Record.Insert.{insert_record}

-- What the constructor keeps.
pub record InsertExecutor (H : Type 0) : Type 0 where
  pub tab : TabMeta
  pub values : List Value
  pub fh : H
  pub tab_name : Str

unfoldable pub new_insert :
    {H : Type 0} → DbMeta → List (Str × H) → Str → List Value → Result (InsertExecutor H)
unfolding get_table
new_insert db fhs tab_name values = do
  tab ← get_table db tab_name
  if length values == length tab.cols
      then elim (lookup Str-discrete tab_name fhs) [
        | none ↦ throw out_of_range
        | some h ↦ ok (record { tab = tab; values = values; fh = h; tab_name = tab_name })
      ]
      else throw invalid_value_count

-- The bytes of a value for a column, when the types agree.
unfoldable pub col_bytes : ColMeta → Value → Result (List ℕ)
unfolding init_raw ColType-discrete coltype2str
col_bytes col val =
    ite (ColType-discrete col.type val.type)
      (init_raw val col.len >>= λ v. elim v.raw [
        | none ↦ throw undefined_behaviour
        | some b ↦ ok b
      ])
      (throw (incompatible_type (coltype2str col.type) (coltype2str val.type)))

-- The loop that fills the record; there are as many columns as values.
unfoldable pub fill : Block → List ColMeta → List Value → Result Block
unfolding col_bytes put_bytes
fill rec [] [] = ok rec
fill rec (col ∷ cols) (val ∷ vals) = do
  b ← col_bytes col val
  fill (put_bytes rec col.offset b) cols vals
fill rec _ _ = throw undefined_behaviour

-- The key of an index: its columns of the record, one after the other.
unfoldable pub index_key : Block → List ColMeta → List ℕ
unfolding slice
index_key rec [] = []
index_key rec (col ∷ cols) = slice rec col.offset col.len ++ index_key rec cols

unfoldable pub join_names : List ColMeta → Str
join_names [] = []
join_names (col ∷ cols) = (95 ∷ col.name) ++ join_names cols

-- `IxManager::get_index_name`: the name of the table, of each column after `_`, and `.idx`.
unfoldable pub get_index_name : Str → List ColMeta → Str
unfolding join_names
get_index_name filename index_cols =
    filename ++ (join_names index_cols ++ (46 ∷ 105 ∷ 100 ∷ 120 ∷ []))

-- The keys that go into the indexes, whose handles are looked up by name. `insert_entry` itself is empty in
-- the source.
unfoldable pub index_keys :
    {K : Type 0} → List (Str × K) → Str → Block → List IndexMeta → Result (List (K × List ℕ))
unfolding get_index_name index_key
index_keys ihs tab_name rec [] = ok []
index_keys ihs tab_name rec (index ∷ indexes) =
    elim (lookup Str-discrete (get_index_name tab_name index.cols) ihs) [
      | none ↦ throw out_of_range
      | some ih ↦
          (index_keys ihs tab_name rec indexes >>= λ rest.
          ok ((ih, index_key rec index.cols) ∷ rest))
    ]

module _ (R : Replacer) {K : Type 0} where
  open R use {S}

  -- The row is made and inserted, and then its keys; `rec` is what the memory of the record holds before
  -- it is filled.
  unfoldable pub insert_next :
      ℕ → Block → List (Str × K) → InsertExecutor (RmFile S) → Step (RmFile S) Rid
  unfolding fill insert_record index_keys
  insert_next rounds rec ihs x f = elim (fill rec x.tab.cols x.values) [
    | throw e ↦ (throw e, f)
    | ok buf ↦
        let (r, g) = insert_record R rounds buf f in
        elim r [
          | throw e ↦ (throw e, g)
          | ok rid ↦ elim (index_keys ihs x.tab_name buf x.tab.indexes) [
            | throw e ↦ (throw e, g)
            | ok keys ↦ (ok rid, g)
          ]
        ]
  ]

-- `AbstractExecutor::get_col`: the column and its index.
unfoldable pub get_col : List ColMeta → TabCol → Result (ℕ × ColMeta)
get_col [] target = throw (column_not_found (target.tab_name ++ 46 ∷ target.col_name))
get_col (c ∷ cs) target =
    let rest = get_col cs target in
    if str_eq c.tab_name target.tab_name
    then if str_eq c.name target.col_name then ok (0, c) else (rest >>= λ r. ok (suc r.0, r.1))
    else (rest >>= λ r. ok (suc r.0, r.1))

-- The columns of a projection from an offset on, their indexes in the rows below, and their length.
pub record Projected : Type 0 where
  pub sel_idxs : List ℕ
  pub cols : List ColMeta
  pub len : ℕ

unfoldable pub project : List ColMeta → ℕ → List TabCol → Result Projected
unfolding get_col
project prev_cols curr_offset [] = ok (record { sel_idxs = []; cols = []; len = curr_offset })
project prev_cols curr_offset (s ∷ ss) = do
  pos ← get_col prev_cols s
  rest ← project prev_cols (curr_offset + (pos.1).len) ss
  ok (record {
    sel_idxs = pos.0 ∷ rest.sel_idxs;
    cols = record (pos.1) { offset = curr_offset } ∷ rest.cols;
    len = rest.len;
  })

-- The columns of the right side of a join, behind those of the left.
unfoldable pub shift_cols : ℕ → List ColMeta → List ColMeta
shift_cols len [] = []
shift_cols len (c ∷ cs) = record c { offset = c.offset + len } ∷ shift_cols len cs
