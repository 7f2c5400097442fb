-- ===== src/Execution/Trees.antt =====
-- The executors of src/execution as the portal makes them of a plan. `beginTuple`, `nextTuple` and `Next` are empty in
-- the source, but for the insert executor. A pointer to an executor is the executor, and the null pointer is `null`.
use uni_base.Base.{
  ℕ, ◌+◌, ◌++◌, List, [], Option, none, some, Bool, true, false, if◌then◌else◌, lookup,
}
use uni_base.Errors.{
  Str, Str-discrete, Result, ok, throw, out_of_range, undefined_behaviour, assertion_failed,
}
use uni_base.Outcome.{◌>>=◌, str_eq, collect}
use uni_base.Defs.{type_int}
use uni_base.Common.{TabCol, Condition, SetClause}
use uni_base.Meta.{ColMeta, IndexMeta, TabMeta, DbMeta, get_table, get_index_meta}
use uni_base.Record.{Rid}
use uni_base.Plan.{row_len}
use uni_base.Planner.Joins.{swap_sides}
use uni_base.Execution.{Projected, project, shift_cols}

-- The scans of a table; an index scan has the metadata of its index.
pub record TableScan (H : Type 0) : Type 0 where
  pub tab_name : Str
  pub conds : List Condition
  pub fh : H
  pub cols : List ColMeta
  pub len : ℕ
  pub fed_conds : List Condition
  pub index_meta : Option IndexMeta

pub data Executor (H : Type 0) : Type 0 where
  null : Executor H
  seq_scan : TableScan H → Executor H
  index_scan : TableScan H → Executor H
  nested_loop_join : Executor H → Executor H → List ColMeta × ℕ → List Condition → Executor H
  projection : Executor H → Projected → Executor H
  sort : Executor H → ColMeta → Bool → Executor H

pub record UpdateExecutor (H : Type 0) : Type 0 where
  pub tab : TabMeta
  pub conds : List Condition
  pub fh : H
  pub rids : List Rid
  pub tab_name : Str
  pub set_clauses : List SetClause

pub record DeleteExecutor (H : Type 0) : Type 0 where
  pub tab : TabMeta
  pub conds : List Condition
  pub fh : H
  pub rids : List Rid
  pub tab_name : Str

abbrev pub at : {H : Type 0} → List (Str × H) → Str → Result H
at fhs name = elim (lookup Str-discrete name fhs) [ none ↦ throw out_of_range | some h ↦ ok h ]

unfoldable pub new_seq_scan :
    {H : Type 0} → DbMeta → List (Str × H) → Str → List Condition → Result (TableScan H)
unfolding get_table row_len
new_seq_scan db fhs tab_name conds = do
  tab ← get_table db tab_name
  fh ← at fhs tab_name
  len ← row_len tab.cols
  ok (record {
    tab_name = tab_name;
    conds = conds;
    fh = fh;
    cols = tab.cols;
    len = len;
    fed_conds = conds;
    index_meta = none;
  })

-- A condition with its own table on the left.
unfoldable pub orient : Str → Condition → Result Condition
unfolding swap_sides
orient tab_name cond =
    if str_eq cond.lhs_col.tab_name tab_name
    then ok cond
    else if cond.is_rhs_val
    then throw assertion_failed
    else if str_eq cond.rhs_col.tab_name tab_name
    then ok (swap_sides cond)
    else throw assertion_failed

unfoldable pub new_index_scan :
    {H : Type 0} → DbMeta → List (Str × H) → Str → List Condition → List Str → Result (TableScan H)
unfolding get_table get_index_meta row_len orient collect
new_index_scan db fhs tab_name conds index_col_names = do
  tab ← get_table db tab_name
  index ← get_index_meta tab index_col_names
  fh ← at fhs tab_name
  len ← row_len tab.cols
  own ← collect (orient tab_name) conds
  ok (record {
    tab_name = tab_name;
    conds = own;
    fh = fh;
    cols = tab.cols;
    len = len;
    fed_conds = own;
    index_meta = some index;
  })

-- `ColMeta()`
abbrev no_col : ColMeta
no_col = record { tab_name = []; name = []; type = type_int; len = 0; offset = 0; index = false }

module _ {H : Type 0} where
  -- The methods of `AbstractExecutor`, which no executor of a query overrides. `cols` returns a reference through a
  -- null pointer, and so it does when the executor itself is null.
  unfoldable pub cols_of : Executor H → Result (List ColMeta)
  cols_of x = throw undefined_behaviour

  unfoldable pub tuple_len : Executor H → Result ℕ
  tuple_len null = throw undefined_behaviour
  tuple_len x = ok 0

  unfoldable pub is_end : Executor H → Result Bool
  is_end null = throw undefined_behaviour
  is_end x = ok true

  -- Both are empty in every executor of a query.
  unfoldable pub begin_tuple : Executor H → Result (Executor H)
  begin_tuple null = throw undefined_behaviour
  begin_tuple x = ok x

  unfoldable pub next_tuple : Executor H → Result (Executor H)
  next_tuple null = throw undefined_behaviour
  next_tuple x = ok x

  -- `rid`, of a member that no code sets: `any_rid` is what it holds.
  unfoldable pub rid_of : Rid → Executor H → Result Rid
  rid_of any_rid null = throw undefined_behaviour
  rid_of any_rid x = ok any_rid

  unfoldable pub get_col_offset : Executor H → TabCol → Result ColMeta
  get_col_offset null target = throw undefined_behaviour
  get_col_offset x target = ok no_col

  unfoldable pub new_projection : Executor H → List TabCol → Result (Executor H)
  unfolding cols_of project
  new_projection prev sel_cols = do
    prev_cols ← cols_of prev
    p ← project prev_cols 0 sel_cols
    ok (projection prev p)

  unfoldable pub new_join : Executor H → Executor H → List Condition → Result (Executor H)
  unfolding cols_of tuple_len shift_cols
  new_join left right conds = do
    l ← tuple_len left
    r ← tuple_len right
    left_cols ← cols_of left
    right_cols ← cols_of right
    ok (nested_loop_join left right (left_cols ++ shift_cols l right_cols, l + r) conds)

  unfoldable pub new_sort : Executor H → TabCol → Bool → Result (Executor H)
  unfolding get_col_offset
  new_sort prev sel_col is_desc = do col ← get_col_offset prev sel_col; ok (sort prev col is_desc)
