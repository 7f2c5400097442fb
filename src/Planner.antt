-- ===== src/Planner.antt =====
-- src/optimizer/planner.cpp, planner.h and optimizer.h: the plan of a statement. A condition that a call
-- changes through its pointer is returned.
pub mod Joins
pub mod Placed
pub mod Pushed
mod Taken
mod Joined
mod NextJoin
mod Loop
mod Rest
pub mod Scans
pub mod Plans
pub mod Inferred
pub mod Analysed
pub mod Selected
unfoldable pub use Joins.*
use uni_base.Base.{List, [], ◌∷◌, ◌++◌, map, Option, none, some, Bool, true, false, if◌then◌else◌}
use uni_base.Errors.{Str, Result, ok, throw, internal_error, undefined_behaviour}
use uni_base.Outcome.{◌>>=◌, collect, str_eq}
use uni_base.Defs.{ColType, type_int, type_float, type_string}
use uni_base.Common.{TabCol, Condition, CompOp, op_eq}
use uni_base.Meta.{ColMeta, ColDef, DbMeta, get_table, is_index}
use uni_base.Ast
use uni_base.Analyze.{Query, get_all_cols}
use uni_base.Plan.{
  PlanTag, Plan, null, scan_plan, projection_plan, sort_plan, dml_plan, ddl_plan, other_plan,
  ScanPlan, new_scan, t_help, t_show_table, t_desc_table, t_create_table, t_drop_table,
  t_create_index, t_drop_index, t_insert, t_update, t_delete, t_select, t_transaction_begin,
  t_transaction_commit, t_transaction_abort, t_transaction_rollback, t_seq_scan, t_index_scan,
  t_sort, t_projection,
}

abbrev is_eq : CompOp → Bool
is_eq op_eq = true
is_eq _ = false

-- The columns of the table that are compared with a value by `=`.
unfoldable pub eq_cols : Str → List Condition → List Str
eq_cols tab_name [] = []
eq_cols tab_name (c ∷ cs) =
    let rest = eq_cols tab_name cs in
    if c.is_rhs_val
    then if is_eq c.op
      then if str_eq c.lhs_col.tab_name tab_name then c.lhs_col.col_name ∷ rest else rest
      else rest
    else rest

-- Whether there is an index, and the columns that were collected.
unfoldable pub get_index_cols : DbMeta → Str → List Condition → Result (Bool × List Str)
unfolding get_table is_index eq_cols
get_index_cols db tab_name conds = do
  tab ← get_table db tab_name
  ok (is_index tab (eq_cols tab_name conds), eq_cols tab_name conds)

-- The scan of a table: by its index when the columns compared are those of one.
unfoldable pub table_scan : DbMeta → Str → List Condition → Result ScanPlan
unfolding get_index_cols new_scan
table_scan db tab_name conds = do
  found ← get_index_cols db tab_name conds
  if found.0
      then new_scan db t_index_scan tab_name conds found.1
      else new_scan db t_seq_scan tab_name conds []

-- The scans of the tables in their order, and the conditions that are left.
unfoldable pub make_scans :
    DbMeta → List Str → List Condition → Result (List ScanPlan × List Condition)
unfolding table_scan pop_conds
make_scans db [] conds = ok ([], conds)
make_scans db (t ∷ ts) conds = do
  x ← table_scan db t (pop_conds conds t).0
  rest ← make_scans db ts (pop_conds conds t).1
  ok (x ∷ rest.0, rest.1)

-- A single table needs no join; the first element of no tables is undefined.
unfoldable pub rel_of : List ScanPlan → List Condition → Result Plan
unfolding join_scans
rel_of [] conds = throw undefined_behaviour
rel_of (x ∷ []) conds = ok (scan_plan x)
rel_of (x ∷ y ∷ xs) conds = ok (join_scans (x ∷ y ∷ xs) conds)

unfoldable pub make_one_rel : DbMeta → List Str → List Condition → Result Plan
unfolding make_scans rel_of
make_one_rel db tables conds = do made ← make_scans db tables conds; rel_of made.0 made.1

-- The last of the columns that has the name.
unfoldable pub sort_col : Str → List ColMeta → TabCol → TabCol
sort_col name [] sel_col = sel_col
sort_col name (c ∷ cs) sel_col =
    sort_col name cs
      (if str_eq c.name name then record { tab_name = c.tab_name; col_name = c.name } else sel_col)

abbrev is_desc : Ast.OrderByDir → Bool
is_desc Ast.order_by_desc = true
is_desc _ = false

unfoldable pub generate_sort_plan : DbMeta → Ast.SelectStmt → List Str → Plan → Result Plan
unfolding get_all_cols sort_col
generate_sort_plan db x tables plan = elim x.order [
  | none ↦ ok plan
  | some order ↦ do
    all_cols ← get_all_cols db tables
    ok (
        sort_plan t_sort plan
          (sort_col order.cols.col_name all_cols (record { tab_name = []; col_name = [] }))
          (is_desc order.orderby_dir))
]

unfoldable pub physical_optimization : DbMeta → Ast.SelectStmt → Query → Result Plan
unfolding make_one_rel generate_sort_plan
physical_optimization db x query = do
  plan ← make_one_rel db query.tables query.conds
  generate_sort_plan db x query.tables plan

-- `logical_optimization` returns the query as it is.
unfoldable pub generate_select_plan : DbMeta → Ast.SelectStmt → Query → Result Plan
unfolding physical_optimization
generate_select_plan db x query = do
  plan ← physical_optimization db x query
  ok (projection_plan t_projection plan query.cols)

unfoldable pub interp_sv_type : Ast.SvType → ColType
interp_sv_type Ast.sv_type_int = type_int
interp_sv_type Ast.sv_type_float = type_float
interp_sv_type Ast.sv_type_string = type_string

unfoldable pub interp_field : Ast.Field → Result ColDef
unfolding interp_sv_type
interp_field (Ast.col_def d) =
    ok (record { name = d.col_name; type = interp_sv_type d.type_len.type; len = d.type_len.len })
interp_field Ast.other_field = throw internal_error

unfoldable pub do_planner : DbMeta → Query → Result Plan
unfolding interp_field collect table_scan generate_select_plan
do_planner db query = elim query.parse [
  | Ast.create_table tab_name fields ↦ do
    col_defs ← collect interp_field fields
    ok (ddl_plan t_create_table tab_name [] col_defs)
  | Ast.drop_table tab_name ↦ ok (ddl_plan t_drop_table tab_name [] [])
  | Ast.create_index tab_name col_names ↦ ok (ddl_plan t_create_index tab_name col_names [])
  | Ast.drop_index tab_name col_names ↦ ok (ddl_plan t_drop_index tab_name col_names [])
  | Ast.insert_stmt tab_name vals ↦ ok (dml_plan t_insert null tab_name query.values [] [])
  | Ast.delete_stmt tab_name sv_conds ↦ do
    x ← table_scan db tab_name query.conds
    ok (dml_plan t_delete (scan_plan x) tab_name [] query.conds [])
  | Ast.update_stmt tab_name clauses sv_conds ↦ do
    x ← table_scan db tab_name query.conds
    ok (dml_plan t_update (scan_plan x) tab_name [] query.conds query.set_clauses)
  | Ast.select_stmt x ↦ do
    projection ← generate_select_plan db x query
    ok (dml_plan t_select projection [] [] [] [])
  | _ ↦ throw internal_error
]

-- `Optimizer::plan_query`
unfoldable pub plan_query : DbMeta → Query → Result Plan
unfolding do_planner
plan_query db query = elim query.parse [
  | Ast.help ↦ ok (other_plan t_help [])
  | Ast.show_tables ↦ ok (other_plan t_show_table [])
  | Ast.desc_table tab_name ↦ ok (other_plan t_desc_table tab_name)
  | Ast.txn_begin ↦ ok (other_plan t_transaction_begin [])
  | Ast.txn_abort ↦ ok (other_plan t_transaction_abort [])
  | Ast.txn_commit ↦ ok (other_plan t_transaction_commit [])
  | Ast.txn_rollback ↦ ok (other_plan t_transaction_rollback [])
  | _ ↦ do_planner db query
]
