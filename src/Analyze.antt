-- ===== src/Analyze.antt =====
-- src/analyze/analyze.cpp and analyze.h: the semantic analysis of a statement. A condition that a loop
-- rewrites in place is returned. The `raw` buffer of a value belongs to that value alone.
pub mod Typed
pub mod Outcomes
pub mod Owner
use uni_base.Base.{
  List, [], ◌∷◌, ◌++◌, map, Option, none, some, Bool, true, false, ite, if◌then◌else◌,
}
use uni_base.Errors.{
  Str, Str-discrete, Result, ok, throw, ambiguous_column, column_not_found, incompatible_type,
}
use uni_base.Outcome.{◌>>=◌, collect, str_eq}
use uni_base.Defs.{ColType, ColType-discrete, type_int, coltype2str}
use uni_base.Common.{
  TabCol, Value, new_value, set_int, set_float, set_str, init_raw, CompOp, op_eq, op_ne, op_lt,
  op_gt, op_le, op_ge, Condition, SetClause,
}
use uni_base.Meta.{ColMeta, TabMeta, DbMeta, get_table, get_col}
use uni_base.Ast

pub record Query : Type 0 where
  pub parse : Ast.TreeNode
  pub conds : List Condition
  pub cols : List TabCol
  pub tables : List Str
  pub set_clauses : List SetClause
  pub values : List Value

abbrev pub is_empty : Str → Bool
is_empty [] = true
is_empty (c ∷ cs) = false

-- The loop of `check_column`: the table found so far, which is empty before the first.
unfoldable pub infer_tab : List ColMeta → Str → Str → Result Str
infer_tab [] col_name tab_name = ok tab_name
infer_tab (c ∷ cs) col_name tab_name =
    if str_eq c.name col_name
    then if is_empty tab_name
      then infer_tab cs col_name c.tab_name
      else throw (ambiguous_column col_name)
    else infer_tab cs col_name tab_name

unfoldable pub check_column : List ColMeta → TabCol → Result TabCol
unfolding infer_tab
check_column all_cols target =
    if is_empty target.tab_name
    then (infer_tab all_cols target.col_name [] >>= λ tab_name.
        if is_empty tab_name
        then throw (column_not_found target.col_name)
        else ok (record target { tab_name = tab_name }))
    else ok target

unfoldable pub get_all_cols : DbMeta → List Str → Result (List ColMeta)
get_all_cols db [] = ok []
get_all_cols db (t ∷ ts) = do tab ← get_table db t; rest ← get_all_cols db ts; ok (tab.cols ++ rest)

unfoldable pub convert_sv_value : Ast.Value → Value
unfolding set_int set_float set_str
convert_sv_value (Ast.int_lit n) = set_int n new_value
convert_sv_value (Ast.float_lit bits) = set_float bits new_value
convert_sv_value (Ast.string_lit s) = set_str s new_value

unfoldable pub convert_sv_comp_op : Ast.SvCompOp → CompOp
convert_sv_comp_op Ast.sv_op_eq = op_eq
convert_sv_comp_op Ast.sv_op_ne = op_ne
convert_sv_comp_op Ast.sv_op_lt = op_lt
convert_sv_comp_op Ast.sv_op_gt = op_gt
convert_sv_comp_op Ast.sv_op_le = op_le
convert_sv_comp_op Ast.sv_op_ge = op_ge

abbrev pub tab_col : Ast.Col → TabCol
tab_col c = record { tab_name = c.tab_name; col_name = c.col_name }

-- An `is_rhs_val` and the side that the expression does not give are never read before they are set.
unfoldable pub condition_of : Ast.BinaryExpr → Condition
unfolding convert_sv_comp_op convert_sv_value
condition_of expr = elim expr.rhs [
  | Ast.value v ↦ record {
    lhs_col = tab_col expr.lhs;
    op = convert_sv_comp_op expr.op;
    is_rhs_val = true;
    rhs_col = record { tab_name = []; col_name = [] };
    rhs_val = convert_sv_value v;
  }
  | Ast.column c ↦ record {
    lhs_col = tab_col expr.lhs;
    op = convert_sv_comp_op expr.op;
    is_rhs_val = false;
    rhs_col = tab_col c;
    rhs_val = new_value;
  }
]

unfoldable pub get_clause : List Ast.BinaryExpr → List Condition
unfolding condition_of
get_clause sv_conds = map condition_of sv_conds

-- The type of the right side, and the condition with the value's bytes filled in.
unfoldable pub rhs_type : DbMeta → ColMeta → Condition → Result (ColType × Condition)
unfolding init_raw get_table get_col
rhs_type db lhs cond =
    if cond.is_rhs_val
    then (init_raw cond.rhs_val lhs.len >>= λ v. ok (v.type, record cond { rhs_val = v }))
    else do
      tab ← get_table db cond.rhs_col.tab_name
      rhs ← get_col tab cond.rhs_col.col_name
      ok (rhs.type, cond)

-- The columns of a condition with their tables.
unfoldable pub resolve : List ColMeta → Condition → Result Condition
unfolding check_column
resolve all_cols cond = do
  lhs ← check_column all_cols cond.lhs_col
  if cond.is_rhs_val then ok (record cond { lhs_col = lhs }) else do
    rhs ← check_column all_cols cond.rhs_col
    ok (record cond { lhs_col = lhs; rhs_col = rhs })

unfoldable pub check_types : DbMeta → Condition → Result Condition
unfolding get_table get_col rhs_type ColType-discrete coltype2str
check_types db cond = do
  tab ← get_table db cond.lhs_col.tab_name
  lhs ← get_col tab cond.lhs_col.col_name
  typed ← rhs_type db lhs cond
  ite (ColType-discrete lhs.type typed.0) (ok typed.1)
      (throw (incompatible_type (coltype2str lhs.type) (coltype2str typed.0)))

unfoldable pub check_cond : DbMeta → List ColMeta → Condition → Result Condition
unfolding resolve check_types
check_cond db all_cols cond = do resolved ← resolve all_cols cond; check_types db resolved

unfoldable pub check_clause : DbMeta → List Str → List Condition → Result (List Condition)
unfolding get_all_cols check_cond collect
check_clause db tab_names conds = do
  all_cols ← get_all_cols db tab_names
  collect (check_cond db all_cols) conds

abbrev pub col_of : ColMeta → TabCol
col_of c = record { tab_name = c.tab_name; col_name = c.name }

-- The target list: all columns for `*`.
unfoldable pub select_cols : List ColMeta → List TabCol → Result (List TabCol)
unfolding check_column collect
select_cols all_cols [] = ok (map col_of all_cols)
select_cols all_cols (c ∷ cs) = collect (check_column all_cols) (c ∷ cs)

abbrev new_query : Ast.TreeNode → Query
new_query parse = record {
  parse = parse;
  conds = [];
  cols = [];
  tables = [];
  set_clauses = [];
  values = [];
}

-- The names of the tables are moved out of the statement.
unfoldable pub analyze_select : DbMeta → Ast.SelectStmt → Result Query
unfolding get_all_cols select_cols get_clause check_clause
analyze_select db x = do
  all_cols ← get_all_cols db x.tabs
  cols ← select_cols all_cols (map tab_col x.cols)
  conds ← check_clause db x.tabs (get_clause x.conds)
  ok (record (new_query (Ast.select_stmt (record x { tabs = [] }))) {
    tables = x.tabs;
    cols = cols;
    conds = conds;
  })

unfoldable pub analyze_delete : DbMeta → Str → List Ast.BinaryExpr → Result Query
unfolding get_clause check_clause
analyze_delete db tab_name sv_conds = do
  conds ← check_clause db (tab_name ∷ []) (get_clause sv_conds)
  ok (record (new_query (Ast.delete_stmt tab_name sv_conds)) { conds = conds })

unfoldable pub do_analyze : DbMeta → Ast.TreeNode → Result Query
unfolding analyze_select analyze_delete convert_sv_value
do_analyze db (Ast.select_stmt x) = analyze_select db x
do_analyze db (Ast.delete_stmt tab_name sv_conds) = analyze_delete db tab_name sv_conds
do_analyze db (Ast.insert_stmt tab_name vals) =
    ok (record (new_query (Ast.insert_stmt tab_name vals)) { values = map convert_sv_value vals })
do_analyze db parse = ok (new_query parse)
