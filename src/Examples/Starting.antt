-- ===== src/Examples/Starting.antt =====
-- A deletion made ready to run, and a query.
use uni_base.Base.{ℕ, List, [], ◌∷◌, ◌≡◌, refl, lookup, ℕ_discrete}
use uni_base.Record.{Rid}
use uni_base.Record.Scan.{rid_at}
use uni_base.Errors.{ok, Str, Str-discrete, throw, undefined_behaviour}
use uni_base.Meta.{DbMeta, get_table}
use uni_base.Plan.{
  Plan, scan_plan, projection_plan, dml_plan, t_seq_scan, t_delete, t_select, t_projection, row_len,
}
use uni_base.Execution.Trees.{begin_tuple, new_seq_scan, new_projection, cols_of}
use uni_base.Portal.{
  PortalStmt, delete, portal_dml_without_select, start, start_dml, start_select,
  convert_plan_executor, convert_scan, new_delete,
}
use uni_base.Portal.Started.{idle_start, idle_dml, start-idle_start}
use uni_base.Examples.Rows.{table_of_one}

abbrev database : DbMeta
database = record { name = 100 ∷ []; tabs = (98 ∷ [], table_of_one) ∷ [] }

abbrev handles : List (Str × ℕ)
handles = (98 ∷ [], 5) ∷ []

abbrev scan : Plan
scan = scan_plan (record {
  tag = t_seq_scan;
  tab_name = 98 ∷ [];
  cols = table_of_one.cols;
  conds = [];
  len = 4;
  fed_conds = [];
  index_col_names = [];
})

-- `delete from b;`
abbrev deletion : Plan
deletion = dml_plan t_delete scan (98 ∷ []) [] [] []

abbrev started : PortalStmt ℕ
started = record {
  tag = portal_dml_without_select;
  sel_cols = [];
  root = delete (record { tab = table_of_one; conds = []; fh = 5; rids = []; tab_name = 98 ∷ [] });
  plan = deletion;
}

abbrev any_rid : Rid
any_rid = rid_at 7 7

start-idle_start_example :
    start database handles any_rid 1 deletion ≡ idle_start database handles deletion
start-idle_start_example = start-idle_start database handles any_rid 0 deletion

idle : idle_start database handles deletion ≡ ok started
unfolding idle_start idle_dml convert_plan_executor convert_scan new_seq_scan begin_tuple new_delete
    get_table lookup row_len Str-discrete ℕ_discrete
idle = refl

-- `select * from b;`
abbrev query : Plan
query = dml_plan t_select (projection_plan t_projection scan []) [] [] [] []

not_started : start database handles any_rid 1 query ≡ throw undefined_behaviour
unfolding start start_dml start_select convert_plan_executor convert_scan new_seq_scan
    new_projection cols_of get_table lookup row_len Str-discrete ℕ_discrete
not_started = refl
