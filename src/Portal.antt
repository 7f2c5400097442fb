-- ===== src/Portal.antt =====
-- src/portal.h: the executors of a plan, and what a statement starts with.
pub mod Started
use uni_base.Base.{ℕ, zero, suc, List, [], ◌∷◌, Option, none, some, Bool, true, false}
use uni_base.Errors.{Str, Result, ok, throw, internal_error, undefined_behaviour, still_running}
use uni_base.Outcome.{◌>>=◌}
use uni_base.Common.{TabCol, Value, Condition, SetClause}
use uni_base.Meta.{DbMeta, get_table}
use uni_base.Record.{Rid}
use uni_base.Plan.{
  Plan, ScanPlan, PlanTag, scan_plan, join_plan, projection_plan, sort_plan, dml_plan, ddl_plan,
  other_plan, t_seq_scan, t_insert, t_update, t_delete, t_select,
}
use uni_base.Execution.{InsertExecutor, new_insert}
use uni_base.Execution.Trees.{
  Executor, UpdateExecutor, DeleteExecutor, TableScan, seq_scan, index_scan, at, is_end,
  begin_tuple, next_tuple, rid_of, new_seq_scan, new_index_scan, new_projection, new_join, new_sort,
}

pub data PortalTag : Type 0 where
  portal_invalid_query portal_one_select portal_dml_without_select portal_multi_query
        portal_cmd_utility :
      PortalTag

-- What runs: nothing, a query, or a change of a table.
pub data Root (H : Type 0) : Type 0 where
  no_root : Root H
  query : Executor H → Root H
  update : UpdateExecutor H → Root H
  delete : DeleteExecutor H → Root H
  insertion : InsertExecutor H → Root H

pub record PortalStmt (H : Type 0) : Type 0 where
  pub tag : PortalTag
  pub sel_cols : List TabCol
  pub root : Root H
  pub plan : Plan

-- The loop that collects the record ids of a scan, with a bound on its rounds.
unfoldable pub collect_from : {H : Type 0} → Rid → ℕ → Executor H → Result (List Rid)
unfolding is_end rid_of next_tuple
collect_from any_rid zero scan = throw still_running
collect_from any_rid (suc rounds) scan = do
  ended ← is_end scan
  elim ended [
    | true ↦ ok []
    | false ↦ do
      rid ← rid_of any_rid scan
      next ← next_tuple scan
      rids ← collect_from any_rid rounds next
      ok (rid ∷ rids)
  ]

unfoldable pub collect_scan : {H : Type 0} → Rid → ℕ → Executor H → Result (List Rid)
unfolding begin_tuple collect_from
collect_scan any_rid rounds scan = (begin_tuple scan >>= λ x. collect_from any_rid rounds x)

module _ {H : Type 0} (db : DbMeta) (fhs : List (Str × H)) where
  -- A scan that is not a sequential scan is an index scan.
  unfoldable pub convert_scan : PlanTag → ScanPlan → Result (Executor H)
  unfolding new_seq_scan new_index_scan
  convert_scan t_seq_scan x = do scan ← new_seq_scan db fhs x.tab_name x.conds; ok (seq_scan scan)
  convert_scan _ x = do
    scan ← new_index_scan db fhs x.tab_name x.conds x.index_col_names
    ok (index_scan scan)

  unfoldable pub convert_plan_executor : Plan → Result (Executor H)
  unfolding convert_scan new_projection new_join new_sort
  convert_plan_executor (projection_plan tag sub sel_cols) =
      (convert_plan_executor sub >>= λ prev. new_projection prev sel_cols)
  convert_plan_executor (scan_plan x) = convert_scan x.tag x
  convert_plan_executor (join_plan tag left right conds) =
      (convert_plan_executor left >>= λ l. convert_plan_executor right >>= λ r. new_join l r conds)
  convert_plan_executor (sort_plan tag sub sel_col is_desc) =
      (convert_plan_executor sub >>= λ prev. new_sort prev sel_col is_desc)
  convert_plan_executor _ = ok Executor.null

  unfoldable pub new_update :
      Str → List SetClause → List Condition → List Rid → Result (UpdateExecutor H)
  new_update tab_name set_clauses conds rids = do
    tab ← get_table db tab_name
    fh ← at fhs tab_name
    ok (record {
      tab = tab;
      conds = conds;
      fh = fh;
      rids = rids;
      tab_name = tab_name;
      set_clauses = set_clauses;
    })

  unfoldable pub new_delete : Str → List Condition → List Rid → Result (DeleteExecutor H)
  new_delete tab_name conds rids = do
    tab ← get_table db tab_name
    fh ← at fhs tab_name
    ok (record { tab = tab; conds = conds; fh = fh; rids = rids; tab_name = tab_name })

  -- A `select`: the plan below has to be a projection, for its columns are read even if it is not.
  unfoldable pub start_select : Plan → Plan → Result (PortalStmt H)
  unfolding convert_plan_executor
  start_select plan (projection_plan tag sub sel_cols) = do
    root ← convert_plan_executor (projection_plan tag sub sel_cols)
    ok (record { tag = portal_one_select; sel_cols = sel_cols; root = query root; plan = plan })
  start_select plan _ = throw undefined_behaviour

-- Over what a record id holds that was not set, and a bound on the rounds of the loops.
module _ {H : Type 0} (db : DbMeta) (fhs : List (Str × H)) (any_rid : Rid) (rounds : ℕ) where
  -- A change of a table, by its tag.
  unfoldable pub start_dml :
      Plan
      → PlanTag
      → Plan
      → Str
      → List Value
      → List Condition
      → List SetClause
      → Result (PortalStmt H)
  unfolding start_select convert_plan_executor collect_scan new_update new_delete new_insert
  start_dml plan t_select sub tab_name values conds set_clauses = start_select db fhs plan sub
  start_dml plan t_update sub tab_name values conds set_clauses = do
    scan ← convert_plan_executor db fhs sub
    rids ← collect_scan any_rid rounds scan
    root ← new_update db fhs tab_name set_clauses conds rids
    ok (record { tag = portal_dml_without_select; sel_cols = []; root = update root; plan = plan })
  start_dml plan t_delete sub tab_name values conds set_clauses = do
    scan ← convert_plan_executor db fhs sub
    rids ← collect_scan any_rid rounds scan
    root ← new_delete db fhs tab_name conds rids
    ok (record { tag = portal_dml_without_select; sel_cols = []; root = delete root; plan = plan })
  start_dml plan t_insert sub tab_name values conds set_clauses = do
    root ← new_insert db fhs tab_name values
    ok (record {
      tag = portal_dml_without_select;
      sel_cols = [];
      root = insertion root;
      plan = plan;
    })
  start_dml plan _ sub tab_name values conds set_clauses = throw internal_error

  unfoldable pub start : Plan → Result (PortalStmt H)
  unfolding start_dml
  start (other_plan tag tab_name) = ok (record {
    tag = portal_cmd_utility;
    sel_cols = [];
    root = no_root;
    plan = other_plan tag tab_name;
  })
  start (ddl_plan tag tab_name names defs) = ok (record {
    tag = portal_multi_query;
    sel_cols = [];
    root = no_root;
    plan = ddl_plan tag tab_name names defs;
  })
  start (dml_plan tag sub tab_name values conds set_clauses) =
      start_dml (dml_plan tag sub tab_name values conds set_clauses) tag sub tab_name values conds
        set_clauses
  start _ = throw internal_error
