-- ===== src/Plan.antt =====
-- src/optimizer/plan.h: the plans. A pointer to a plan is the plan, and the null pointer is `null`. A
-- class is a constructor that carries the members of its class, the tag first.
use uni_base.Base.{ℕ, List, [], ◌∷◌, ◌+◌, Bool}
use uni_base.Errors.{Str, Result, ok, throw, undefined_behaviour}
use uni_base.Outcome.{◌>>=◌}
use uni_base.Common.{TabCol, Value, Condition, SetClause}
use uni_base.Meta.{ColMeta, ColDef, DbMeta, get_table}

pub data PlanTag : Type 0 where
  t_invalid t_help t_show_table t_desc_table t_create_table t_drop_table t_create_index
        t_drop_index :
      PlanTag
  t_insert t_update t_delete t_select : PlanTag
  t_transaction_begin t_transaction_commit t_transaction_abort t_transaction_rollback : PlanTag
  t_seq_scan t_index_scan t_nest_loop t_sort t_projection : PlanTag

pub record ScanPlan : Type 0 where
  pub tag : PlanTag
  pub tab_name : Str
  pub cols : List ColMeta
  pub conds : List Condition
  pub len : ℕ
  pub fed_conds : List Condition
  pub index_col_names : List Str

-- The join type of a join is always an inner join.
pub data Plan : Type 0 where
  null : Plan
  scan_plan : ScanPlan → Plan
  join_plan : PlanTag → Plan → Plan → List Condition → Plan
  projection_plan : PlanTag → Plan → List TabCol → Plan
  sort_plan : PlanTag → Plan → TabCol → Bool → Plan
  dml_plan : PlanTag → Plan → Str → List Value → List Condition → List SetClause → Plan
  ddl_plan : PlanTag → Str → List Str → List ColDef → Plan
  other_plan : PlanTag → Str → Plan

-- The end of the last column. `back` of an empty vector is undefined.
unfoldable pub row_len : List ColMeta → Result ℕ
row_len [] = throw undefined_behaviour
row_len (c ∷ []) = ok (c.offset + c.len)
row_len (c ∷ d ∷ cs) = row_len (d ∷ cs)

-- The constructor of a scan.
unfoldable pub new_scan : DbMeta → PlanTag → Str → List Condition → List Str → Result ScanPlan
unfolding get_table row_len
new_scan db tag tab_name conds index_col_names = do
  tab ← get_table db tab_name
  len ← row_len tab.cols
  ok (record {
    tag = tag;
    tab_name = tab_name;
    cols = tab.cols;
    conds = conds;
    len = len;
    fed_conds = conds;
    index_col_names = index_col_names;
  })
