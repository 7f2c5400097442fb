-- ===== src/Planner/Joins.antt =====
-- src/optimizer/planner.cpp: the conditions that a scan takes, and the joins of the scans.
use uni_base.Base.{ℕ, ◌+◌, List, [], ◌∷◌, ◌++◌, Bool, true, false, if◌then◌else◌, ◌==◌}
use uni_base.Errors.{Str}
use uni_base.Outcome.{str_eq, str_mem}
use uni_base.Common.{Condition, CompOp, op_eq, op_ne, op_lt, op_gt, op_le, op_ge}
use uni_base.Plan.{Plan, null, scan_plan, join_plan, ScanPlan, t_nest_loop}

-- Whether the scan of a table takes a condition.
abbrev pub takes : Str → Condition → Bool
takes tab_name c =
    if str_eq tab_name c.lhs_col.tab_name
    then if c.is_rhs_val then true else str_eq c.lhs_col.tab_name c.rhs_col.tab_name
    else str_eq c.lhs_col.tab_name c.rhs_col.tab_name

-- The conditions taken, and those that stay.
unfoldable pub pop_conds : List Condition → Str → List Condition × List Condition
pop_conds [] tab_name = ([], [])
pop_conds (c ∷ cs) tab_name =
    let rest = pop_conds cs tab_name in
    if takes tab_name c then (c ∷ rest.0, rest.1) else (rest.0, c ∷ rest.1)

unfoldable pub swap_op : CompOp → CompOp
swap_op op_eq = op_eq
swap_op op_ne = op_ne
swap_op op_lt = op_gt
swap_op op_gt = op_lt
swap_op op_le = op_ge
swap_op op_ge = op_le

unfoldable pub swap_sides : Condition → Condition
unfolding swap_op
swap_sides c = record c { lhs_col = c.rhs_col; rhs_col = c.lhs_col; op = swap_op c.op }

-- The code that is returned, and the plan with the condition in it when that is 3.
unfoldable pub push_conds : Condition → Plan → ℕ × Plan
unfolding swap_sides
push_conds cond (scan_plan x) =
    if str_eq x.tab_name cond.lhs_col.tab_name
    then (1, scan_plan x)
    else if str_eq x.tab_name cond.rhs_col.tab_name
    then (2, scan_plan x)
    else (0, scan_plan x)
push_conds cond (join_plan tag left right conds) =
    let in_left = push_conds cond left in
    let in_right = push_conds cond right in
    if in_left.0 == 3
    then (3, join_plan tag in_left.1 right conds)
    else if in_right.0 == 3
    then (3, join_plan tag left in_right.1 conds)
    else if in_left.0 == 0
    then (in_left.0 + in_right.0, join_plan tag left right conds)
    else if in_right.0 == 0
    then (in_left.0 + in_right.0, join_plan tag left right conds)
    else (
      3,
      join_plan tag left right (conds ++ (if in_left.0 == 2 then swap_sides cond else cond) ∷ []),
    )
push_conds cond plan = (0, plan)

-- The scans of the tables with whether `scantbl` marks them, and the names of the tables joined.
pub record Joining : Type 0 where
  pub scans : List (ScanPlan × Bool)
  pub joined_tables : List Str

-- The scan that is found is marked.
unfoldable pub pop_scan : Str → List (ScanPlan × Bool) → Plan × List (ScanPlan × Bool)
pop_scan table [] = (null, [])
pop_scan table (x ∷ xs) =
    let rest = pop_scan table xs in
    if str_eq (x.0).tab_name table then (scan_plan x.0, (x.0, true) ∷ xs) else (rest.0, x ∷ rest.1)

abbrev pub is_null : Plan → Bool
is_null null = true
is_null _ = false

-- `pop_scan`, the table found joined.
unfoldable pub take_scan : Str → Joining → Plan × Joining
unfolding pop_scan
take_scan table s =
    let found = pop_scan table s.scans in
    (
      found.0,
      record {
        scans = found.1;
        joined_tables = if is_null found.0 then s.joined_tables else s.joined_tables ++ table ∷ [];
      },
    )

-- A scan for a table that is not joined yet.
unfoldable pub need_scan : Str → Joining → Plan × Joining
unfolding take_scan
need_scan table s = if str_mem table s.joined_tables then (null, s) else take_scan table s

abbrev pub nest_loop : Plan → Plan → List Condition → Plan
nest_loop = join_plan t_nest_loop

unfoldable pub first_join : Condition → Joining → Plan × Joining
unfolding take_scan
first_join c s =
    let left = take_scan c.lhs_col.tab_name s in
    let right = take_scan c.rhs_col.tab_name left.1 in (nest_loop left.0 right.0 (c ∷ []), right.1)

-- One more condition; `reverse` is `isneedreverse`.
unfoldable pub next_join : Condition → Plan → Joining → Plan × Joining
unfolding need_scan push_conds swap_sides
next_join c plan s =
    let left = need_scan c.lhs_col.tab_name s in
    let reverse = (if str_mem c.rhs_col.tab_name left.1.joined_tables then false else true) in
    let right = need_scan c.rhs_col.tab_name left.1 in
    if is_null left.0
    then if is_null right.0
      then ((push_conds c plan).1, right.1)
      else (nest_loop right.0 plan (swap_sides c ∷ []), right.1)
    else if is_null right.0
    then if reverse
      then (nest_loop right.0 plan (swap_sides c ∷ []), right.1)
      else (nest_loop left.0 plan (c ∷ []), right.1)
    else (nest_loop (nest_loop left.0 right.0 (c ∷ [])) plan [], right.1)

unfoldable pub next_joins : List Condition → Plan → Joining → Plan × Joining
unfolding next_join
next_joins [] plan s = (plan, s)
next_joins (c ∷ cs) plan s = let next = next_join c plan s in next_joins cs next.0 next.1

-- The tables that no condition joined.
unfoldable pub join_rest : List (ScanPlan × Bool) → Plan → Plan
join_rest [] plan = plan
join_rest (x ∷ xs) plan = join_rest xs (if x.1 then plan else nest_loop (scan_plan x.0) plan [])

abbrev pub unmarked : List ScanPlan → List (ScanPlan × Bool)
unmarked [] = []
unmarked (x ∷ xs) = (x, false) ∷ unmarked xs

-- `std::vector<std::string>(n)` for the number of the tables.
abbrev pub empty_names : List ScanPlan → List Str
empty_names [] = []
empty_names (x ∷ xs) = [] ∷ empty_names xs

abbrev pub start : List ScanPlan → Joining
start xs = record { scans = unmarked xs; joined_tables = empty_names xs }

unfoldable pub join_scans : List ScanPlan → List Condition → Plan
unfolding first_join next_joins join_rest
join_scans xs (c ∷ cs) =
    let first = first_join c (start xs) in
    let joined = next_joins cs first.0 first.1 in join_rest joined.1.scans joined.0
join_scans [] [] = null
join_scans (x ∷ xs) [] = join_rest ((x, true) ∷ unmarked xs) (scan_plan x)
