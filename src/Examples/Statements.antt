-- ===== src/Examples/Statements.antt =====
-- A database of two tables, and statements of it analysed and planned.
use uni_base.Base.{
  ℕ, [], ◌∷◌, none, some, Bool, true, false, ite, if◌then◌else◌, ◌==◌, ltb, leb, ◌≡◌, refl, pos,
  arith, lookup, ℕ_discrete,
}
use uni_base.Errors.{Str, Str-discrete, ok}
use uni_base.Outcome.{str_mem, collect}
use uni_base.Defs.{ColType-discrete, type_int, type_string}
use uni_base.Common.{
  TabCol, new_value, set_int, Condition, raw_of, init_raw, CompOp, op_eq, op_ne, op_lt, op_gt,
  op_le, op_ge,
}
use uni_base.Meta.{ColMeta, TabMeta, DbMeta, get_table, get_col, find_col}
use uni_base.Ast
use uni_base.Analyze.{
  Query, do_analyze, analyze_select, get_all_cols, select_cols, get_clause, condition_of,
  convert_sv_comp_op, convert_sv_value, check_clause, check_cond, resolve, check_types, rhs_type,
  check_column, infer_tab,
}
use uni_base.Analyze.Owner.{AreNamed, check_column-choose, choose, owners}
use uni_base.Analyze.Typed.{AreTyped}
use uni_base.Analyze.Outcomes.{do_analyze-AreTyped}
use uni_base.Plan.{Plan, row_len}
use uni_base.Planner.{make_one_rel, swap_sides, swap_op}
use uni_base.Planner.Placed.{IsPlaced, leaves}
use uni_base.Planner.Pushed.{accepts, all_sat}
use uni_base.Planner.Scans.{all_in, HasTables, AreDistinct, all_scoped}
use uni_base.Planner.Inferred.{HasOwnCols, all_of}
use uni_base.Planner.Analysed.{all_own, all_cross}
use uni_base.Planner.Selected.{IsPlanned, do_analyze-IsPlanned}
use uni_base.Planner.Plans.{make_one_rel-IsPlan}

-- The tables `a`, of a number `i` and a name `n`, and `b`, of a number `k`.
abbrev col_i : ColMeta
col_i = record {
  tab_name = 97 ∷ [];
  name = 105 ∷ [];
  type = type_int;
  len = 4;
  offset = 0;
  index = false;
}

abbrev col_n : ColMeta
col_n = record {
  tab_name = 97 ∷ [];
  name = 110 ∷ [];
  type = type_string;
  len = 8;
  offset = 4;
  index = false;
}

abbrev col_k : ColMeta
col_k = record {
  tab_name = 98 ∷ [];
  name = 107 ∷ [];
  type = type_int;
  len = 4;
  offset = 0;
  index = false;
}

abbrev tab_a : TabMeta
tab_a = record { name = 97 ∷ []; cols = col_i ∷ col_n ∷ []; indexes = [] }

abbrev tab_b : TabMeta
tab_b = record { name = 98 ∷ []; cols = col_k ∷ []; indexes = [] }

abbrev database : DbMeta
database = record { name = 100 ∷ []; tabs = (97 ∷ [], tab_a) ∷ (98 ∷ [], tab_b) ∷ [] }

-- `select * from a, b where i < k and k = 3;`
abbrev statement : Ast.SelectStmt
statement = record {
  cols = [];
  tabs = (97 ∷ []) ∷ (98 ∷ []) ∷ [];
  jointree = [];
  order = none;
  conds =
      record {
        lhs = record { tab_name = []; col_name = 105 ∷ [] };
        op = Ast.sv_op_lt;
        rhs = Ast.column (record { tab_name = []; col_name = 107 ∷ [] });
      }
      ∷ record {
        lhs = record { tab_name = []; col_name = 107 ∷ [] };
        op = Ast.sv_op_eq;
        rhs = Ast.value (Ast.int_lit (pos 3));
      }
      ∷ [];
}

abbrev cond_join : Condition
cond_join = record {
  lhs_col = record { tab_name = 97 ∷ []; col_name = 105 ∷ [] };
  op = op_lt;
  is_rhs_val = false;
  rhs_col = record { tab_name = 98 ∷ []; col_name = 107 ∷ [] };
  rhs_val = new_value;
}

abbrev cond_value : Condition
cond_value = record {
  lhs_col = record { tab_name = 98 ∷ []; col_name = 107 ∷ [] };
  op = op_eq;
  is_rhs_val = true;
  rhs_col = record { tab_name = []; col_name = [] };
  rhs_val = record { type = type_int; word = 3; str_val = []; raw = none };
}

abbrev cond_name : Condition
cond_name = record cond_value { lhs_col = record { tab_name = 97 ∷ []; col_name = 110 ∷ [] } }

check_column-choose_example :
    check_column (col_i ∷ col_n ∷ col_k ∷ []) (record { tab_name = []; col_name = 107 ∷ [] })
    ≡ choose (107 ∷ []) (owners (col_i ∷ col_n ∷ col_k ∷ []) (107 ∷ []))
unfolding AreNamed
check_column-choose_example =
    check_column-choose (col_i ∷ col_n ∷ col_k ∷ []) (107 ∷ [])
      ((λ h. cc), ((λ h. cc), ((λ h. cc), tt)))

-- The result of the analysis of the statement.
abbrev analysed : Query
analysed = record {
  parse = Ast.select_stmt (record statement { tabs = [] });
  conds =
      cond_join
      ∷ record cond_value {
        rhs_val = record {
          type = type_int;
          word = 3;
          str_val = [];
          raw = some (3 ∷ 0 ∷ 0 ∷ 0 ∷ []);
        };
      }
      ∷ [];
  cols =
      record { tab_name = 97 ∷ []; col_name = 105 ∷ [] }
      ∷ record { tab_name = 97 ∷ []; col_name = 110 ∷ [] }
      ∷ record { tab_name = 98 ∷ []; col_name = 107 ∷ [] }
      ∷ [];
  tables = (97 ∷ []) ∷ (98 ∷ []) ∷ [];
  set_clauses = [];
  values = [];
}

do_analyze-AreTyped_example : AreTyped database analysed.conds
unfolding do_analyze analyze_select get_all_cols select_cols get_clause condition_of
    convert_sv_comp_op convert_sv_value check_clause check_cond resolve check_types rhs_type
    check_column infer_tab collect init_raw raw_of set_int get_table get_col find_col lookup
    Str-discrete ℕ_discrete ColType-discrete
do_analyze-AreTyped_example = do_analyze-AreTyped database (Ast.select_stmt statement) analysed refl

-- Rows in which `k` is 3 and any other column 1, and comparisons of numbers.
abbrev value_of : TabCol → ℕ
value_of c = ite (Str-discrete c.col_name (107 ∷ [])) 3 1

abbrev compare_by : CompOp → ℕ → ℕ → Bool
compare_by op_eq a b = a == b
compare_by op_ne a b = if a == b then false else true
compare_by op_lt a b = ltb a b
compare_by op_gt a b = ltb b a
compare_by op_le a b = leb a b
compare_by op_ge a b = leb b a

abbrev holds : Condition → Bool
holds c =
    compare_by c.op (value_of c.lhs_col)
      (if c.is_rhs_val then c.rhs_val.word else value_of c.rhs_col)

compare_by-swap_op : (op : CompOp) (a b : ℕ) → compare_by (swap_op op) b a ≡ compare_by op a b
unfolding swap_op
compare_by-swap_op op_eq a b = ground arith
compare_by-swap_op op_ne a b = ground arith
compare_by-swap_op op_lt a b = refl
compare_by-swap_op op_gt a b = refl
compare_by-swap_op op_le a b = refl
compare_by-swap_op op_ge a b = refl

holds-swap_sides : (c : Condition) → c.is_rhs_val ≡ false → holds (swap_sides c) ≡ holds c
unfolding swap_sides
holds-swap_sides c v =
    rw (v, if◌then◌else◌) (compare_by-swap_op c.op (value_of c.lhs_col) (value_of c.rhs_col))

abbrev have_rows : Str → Bool
have_rows t = true

make_one_rel-IsPlan_example :
    (plan : Plan) × (make_one_rel database
        ((97 ∷ []) ∷ (98 ∷ []) ∷ [])
        (cond_join ∷ cond_value ∷ [])
      ≡ ok plan)
    × IsPlaced plan
    × ((u : Str) → str_mem u (leaves plan) ≡ str_mem u ((97 ∷ []) ∷ (98 ∷ []) ∷ []))
    × (accepts holds have_rows plan ≡ (
        if all_in have_rows ((97 ∷ []) ∷ (98 ∷ []) ∷ [])
        then all_sat holds have_rows (cond_join ∷ cond_value ∷ [])
        else false))
unfolding HasTables AreDistinct all_scoped row_len get_table lookup Str-discrete ℕ_discrete
make_one_rel-IsPlan_example =
    make_one_rel-IsPlan holds have_rows database (97 ∷ []) ((98 ∷ []) ∷ [])
      (cond_join ∷ cond_value ∷ []) holds-swap_sides
      (tab_a, 12, refl, refl, (tab_b, 4, refl, refl, tt)) (refl, (refl, tt)) refl refl

do_analyze-IsPlanned_example : IsPlanned holds have_rows database analysed.tables analysed.conds
unfolding do_analyze analyze_select get_all_cols select_cols get_clause condition_of
    convert_sv_comp_op convert_sv_value check_clause check_cond resolve check_types rhs_type
    check_column infer_tab collect init_raw raw_of set_int get_table get_col find_col lookup
    Str-discrete ℕ_discrete ColType-discrete HasTables HasOwnCols AreDistinct row_len all_of all_own
    all_cross
do_analyze-IsPlanned_example =
    do_analyze-IsPlanned holds have_rows database statement analysed (97 ∷ []) ((98 ∷ []) ∷ [])
      holds-swap_sides refl (tab_a, 12, refl, refl, (tab_b, 4, refl, refl, tt))
      (tab_a, refl, refl, (tab_b, refl, refl, tt)) (refl, (refl, tt)) refl refl refl refl
