-- ===== src/Planner/Selected.antt =====
-- src/analyze/analyze.cpp and src/optimizer/planner.cpp together: a `select` that is let through is planned.
use uni_base.Base.{List, [], ◌∷◌, map, Bool, true, false, if◌then◌else◌, ◌≡◌, subst, sym, ap, ◌∙◌}
use uni_base.Errors.{Str, ok, throw}
use uni_base.Outcome.{bind-then, str_mem}
use uni_base.Common.{Condition}
use uni_base.Meta.{DbMeta}
use uni_base.Ast
use uni_base.Analyze.{
  Query, do_analyze, analyze_select, get_all_cols, select_cols, get_clause, check_clause, tab_col,
}
use uni_base.Plan.{Plan}
use uni_base.Planner.{make_one_rel, swap_sides}
use uni_base.Planner.Placed.{leaves, IsPlaced}
use uni_base.Planner.Pushed.{accepts, all_sat}
use uni_base.Planner.Scans.{all_in, all_scoped, HasTables, AreDistinct}
use uni_base.Planner.Plans.{make_one_rel-IsPlan}
use uni_base.Planner.Inferred.{HasOwnCols, get_all_cols-mem}
use uni_base.Planner.Analysed.{all_own, all_cross, collect-all_scoped}

check_clause-all_scoped :
    (db : DbMeta) (ts : List Str) (cs ds : List Condition)
    → HasOwnCols db ts
    → all_own ts cs ≡ true
    → check_clause db ts cs ≡ ok ds
    → all_cross ds ≡ true
    → all_scoped ts ts ds ≡ true
unfolding check_clause
check_clause-all_scoped db ts cs ds h b e x =
    bind-then {m = get_all_cols db ts} e (λ cols i f.
      collect-all_scoped db cols ts cs ds (λ u. get_all_cols-mem db ts cols u h i) b f x)

-- A plan for tables and conditions: each table is read once, each condition stands where its tables are
-- read, and what is accepted are the rows of the tables that satisfy the conditions.
abbrev pub IsPlanned :
    (Condition → Bool) → (Str → Bool) → DbMeta → List Str → List Condition → Type 0
IsPlanned sat row_in db ts cs =
    (plan : Plan) × (make_one_rel db ts cs ≡ ok plan)
    × IsPlaced plan
    × ((u : Str) → str_mem u (leaves plan) ≡ str_mem u ts)
    × (accepts sat row_in plan ≡ (if all_in row_in ts then all_sat sat row_in cs else false))

-- A `select` from tables of the database, with different and non-empty names, with a column each and
-- columns that bear the name of their table, whose conditions write each column without a table or with one
-- of these tables: if the analysis lets it through, and no condition of the query compares two columns of one table, then the planner
-- plans the query, with a plan that accepts the rows, one of each table, that satisfy the conditions of
-- the query, for any meaning of conditions that is the same for two columns when the sides are exchanged.
pub do_analyze-IsPlanned :
    (sat : Condition → Bool) (row_in : Str → Bool) (db : DbMeta) (x : Ast.SelectStmt) (q : Query)
    (t : Str) (ts : List Str)
    → ((c : Condition) → c.is_rhs_val ≡ false → sat (swap_sides c) ≡ sat c)
    → x.tabs ≡ t ∷ ts
    → HasTables db (t ∷ ts)
    → HasOwnCols db (t ∷ ts)
    → AreDistinct (t ∷ ts)
    → str_mem [] (t ∷ ts) ≡ false
    → all_own (t ∷ ts) (get_clause x.conds) ≡ true
    → do_analyze db (Ast.select_stmt x) ≡ ok q
    → all_cross q.conds ≡ true
    → IsPlanned sat row_in db q.tables q.conds
unfolding do_analyze analyze_select
do_analyze-IsPlanned sat row_in db x q t ts w tabs h own d e b a cross =
    bind-then {m = get_all_cols db x.tabs} a (λ all_cols _ f.
      bind-then {m = select_cols all_cols (map tab_col x.cols)} f (λ cols _ g.
        bind-then {m = check_clause db x.tabs (get_clause x.conds)} g (λ conds c k.
          (let same : conds ≡ q.conds = ap (λ r. elim r [ ok y ↦ y.conds | throw _ ↦ [] ]) k in
            let named : x.tabs ≡ q.tables = ap (λ r. elim r [ ok y ↦ y.tables | throw _ ↦ [] ]) k in
            let scoped : all_scoped (t ∷ ts) (t ∷ ts) conds ≡ true =
              check_clause-all_scoped db (t ∷ ts) (get_clause x.conds) conds own b
                (subst (λ z. check_clause db z (get_clause x.conds) ≡ ok conds) tabs c)
                (subst (λ z. all_cross z ≡ true) (sym same) cross) in
            subst (λ z. IsPlanned sat row_in db q.tables z) same
              (subst (λ z. IsPlanned sat row_in db z conds) (sym tabs ∙ named)
                (make_one_rel-IsPlan sat row_in db t ts conds w h d e scoped))))))
