-- ===== src/Analyze/Outcomes.antt =====
-- src/analyze/analyze.cpp: what the analysis of a whole statement promises, and the literal that stops the
-- program.
use uni_base.Base.{List, [], ◌∷◌, ◌≡◌, subst, map}
use uni_base.Errors.{Str, ok}
use uni_base.Outcome.{bind-then, ok-inj}
use uni_base.Meta.{DbMeta}
use uni_base.Ast
use uni_base.Analyze.{
  Query, get_all_cols, select_cols, tab_col, do_analyze, analyze_select, analyze_delete,
  check_clause, get_clause,
}
use uni_base.Analyze.Typed.{AreTyped, check_clause-AreTyped}

analyze_select-AreTyped :
    (db : DbMeta) (x : Ast.SelectStmt) (query : Query)
    → analyze_select db x ≡ ok query
    → AreTyped db query.conds
unfolding analyze_select
analyze_select-AreTyped db x q e = bind-then {m = get_all_cols db x.tabs} e (λ all_cols _ f.
    bind-then {m = select_cols all_cols (map tab_col x.cols)} f (λ cols _ g.
      bind-then {m = check_clause db x.tabs (get_clause x.conds)} g (λ conds typed h.
        subst (λ r. AreTyped db r.conds) (ok-inj h)
          (check_clause-AreTyped db x.tabs (get_clause x.conds) conds typed))))

analyze_delete-AreTyped :
    (db : DbMeta) (t : Str) (cs : List Ast.BinaryExpr) (query : Query)
    → analyze_delete db t cs ≡ ok query
    → AreTyped db query.conds
unfolding analyze_delete
analyze_delete-AreTyped db t cs q e =
    bind-then {m = check_clause db (t ∷ []) (get_clause cs)} e (λ conds typed h.
      subst (λ r. AreTyped db r.conds) (ok-inj h)
        (check_clause-AreTyped db (t ∷ []) (get_clause cs) conds typed))

-- A statement that `do_analyze` lets through, of any kind, has conditions that are typed in the database:
-- the left column of each exists in its table; a value on the right has the column's type and a buffer of
-- exactly the column's width; a column on the right exists and has the same type.
pub do_analyze-AreTyped :
    (db : DbMeta) (parse : Ast.TreeNode) (query : Query)
    → do_analyze db parse ≡ ok query
    → AreTyped db query.conds
unfolding do_analyze
do_analyze-AreTyped db (Ast.select_stmt x) q e = analyze_select-AreTyped db x q e
do_analyze-AreTyped db (Ast.delete_stmt t cs) q e = analyze_delete-AreTyped db t cs q e
do_analyze-AreTyped db parse q e = subst (λ r. AreTyped db r.conds) (ok-inj e) tt
