-- ===== src/Planner/Inferred.antt =====
-- src/analyze/analyze.cpp: the table that is inferred for a column is one of the tables at hand.
use uni_base.Base.{
  List, [], ◌∷◌, ◌++◌, Bool, true, false, if◌then◌else◌, ◌≡◌, refl, arith, subst, sym, ap, ◌∙◌,
  Bool-cases, inl, inr,
}
use uni_base.Errors.{Str, ok, throw, ambiguous_column, column_not_found}
use uni_base.Outcome.{bind-then, ok-inj, str_eq, str_mem, str_mem-append}
use uni_base.Common.{TabCol}
use uni_base.Meta.{ColMeta, TabMeta, DbMeta, get_table}
use uni_base.Analyze.{infer_tab, check_column, get_all_cols, is_empty}

unfoldable pub tabs_of : List ColMeta → List Str
tabs_of [] = []
tabs_of (c ∷ cs) = c.tab_name ∷ tabs_of cs

-- The table that is inferred is the one at hand, or that of one of the columns.
infer_tab-mem :
    (cs : List ColMeta) (name t u : Str)
    → infer_tab cs name t ≡ ok u
    → str_mem u (t ∷ tabs_of cs) ≡ true
unfolding infer_tab tabs_of
infer_tab-mem [] name t u = λ e. (let h : t ≡ u = ok-inj e in ground (arith, h))
infer_tab-mem (c ∷ cs) name t u =
    elim (Bool-cases (str_eq c.name name))
      as (λ _. infer_tab (c ∷ cs) name t ≡ ok u → str_mem u (t ∷ tabs_of (c ∷ cs)) ≡ true) [
        | inr x ↦
            rw (x, if◌then◌else◌) (λ e. (let h = infer_tab-mem cs name t u e in ground (arith, h)))
        | inl x ↦
            rw (x, if◌then◌else◌)
              (elim (Bool-cases (is_empty t))
                as (λ _.
                  (if is_empty t
                      then infer_tab cs name c.tab_name
                      else throw (ambiguous_column name))
                    ≡ ok u
                  → str_mem u (t ∷ tabs_of (c ∷ cs)) ≡ true) [
                    | inl y ↦
                        rw (y, if◌then◌else◌)
                          (λ e. (let h = infer_tab-mem cs name c.tab_name u e in ground (arith, h)))
                    | inr y ↦ rw (y, if◌then◌else◌) (λ e. absurd (cc (e)))
                  ])
      ]

nonempty-mem :
    (u : Str) (us : List Str)
    → is_empty u ≡ false
    → str_mem u ([] ∷ us) ≡ true
    → str_mem u us ≡ true
nonempty-mem [] us n h = cc
nonempty-mem (k ∷ u) us n h = ground arith

pub check_column-mem :
    (cs : List ColMeta) (target r : TabCol)
    → is_empty target.tab_name ≡ true
    → check_column cs target ≡ ok r
    → str_mem r.tab_name (tabs_of cs) ≡ true
unfolding check_column
check_column-mem cs target r m e =
    bind-then {m = infer_tab cs target.col_name []} (rw (m, if◌then◌else◌) at e) (λ t i f.
      (elim (Bool-cases (is_empty t))
          as (λ _.
            (if is_empty t
                then throw (column_not_found target.col_name)
                else ok (record target { tab_name = t }))
              ≡ ok r
            → str_mem r.tab_name (tabs_of cs) ≡ true) [
              | inl x ↦ rw (x, if◌then◌else◌) (λ g. absurd (cc (g)))
              | inr x ↦
                  rw (x, if◌then◌else◌)
                    (λ g.
                      subst (λ (q : TabCol). str_mem q.tab_name (tabs_of cs) ≡ true) (ok-inj g)
                        (nonempty-mem t (tabs_of cs) x (infer_tab-mem cs target.col_name [] t i)))
            ])
        f)

-- Columns of one table.
unfoldable pub all_of : Str → List ColMeta → Bool
all_of t [] = true
all_of t (c ∷ cs) = if str_eq c.tab_name t then all_of t cs else false

-- Tables of the database whose columns bear their name.
unfoldable pub HasOwnCols : DbMeta → List Str → Type 0
HasOwnCols db [] = Unit {0}
HasOwnCols db (t ∷ ts) =
    (tab : TabMeta) × (get_table db t ≡ ok tab) × (all_of t tab.cols ≡ true) × HasOwnCols db ts

tabs_of-append : (cs ds : List ColMeta) → tabs_of (cs ++ ds) ≡ tabs_of cs ++ tabs_of ds
unfolding tabs_of
tabs_of-append [] ds = refl
tabs_of-append (c ∷ cs) ds = ap (λ ts. c.tab_name ∷ ts) (tabs_of-append cs ds)

all_of-mem :
    (t u : Str) (cs : List ColMeta)
    → all_of t cs ≡ true
    → str_mem u (tabs_of cs) ≡ true
    → str_eq t u ≡ true
unfolding all_of tabs_of
all_of-mem t u [] h m = cc
all_of-mem t u (c ∷ cs) h m = ground (arith, all_of-mem t u cs)

pub get_all_cols-mem :
    (db : DbMeta) (ts : List Str) (cs : List ColMeta) (u : Str)
    → HasOwnCols db ts
    → get_all_cols db ts ≡ ok cs
    → str_mem u (tabs_of cs) ≡ true
    → str_mem u ts ≡ true
unfolding get_all_cols HasOwnCols tabs_of
get_all_cols-mem db [] cs u h e m =
    subst (λ x. str_mem u (tabs_of x) ≡ true → str_mem u [] ≡ true) (ok-inj e) (λ k. k) m
get_all_cols-mem db (t ∷ ts) cs u (tab, g, o, h) e m =
    bind-then {m = get_table db t} e (λ tab2 g2 f. bind-then {m = get_all_cols db ts} f (λ rest k r.
      (let a = all_of-mem t u tab.cols o in
        let b = get_all_cols-mem db ts rest u h k in
        let c = str_mem-append u (tabs_of tab.cols) (tabs_of rest) in
        let same : tab2 ≡ tab = ok-inj (sym g2 ∙ g) in
        let split : tabs_of cs ≡ tabs_of tab.cols ++ tabs_of rest =
          ap tabs_of (sym (ok-inj r))
          ∙ tabs_of-append tab2.cols rest
          ∙ ap (λ x. tabs_of x.cols ++ tabs_of rest) same in
        let n : str_mem u (tabs_of tab.cols ++ tabs_of rest) ≡ true =
          subst (λ x. str_mem u x ≡ true) split m in
        ground (arith, a, b, c, n))))
