-- ===== src/Planner/Scans.antt =====
-- src/optimizer/planner.cpp: the scans of the tables, and the conditions that they take.
use uni_base.Base.{
  ℕ, List, [], ◌∷◌, Bool, true, false, if◌then◌else◌, ◌≡◌, refl, arith, ap, ◌∙◌, Bool-cases, inl,
  inr,
}
use uni_base.Errors.{Str, ok}
use uni_base.Outcome.{str_eq, str_mem}
use uni_base.Common.{Condition}
use uni_base.Meta.{TabMeta, DbMeta, get_table}
use uni_base.Plan.{ScanPlan, row_len, PlanTag, t_index_scan, t_seq_scan}
use uni_base.Planner.{
  pop_conds, takes, unmarked, table_scan, get_index_cols, make_scans, is_index, eq_cols,
}
use uni_base.Planner.Placed.{AreLocal, lhs_tab, rhs_tab}
use uni_base.Planner.Pushed.{all_sat, accepts}
use uni_base.Planner.Taken.{listed, AreScans, all_ok}
use uni_base.Planner.Loop.{AreCross}

-- Conditions that compare a column of a table still to be scanned with a value, or columns of two
-- different tables.
unfoldable pub all_scoped : List Str → List Str → List Condition → Bool
all_scoped todo tables [] = true
all_scoped todo tables (c ∷ cs) =
    if str_eq (lhs_tab c) (rhs_tab c)
    then false
    else if c.is_rhs_val
    then if str_mem (lhs_tab c) todo then all_scoped todo tables cs else false
    else if str_mem (lhs_tab c) tables
    then if str_mem (rhs_tab c) tables then all_scoped todo tables cs else false
    else false

pop_conds-AreLocal :
    (t : Str) (todo tables : List Str) (cs : List Condition)
    → all_scoped todo tables cs ≡ true
    → AreLocal t (pop_conds cs t).0
unfolding pop_conds all_scoped AreLocal
pop_conds-AreLocal t todo tables [] h = tt
pop_conds-AreLocal t todo tables (c ∷ cs) h =
    elim (Bool-cases (takes t c)) as (λ _. AreLocal t (pop_conds (c ∷ cs) t).0) [
      | inl e ↦
          rw (e, if◌then◌else◌)
            (ground arith, ground arith, pop_conds-AreLocal t todo tables cs (ground arith))
      | inr e ↦ rw (e, if◌then◌else◌) (pop_conds-AreLocal t todo tables cs (ground arith))
    ]

pop_conds-all_scoped :
    (t : Str) (todo tables : List Str) (cs : List Condition)
    → all_scoped (t ∷ todo) tables cs ≡ true
    → all_scoped todo tables (pop_conds cs t).1 ≡ true
unfolding pop_conds all_scoped
pop_conds-all_scoped t todo tables [] h = refl
pop_conds-all_scoped t todo tables (c ∷ cs) h =
    ground (arith, pop_conds-all_scoped t todo tables cs)

pub all_scoped-AreCross :
    (tables : List Str) (known : Str → Bool) (cs : List Condition)
    → ((t : Str) → known t ≡ str_mem t tables)
    → all_scoped [] tables cs ≡ true
    → AreCross known cs
unfolding all_scoped AreCross
all_scoped-AreCross tables known [] k h = tt
all_scoped-AreCross tables known (c ∷ cs) k h = (
  ground arith,
  ground arith,
  k (lhs_tab c) ∙ ground arith,
  k (rhs_tab c) ∙ ground arith,
  all_scoped-AreCross tables known cs k (ground arith),
)

-- The tables of the database, each with a column.
unfoldable pub HasTables : DbMeta → List Str → Type 0
HasTables db [] = Unit {0}
HasTables db (t ∷ ts) =
    (tab : TabMeta) × (n : ℕ) × (get_table db t ≡ ok tab)
    × (row_len tab.cols ≡ ok n)
    × HasTables db ts

unfoldable pub AreDistinct : List Str → Type 0
AreDistinct [] = Unit {0}
AreDistinct (t ∷ ts) = (str_mem t ts ≡ false) × AreDistinct ts

abbrev scan_of : PlanTag → Str → List Condition → List Str → TabMeta → ℕ → ScanPlan
scan_of tag t cs names tab n = record {
  tag = tag;
  tab_name = t;
  cols = tab.cols;
  conds = cs;
  len = n;
  fed_conds = cs;
  index_col_names = names;
}

pub table_scan-ok :
    (db : DbMeta) (t : Str) (cs : List Condition) (tab : TabMeta) (n : ℕ)
    → get_table db t ≡ ok tab
    → row_len tab.cols ≡ ok n
    → (x : ScanPlan) × (table_scan db t cs ≡ ok x) × (x.tab_name ≡ t) × (x.conds ≡ cs)
unfolding table_scan get_index_cols
table_scan-ok db t cs tab n g r =
    elim (Bool-cases (is_index tab (eq_cols t cs)))
      as (λ _. (x : ScanPlan) × (table_scan db t cs ≡ ok x) × (x.tab_name ≡ t) × (x.conds ≡ cs)) [
        | inl e ↦ (
          scan_of t_index_scan t cs (eq_cols t cs) tab n,
          rw (g, r, e, if◌then◌else◌) refl,
          refl,
          refl,
        )
        | inr e ↦ (scan_of t_seq_scan t cs [] tab n, rw (g, r, e, if◌then◌else◌) refl, refl, refl)
      ]

-- All tables have their row.
unfoldable pub all_in : (Str → Bool) → List Str → Bool
all_in row_in [] = true
all_in row_in (t ∷ ts) = if row_in t then all_in row_in ts else false

pop_conds-all_sat :
    (sat : Condition → Bool) (row_in : Str → Bool) (t : Str) (cs : List Condition)
    → (if all_sat sat row_in (pop_conds cs t).0
        then all_sat sat row_in (pop_conds cs t).1
        else false)
      ≡ all_sat sat row_in cs
unfolding pop_conds all_sat
pop_conds-all_sat sat row_in t [] = refl
pop_conds-all_sat sat row_in t (c ∷ cs) = ground (arith, pop_conds-all_sat sat row_in t cs)

-- The scans of the tables, and the conditions left over.
abbrev pub AreScansOf :
    (Condition → Bool)
    → (Str → Bool)
    → List Str
    → List Str
    → List Condition
    → List ScanPlan × List Condition
    → Type 0
AreScansOf sat row_in ts tables cs made =
    AreScans (unmarked made.0)
    × ((t : Str) → listed t (unmarked made.0) ≡ str_mem t ts)
    × (all_scoped [] tables made.1 ≡ true)
    × ((if all_ok sat row_in (unmarked made.0) then all_sat sat row_in made.1 else false)
        ≡ (if all_in row_in ts then all_sat sat row_in cs else false))

pub make_scans-AreScansOf :
    (sat : Condition → Bool) (row_in : Str → Bool) (db : DbMeta) (ts tables : List Str)
    (cs : List Condition)
    → HasTables db ts
    → AreDistinct ts
    → all_scoped ts tables cs ≡ true
    → (made : List ScanPlan × List Condition) × (make_scans db ts cs ≡ ok made)
      × AreScansOf sat row_in ts tables cs made
unfolding make_scans HasTables AreDistinct AreScans listed all_ok all_in accepts
make_scans-AreScansOf sat row_in db [] tables cs h d s =
    (([], cs), refl, (tt, (λ t. refl), s, refl))
make_scans-AreScansOf sat row_in db (t ∷ ts) tables cs (tab, n, g, r, h) d s =
    let (x, q, a, b) = table_scan-ok db t (pop_conds cs t).0 tab n g r in
    let (rest, e, f) =
      make_scans-AreScansOf sat row_in db ts tables (pop_conds cs t).1 h d.1
        (pop_conds-all_scoped t ts tables cs s) in
    (
      (x ∷ rest.0, rest.1),
      rw (q, e) refl,
      (
        ((rw (a) (f.1 t ∙ d.0)), rw (a, b) (pop_conds-AreLocal t (t ∷ ts) tables cs s), f.0),
        λ u. rw (a) (ap (λ k. if str_eq t u then true else k) (f.1 u)),
        f.2,
        (let p = pop_conds-all_sat sat row_in t cs in
            let k = f.3 in rw (a, b) ground (arith, p, k)),
      ),
    )
