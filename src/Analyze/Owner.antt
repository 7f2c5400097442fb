-- ===== src/Analyze/Owner.antt =====
-- src/analyze/analyze.cpp: the table of a column that is named without one.
use uni_base.Base.{List, [], ◌∷◌, ite, true, false, if◌then◌else◌, ◌≡◌, ◌≢◌, refl, arith}
use uni_base.Errors.{Str, Str-discrete, Result, ok, throw, ambiguous_column, column_not_found}
use uni_base.Outcome.{◌>>=◌, str_eq}
use uni_base.Common.{TabCol}
use uni_base.Meta.{ColMeta}
use uni_base.Analyze.{check_column, infer_tab, is_empty}

-- The tables of the columns that have a name.
unfoldable pub owners : List ColMeta → Str → List Str
owners [] name = []
owners (c ∷ cs) name = if str_eq c.name name then c.tab_name ∷ owners cs name else owners cs name

-- One table owns the column, or none does, or the name is ambiguous.
unfoldable pub choose : Str → List Str → Result TabCol
choose name [] = throw (column_not_found name)
choose name (t ∷ []) = ok (record { tab_name = t; col_name = name })
choose name (_ ∷ _ ∷ _) = throw (ambiguous_column name)

unfoldable pub AreNamed : List ColMeta → Type 0
AreNamed [] = Unit {0}
AreNamed (c ∷ cs) = (c.tab_name ≢ []) × AreNamed cs

-- What is left to do once a first table is found.
after : Str → Str → List Str → Result Str
after name t [] = ok t
after name t (_ ∷ _) = throw (ambiguous_column name)

infer_tab-found :
    (cs : List ColMeta) (name : Str) (t : Str)
    → t ≢ []
    → infer_tab cs name t ≡ after name t (owners cs name)
unfolding infer_tab owners after
infer_tab-found cs name [] n = absurd (n refl)
infer_tab-found [] name (k ∷ t) n = refl
infer_tab-found (c ∷ cs) name (k ∷ t) n = ground (arith, infer_tab-found cs name (k ∷ t) n)

infer_tab-owners :
    (cs : List ColMeta) (name : Str)
    → AreNamed cs
    → infer_tab cs name [] ≡ elim (owners cs name) [ [] ↦ ok [] | t ∷ ts ↦ after name t ts ]
unfolding infer_tab owners AreNamed
infer_tab-owners [] name n = refl
infer_tab-owners (c ∷ cs) name n =
    elim (Str-discrete c.name name)
      as (λ d.
        (if ite d true false then infer_tab cs name c.tab_name else infer_tab cs name [])
        ≡ elim (if ite d true false then c.tab_name ∷ owners cs name else owners cs name) [
          | [] ↦ ok []
          | t ∷ ts ↦ after name t ts
        ]) [ yes _ ↦ infer_tab-found cs name c.tab_name n.0 | no _ ↦ infer_tab-owners cs name n.1 ]

-- The tables that own a column are named.
owners-first :
    (cs : List ColMeta) (name t : Str) (ts : List Str)
    → AreNamed cs
    → owners cs name ≡ t ∷ ts
    → t ≢ []
unfolding owners AreNamed
owners-first [] name t ts n = λ e. cc
owners-first (c ∷ cs) name t ts n =
    elim (Str-discrete c.name name)
      as (λ d.
        (if ite d true false then c.tab_name ∷ owners cs name else owners cs name) ≡ t ∷ ts
        → t ≢ []) [
          | yes _ ↦ λ e empty. n.0 (cc (e, empty))
          | no _ ↦ λ e. owners-first cs name t ts n.1 e
        ]

-- The name of a table that a `select` may mean by a column without one: all columns at hand have a
-- table with a name. `check_column` gives the only table that owns the column, or throws that there is
-- none, or that there are several.
pub check_column-choose :
    (cs : List ColMeta) (name : Str)
    → AreNamed cs
    → check_column cs (record { tab_name = []; col_name = name }) ≡ choose name (owners cs name)
unfolding check_column choose after
check_column-choose cs name n =
    rw (infer_tab-owners cs name n, infer_tab)
      (go (owners cs name) (λ t ts. owners-first cs name t ts n))
  where
    go :
        (ts : List Str)
        → ((t : Str) (us : List Str) → ts ≡ t ∷ us → t ≢ [])
        → (elim ts as (λ x. Result Str) [ [] ↦ ok [] | t ∷ us ↦ after name t us ] >>= λ tab_name.
            if is_empty tab_name
            then throw (column_not_found name)
            else ok (record { tab_name = tab_name; col_name = name }))
          ≡ choose name ts
    go [] h = refl
    go ([] ∷ ts) h = absurd (h [] ts refl refl)
    go ((k ∷ t) ∷ []) h = refl
    go ((k ∷ t) ∷ u ∷ us) h = refl
