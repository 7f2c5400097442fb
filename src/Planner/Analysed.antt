-- ===== src/Planner/Analysed.antt =====
-- src/analyze/analyze.cpp and src/optimizer/planner.cpp: the conditions that the analysis makes of columns
-- of its own tables are those that the planner takes.
use uni_base.Base.{
  List, [], ◌∷◌, Bool, true, false, ite, if◌then◌else◌, ◌≡◌, refl, arith, subst, sym, ap, ◌∙◌,
  Bool-cases, inl, inr,
}
use uni_base.Errors.{Str, ok, throw, incompatible_type}
use uni_base.Outcome.{◌>>=◌, bind-then, ok-inj, str_eq, str_mem, collect}
use uni_base.Defs.{ColType, ColType-discrete, coltype2str}
use uni_base.Common.{TabCol, Condition}
use uni_base.Meta.{ColMeta, DbMeta, get_table, get_col}
use uni_base.Analyze.{check_column, resolve, check_types, check_cond, rhs_type, is_empty}
use uni_base.Common.{init_raw}
use uni_base.Planner.Placed.{lhs_tab, rhs_tab}
use uni_base.Planner.Scans.{all_scoped}
use uni_base.Planner.Inferred.{tabs_of, check_column-mem}

-- A column that is written without a table, or with one of some; and a condition of such columns.
abbrev pub is_own_col : List Str → TabCol → Bool
is_own_col ts c = if is_empty c.tab_name then true else str_mem c.tab_name ts

abbrev pub is_own : List Str → Condition → Bool
is_own ts c =
    if is_own_col ts c.lhs_col
    then if c.is_rhs_val then true else is_own_col ts c.rhs_col
    else false

-- A condition whose tables are among some.

abbrev found_in : List Str → Condition → Bool
found_in us c =
    if str_mem (lhs_tab c) us then if c.is_rhs_val then true else str_mem (rhs_tab c) us else false

abbrev AreSame : Condition → Condition → Type 0
AreSame c d = (c.lhs_col ≡ d.lhs_col) × (c.rhs_col ≡ d.rhs_col) × (c.is_rhs_val ≡ d.is_rhs_val)

-- The columns at hand are of some of the tables.
abbrev AreOf : List Str → List ColMeta → Type 0
AreOf ts cs = (u : Str) → str_mem u (tabs_of cs) ≡ true → str_mem u ts ≡ true

check_column-own :
    (ts : List Str) (cs : List ColMeta) (target r : TabCol)
    → AreOf ts cs
    → is_own_col ts target ≡ true
    → check_column cs target ≡ ok r
    → str_mem r.tab_name ts ≡ true
unfolding check_column
check_column-own ts cs target r k o e = elim (Bool-cases (is_empty target.tab_name)) [
  | inl m ↦ k r.tab_name (check_column-mem cs target r m e)
  | inr m ↦
      let same : ok target ≡ ok r = rw (m, if◌then◌else◌) at e in
      subst (λ (q : TabCol). str_mem q.tab_name ts ≡ true) (ok-inj same) (ground (arith, o, m))
]

resolve-found :
    (ts : List Str) (cs : List ColMeta) (c d : Condition)
    → AreOf ts cs
    → is_own ts c ≡ true
    → resolve cs c ≡ ok d
    → found_in ts d ≡ true
unfolding resolve
resolve-found ts cs c d k0 b e = bind-then {m = check_column cs c.lhs_col} e (λ lhs i f.
    (let l = check_column-own ts cs c.lhs_col lhs k0 (ground (arith, b)) i in
      (elim (Bool-cases c.is_rhs_val)
          as (λ _.
            (if c.is_rhs_val
                then ok (record c { lhs_col = lhs })
                else (check_column cs c.rhs_col >>= λ rhs.
                    ok (record c { lhs_col = lhs; rhs_col = rhs })))
              ≡ ok d
            → found_in ts d ≡ true) [
              | inl v ↦ λ g.
                  (let same : ok (record c { lhs_col = lhs }) ≡ ok d =
                      ap
                        (λ q.
                          if q
                          then ok (record c { lhs_col = lhs })
                          else (check_column cs c.rhs_col >>= λ rhs.
                              ok (record c { lhs_col = lhs; rhs_col = rhs })))
                        (sym v)
                      ∙ g in
                    subst (λ x. found_in ts x ≡ true) (ok-inj same) (ground (arith, l, v)))
              | inr v ↦ λ g.
                  (let same : (check_column cs c.rhs_col >>= λ rhs.
                  ok (record c { lhs_col = lhs; rhs_col = rhs }))
                        ≡ ok d =
                      ap
                        (λ q.
                          if q
                          then ok (record c { lhs_col = lhs })
                          else (check_column cs c.rhs_col >>= λ rhs.
                              ok (record c { lhs_col = lhs; rhs_col = rhs })))
                        (sym v)
                      ∙ g in
                    bind-then {m = check_column cs c.rhs_col} same (λ rhs j k.
                      (let r = check_column-own ts cs c.rhs_col rhs k0 (ground (arith, b, v)) j in
                        subst (λ x. found_in ts x ≡ true) (ok-inj k) (ground (arith, l, r, v)))))
            ])
        f))

rhs_type-AreSame :
    (db : DbMeta) (col : ColMeta) (c : Condition) (p : ColType × Condition)
    → rhs_type db col c ≡ ok p
    → AreSame c p.1
unfolding rhs_type
rhs_type-AreSame db col c p e = elim (Bool-cases c.is_rhs_val) [
  | inl v ↦
      bind-then {m = init_raw c.rhs_val col.len} (rw (v, if◌then◌else◌) at e)
        (λ w i q. subst (λ (x : ColType × Condition). AreSame c x.1) (ok-inj q) (refl, refl, v))
  | inr v ↦ bind-then {m = get_table db c.rhs_col.tab_name} (rw (v, if◌then◌else◌) at e) (λ tab g q.
      bind-then {m = get_col tab c.rhs_col.col_name} q
        (λ rhs f r. subst (λ (x : ColType × Condition). AreSame c x.1) (ok-inj r) (refl, refl, v)))
]

check_types-AreSame : (db : DbMeta) (c d : Condition) → check_types db c ≡ ok d → AreSame c d
unfolding check_types
check_types-AreSame db c d e = bind-then {m = get_table db c.lhs_col.tab_name} e (λ tab _ q.
    bind-then {m = get_col tab c.lhs_col.col_name} q
      (λ col _ r. bind-then {m = rhs_type db col c} r (λ typed t s. accept col typed t s)))
  where
    accept :
        (col : ColMeta) (typed : ColType × Condition)
        → rhs_type db col c ≡ ok typed
        → ite
            (ColType-discrete col.type typed.0)
            (ok typed.1)
            (throw (incompatible_type (coltype2str col.type) (coltype2str typed.0)))
          ≡ ok d
        → AreSame c d
    accept col typed t =
        elim (ColType-discrete col.type typed.0)
          as (λ x.
            ite x (ok typed.1)
                (throw (incompatible_type (coltype2str col.type) (coltype2str typed.0)))
              ≡ ok d
            → AreSame c d) [
              | yes h ↦ λ u. subst (AreSame c) (ok-inj u) (rhs_type-AreSame db col c typed t)
              | no _ ↦ λ u. absurd (cc (u))
            ]

check_cond-found :
    (db : DbMeta) (ts : List Str) (cs : List ColMeta) (c d : Condition)
    → AreOf ts cs
    → is_own ts c ≡ true
    → check_cond db cs c ≡ ok d
    → found_in ts d ≡ true
unfolding check_cond
check_cond-found db ts cs c d k b e = bind-then {m = resolve cs c} e (λ r i f.
    (let h = resolve-found ts cs c r k b i in
      let (x, y, z) = check_types-AreSame db r d f in
      let l : lhs_tab d ≡ lhs_tab r = ap (λ q. q.tab_name) (sym x) in
      let m : rhs_tab d ≡ rhs_tab r = ap (λ q. q.tab_name) (sym y) in rw (l, m, sym z) h))

unfoldable pub all_own : List Str → List Condition → Bool
all_own ts [] = true
all_own ts (c ∷ cs) = if is_own ts c then all_own ts cs else false

-- No condition has the same table on both sides.
unfoldable pub all_cross : List Condition → Bool
all_cross [] = true
all_cross (c ∷ cs) = if str_eq (lhs_tab c) (rhs_tab c) then false else all_cross cs

found-scoped :
    (ts : List Str) (d : Condition) (ds : List Condition)
    → found_in ts d ≡ true
    → all_cross (d ∷ ds) ≡ true
    → all_scoped ts ts ds ≡ true
    → all_scoped ts ts (d ∷ ds) ≡ true
unfolding all_cross all_scoped
found-scoped ts d ds f x h = ground (arith, f, x, h)

pub collect-all_scoped :
    (db : DbMeta) (cols : List ColMeta) (ts : List Str) (cs ds : List Condition)
    → AreOf ts cols
    → all_own ts cs ≡ true
    → collect (check_cond db cols) cs ≡ ok ds
    → all_cross ds ≡ true
    → all_scoped ts ts ds ≡ true
unfolding collect all_own all_cross all_scoped
collect-all_scoped db cols ts [] ds k b e x = subst (λ d. all_scoped ts ts d ≡ true) (ok-inj e) refl
collect-all_scoped db cols ts (c ∷ cs) ds k b e x = bind-then {m = check_cond db cols c} e (λ d i f.
    bind-then {m = collect (check_cond db cols) cs} f (λ rest j g.
      (let same : d ∷ rest ≡ ds = ok-inj g in
        let y : all_cross (d ∷ rest) ≡ true = subst (λ q. all_cross q ≡ true) (sym same) x in
        subst (λ q. all_scoped ts ts q ≡ true) same
          (found-scoped ts d rest (check_cond-found db ts cols c d k (ground (arith, b)) i) y (
            collect-all_scoped db cols ts cs rest k (ground (arith, b)) j (rest_cross d rest y))))))
  where
    rest_cross :
        (d : Condition) (ds : List Condition) → all_cross (d ∷ ds) ≡ true → all_cross ds ≡ true
    rest_cross d ds h = ground arith
