-- ===== src/Planner/Plans.antt =====
-- src/optimizer/planner.cpp: what `make_one_rel` promises of the plan of a `select`.
use uni_base.Base.{List, [], ◌∷◌, Bool, true, false, if◌then◌else◌, ◌≡◌, refl, arith, ◌∙◌}
use uni_base.Errors.{Str, ok}
use uni_base.Outcome.{str_mem}
use uni_base.Common.{Condition}
use uni_base.Meta.{DbMeta}
use uni_base.Plan.{Plan, ScanPlan, scan_plan}
use uni_base.Planner.{unmarked, make_one_rel, rel_of, join_scans, swap_sides}
use uni_base.Planner.Placed.{leaves, IsPlaced}
use uni_base.Planner.Pushed.{all_sat, accepts}
use uni_base.Planner.Taken.{listed, AreScans, all_ok}
use uni_base.Planner.Loop.{AreCross}
use uni_base.Planner.Scans.{
  all_scoped, all_scoped-AreCross, HasTables, AreDistinct, all_in, AreScansOf,
  make_scans-AreScansOf,
}
use uni_base.Planner.Rest.{join_scans-IsPlanOf, IsPlanOf}

-- With a single table there is no condition left between two tables.
cross-none :
    (x : ScanPlan) (cs : List Condition) → AreCross (λ u. listed u (unmarked (x ∷ []))) cs → cs ≡ []
unfolding AreCross listed
cross-none x [] k = refl
cross-none x (c ∷ cs) k = let (v, n, l, r, _) = k in absurd (ground (arith, n, l, r))

module _ (sat : Condition → Bool) (row_in : Str → Bool)
    (w : (c : Condition) → c.is_rhs_val ≡ false → sat (swap_sides c) ≡ sat c) where
  rel_of-IsPlanOf :
      (t : Str) (ts tables : List Str) (cs : List Condition) (xs : List ScanPlan)
      (left : List Condition)
      → AreScansOf sat row_in (t ∷ ts) tables cs (xs, left)
      → str_mem [] (t ∷ ts) ≡ false
      → AreCross (λ u. listed u (unmarked xs)) left
      → (plan : Plan) × (rel_of xs left ≡ ok plan) × IsPlanOf sat row_in xs left plan
  unfolding rel_of listed AreScans IsPlaced leaves all_ok accepts all_sat
  rel_of-IsPlanOf t ts tables cs [] left m e k = let h = m.1 t in absurd (ground (arith, h))
  rel_of-IsPlanOf t ts tables cs (x ∷ []) left m e k =
      (scan_plan x, refl, (m.0.1, (λ u. refl), rw (cross-none x left k) ground arith))
  rel_of-IsPlanOf t ts tables cs (x ∷ y ∷ xs) left m e k = (
    join_scans (x ∷ y ∷ xs) left,
    refl,
    join_scans-IsPlanOf sat row_in w x (y ∷ xs) left m.0 (m.1 [] ∙ e) k,
  )

-- The plan of a `select` from one table or more, whose names are different, not empty and those of
-- tables of the database that have columns, with conditions that each compare a column of such a table
-- with a value, or columns of two such tables, different ones. `make_one_rel` then returns a plan, in
-- which every table is read once and no other, each condition with a value stands at the scan of its
-- table, and each other at a join below which its left side is read on the left and its right side on
-- the right. The plan accepts the rows, one of each table, that are rows of their tables and satisfy all
-- the conditions, and no others: for any meaning of the conditions that is the same for two
-- columns when the sides are exchanged and the operator turned round.
pub make_one_rel-IsPlan :
    (sat : Condition → Bool) (row_in : Str → Bool) (db : DbMeta) (t : Str) (ts : List Str)
    (cs : List Condition)
    → ((c : Condition) → c.is_rhs_val ≡ false → sat (swap_sides c) ≡ sat c)
    → HasTables db (t ∷ ts)
    → AreDistinct (t ∷ ts)
    → str_mem [] (t ∷ ts) ≡ false
    → all_scoped (t ∷ ts) (t ∷ ts) cs ≡ true
    → (plan : Plan) × (make_one_rel db (t ∷ ts) cs ≡ ok plan)
      × IsPlaced plan
      × ((u : Str) → str_mem u (leaves plan) ≡ str_mem u (t ∷ ts))
      × (accepts sat row_in plan
          ≡ (if all_in row_in (t ∷ ts) then all_sat sat row_in cs else false))
unfolding make_one_rel
make_one_rel-IsPlan sat row_in db t ts cs w h d e s =
    let (made, q, m) = make_scans-AreScansOf sat row_in db (t ∷ ts) (t ∷ ts) cs h d s in
    let k = all_scoped-AreCross (t ∷ ts) (λ u. listed u (unmarked made.0)) made.1 m.1 m.2 in
    let (plan, r, (p, l, a)) = rel_of-IsPlanOf sat row_in w t ts (t ∷ ts) cs made.0 made.1 m e k in
    (plan, rw (q) r, p, (λ u. l u ∙ m.1 u), a ∙ m.3)
