-- ===== src/Planner/Rest.antt =====
-- src/optimizer/planner.cpp: the tables that no condition joins, and the plan of all the joins.
use uni_base.Base.{
  List, [], ◌∷◌, Bool, true, false, if◌then◌else◌, ◌≡◌, refl, arith, subst, sym, ◌∙◌, if_neg,
}
use uni_base.Errors.{Str, Str-discrete}
use uni_base.Outcome.{str_eq, str_mem}
use uni_base.Common.{Condition}
use uni_base.Plan.{Plan, scan_plan, ScanPlan}
use uni_base.Planner.{
  first_join, next_joins, swap_sides, nest_loop, Joining, join_rest, join_scans, unmarked, start,
  empty_names,
}
use uni_base.Planner.Placed.{leaves, IsPlaced, AreAcross}
use uni_base.Planner.Pushed.{all_sat, accepts}
use uni_base.Planner.Taken.{
  listed, marked, AreScans, marked_ok, all_ok, rest_ok, all_ok-split, pop_scan-listed,
  pop_scan-all_ok,
}
use uni_base.Planner.Loop.{
  AreCross, next_joins-IsJoined, first_join-IsJoined, next_joins-keeps, first_join-keeps,
}

-- Whether a table has a scan that is not marked.
unfoldable waiting : Str → List (ScanPlan × Bool) → Bool
waiting t [] = false
waiting t (x ∷ xs) =
    if x.1 then waiting t xs else if str_eq (x.0).tab_name t then true else waiting t xs

waiting-listed :
    (t : Str) (xs : List (ScanPlan × Bool))
    → listed t xs ≡ (if marked t xs then true else waiting t xs)
unfolding listed marked waiting
waiting-listed t [] = refl
waiting-listed t (x ∷ xs) = ground (arith, waiting-listed t xs)

waiting-marked :
    (t : Str) (xs : List (ScanPlan × Bool))
    → AreScans xs
    → waiting t xs ≡ true
    → marked t xs ≡ false
unfolding marked waiting AreScans
waiting-marked t [] a h = refl
waiting-marked t (x ∷ xs) a h =
    let l = waiting-listed t xs in let n = a.0 in ground (arith, waiting-marked t xs a.2, l, n)

join_rest-leaves :
    (t : Str) (xs : List (ScanPlan × Bool)) (plan : Plan)
    → str_mem t (leaves (join_rest xs plan))
      ≡ (if str_mem t (leaves plan) then true else waiting t xs)
unfolding join_rest waiting leaves
join_rest-leaves t [] plan = ground arith
join_rest-leaves t ((x, true) ∷ xs) plan = join_rest-leaves t xs plan
join_rest-leaves t ((x, false) ∷ xs) plan =
    ground (arith, join_rest-leaves t xs (nest_loop (scan_plan x) plan []))

join_rest-IsPlaced :
    (xs : List (ScanPlan × Bool)) (plan : Plan)
    → IsPlaced plan
    → AreScans xs
    → ((t : Str) → waiting t xs ≡ true → str_mem t (leaves plan) ≡ false)
    → IsPlaced (join_rest xs plan)
unfolding join_rest waiting leaves IsPlaced AreScans AreAcross
join_rest-IsPlaced [] plan p a d = p
join_rest-IsPlaced ((x, true) ∷ xs) plan p a d = join_rest-IsPlaced xs plan p a.2 d
join_rest-IsPlaced ((x, false) ∷ xs) plan p a d =
    join_rest-IsPlaced xs (nest_loop (scan_plan x) plan [])
      (a.1, p, (λ t h. (let e = d t in ground (arith, e))), tt) a.2
      (λ t h.
        (let e = d t in let n = a.0 in let l = waiting-listed t xs in ground (arith, e, n, l)))

module _ (sat : Condition → Bool) (row_in : Str → Bool) where
  join_rest-accepts :
      (xs : List (ScanPlan × Bool)) (plan : Plan)
      → accepts sat row_in (join_rest xs plan)
        ≡ (if accepts sat row_in plan then rest_ok sat row_in xs else false)
  unfolding join_rest accepts rest_ok all_sat
  join_rest-accepts [] plan = ground arith
  join_rest-accepts ((x, true) ∷ xs) plan = join_rest-accepts xs plan
  join_rest-accepts ((x, false) ∷ xs) plan =
      ground (arith, join_rest-accepts xs (nest_loop (scan_plan x) plan []))

unmarked-marked : (t : Str) (xs : List ScanPlan) → marked t (unmarked xs) ≡ false
unfolding marked
unmarked-marked t [] = refl
unmarked-marked t (x ∷ xs) = unmarked-marked t xs

empty_names-mem :
    (t : Str) (xs : List ScanPlan) → str_eq [] t ≡ false → str_mem t (empty_names xs) ≡ false
empty_names-mem t [] h = refl
empty_names-mem t (x ∷ xs) h = ground (arith, empty_names-mem t xs h)

-- A table with a scan is not one of the empty names.
start-joined :
    (xs : List ScanPlan) (t : Str)
    → listed [] (unmarked xs) ≡ false
    → listed t (unmarked xs) ≡ true
    → str_mem t (empty_names xs) ≡ false
start-joined xs t e h = elim (Str-discrete [] t) [
  | yes p ↦ absurd (cc (e, subst (λ u. listed u (unmarked xs) ≡ true) (sym p) h))
  | no n ↦ empty_names-mem t xs (if_neg (Str-discrete [] t) n true false)
]

-- A plan that reads the tables of the scans once each, and accepts what they and the conditions accept.
abbrev pub IsPlanOf :
    (Condition → Bool) → (Str → Bool) → List ScanPlan → List Condition → Plan → Type 0
IsPlanOf sat row_in xs cs plan =
    IsPlaced plan
    × ((t : Str) → str_mem t (leaves plan) ≡ listed t (unmarked xs))
    × (accepts sat row_in plan
        ≡ (if all_ok sat row_in (unmarked xs) then all_sat sat row_in cs else false))

module _ (sat : Condition → Bool) (row_in : Str → Bool) where
  unmarked-ok : (xs : List ScanPlan) → marked_ok sat row_in (unmarked xs) ≡ true
  unfolding marked_ok
  unmarked-ok [] = refl
  unmarked-ok (x ∷ xs) = unmarked-ok xs

  -- The rest of the tables, joined with a plan of the marked ones.
  join_rest-IsPlanOf :
      (xs : List ScanPlan) (cs : List Condition) (ys : List (ScanPlan × Bool)) (plan : Plan)
      → IsPlaced plan
      → AreScans ys
      → ((t : Str) → str_mem t (leaves plan) ≡ marked t ys)
      → accepts sat row_in plan ≡ (if marked_ok sat row_in ys then all_sat sat row_in cs else false)
      → ((t : Str) → listed t ys ≡ listed t (unmarked xs))
      → all_ok sat row_in ys ≡ all_ok sat row_in (unmarked xs)
      → IsPlanOf sat row_in xs cs (join_rest ys plan)
  join_rest-IsPlanOf xs cs ys plan p a l o k q = (
    join_rest-IsPlaced ys plan p a (λ t h. l t ∙ waiting-marked t ys a h),
    λ t.
        (let e = join_rest-leaves t ys plan in
          let f = waiting-listed t ys in let g = l t in let h = k t in ground (arith, e, f, g, h)),
    (let e = join_rest-accepts sat row_in ys plan in
        let f = all_ok-split sat row_in ys in ground (arith, e, f, o, q)),
  )

  pub join_scans-IsPlanOf :
      ((c : Condition) → c.is_rhs_val ≡ false → sat (swap_sides c) ≡ sat c)
      → (x : ScanPlan) (xs : List ScanPlan) (cs : List Condition) → AreScans (unmarked (x ∷ xs))
      → listed [] (unmarked (x ∷ xs)) ≡ false
      → AreCross (λ t. listed t (unmarked (x ∷ xs))) cs
      → IsPlanOf sat row_in (x ∷ xs) cs (join_scans (x ∷ xs) cs)
  unfolding join_scans AreCross AreScans IsPlaced leaves accepts marked marked_ok all_sat listed
      all_ok
  join_scans-IsPlanOf w x xs [] a e k =
      join_rest-IsPlanOf (x ∷ xs) [] ((x, true) ∷ unmarked xs) (scan_plan x) a.1 a
        (λ t. (let m = unmarked-marked t xs in ground (arith, m)))
        (let o = unmarked-ok xs in ground (arith, o)) (λ t. refl) refl
  join_scans-IsPlanOf w x xs (c ∷ cs) a e k =
      let s : Joining = start (x ∷ xs) in
      let first =
        first_join-IsJoined sat row_in c s a (λ t. unmarked-marked t (x ∷ xs))
          (λ t h. start-joined (x ∷ xs) t e h ∙ sym (unmarked-marked t (x ∷ xs)))
          (unmarked-ok (x ∷ xs)) k.0 k.1 k.2 k.3 in
      let listed_first : (t : Str) → listed t (first_join c s).1.scans ≡ listed t s.scans =
        λ t. first_join-keeps (listed t) (λ u ys. pop_scan-listed u t ys) c s in
      let all =
        next_joins-IsJoined sat row_in w (λ t. listed t s.scans) cs (first_join c s).0
          (first_join c s).1 (sat c) first k.4 (λ t h. listed_first t ∙ h) in
      join_rest-IsPlanOf (x ∷ xs) (c ∷ cs)
        (next_joins cs (first_join c s).0 (first_join c s).1).1.scans
        (next_joins cs (first_join c s).0 (first_join c s).1).0 all.0 all.1 all.3 all.4
        (λ t.
          next_joins-keeps (listed t) (λ u ys. pop_scan-listed u t ys) cs (first_join c s).0
            (first_join c s).1
          ∙ listed_first t)
        (next_joins-keeps (all_ok sat row_in) (pop_scan-all_ok sat row_in) cs (first_join c s).0
            (first_join c s).1
          ∙ first_join-keeps (all_ok sat row_in) (pop_scan-all_ok sat row_in) c s)
