-- ===== src/Planner/Taken.antt =====
-- src/optimizer/planner.cpp: the scan that `pop_scan` finds, and its mark.
use uni_base.Base.{
  List, [], ◌∷◌, Bool, true, false, if◌then◌else◌, ◌≡◌, refl, arith, Bool-cases, inl, inr,
}
use uni_base.Errors.{Str}
use uni_base.Outcome.{str_eq}
use uni_base.Common.{Condition}
use uni_base.Plan.{scan_plan, ScanPlan}
use uni_base.Planner.{pop_scan, is_null}
use uni_base.Planner.Placed.{leaves, IsPlaced, AreLocal}
use uni_base.Planner.Pushed.{accepts}

-- Whether a table has a scan, and whether it has one that is marked.
unfoldable pub listed : Str → List (ScanPlan × Bool) → Bool
listed t [] = false
listed t (x ∷ xs) = if str_eq (x.0).tab_name t then true else listed t xs

unfoldable pub marked : Str → List (ScanPlan × Bool) → Bool
marked t [] = false
marked t (x ∷ xs) =
    if x.1 then if str_eq (x.0).tab_name t then true else marked t xs else marked t xs

-- Scans of different tables, each with conditions of its own table only.
unfoldable pub AreScans : List (ScanPlan × Bool) → Type 0
AreScans [] = Unit {0}
AreScans (x ∷ xs) =
    (listed (x.0).tab_name xs ≡ false) × AreLocal (x.0).tab_name (x.0).conds × AreScans xs

module _ (t : Str) where
  pub pop_scan-marked :
      (u : Str) (xs : List (ScanPlan × Bool))
      → listed t xs ≡ true
      → marked u (pop_scan t xs).1 ≡ (if str_eq t u then true else marked u xs)
  unfolding pop_scan listed marked
  pop_scan-marked u [] h = cc
  pop_scan-marked u (x ∷ xs) h = ground (arith, pop_scan-marked u xs)

  pub pop_scan-listed :
      (u : Str) (xs : List (ScanPlan × Bool)) → listed u (pop_scan t xs).1 ≡ listed u xs
  unfolding pop_scan listed
  pop_scan-listed u [] = refl
  pop_scan-listed u (x ∷ xs) = ground (arith, pop_scan-listed u xs)

  pub pop_scan-leaves :
      (xs : List (ScanPlan × Bool)) → listed t xs ≡ true → leaves (pop_scan t xs).0 ≡ t ∷ []
  unfolding pop_scan listed leaves
  pop_scan-leaves [] h = cc
  pop_scan-leaves (x ∷ xs) h = ground (arith, pop_scan-leaves xs)

  pub pop_scan-found :
      (xs : List (ScanPlan × Bool)) → listed t xs ≡ true → is_null (pop_scan t xs).0 ≡ false
  unfolding pop_scan listed
  pop_scan-found [] h = cc
  pop_scan-found (x ∷ xs) h = ground (arith, pop_scan-found xs)

  pub pop_scan-IsPlaced :
      (xs : List (ScanPlan × Bool)) → AreScans xs → listed t xs ≡ true → IsPlaced (pop_scan t xs).0
  unfolding pop_scan listed AreScans IsPlaced
  pop_scan-IsPlaced [] s h = cc
  pop_scan-IsPlaced (x ∷ xs) s h =
      (elim (Bool-cases (str_eq (x.0).tab_name t)) as (λ _. IsPlaced (pop_scan t (x ∷ xs)).0) [
        | inl e ↦ rw (e, if◌then◌else◌) s.1
        | inr e ↦ rw (e, if◌then◌else◌) (pop_scan-IsPlaced xs s.2 (ground arith))
      ])

  pub pop_scan-AreScans : (xs : List (ScanPlan × Bool)) → AreScans xs → AreScans (pop_scan t xs).1
  unfolding pop_scan AreScans
  pop_scan-AreScans [] s = tt
  pop_scan-AreScans (x ∷ xs) s =
      (elim (Bool-cases (str_eq (x.0).tab_name t)) as (λ _. AreScans (pop_scan t (x ∷ xs)).1) [
        | inl e ↦ rw (e, if◌then◌else◌) s
        | inr e ↦
            rw (e, if◌then◌else◌)
              (rw (pop_scan-listed (x.0).tab_name xs) s.0, s.1, pop_scan-AreScans xs s.2)
      ])

module _ (sat : Condition → Bool) (row_in : Str → Bool) where
  -- The scans with a mark, or without one, or all of them accept.
  unfoldable pub marked_ok : List (ScanPlan × Bool) → Bool
  unfolding accepts
  marked_ok [] = true
  marked_ok (x ∷ xs) =
      if x.1
      then if accepts sat row_in (scan_plan x.0) then marked_ok xs else false
      else marked_ok xs

  unfoldable pub rest_ok : List (ScanPlan × Bool) → Bool
  unfolding accepts
  rest_ok [] = true
  rest_ok (x ∷ xs) =
      if x.1 then rest_ok xs else if accepts sat row_in (scan_plan x.0) then rest_ok xs else false

  unfoldable pub all_ok : List (ScanPlan × Bool) → Bool
  unfolding accepts
  all_ok [] = true
  all_ok (x ∷ xs) = if accepts sat row_in (scan_plan x.0) then all_ok xs else false

  pub all_ok-split :
      (xs : List (ScanPlan × Bool)) → all_ok xs ≡ (if marked_ok xs then rest_ok xs else false)
  unfolding all_ok marked_ok rest_ok
  all_ok-split [] = ground arith
  all_ok-split (x ∷ xs) = ground (arith, all_ok-split xs)

  pub pop_scan-all_ok :
      (t : Str) (xs : List (ScanPlan × Bool)) → all_ok (pop_scan t xs).1 ≡ all_ok xs
  unfolding all_ok pop_scan
  pop_scan-all_ok t [] = refl
  pop_scan-all_ok t (x ∷ xs) = ground (arith, pop_scan-all_ok t xs)

  pub pop_scan-marked_ok :
      (t : Str) (xs : List (ScanPlan × Bool))
      → listed t xs ≡ true
      → marked_ok (pop_scan t xs).1
        ≡ (if accepts sat row_in (pop_scan t xs).0 then marked_ok xs else false)
  unfolding pop_scan listed marked_ok
  pop_scan-marked_ok t [] h = cc
  pop_scan-marked_ok t (x ∷ xs) h = ground (arith, pop_scan-marked_ok t xs)
