-- ===== src/Planner/Loop.antt =====
-- src/optimizer/planner.cpp: the joins of `make_one_rel`, from its scans to its plan.
use uni_base.Base.{List, [], ◌∷◌, Bool, true, false, if◌then◌else◌, ◌≡◌, refl, arith, subst, ◌∙◌}
use uni_base.Errors.{Str}
use uni_base.Outcome.{str_eq, str_mem}
use uni_base.Common.{Condition}
use uni_base.Plan.{Plan, ScanPlan}
use uni_base.Planner.{
  pop_scan, take_scan, need_scan, first_join, next_join, next_joins, swap_sides, Joining,
}
use uni_base.Planner.Placed.{leaves, IsPlaced, AreAcross, lhs_tab, rhs_tab}
use uni_base.Planner.Pushed.{all_sat, accepts}
use uni_base.Planner.Taken.{
  listed, marked, AreScans, marked_ok, pop_scan-marked, pop_scan-listed, pop_scan-leaves,
  pop_scan-IsPlaced, pop_scan-AreScans, pop_scan-marked_ok,
}
use uni_base.Planner.Joined.{IsJoined, take_scan-joined}
use uni_base.Planner.NextJoin.{next_join-IsJoined}

-- Conditions that compare columns of two different tables that have scans.
unfoldable pub AreCross : (Str → Bool) → List Condition → Type 0
AreCross known [] = Unit {0}
AreCross known (c ∷ cs) =
    (c.is_rhs_val ≡ false)
    × (str_eq (lhs_tab c) (rhs_tab c) ≡ false)
    × (known (lhs_tab c) ≡ true)
    × (known (rhs_tab c) ≡ true)
    × AreCross known cs

-- What no round changes of the scans.
module _ {A : Type 0} (f : List (ScanPlan × Bool) → A)
    (keeps : (t : Str) (xs : List (ScanPlan × Bool)) → f (pop_scan t xs).1 ≡ f xs) where
  need_scan-keeps : (t : Str) (s : Joining) → f (need_scan t s).1.scans ≡ f s.scans
  unfolding need_scan take_scan
  need_scan-keeps t s = let k = keeps t s.scans in ground (arith, k)

  next_join-keeps :
      (c : Condition) (plan : Plan) (s : Joining) → f (next_join c plan s).1.scans ≡ f s.scans
  unfolding next_join
  next_join-keeps c plan s =
      let k = need_scan-keeps (lhs_tab c) s in
      let l = need_scan-keeps (rhs_tab c) (need_scan (lhs_tab c) s).1 in ground (arith, k, l)

  pub next_joins-keeps :
      (cs : List Condition) (plan : Plan) (s : Joining)
      → f (next_joins cs plan s).1.scans ≡ f s.scans
  unfolding next_joins
  next_joins-keeps [] plan s = refl
  next_joins-keeps (c ∷ cs) plan s =
      next_joins-keeps cs (next_join c plan s).0 (next_join c plan s).1 ∙ next_join-keeps c plan s

  pub first_join-keeps : (c : Condition) (s : Joining) → f (first_join c s).1.scans ≡ f s.scans
  unfolding first_join take_scan
  first_join-keeps c s =
      keeps (rhs_tab c) (pop_scan (lhs_tab c) s.scans).1 ∙ keeps (lhs_tab c) s.scans

module _ (sat : Condition → Bool) (row_in : Str → Bool) where
  pub next_joins-IsJoined :
      ((c : Condition) → c.is_rhs_val ≡ false → sat (swap_sides c) ≡ sat c)
      → (known : Str → Bool) (cs : List Condition) (plan : Plan) (s : Joining) (done : Bool)
      → IsJoined sat row_in plan s done
      → AreCross known cs
      → ((t : Str) → known t ≡ true → listed t s.scans ≡ true)
      → IsJoined sat row_in
          (next_joins cs plan s).0
          (next_joins cs plan s).1
          (if done then all_sat sat row_in cs else false)
  unfolding next_joins AreCross all_sat
  next_joins-IsJoined w known [] plan s true i a k = i
  next_joins-IsJoined w known [] plan s false i a k = i
  next_joins-IsJoined w known (c ∷ cs) plan s done i a k =
      let n =
        next_join-IsJoined sat row_in w c plan s done i a.0 a.1 (k (lhs_tab c) a.2)
          (k (rhs_tab c) a.3) in
      let keep : (t : Str) → known t ≡ true → listed t (next_join c plan s).1.scans ≡ true =
        λ t h. next_join-keeps (listed t) (λ u xs. pop_scan-listed u t xs) c plan s ∙ k t h in
      subst (IsJoined sat row_in (next_joins (c ∷ cs) plan s).0 (next_joins (c ∷ cs) plan s).1)
        (ground arith)
        (next_joins-IsJoined w known cs (next_join c plan s).0 (next_join c plan s).1
          (if done then sat c else false) n a.4 keep)

  pub first_join-IsJoined :
      (c : Condition) (s : Joining)
      → AreScans s.scans
      → ((t : Str) → marked t s.scans ≡ false)
      → ((t : Str) → listed t s.scans ≡ true → str_mem t s.joined_tables ≡ marked t s.scans)
      → marked_ok sat row_in s.scans ≡ true
      → c.is_rhs_val ≡ false
      → str_eq (lhs_tab c) (rhs_tab c) ≡ false
      → listed (lhs_tab c) s.scans ≡ true
      → listed (rhs_tab c) s.scans ≡ true
      → IsJoined sat row_in (first_join c s).0 (first_join c s).1 (sat c)
  unfolding first_join take_scan IsPlaced AreAcross leaves accepts all_sat
  first_join-IsJoined c s a m j o v n hl hr =
      let s1 : Joining = (take_scan (lhs_tab c) s).1 in
      let kr : listed (rhs_tab c) s1.scans ≡ true =
        pop_scan-listed (lhs_tab c) (rhs_tab c) s.scans ∙ hr in
      let a1 = pop_scan-AreScans (lhs_tab c) s.scans a in
      let ll = pop_scan-leaves (lhs_tab c) s.scans hl in
      let lr = pop_scan-leaves (rhs_tab c) s1.scans kr in
      (
        (
          pop_scan-IsPlaced (lhs_tab c) s.scans a hl,
          pop_scan-IsPlaced (rhs_tab c) s1.scans a1 kr,
          λ t h. ground (arith, ll, lr),
          (v, ground (arith, ll), ground (arith, lr), tt),
        ),
        pop_scan-AreScans (rhs_tab c) s1.scans a1,
        λ t. take_scan-joined (rhs_tab c) t s1 kr (λ u. take_scan-joined (lhs_tab c) u s hl j),
        λ t.
            (let p = pop_scan-marked (lhs_tab c) t s.scans hl in
              let q = pop_scan-marked (rhs_tab c) t s1.scans kr in
              let z = m t in ground (arith, ll, lr, p, q, z)),
        (let p = pop_scan-marked_ok sat row_in (lhs_tab c) s.scans hl in
            let q = pop_scan-marked_ok sat row_in (rhs_tab c) s1.scans kr in
            ground (arith, p, q, o)),
      )
