-- ===== src/Planner/Joined.antt =====
-- src/optimizer/planner.cpp: the invariant of the loop over the conditions of `make_one_rel`.
use uni_base.Base.{List, [], ◌∷◌, ◌++◌, Bool, true, false, if◌then◌else◌, ◌≡◌, arith, ◌∙◌}
use uni_base.Errors.{Str}
use uni_base.Outcome.{str_eq, str_mem, str_mem-append}
use uni_base.Common.{Condition}
use uni_base.Plan.{Plan}
use uni_base.Planner.{pop_scan, take_scan, push_conds, swap_sides, nest_loop, Joining}
use uni_base.Planner.Placed.{leaves, IsPlaced, AreAcross, AreDisjoint, lhs_tab, rhs_tab}
use uni_base.Planner.Pushed.{
  accepts, all_sat, push_conds-leaves, push_conds-IsPlaced, push_conds-accepts,
}
use uni_base.Planner.Taken.{
  listed, marked, AreScans, marked_ok, pop_scan-marked, pop_scan-listed, pop_scan-leaves,
  pop_scan-found, pop_scan-IsPlaced, pop_scan-AreScans, pop_scan-marked_ok,
}

-- The names joined are those marked, so are the tables that the plan reads; and the plan accepts what
-- the marked scans and the conditions so far accept.
abbrev pub IsJoined : (Condition → Bool) → (Str → Bool) → Plan → Joining → Bool → Type 0
IsJoined sat row_in plan s done =
    IsPlaced plan
    × AreScans s.scans
    × ((t : Str) → listed t s.scans ≡ true → str_mem t s.joined_tables ≡ marked t s.scans)
    × ((t : Str) → str_mem t (leaves plan) ≡ marked t s.scans)
    × (accepts sat row_in plan ≡ (if marked_ok sat row_in s.scans then done else false))

pub take_scan-joined :
    (t u : Str) (s : Joining)
    → listed t s.scans ≡ true
    → ((v : Str) → listed v s.scans ≡ true → str_mem v s.joined_tables ≡ marked v s.scans)
    → listed u (take_scan t s).1.scans ≡ true
    → str_mem u (take_scan t s).1.joined_tables ≡ marked u (take_scan t s).1.scans
unfolding take_scan
take_scan-joined t u s h j k =
    let f = pop_scan-found t s.scans h in
    let m = pop_scan-marked t u s.scans h in
    let l = pop_scan-listed t u s.scans in
    let a = str_mem-append u s.joined_tables (t ∷ []) in
    let o = j u in ground (arith, f, m, l, a, o)

singleton-AreDisjoint :
    (t : Str) (ls rs : List Str) → ls ≡ t ∷ [] → str_mem t rs ≡ false → AreDisjoint ls rs
singleton-AreDisjoint t ls rs e h u k = ground arith

module _ (sat : Condition → Bool) (row_in : Str → Bool) where
  -- A scan that is not marked, joined with the plan.
  pub take_scan-IsJoined :
      (t : Str) (plan : Plan) (s : Joining) (done : Bool)
      → IsJoined sat row_in plan s done
      → listed t s.scans ≡ true
      → marked t s.scans ≡ false
      → IsJoined sat row_in (nest_loop (take_scan t s).0 plan []) (take_scan t s).1 done
  unfolding take_scan IsPlaced AreAcross leaves accepts all_sat
  take_scan-IsJoined t plan s done i h m = (
    (
      pop_scan-IsPlaced t s.scans i.1 h,
      i.0,
      singleton-AreDisjoint t (leaves (pop_scan t s.scans).0) (leaves plan)
          (pop_scan-leaves t s.scans h) (i.3 t ∙ m),
      tt,
    ),
    pop_scan-AreScans t s.scans i.1,
    λ u. take_scan-joined t u s h i.2,
    λ u.
        (let l = pop_scan-leaves t s.scans h in
          let p = pop_scan-marked t u s.scans h in let o = i.3 u in ground (arith, l, p, o)),
    (let p = pop_scan-marked_ok sat row_in t s.scans h in let o = i.4 in ground (arith, p, o)),
  )

  -- A condition at the root of a join.
  pub cond-IsJoined :
      (c : Condition) (left right : Plan) (s : Joining) (done : Bool)
      → IsJoined sat row_in (nest_loop left right []) s done
      → c.is_rhs_val ≡ false
      → str_mem (lhs_tab c) (leaves left) ≡ true
      → str_mem (rhs_tab c) (leaves right) ≡ true
      → IsJoined sat row_in (nest_loop left right (c ∷ [])) s (if done then sat c else false)
  unfolding IsPlaced AreAcross leaves accepts all_sat
  cond-IsJoined c left right s done i v l r =
      ((i.0.0, i.0.1, i.0.2, (v, l, r, tt)), i.1, i.2, i.3, (let o = i.4 in ground (arith, o)))

  -- A join of two plans with a third, from the third joined with one and then with the other.
  pub regroup-IsJoined :
      (c : Condition) (left right plan : Plan) (s : Joining) (done : Bool)
      → IsJoined sat row_in (nest_loop right (nest_loop left plan []) []) s done
      → c.is_rhs_val ≡ false
      → str_mem (lhs_tab c) (leaves left) ≡ true
      → str_mem (rhs_tab c) (leaves right) ≡ true
      → IsJoined sat row_in
          (nest_loop (nest_loop left right (c ∷ [])) plan [])
          s
          (if done then sat c else false)
  unfolding IsPlaced AreAcross leaves accepts all_sat
  regroup-IsJoined c left right plan s done i v l r = (
    (
      (
        i.0.1.0,
        i.0.0,
        λ t h.
            (let d = i.0.2 t in
              let a = str_mem-append t (leaves left) (leaves plan) in ground (arith, d, a)),
        (v, l, r, tt),
      ),
      i.0.1.1,
      λ t h.
          (let d = i.0.2 t in
            let e = i.0.1.2 t in
            let a = str_mem-append t (leaves left) (leaves plan) in
            let b = str_mem-append t (leaves left) (leaves right) in ground (arith, d, e, a, b)),
      tt,
    ),
    i.1,
    i.2,
    λ t.
        (let o = i.3 t in
          let a = str_mem-append t (leaves left) (leaves plan) in
          let b = str_mem-append t (leaves left) (leaves right) in
          let d = str_mem-append t (leaves right) (leaves left ++ leaves plan) in
          let e = str_mem-append t (leaves left ++ leaves right) (leaves plan) in
          ground (arith, o, a, b, d, e)),
    (let o = i.4 in ground (arith, o)),
  )

  pub push_conds-IsJoined :
      ((c : Condition) → c.is_rhs_val ≡ false → sat (swap_sides c) ≡ sat c)
      → (c : Condition) (plan : Plan) (s : Joining) (done : Bool) → IsJoined sat row_in plan s done
      → c.is_rhs_val ≡ false
      → str_eq (lhs_tab c) (rhs_tab c) ≡ false
      → str_mem (lhs_tab c) (leaves plan) ≡ true
      → str_mem (rhs_tab c) (leaves plan) ≡ true
      → IsJoined sat row_in (push_conds c plan).1 s (if done then sat c else false)
  push_conds-IsJoined w c plan s done i v n l r = (
    push_conds-IsPlaced c plan i.0 n v,
    i.1,
    i.2,
    rw (push_conds-leaves c plan) i.3,
    (let o = i.4 in
        let p = push_conds-accepts sat row_in w c plan i.0 n v in ground (arith, o, p, l, r)),
  )
