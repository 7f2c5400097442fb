-- ===== src/Planner/Pushed.antt =====
-- src/optimizer/planner.cpp: what `push_conds` leaves of a plan, and what the plan accepts.
use uni_base.Base.{
  ℕ, List, [], ◌∷◌, ◌++◌, Bool, true, false, if◌then◌else◌, ◌==◌, ◌≡◌, refl, arith, subst,
}
use uni_base.Errors.{Str}
use uni_base.Outcome.{str_eq, str_mem, str_mem-append}
use uni_base.Common.{Condition}
use uni_base.Plan.{Plan, null, scan_plan, join_plan}
use uni_base.Planner.{push_conds, swap_sides}
use uni_base.Planner.Placed.{leaves, IsPlaced, AreAcross, push_conds-code, lhs_tab, rhs_tab}

pub push_conds-leaves : (c : Condition) (plan : Plan) → leaves (push_conds c plan).1 ≡ leaves plan
unfolding push_conds leaves
push_conds-leaves c (scan_plan x) = ground arith
push_conds-leaves c (join_plan tag left right conds) =
    ground (arith, push_conds-leaves c left, push_conds-leaves c right)
push_conds-leaves c _ = refl

pub AreAcross-append :
    (ls rs : List Str) (cs : List Condition) (c : Condition)
    → AreAcross ls rs cs
    → c.is_rhs_val ≡ false
    → str_mem (lhs_tab c) ls ≡ true
    → str_mem (rhs_tab c) rs ≡ true
    → AreAcross ls rs (cs ++ c ∷ [])
unfolding AreAcross
AreAcross-append ls rs [] c a v l r = (v, l, r, tt)
AreAcross-append ls rs (d ∷ cs) c a v l r = (a.0, a.1, a.2, AreAcross-append ls rs cs c a.3 v l r)

-- A condition at a node whose subtrees read its tables, or its sides exchanged.
AreAcross-pushed :
    (ls rs : List Str) (cs : List Condition) (c : Condition) (swapped : Bool)
    → AreAcross ls rs cs
    → c.is_rhs_val ≡ false
    → (if swapped
        then if str_mem (rhs_tab c) ls then str_mem (lhs_tab c) rs else false
        else if str_mem (lhs_tab c) ls
        then str_mem (rhs_tab c) rs
        else false)
      ≡ true
    → AreAcross ls rs (cs ++ (if swapped then swap_sides c else c) ∷ [])
unfolding swap_sides
AreAcross-pushed ls rs cs c true a v h =
    AreAcross-append ls rs cs (swap_sides c) a v (ground arith) (ground arith)
AreAcross-pushed ls rs cs c false a v h =
    AreAcross-append ls rs cs c a v (ground arith) (ground arith)

-- What holds of each outcome of four tests in turn, the last when all of them fail.
pick :
    (P : ℕ × Plan → Type 0) (a b c d : Bool) {x y z w u : ℕ × Plan}
    → P x
    → P y
    → P z
    → P w
    → (a ≡ false → b ≡ false → c ≡ false → d ≡ false → P u)
    → P (if a then x else if b then y else if c then z else if d then w else u)
pick P true b c d x y z w u = x
pick P false true c d x y z w u = y
pick P false false true d x y z w u = z
pick P false false false true x y z w u = w
pick P false false false false x y z w u = u refl refl refl refl

pub push_conds-IsPlaced :
    (c : Condition) (plan : Plan)
    → IsPlaced plan
    → str_eq (lhs_tab c) (rhs_tab c) ≡ false
    → c.is_rhs_val ≡ false
    → IsPlaced (push_conds c plan).1
unfolding push_conds IsPlaced
push_conds-IsPlaced c null p n v = absurd p
push_conds-IsPlaced c (scan_plan x) p n v =
    subst IsPlaced (let e : scan_plan x ≡ (push_conds c (scan_plan x)).1 = ground arith in e) p
push_conds-IsPlaced c (join_plan tag left right conds) p n v =
    pick (λ r. IsPlaced r.1) ((push_conds c left).0 == 3) ((push_conds c right).0 == 3)
      ((push_conds c left).0 == 0) ((push_conds c right).0 == 0)
      (
        push_conds-IsPlaced c left p.0 n v,
        p.1,
        rw (push_conds-leaves c left) p.2,
        rw (push_conds-leaves c left) p.3,
      )
      (
        p.0,
        push_conds-IsPlaced c right p.1 n v,
        rw (push_conds-leaves c right) p.2,
        rw (push_conds-leaves c right) p.3,
      )
      p p
      (λ e f g h. (
        p.0,
        p.1,
        p.2,
        AreAcross-pushed (leaves left) (leaves right) conds c ((push_conds c left).0 == 2) p.3 v (
            let l = push_conds-code c left p.0 n in
            let r = push_conds-code c right p.1 n in
            let dl = p.2 (lhs_tab c) in let dr = p.2 (rhs_tab c) in ground (arith, l, r, dl, dr)),
      ))
push_conds-IsPlaced c _ p n v = absurd p

-- What a plan accepts: rows, one of each table, in an environment that says which tables have theirs
-- and which conditions hold of them.
module _ (sat : Condition → Bool) (row_in : Str → Bool) where
  unfoldable pub all_sat : List Condition → Bool
  all_sat [] = true
  all_sat (c ∷ cs) = if sat c then all_sat cs else false

  unfoldable pub accepts : Plan → Bool
  unfolding all_sat
  accepts (scan_plan x) = if row_in x.tab_name then all_sat x.conds else false
  accepts (join_plan tag left right conds) =
      if accepts left then if accepts right then all_sat conds else false else false
  accepts _ = false

  all_sat-append :
      (cs : List Condition) (c : Condition)
      → all_sat (cs ++ c ∷ []) ≡ (if all_sat cs then sat c else false)
  unfolding all_sat
  all_sat-append [] c = ground arith
  all_sat-append (d ∷ cs) c = ground (arith, all_sat-append cs c)

  pub push_conds-accepts :
      ((c : Condition) → c.is_rhs_val ≡ false → sat (swap_sides c) ≡ sat c)
      → (c : Condition) (plan : Plan) → IsPlaced plan
      → str_eq (lhs_tab c) (rhs_tab c) ≡ false
      → c.is_rhs_val ≡ false
      → accepts (push_conds c plan).1 ≡ (
          if str_mem (lhs_tab c) (leaves plan)
          then if str_mem (rhs_tab c) (leaves plan)
            then if accepts plan then sat c else false
            else accepts plan
          else accepts plan)
  unfolding push_conds accepts leaves IsPlaced
  push_conds-accepts w c null p n v = absurd p
  push_conds-accepts w c (scan_plan x) p n v = ground arith
  push_conds-accepts w c (join_plan tag left right conds) p n v =
      let l = push_conds-code c left p.0 n in
      let r = push_conds-code c right p.1 n in
      let la = push_conds-accepts w c left p.0 n v in
      let ra = push_conds-accepts w c right p.1 n v in
      let ml = str_mem-append (lhs_tab c) (leaves left) (leaves right) in
      let mr = str_mem-append (rhs_tab c) (leaves left) (leaves right) in
      let dl = p.2 (lhs_tab c) in
      let dr = p.2 (rhs_tab c) in
      let s = all_sat-append conds c in
      let t = all_sat-append conds (swap_sides c) in
      let u = w c v in ground (arith, l, r, la, ra, ml, mr, dl, dr, s, t, u)
  push_conds-accepts w c _ p n v = absurd p
