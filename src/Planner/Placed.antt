-- ===== src/Planner/Placed.antt =====
-- src/optimizer/planner.cpp: what a plan of scans and joins reads, and the condition that `push_conds`
-- puts into it.
use uni_base.Base.{ℕ, List, [], ◌∷◌, ◌++◌, Bool, true, false, ◌≡◌, arith}
use uni_base.Errors.{Str}
use uni_base.Outcome.{str_eq, str_mem, str_mem-append}
use uni_base.Common.{Condition}
use uni_base.Plan.{Plan, null, scan_plan, join_plan}
use uni_base.Planner.{push_conds}

-- The tables that a plan reads, from left to right.
unfoldable pub leaves : Plan → List Str
leaves (scan_plan x) = x.tab_name ∷ []
leaves (join_plan tag left right conds) = leaves left ++ leaves right
leaves _ = []

-- Conditions of one table with a value.
unfoldable pub AreLocal : Str → List Condition → Type 0
AreLocal t [] = Unit {0}
AreLocal t (c ∷ cs) = (c.is_rhs_val ≡ true) × (str_eq t c.lhs_col.tab_name ≡ true) × AreLocal t cs

-- Conditions between a table on the left and one on the right.
unfoldable pub AreAcross : List Str → List Str → List Condition → Type 0
AreAcross ls rs [] = Unit {0}
AreAcross ls rs (c ∷ cs) =
    (c.is_rhs_val ≡ false)
    × (str_mem c.lhs_col.tab_name ls ≡ true)
    × (str_mem c.rhs_col.tab_name rs ≡ true)
    × AreAcross ls rs cs

abbrev pub AreDisjoint : List Str → List Str → Type 0
AreDisjoint ls rs = (t : Str) → str_mem t ls ≡ true → str_mem t rs ≡ false

-- A tree of scans and joins: no table is read twice, and each condition stands at a node below which
-- the tables that it compares are read, its left side on the left.
unfoldable pub IsPlaced : Plan → Type 0
unfolding leaves AreLocal AreAcross
IsPlaced (scan_plan x) = AreLocal x.tab_name x.conds
IsPlaced (join_plan tag left right conds) =
    IsPlaced left
    × IsPlaced right
    × AreDisjoint (leaves left) (leaves right)
    × AreAcross (leaves left) (leaves right) conds
IsPlaced _ = ⊥

-- The code for a condition, by whether the plan reads its left and its right table.
abbrev pub code : Bool → Bool → ℕ
code true true = 3
code true false = 1
code false true = 2
code false false = 0

abbrev pub lhs_tab : Condition → Str
lhs_tab c = c.lhs_col.tab_name

abbrev pub rhs_tab : Condition → Str
rhs_tab c = c.rhs_col.tab_name

pub push_conds-code :
    (c : Condition) (plan : Plan)
    → IsPlaced plan
    → str_eq (lhs_tab c) (rhs_tab c) ≡ false
    → (push_conds c plan).0
      ≡ code (str_mem (lhs_tab c) (leaves plan)) (str_mem (rhs_tab c) (leaves plan))
unfolding push_conds leaves IsPlaced
push_conds-code c null p n = absurd p
push_conds-code c (scan_plan x) p n = ground arith
push_conds-code c (join_plan tag left right conds) p n =
    let l = push_conds-code c left p.0 n in
    let r = push_conds-code c right p.1 n in
    let ml = str_mem-append (lhs_tab c) (leaves left) (leaves right) in
    let mr = str_mem-append (rhs_tab c) (leaves left) (leaves right) in
    let dl = p.2 (lhs_tab c) in let dr = p.2 (rhs_tab c) in ground (arith, l, r, ml, mr, dl, dr)
push_conds-code c _ p n = absurd p
