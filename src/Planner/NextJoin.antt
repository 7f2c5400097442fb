-- ===== src/Planner/NextJoin.antt =====
-- src/optimizer/planner.cpp: one round of the loop over the conditions of `make_one_rel`, and the loop.
use uni_base.Base.{
  [], ◌∷◌, Bool, true, false, if◌then◌else◌, ◌≡◌, refl, arith, Bool-cases, inl, inr, subst, sym,
  ◌∙◌,
}
use uni_base.Errors.{Str}
use uni_base.Outcome.{str_eq, str_mem, str_mem-append}
use uni_base.Common.{Condition}
use uni_base.Plan.{Plan}
use uni_base.Planner.{
  take_scan, need_scan, next_join, push_conds, swap_sides, nest_loop, Joining, is_null,
}
use uni_base.Planner.Placed.{leaves, lhs_tab, rhs_tab}
use uni_base.Planner.Taken.{listed, pop_scan-listed, pop_scan-leaves, pop_scan-found}
use uni_base.Planner.Joined.{
  IsJoined, take_scan-IsJoined, cond-IsJoined, regroup-IsJoined, push_conds-IsJoined,
}

take_scan-found :
    (t : Str) (s : Joining) → listed t s.scans ≡ true → is_null (take_scan t s).0 ≡ false
unfolding take_scan
take_scan-found t s h = pop_scan-found t s.scans h

take_scan-leaf :
    (t : Str) (s : Joining) → listed t s.scans ≡ true → str_mem t (leaves (take_scan t s).0) ≡ true
unfolding take_scan
take_scan-leaf t s h = let l = pop_scan-leaves t s.scans h in ground (arith, l)

take_scan-listed : (t u : Str) (s : Joining) → listed u (take_scan t s).1.scans ≡ listed u s.scans
unfolding take_scan
take_scan-listed t u s = pop_scan-listed t u s.scans

-- No other table is joined.
take_scan-other :
    (t u : Str) (s : Joining)
    → listed t s.scans ≡ true
    → str_eq t u ≡ false
    → str_mem u (take_scan t s).1.joined_tables ≡ str_mem u s.joined_tables
unfolding take_scan
take_scan-other t u s h n =
    let f = pop_scan-found t s.scans h in
    let a = str_mem-append u s.joined_tables (t ∷ []) in ground (arith, f, a)

-- The four outcomes of a condition, by whether its tables are joined.
module _ (c : Condition) (plan : Plan) (s : Joining) where
  next_join-both :
      str_mem (lhs_tab c) s.joined_tables ≡ true
      → str_mem (rhs_tab c) s.joined_tables ≡ true
      → next_join c plan s ≡ ((push_conds c plan).1, s)
  unfolding next_join need_scan
  next_join-both l r = rw (l, r, if◌then◌else◌) refl

  next_join-lhs :
      str_mem (lhs_tab c) s.joined_tables ≡ true
      → str_mem (rhs_tab c) s.joined_tables ≡ false
      → listed (rhs_tab c) s.scans ≡ true
      → next_join c plan s ≡ (
        nest_loop (take_scan (rhs_tab c) s).0 plan (swap_sides c ∷ []),
        (take_scan (rhs_tab c) s).1,
      )
  unfolding next_join need_scan take_scan
  next_join-lhs l r h = rw (l, r, if◌then◌else◌, pop_scan-found (rhs_tab c) s.scans h) refl

  next_join-rhs :
      str_mem (lhs_tab c) s.joined_tables ≡ false
      → listed (lhs_tab c) s.scans ≡ true
      → str_mem (rhs_tab c) (take_scan (lhs_tab c) s).1.joined_tables ≡ true
      → next_join c plan s
        ≡ (nest_loop (take_scan (lhs_tab c) s).0 plan (c ∷ []), (take_scan (lhs_tab c) s).1)
  unfolding next_join need_scan
  next_join-rhs l h r = rw (l, r, if◌then◌else◌, take_scan-found (lhs_tab c) s h) refl

  next_join-neither :
      str_mem (lhs_tab c) s.joined_tables ≡ false
      → listed (lhs_tab c) s.scans ≡ true
      → (let t : Joining = (take_scan (lhs_tab c) s).1 in
          str_mem (rhs_tab c) t.joined_tables ≡ false
          → listed (rhs_tab c) t.scans ≡ true
          → next_join c plan s ≡ (
            nest_loop
                (nest_loop (take_scan (lhs_tab c) s).0 (take_scan (rhs_tab c) t).0 (c ∷ []))
                plan
                [],
            (take_scan (rhs_tab c) t).1,
          ))
  unfolding next_join need_scan
  next_join-neither l h r k =
      rw
        (
          l,
          r,
          if◌then◌else◌,
          take_scan-found (lhs_tab c) s h,
          take_scan-found (rhs_tab c) (take_scan (lhs_tab c) s).1 k,
        )
        refl

module _ (sat : Condition → Bool) (row_in : Str → Bool) where
  -- A listed table is in the plan just when it is joined.
  reads :
      (t : Str) (plan : Plan) (s : Joining) (done b : Bool)
      → IsJoined sat row_in plan s done
      → listed t s.scans ≡ true
      → str_mem t s.joined_tables ≡ b
      → str_mem t (leaves plan) ≡ b
  reads t plan s done b i h j = i.3 t ∙ sym (i.2 t h) ∙ j

  pub next_join-IsJoined :
      ((c : Condition) → c.is_rhs_val ≡ false → sat (swap_sides c) ≡ sat c)
      → (c : Condition) (plan : Plan) (s : Joining) (done : Bool) → IsJoined sat row_in plan s done
      → c.is_rhs_val ≡ false
      → str_eq (lhs_tab c) (rhs_tab c) ≡ false
      → listed (lhs_tab c) s.scans ≡ true
      → listed (rhs_tab c) s.scans ≡ true
      → IsJoined sat row_in
          (next_join c plan s).0
          (next_join c plan s).1
          (if done then sat c else false)
  unfolding swap_sides
  next_join-IsJoined w c plan s done i v n hl hr =
      let t : Joining = (take_scan (lhs_tab c) s).1 in
      let kr : listed (rhs_tab c) t.scans ≡ true =
        take_scan-listed (lhs_tab c) (rhs_tab c) s ∙ hr in
      elim (Bool-cases (str_mem (lhs_tab c) s.joined_tables))
        as (λ _.
          IsJoined sat row_in (next_join c plan s).0 (next_join c plan s).1
            (if done then sat c else false)) [
              | inl l ↦
                  elim (Bool-cases (str_mem (rhs_tab c) s.joined_tables))
                    as (λ _.
                      IsJoined sat row_in (next_join c plan s).0 (next_join c plan s).1
                        (if done then sat c else false)) [
                          | inl r ↦ rw (next_join-both c plan s l r) (
                              push_conds-IsJoined sat row_in w c plan s done i v n
                                (reads (lhs_tab c) plan s done true i hl l)
                                (reads (rhs_tab c) plan s done true i hr r))
                          | inr r ↦ rw (next_join-lhs c plan s l r hr) (
                              subst
                                (λ b.
                                  IsJoined sat row_in
                                    (nest_loop (take_scan (rhs_tab c) s).0 plan (swap_sides c ∷ []))
                                    (take_scan (rhs_tab c) s).1 (if done then b else false))
                                (w c v)
                                (cond-IsJoined sat row_in (swap_sides c) (take_scan (rhs_tab c) s).0
                                  plan (take_scan (rhs_tab c) s).1 done
                                  (take_scan-IsJoined sat row_in (rhs_tab c) plan s done i hr
                                    (sym (i.2 (rhs_tab c) hr) ∙ r))
                                  v (take_scan-leaf (rhs_tab c) s hr)
                                  (reads (lhs_tab c) plan s done true i hl l)))
                        ]
              | inr l ↦
                  let j =
                    take_scan-IsJoined sat row_in (lhs_tab c) plan s done i hl
                      (sym (i.2 (lhs_tab c) hl) ∙ l) in
                  elim (Bool-cases (str_mem (rhs_tab c) t.joined_tables))
                    as (λ _.
                      IsJoined sat row_in (next_join c plan s).0 (next_join c plan s).1
                        (if done then sat c else false)) [
                          | inl r ↦ rw (next_join-rhs c plan s l hl r) (
                              cond-IsJoined sat row_in c (take_scan (lhs_tab c) s).0 plan t done j v
                                (take_scan-leaf (lhs_tab c) s hl)
                                (reads (rhs_tab c) plan s done true i hr
                                  (sym (take_scan-other (lhs_tab c) (rhs_tab c) s hl n) ∙ r)))
                          | inr r ↦ rw (next_join-neither c plan s l hl r kr) (
                              regroup-IsJoined sat row_in c (take_scan (lhs_tab c) s).0
                                (take_scan (rhs_tab c) t).0 plan (take_scan (rhs_tab c) t).1 done
                                (take_scan-IsJoined sat row_in (rhs_tab c)
                                  (nest_loop (take_scan (lhs_tab c) s).0 plan []) t done j kr
                                  (sym (j.2 (rhs_tab c) kr) ∙ r))
                                v (take_scan-leaf (lhs_tab c) s hl)
                                (take_scan-leaf (rhs_tab c) t kr))
                        ]
            ]
