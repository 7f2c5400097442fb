-- ===== src/Portal/Started.antt =====
-- What a statement starts with, without the loops and the executors of a query.
use uni_base.Base.{ℕ, suc, List, [], ◌≡◌, refl, ap, fun_ext, ◌∙◌}
use uni_base.Errors.{Str, Result, ok, throw, undefined_behaviour, internal_error}
use uni_base.Outcome.{◌>>=◌}
use uni_base.Common.{TabCol, Value, Condition, SetClause}
use uni_base.Record.{Rid}
use uni_base.Meta.{DbMeta}
use uni_base.Plan.{
  Plan, PlanTag, null, projection_plan, other_plan, ddl_plan, dml_plan, t_select, t_update,
  t_delete, t_insert, t_invalid,
}
use uni_base.Execution.Trees.{Executor, new_projection, is_end, begin_tuple, cols_of}
use uni_base.Execution.{new_insert}
use uni_base.Portal.{
  PortalStmt, no_root, query, update, delete, insertion, portal_cmd_utility, portal_multi_query,
  portal_one_select, portal_dml_without_select, convert_plan_executor, collect_from, collect_scan,
  start_select, start_dml, start, new_update, new_delete,
}

module _ {H : Type 0} (db : DbMeta) (fhs : List (Str × H)) where
  -- A query that is a projection has the executors below it made, and no other; none is started.
  unfoldable pub idle_select : Plan → Result (PortalStmt H)
  idle_select (projection_plan tag sub sel_cols) =
      (convert_plan_executor db fhs sub >>= λ _. throw undefined_behaviour)
  idle_select _ = throw undefined_behaviour

  -- The scan of a change is made and is not null, and no record is found by it.
  unfoldable pub idle_dml :
      Plan
      → PlanTag
      → Plan
      → Str
      → List Value
      → List Condition
      → List SetClause
      → Result (PortalStmt H)
  unfolding idle_select begin_tuple
  idle_dml plan t_select sub t v c l = idle_select sub
  idle_dml plan t_update sub t v c l = do
    scan ← convert_plan_executor db fhs sub
    _ ← begin_tuple scan
    root ← new_update db fhs t l c []
    ok (record { tag = portal_dml_without_select; sel_cols = []; root = update root; plan = plan })
  idle_dml plan t_delete sub t v c l = do
    scan ← convert_plan_executor db fhs sub
    _ ← begin_tuple scan
    root ← new_delete db fhs t c []
    ok (record { tag = portal_dml_without_select; sel_cols = []; root = delete root; plan = plan })
  idle_dml plan t_insert sub t v c l = do
    root ← new_insert db fhs t v
    ok (record {
      tag = portal_dml_without_select;
      sel_cols = [];
      root = insertion root;
      plan = plan;
    })
  idle_dml plan _ sub t v c l = throw internal_error

  unfoldable pub idle_start : Plan → Result (PortalStmt H)
  unfolding idle_dml
  idle_start (other_plan tag t) =
      ok (record {
        tag = portal_cmd_utility;
        sel_cols = [];
        root = no_root;
        plan = other_plan tag t;
      })
  idle_start (ddl_plan tag t names defs) = ok (record {
    tag = portal_multi_query;
    sel_cols = [];
    root = no_root;
    plan = ddl_plan tag t names defs;
  })
  idle_start (dml_plan tag sub t v c l) = idle_dml (dml_plan tag sub t v c l) tag sub t v c l
  idle_start _ = throw internal_error

  projection-throws :
      (prev : Executor H) (cols : List TabCol)
      → new_projection prev cols ≡ throw undefined_behaviour
  unfolding new_projection cols_of
  projection-throws prev cols = refl

  throws-on :
      {A B C : Type 0} (m : Result A) (k : B → Result C)
      → ((m >>= λ _. throw undefined_behaviour) >>= k) ≡ (m >>= λ _. throw undefined_behaviour)
  throws-on (ok a) k = refl
  throws-on (throw e) k = refl

  select-idle : (plan sub : Plan) → start_select db fhs plan sub ≡ idle_select sub
  unfolding start_select idle_select convert_plan_executor
  select-idle plan (projection_plan tag sub cols) =
      let k : Executor H → Result (PortalStmt H) = λ root.
        ok (record { tag = portal_one_select; sel_cols = cols; root = query root; plan = plan }) in
      ap (λ f. (convert_plan_executor db fhs sub >>= f) >>= k)
        (fun_ext (λ prev. projection-throws prev cols))
      ∙ throws-on (convert_plan_executor db fhs sub) k
  select-idle plan null = refl
  select-idle plan _ = refl

  module _ (any_rid : Rid) (rounds : ℕ) where
    -- The loop ends in its first round.
    collect_scan-begin :
        {A : Type 0} (x : Executor H) (k : List Rid → Result A)
        → (collect_scan any_rid (suc rounds) x >>= k) ≡ (begin_tuple x >>= λ _. k [])
    unfolding collect_scan collect_from begin_tuple is_end
    collect_scan-begin Executor.null k = refl
    collect_scan-begin _ k = refl

    scanned :
        (sub : Plan) {A : Type 0} (k : List Rid → Result A)
        → (convert_plan_executor db fhs sub >>= λ x. collect_scan any_rid (suc rounds) x >>= k)
          ≡ (convert_plan_executor db fhs sub >>= λ x. begin_tuple x >>= λ _. k [])
    scanned sub k =
        ap (λ f. convert_plan_executor db fhs sub >>= f) (fun_ext (λ x. collect_scan-begin x k))

    dml-idle :
        (plan : Plan) (tag : PlanTag) (sub : Plan) (t : Str) (v : List Value) (c : List Condition)
        (l : List SetClause)
        → start_dml db fhs any_rid (suc rounds) plan tag sub t v c l ≡ idle_dml plan tag sub t v c l
    unfolding start_dml idle_dml
    dml-idle plan t_select sub t v c l = select-idle plan sub
    dml-idle plan t_update sub t v c l = scanned sub (λ rids.
        new_update db fhs t l c rids >>= λ root. ok (record {
          tag = portal_dml_without_select;
          sel_cols = [];
          root = update root;
          plan = plan;
        }))
    dml-idle plan t_delete sub t v c l = scanned sub (λ rids. new_delete db fhs t c rids >>= λ root.
        ok (record {
          tag = portal_dml_without_select;
          sel_cols = [];
          root = delete root;
          plan = plan;
        }))
    dml-idle plan t_insert sub t v c l = refl
    dml-idle plan t_invalid sub t v c l = refl
    dml-idle plan _ sub t v c l = refl

    -- Given a round for the loops, whatever the plan: `start` of a `select` throws or goes through a null pointer, and
    -- no query is started; `start` of an update or a deletion makes the executors of its scan, and when that
    -- throws no error and gives an executor, goes on with no record to change, for its loop ends in the first round.
    -- Everything else starts as it is, or throws.
    pub start-idle_start : (p : Plan) → start db fhs any_rid (suc rounds) p ≡ idle_start p
    unfolding start idle_start
    start-idle_start (other_plan tag t) = refl
    start-idle_start (ddl_plan tag t names defs) = refl
    start-idle_start (dml_plan tag sub t v c l) =
        dml-idle (dml_plan tag sub t v c l) tag sub t v c l
    start-idle_start null = refl
    start-idle_start _ = refl
