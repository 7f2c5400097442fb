-- ===== src/Execution/Columns.antt =====
-- src/execution: the columns that a projection produces follow one another without a gap.
use uni_base.Base.{ℕ, ◌+◌, List, [], ◌∷◌, ◌≡◌, refl, subst}
use uni_base.Errors.{ok}
use uni_base.Outcome.{bind-then, ok-inj}
use uni_base.Common.{TabCol}
use uni_base.Meta.{ColMeta}
use uni_base.System.Created.{IsTiled}
use uni_base.Execution.{get_col, Projected, project}

-- The columns of a projection of any columns that are found, in any order, follow one another without a
-- gap from the offset that it starts at to the length of its rows.
pub project-IsTiled :
    (prev : List ColMeta) (start : ℕ) (sel : List TabCol) (p : Projected)
    → project prev start sel ≡ ok p
    → IsTiled start p.cols p.len
unfolding project IsTiled
project-IsTiled prev start [] p e = subst (λ q. IsTiled start q.cols q.len) (ok-inj e) refl
project-IsTiled prev start (s ∷ ss) p e = bind-then {m = get_col prev s} e (λ pos _ f.
    bind-then f (λ rest g h.
      subst (λ q. IsTiled start q.cols q.len)
        {x = record {
          sel_idxs = pos.0 ∷ rest.sel_idxs;
          cols = record (pos.1) { offset = start } ∷ rest.cols;
          len = rest.len;
        }}
        (ok-inj h) (refl, project-IsTiled prev (start + (pos.1).len) ss rest g)))
