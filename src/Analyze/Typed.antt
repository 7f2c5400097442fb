-- ===== src/Analyze/Typed.antt =====
-- src/analyze/analyze.cpp: what holds of the conditions that the analysis lets through.
use uni_base.Base.{
  ℕ, List, [], ◌∷◌, ◌++◌, ◌-◌, Option, none, some, true, false, ite, if◌then◌else◌, ◌≡◌, refl,
  arith, length, length-append, zero, suc, ◌==◌, ltb, Bool-cases, inl, inr, ap, sym, ◌∙◌, subst,
}
use uni_base.Errors.{Str, Result, ok, throw, assertion_failed, string_overflow, incompatible_type}
use uni_base.Outcome.{collect, bind-then, ok-inj}
use uni_base.Defs.{ColType, ColType-discrete, type_int, type_float, type_string, coltype2str}
use uni_base.Common.{Value, Condition, word_bytes, raw_of, init_raw, zeros}
use uni_base.Meta.{ColMeta, TabMeta, DbMeta, get_table, get_col}
use uni_base.Analyze.{rhs_type, check_types, check_cond, check_clause}

length-zeros : (n : ℕ) → length (zeros n) ≡ n
unfolding zeros
length-zeros zero = refl
length-zeros (suc n) = ap suc (length-zeros n)

-- A buffer is as long as was asked for.
pub length-raw_of :
    (v : Value) (len : ℕ) (bytes : List ℕ) → raw_of v len ≡ ok bytes → length bytes ≡ len
unfolding raw_of
length-raw_of v len bytes = go v.type
  where
    go :
        (t : ColType)
        → elim t [
          | type_int ↦ if len == 4 then ok (word_bytes v.word) else throw assertion_failed
          | type_float ↦ if len == 4 then ok (word_bytes v.word) else throw assertion_failed
          | type_string ↦
              if ltb len (length v.str_val)
              then throw string_overflow
              else ok (v.str_val ++ zeros (len - length v.str_val))
        ]
          ≡ ok bytes
        → length bytes ≡ len
    go type_int e = ground arith
    go type_float e = ground arith
    go type_string e = ground (
      arith,
      length-append v.str_val (zeros (len - length v.str_val)),
      length-zeros (len - length v.str_val),
    )

-- The types of the two sides agree, and a value is laid out at the width of its column.
abbrev pub IsTyped : DbMeta → Condition → Type 0
IsTyped db cond =
    (tab : TabMeta) × (col : ColMeta) × (get_table db cond.lhs_col.tab_name ≡ ok tab)
    × (get_col tab cond.lhs_col.col_name ≡ ok col)
    × elim cond.is_rhs_val [
      | true ↦
          (bytes : List ℕ) × (cond.rhs_val.raw ≡ some bytes)
          × (length bytes ≡ col.len)
          × (cond.rhs_val.type ≡ col.type)
      | false ↦
          (rhs_tab : TabMeta) × (rhs : ColMeta) × (get_table db cond.rhs_col.tab_name ≡ ok rhs_tab)
          × (get_col rhs_tab cond.rhs_col.col_name ≡ ok rhs)
          × (rhs.type ≡ col.type)
    ]

pub init_raw-fills :
    (v w : Value) (len : ℕ)
    → init_raw v len ≡ ok w
    → (bytes : List ℕ) × (w.raw ≡ some bytes) × (length bytes ≡ len) × (w.type ≡ v.type)
unfolding init_raw
init_raw-fills v w len = go v.raw
  where
    filled :
        (r : Result (List ℕ))
        → raw_of v len ≡ r
        → elim r [ ok bytes ↦ ok (record v { raw = some bytes }) | throw x ↦ throw x ] ≡ ok w
        → (bytes : List ℕ) × (w.raw ≡ some bytes) × (length bytes ≡ len) × (w.type ≡ v.type)
    filled (ok bytes) h e = (
      bytes,
      ap (λ r. elim r [ ok x ↦ x.raw | throw x ↦ none ]) (sym e),
      length-raw_of v len bytes h,
      ap (λ r. elim r [ ok x ↦ x.type | throw x ↦ v.type ]) (sym e),
    )
    filled (throw x) h e = cc

    go :
        (o : Option (List ℕ))
        → elim o [
          | some bytes ↦ throw assertion_failed
          | none ↦ elim (raw_of v len) [
            | ok bytes ↦ ok (record v { raw = some bytes })
            | throw x ↦ throw x
          ]
        ]
          ≡ ok w
        → (bytes : List ℕ) × (w.raw ≡ some bytes) × (length bytes ≡ len) × (w.type ≡ v.type)
    go (some bytes) e = cc
    go none e = filled (raw_of v len) refl e

module _ (db : DbMeta) (tab : TabMeta) (col : ColMeta) (c : Condition)
    (known : get_table db c.lhs_col.tab_name ≡ ok tab)
    (found : get_col tab c.lhs_col.col_name ≡ ok col) where
  value-IsTyped :
      (w : Value)
      → init_raw c.rhs_val col.len ≡ ok w
      → col.type ≡ w.type
      → IsTyped db (record c { is_rhs_val = true; rhs_val = w })
  value-IsTyped w e h =
      let (bytes, r, n, t) = init_raw-fills c.rhs_val w col.len e in
      (tab, col, known, found, (bytes, r, n, sym h))

  column-IsTyped :
      (rhs_tab : TabMeta) (rhs : ColMeta)
      → get_table db c.rhs_col.tab_name ≡ ok rhs_tab
      → get_col rhs_tab c.rhs_col.col_name ≡ ok rhs
      → col.type ≡ rhs.type
      → IsTyped db (record c { is_rhs_val = false })
  column-IsTyped rhs_tab rhs g f h = (tab, col, known, found, (rhs_tab, rhs, g, f, sym h))

  rhs_type-IsTyped :
      (d : Condition) (t : ColType) → rhs_type db col c ≡ ok (t, d) → col.type ≡ t → IsTyped db d
  unfolding rhs_type
  rhs_type-IsTyped d t e h = elim (Bool-cases c.is_rhs_val) [
    | inl b ↦ bind-then (rw (b, if◌then◌else◌) at e) (λ w i q.
        subst (IsTyped db) (ap (λ p. p.1) (ok-inj q))
          (value-IsTyped w i (h ∙ sym (ap (λ p. p.0) (ok-inj q)))))
    | inr b ↦ bind-then (rw (b, if◌then◌else◌) at e) (λ rhs_tab g q. bind-then q (λ rhs f r.
        subst (IsTyped db) (ap (λ p. p.1) (ok-inj r))
          (column-IsTyped rhs_tab rhs g f (h ∙ sym (ap (λ p. p.0) (ok-inj r))))))
  ]

check_types-IsTyped : (db : DbMeta) (c d : Condition) → check_types db c ≡ ok d → IsTyped db d
unfolding check_types
check_types-IsTyped db c d e = bind-then e (λ tab known q.
    bind-then q (λ col found r. bind-then r (λ typed t s. accept tab col typed known found t s)))
  where
    accept :
        (tab : TabMeta) (col : ColMeta) (typed : ColType × Condition)
        → get_table db c.lhs_col.tab_name ≡ ok tab
        → get_col tab c.lhs_col.col_name ≡ ok col
        → rhs_type db col c ≡ ok typed
        → ite
            (ColType-discrete col.type typed.0)
            (ok typed.1)
            (throw (incompatible_type (coltype2str col.type) (coltype2str typed.0)))
          ≡ ok d
        → IsTyped db d
    accept tab col typed known found t =
        elim (ColType-discrete col.type typed.0)
          as (λ x.
            ite x (ok typed.1)
                (throw (incompatible_type (coltype2str col.type) (coltype2str typed.0)))
              ≡ ok d
            → IsTyped db d) [
              | yes h ↦ λ u.
                  subst (IsTyped db) (ok-inj u)
                    (rhs_type-IsTyped db tab col c known found typed.1 typed.0 t h)
              | no _ ↦ λ u. absurd (cc (u))
            ]

abbrev pub AreTyped : DbMeta → List Condition → Type 0
AreTyped db [] = Unit {0}
AreTyped db (c ∷ cs) = IsTyped db c × AreTyped db cs

collect-AreTyped :
    (db : DbMeta) (cols : List ColMeta) (cs ds : List Condition)
    → collect (check_cond db cols) cs ≡ ok ds
    → AreTyped db ds
unfolding collect check_cond
collect-AreTyped db cols [] ds e = subst (AreTyped db) (ok-inj e) tt
collect-AreTyped db cols (c ∷ cs) ds e = bind-then e (λ d known q. bind-then q (λ rest r s.
    subst (AreTyped db) {x = d ∷ rest} (ok-inj s) (
      bind-then known (λ x y z. check_types-IsTyped db x d z),
      collect-AreTyped db cols cs rest r,
    )))

-- The conditions that `check_clause` returns are typed in the database, whatever the tables and the
-- conditions are: the left column exists in its table, a value on the right has the column's type and
-- a buffer of exactly the column's width, and a column on the right exists and has the same type.
pub check_clause-AreTyped :
    (db : DbMeta) (tabs : List Str) (cs ds : List Condition)
    → check_clause db tabs cs ≡ ok ds
    → AreTyped db ds
unfolding check_clause
check_clause-AreTyped db tabs cs ds e = bind-then e (λ cols _ q. collect-AreTyped db cols cs ds q)
