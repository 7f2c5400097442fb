-- ===== src/Execution/Rows.antt =====
-- src/execution/executor_insert.h: the row is the bytes of its values, one after the other.
use uni_base.Base.{
  ℕ, ◌+◌, List, [], ◌∷◌, ◌++◌, ◌≡◌, refl, ap, ◌∙◌, sym, arith, length, length-append, fun_ext,
  ℕ_discrete, suc, ite, none, some,
}
use uni_base.Errors.{Result, ok, throw, undefined_behaviour, incompatible_type}
use uni_base.Outcome.{◌>>=◌, bind-then, ok-inj}
use uni_base.Common.{Value, init_raw}
use uni_base.Defs.{ColType-discrete, coltype2str}
use uni_base.Analyze.Typed.{init_raw-fills}
use uni_base.Meta.{ColMeta}
use uni_base.Bytes.{slice}
use uni_base.Storage.Page.{Block}
use uni_base.Recovery.{put_bytes}
use uni_base.Recovery.Memory.{slice-put_bytes, put_bytes-IsBelow}
use uni_base.System.Created.{IsTiled}
use uni_base.Execution.{fill, col_bytes}

-- The bytes of the values, one after the other.
unfoldable pub row : List ColMeta → List Value → Result (List ℕ)
unfolding col_bytes
row [] [] = ok []
row (col ∷ cols) (val ∷ vals) = do b ← col_bytes col val; rest ← row cols vals; ok (b ++ rest)
row _ _ = throw undefined_behaviour

put_bytes-same :
    (m n : Block) (i : ℕ) (xs : List ℕ) (j : ℕ)
    → m j ≡ n j
    → put_bytes m i xs j ≡ put_bytes n i xs j
unfolding put_bytes
put_bytes-same m n i [] j h = h
put_bytes-same m n i (x ∷ xs) j h = ground (arith, put_bytes-same m n (suc i) xs j h)

pub put_bytes-append :
    (m : Block) (i : ℕ) (xs ys : List ℕ) (j : ℕ)
    → put_bytes m i (xs ++ ys) j ≡ put_bytes (put_bytes m i xs) (i + length xs) ys j
unfolding put_bytes
put_bytes-append m i [] ys j =
    ap (λ k. put_bytes m k ys j) (let e : i ≡ i + 0 = omega arith in e)
    ∙ put_bytes-same m (put_bytes m i []) (i + 0) ys j refl
put_bytes-append m i (x ∷ xs) ys j =
    let k : i + length (x ∷ xs) ≡ suc i + length xs = omega arith in
    let r = put_bytes-append m (suc i) xs ys j in
    let f : Block = put_bytes m i (x ∷ xs) in
    let g : Block = put_bytes m (suc i) xs in
    rw (k) (elim (ℕ_discrete j i) [
      | yes e ↦
          (let b = put_bytes-IsBelow f (suc i + length xs) ys j (omega (arith, e)) in
            ground (arith, b, e))
      | no n ↦
          (let a = put_bytes-same f g (suc i + length xs) ys j (ground arith) in
            ground (arith, a, r))
    ])

length-col_bytes : (c : ColMeta) (v : Value) (b : List ℕ) → col_bytes c v ≡ ok b → length b ≡ c.len
unfolding col_bytes
length-col_bytes c v b =
    elim (ColType-discrete c.type v.type)
      as (λ d.
        ite d
            (init_raw v c.len >>= λ w. elim w.raw [
              | none ↦ throw undefined_behaviour
              | some x ↦ ok x
            ])
            (throw (incompatible_type (coltype2str c.type) (coltype2str v.type)))
          ≡ ok b
        → length b ≡ c.len) [
          | yes _ ↦ λ h. bind-then h (λ w i k.
              (let (x, r, n, _) = init_raw-fills v w c.len i in
                ap length (sym (ok-inj (rw (r) at k))) ∙ n))
          | no _ ↦ λ h. absurd (cc (h))
        ]

-- The bytes of one value, and then those of the rest.
put_row :
    (m : Block) (start n : ℕ) (b : List ℕ) (r : Result (List ℕ))
    → length b ≡ n
    → (r >>= λ rest. ok (put_bytes (put_bytes m start b) (start + n) rest))
      ≡ ((r >>= λ rest. ok (b ++ rest)) >>= λ x. ok (put_bytes m start x))
put_row m start n b (ok rest) h = ap ok (
    fun_ext (λ j.
      ap (λ k. put_bytes (put_bytes m start b) (start + k) rest j) (sym h)
      ∙ sym (put_bytes-append m start b rest j)))
put_row m start n b (throw e) h = refl

fill-row :
    (m : Block) (start end : ℕ) (cols : List ColMeta) (vals : List Value)
    → IsTiled start cols end
    → fill m cols vals ≡ (row cols vals >>= λ b. ok (put_bytes m start b))
unfolding fill row IsTiled put_bytes
fill-row m start end [] [] t = refl
fill-row m start end [] (v ∷ vs) t = refl
fill-row m start end (c ∷ cs) [] t = refl
fill-row m start end (c ∷ cs) (v ∷ vs) t =
    go (λ b. fill-row (put_bytes m start b) (start + c.len) end cs vs t.1) (col_bytes c v) refl
  where
    go :
        ((b : List ℕ)
          → fill (put_bytes m start b) cs vs
            ≡ (row cs vs >>= λ rest. ok (put_bytes (put_bytes m start b) (start + c.len) rest)))
        → (r : Result (List ℕ)) → col_bytes c v ≡ r
        → (r >>= λ b. fill (put_bytes m c.offset b) cs vs)
          ≡ ((r >>= λ b. row cs vs >>= λ rest. ok (b ++ rest)) >>= λ b. ok (put_bytes m start b))
    go ih (ok b) e =
        ap (λ o. fill (put_bytes m o b) cs vs) t.0
        ∙ ih b
        ∙ put_row m start c.len b (row cs vs) (length-col_bytes c v b e)
    go ih (throw x) e = refl

length-row :
    (start end : ℕ) (cols : List ColMeta) (vals : List Value) (b : List ℕ)
    → IsTiled start cols end
    → row cols vals ≡ ok b
    → start + length b ≡ end
unfolding row IsTiled
length-row start end [] [] b t e = ap (λ x. start + length x) (sym (ok-inj e)) ∙ omega (arith, t)
length-row start end [] (v ∷ vs) b t e = absurd (cc (e))
length-row start end (c ∷ cs) [] b t e = absurd (cc (e))
length-row start end (c ∷ cs) (v ∷ vs) b t e = bind-then e (λ x k f. bind-then f (λ rest g h.
    (let l = length-col_bytes c v x k in
      let n = length-row (start + c.len) end cs vs rest t.1 g in
      let a = length-append x rest in
      ap (λ y. start + length y) (sym (ok-inj h)) ∙ omega (arith, l, n, a))))

-- The record that the insert executor fills, for a table whose columns follow one another from offset 0
-- to the size of a record. The filling fails just when `row` does, which lays the values' bytes out one
-- after the other, and with the same error. Otherwise the first bytes of the record, as many as its
-- size, are that row, whatever the memory held before.
pub fill-row_bytes :
    (m : Block) (size : ℕ) (cols : List ColMeta) (vals : List Value)
    → IsTiled 0 cols size
    → (fill m cols vals >>= λ rec. ok (slice rec 0 size)) ≡ row cols vals
fill-row_bytes m size cols vals t = rw (fill-row m 0 size cols vals t) (go (row cols vals) refl)
  where
    go :
        (r : Result (List ℕ))
        → row cols vals ≡ r
        → ((r >>= λ b. ok (put_bytes m 0 b)) >>= λ rec. ok (slice rec 0 size)) ≡ r
    go (ok b) e =
        (let n = length-row 0 size cols vals b t e in
          let k : size ≡ length b = omega (arith, n) in
          ap ok (ap (slice (put_bytes m 0 b) 0) k ∙ slice-put_bytes m 0 b))
    go (throw x) e = refl
