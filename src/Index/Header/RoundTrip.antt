-- ===== src/Index/Header/RoundTrip.antt =====
-- src/index/ix_defs.h: the header of an index file is read back as it was written.
use uni_base.Base.{
  ℕ, zero, suc, ◌+◌, ◌*◌, ◌≤◌, List, [], ◌∷◌, map, ℤ, pos, length, ◌≡◌, refl, ap, ap₂, sym, ◌∙◌,
  arith, ℤ-discrete, if_pos,
}
use uni_base.Errors.{ok, throw, assertion_failed}
use uni_base.Outcome.{◌>>=◌, collect}
use uni_base.Defs.{ColType, type_int, type_float, type_string}
use uni_base.Bytes.{get_int, put_int, IsInt}
use uni_base.Storage.Page.{Block}
use uni_base.Recovery.Memory.{IsBelow, IsBelow-trans, put_int-IsBelow, read_int}
use uni_base.Index.Header.{
  IxHeader, type_code, type_of, put_ints, get_ints, header_len, serialize, deserialize,
}

unfoldable pub AreInts : List ℤ → Type 0
AreInts [] = Unit {0}
AreInts (x ∷ xs) = IsInt x × AreInts xs

put_ints-IsBelow : (b : Block) (i k : ℕ) (xs : List ℤ) → k ≤ i → IsBelow k (put_ints b i xs) b
unfolding put_ints
put_ints-IsBelow b i k [] l j h = refl
put_ints-IsBelow b i k (x ∷ xs) l j h =
    put_ints-IsBelow (put_int b i x) (i + 4) k xs (omega (arith, l)) j h
    ∙ put_int-IsBelow b i x j (omega (arith, l, h))

-- Numbers that were written before what stands from `k` on.
read_ints :
    (b c : Block) (i k : ℕ) (xs : List ℤ)
    → AreInts xs
    → i + 4 * length xs ≤ k
    → IsBelow k c (put_ints b i xs)
    → get_ints c i (length xs) ≡ xs
unfolding put_ints get_ints AreInts
read_ints b c i k [] w l h = refl
read_ints b c i k (x ∷ xs) w l h =
    ap₂ (λ y ys. y ∷ ys)
      (read_int b c i (i + 4) x w.0 (omega arith) (λ j m.
        h j (omega (arith, l, m))
        ∙ put_ints-IsBelow (put_int b i x) (i + 4) (i + 4) xs (omega arith) j m))
      (read_ints (put_int b i x) c (i + 4) k xs w.1 (omega (arith, l)) h)

collect-type_of : (ts : List ColType) → collect type_of (map type_code ts) ≡ ok ts
unfolding collect type_of
collect-type_of [] = refl
collect-type_of (type_int ∷ ts) = rw (collect-type_of ts) refl
collect-type_of (type_float ∷ ts) = rw (collect-type_of ts) refl
collect-type_of (type_string ∷ ts) = rw (collect-type_of ts) refl

length-map : (ts : List ColType) → length (map type_code ts) ≡ length ts
length-map [] = refl
length-map (t ∷ ts) = ap suc (length-map ts)

types-AreInts : (ts : List ColType) → AreInts (map type_code ts)
unfolding AreInts
types-AreInts [] = tt
types-AreInts (type_int ∷ ts) = (omega arith, types-AreInts ts)
types-AreInts (type_float ∷ ts) = (omega arith, types-AreInts ts)
types-AreInts (type_string ∷ ts) = (omega arith, types-AreInts ts)

-- The five `int`s before the columns, and the five behind them.
abbrev front : IxHeader → List ℤ
front h = h.tot_len ∷ h.first_free_page_no ∷ h.num_pages ∷ h.root_page ∷ h.col_num ∷ []

abbrev back : IxHeader → List ℤ
back h = h.col_tot_len ∷ h.btree_order ∷ h.keys_size ∷ h.first_leaf ∷ h.last_leaf ∷ []

-- A header whose counts are those of its columns, whose numbers are `int`s, and whose `tot_len` is that of
-- its columns, as `update_tot_len` sets it.
unfoldable pub IsComplete : IxHeader → Type 0
unfolding AreInts
IsComplete h =
    (h.col_num ≡ pos (length h.col_types))
    × (length h.col_lens ≡ length h.col_types)
    × (h.tot_len ≡ pos (header_len (length h.col_types)))
    × AreInts (front h)
    × AreInts h.col_lens
    × AreInts (back h)

abbrev nth : ℕ → List ℤ → ℤ
nth n [] = pos 0
nth zero (x ∷ xs) = x
nth (suc n) (x ∷ xs) = nth n xs

-- What stands in the memory of a header.
module _ (h : IxHeader) (dest : Block) (w : IsComplete h) where
  abbrev n : ℕ
  n = length h.col_types

  abbrev b1 : Block
  b1 = put_ints dest 0 (front h)

  abbrev b2 : Block
  b2 = put_ints b1 20 (map type_code h.col_types)

  abbrev b3 : Block
  b3 = put_ints b2 (20 + 4 * n) h.col_lens

  abbrev b4 : Block
  b4 = put_ints b3 (20 + 8 * n) (back h)

  below4 : IsBelow (20 + 8 * n) b4 b3
  below4 = put_ints-IsBelow b3 (20 + 8 * n) (20 + 8 * n) (back h) (omega arith)

  below3 : IsBelow (20 + 4 * n) b4 b2
  below3 =
      IsBelow-trans (20 + 4 * n) (20 + 8 * n) b4 b3 b2 (omega arith) below4
        (put_ints-IsBelow b2 (20 + 4 * n) (20 + 4 * n) h.col_lens (omega arith))

  below2 : IsBelow 20 b4 b1
  below2 =
      IsBelow-trans 20 (20 + 4 * n) b4 b2 b1 (omega arith) below3
        (put_ints-IsBelow b1 20 20 (map type_code h.col_types) (omega arith))

  front-read : get_ints b4 0 5 ≡ front h
  unfolding IsComplete
  front-read = read_ints dest b4 0 20 (front h) w.3 (omega arith) below2

  types-read : get_ints b4 20 n ≡ map type_code h.col_types
  types-read =
      ap (get_ints b4 20) (sym (length-map h.col_types))
      ∙ read_ints b1 b4 20 (20 + 4 * n) (map type_code h.col_types) (types-AreInts h.col_types)
          (let l = length-map h.col_types in omega (arith, l)) below3

  lens-read : get_ints b4 (20 + 4 * n) n ≡ h.col_lens
  unfolding IsComplete
  lens-read =
      ap (get_ints b4 (20 + 4 * n)) (sym w.1)
      ∙ read_ints b2 b4 (20 + 4 * n) (20 + 8 * n) h.col_lens w.4 (let l = w.1 in omega (arith, l))
          below4

  back-read : get_ints b4 (20 + 8 * n) 5 ≡ back h
  unfolding IsComplete
  back-read =
      read_ints b3 b4 (20 + 8 * n) (20 + 8 * n + 20) (back h) w.5 (omega arith) (λ j l. refl)

  written : serialize h dest ≡ ok b4
  unfolding serialize IsComplete
  written =
      if_pos (ℤ-discrete (pos (header_len n)) h.tot_len) (sym w.2) (ok b4) (throw assertion_failed)

  count-read : get_int b4 16 ≡ pos n
  unfolding get_ints IsComplete
  count-read = ap (nth 4) front-read ∙ w.0

  -- The header of an index file is read back from the memory that it was written to, whatever that memory
  -- held before: the counts of the header are those of its columns, its numbers are in the range of an
  -- `int`, and its length is that which `update_tot_len` sets.
  pub serialize-deserialize : (serialize h dest >>= deserialize) ≡ ok h
  unfolding deserialize IsComplete get_ints
  serialize-deserialize = rw (written) (
      rw
        (
          count-read,
          types-read,
          collect-type_of h.col_types,
          lens-read,
          ap (nth 0) front-read,
          ap (nth 1) front-read,
          ap (nth 2) front-read,
          ap (nth 3) front-read,
          ap (nth 0) back-read,
          ap (nth 1) back-read,
          ap (nth 2) back-read,
          ap (nth 3) back-read,
          ap (nth 4) back-read,
        )
        (if_pos (ℤ-discrete (pos (header_len n)) h.tot_len) (sym w.2)
            (ok (record h { col_num = pos n })) (throw assertion_failed)
          ∙ ap (λ k. ok (record h { col_num = k })) (sym w.0)))
