-- ===== src/Transaction/LockIds.antt =====
-- Different objects of locks have different numbers, within bounds.
use uni_base.Base.{ℕ, ◌+◌, ◌*◌, ◌%◌, ◌<◌, ◌≡◌, sym, ap, ◌∙◌, pos, arith}
use uni_base.Record.Scan.{no_rid, rid_at}
use uni_base.Bytes.Bits.{bit_or, shift_left, one_bit, bit_or-shift_left}
use uni_base.Transaction.{LockDataId, table, tuple, get, shl, word}

-- A table, or a record whose page and slot are below 2 ^ 15 and 2 ^ 16; in a file below 2 ^ 31.
pub data IsSmall : LockDataId → Type 0 where
  of_table : (f : ℕ) → f < 2147483648 → IsSmall (record { fd = pos f; rid = no_rid; type = table })
  of_record :
      (f p s : ℕ)
      → f < 2147483648
      → p < 32768
      → s < 65536
      → IsSmall (record { fd = pos f; rid = rid_at p s; type = tuple })

-- The parts stand one above the other, and `|` adds them.
file_part :
    (f : ℕ)
    → f < 2147483648
    → bit_or 64 (shl 1 63) (shl (f % word) 31) ≡ shift_left (4294967296 + f) 31
unfolding shift_left one_bit
file_part f a =
    let e : shl (f % word) 31 ≡ shift_left f 31 = omega (arith, a) in
    rw (e) (
      bit_or-shift_left 64 63 1 (shift_left f 31) (omega (arith, a)) (omega (arith, a))
      ∙ omega arith)

page_part :
    (f p : ℕ)
    → f < 2147483648
    → p < 32768
    → bit_or 64 (shift_left (4294967296 + f) 31) (shl (p % word) 16)
      ≡ shift_left (140737488355328 + 32768 * f + p) 16
unfolding shift_left one_bit
page_part f p a b =
    let e : shl (p % word) 16 ≡ shift_left p 16 = omega (arith, b) in
    rw (e) (
      bit_or-shift_left 64 31 (4294967296 + f) (shift_left p 16) (omega (arith, b))
        (omega (arith, a, b))
      ∙ omega arith)

slot_part :
    (f p s : ℕ)
    → f < 2147483648
    → p < 32768
    → s < 65536
    → bit_or 64 (shift_left (140737488355328 + 32768 * f + p) 16) (s % word)
      ≡ 9223372036854775808 + 2147483648 * f + 65536 * p + s
unfolding shift_left one_bit
slot_part f p s a b c =
    let e : s % word ≡ s = omega (arith, c) in
    rw (e) (
      bit_or-shift_left 64 16 (140737488355328 + 32768 * f + p) s (omega (arith, c))
        (omega (arith, a, b, c))
      ∙ omega arith)

packed :
    (f p s : ℕ)
    → f < 2147483648
    → p < 32768
    → s < 65536
    → get (record { fd = pos f; rid = rid_at p s; type = tuple })
      ≡ 9223372036854775808 + 2147483648 * f + 65536 * p + s
unfolding get
packed f p s a b c =
    ap (λ x. bit_or 64 (bit_or 64 x (shl (p % word) 16)) (s % word)) (file_part f a)
    ∙ ap (λ x. bit_or 64 x (s % word)) (page_part f p a b)
    ∙ slot_part f p s a b c

get_table : (f : ℕ) → f < 2147483648 → get (record { fd = pos f; rid = no_rid; type = table }) ≡ f
unfolding get
get_table f l = omega (arith, l)

-- Two tables, or records whose pages are below 2 ^ 15 and slots below 2 ^ 16, or one of each, in files whose descriptors
-- are not negative: if `Get` gives the same number for both, they are the same.
pub get-injective : (a b : LockDataId) → IsSmall a → IsSmall b → get a ≡ get b → a ≡ b
get-injective a b (of_table f l) (of_table g m) e =
    let same : f ≡ g = sym (get_table f l) ∙ e ∙ get_table g m in
    ap (λ x. let r : LockDataId = record { fd = pos x; rid = no_rid; type = table } in r) same
get-injective a b (of_table f l) (of_record g p s x y z) e =
    let same = sym (get_table f l) ∙ e ∙ packed g p s x y z in absurd (omega (arith, same, l))
get-injective a b (of_record g p s x y z) (of_table f l) e =
    let same = sym (packed g p s x y z) ∙ e ∙ get_table f l in absurd (omega (arith, same, l))
get-injective a b (of_record g p s x y z) (of_record h q t u v w) e =
    let same = sym (packed g p s x y z) ∙ e ∙ packed h q t u v w in
    let first : g ≡ h = omega (arith, same, y, z, v, w) in
    let second : p ≡ q = omega (arith, same, first, z, w) in
    let third : s ≡ t = omega (arith, same, first, second) in ap₃ first second third
  where
    ap₃ :
        {g h p q s t : ℕ}
        → g ≡ h
        → p ≡ q
        → s ≡ t
        → ◌≡◌ {A = LockDataId}
            (record { fd = pos g; rid = rid_at p s; type = tuple })
            (record { fd = pos h; rid = rid_at q t; type = tuple })
    ap₃ a b c = λ i. record { fd = pos (a i); rid = rid_at (b i) (c i); type = tuple }
