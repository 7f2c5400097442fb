-- ===== src/Record/Bitmap.antt =====
-- src/record/bitmap.h. A bitmap is the memory from an address `bm` on; its bits are numbered from the
-- highest of its first byte. `get_bit` returns a `char`, which is read as its eight bits. `next_bit`
-- is called with `curr` at least -1.
use uni_base.Base.{
  ℕ, zero, suc, ◌+◌, ◌-◌, ◌/◌, ◌%◌, ◌≤◌, ◌<◌, ◌≡◌, ◌≢◌, refl, ap, ◌∙◌, Bool, true, false, not, ◌==◌,
  ltb, if◌then◌else◌, ℤ, pos, negsuc, minus_one, arith,
}
use uni_base.Storage.Page.{Block}
use uni_base.Bytes.Bits.{
  bit_and, bit_or, bit_not, shift_right, bit, one_bit, bit-bit_or, bit-bit_and, bit-bit_not,
  bit-one_bit, bit_and-one_bit, one_bit_positive,
}

abbrev pub bitmap_width : ℕ
bitmap_width = 8

abbrev pub bitmap_highest_bit : ℕ
bitmap_highest_bit = 128

abbrev pub get_bucket : ℕ → ℕ
get_bucket p = p / bitmap_width

unfoldable pub get_bit : ℕ → ℕ
unfolding shift_right
get_bit p = shift_right bitmap_highest_bit (p % bitmap_width)

-- `memset(bm, 0, size)`
unfoldable pub init : Block → ℕ → ℕ → Block
init b bm size i = if ltb i bm then b i else if ltb i (bm + size) then 0 else b i

unfoldable pub set : Block → ℕ → ℕ → Block
unfolding bit_or get_bit
set b bm p i = if i == bm + get_bucket p then bit_or 8 (b i) (get_bit p) else b i

unfoldable pub reset : Block → ℕ → ℕ → Block
unfolding bit_and bit_not get_bit
reset b bm p i = if i == bm + get_bucket p then bit_and 8 (b i) (bit_not 8 (get_bit p)) else b i

unfoldable pub is_set : Block → ℕ → ℕ → Bool
unfolding bit_and get_bit
is_set b bm p = not (bit_and 8 (b (bm + get_bucket p)) (get_bit p) == 0)

-- The loop of `next_bit`, with `n` positions left from `i` on.
unfoldable pub next_bit_from : Bool → Block → ℕ → ℕ → ℕ → ℕ
unfolding is_set
next_bit_from v b bm zero i = i
next_bit_from v b bm (suc n) i =
    let rest = next_bit_from v b bm n (suc i) in
    if (if v then is_set b bm i else not (is_set b bm i)) then i else rest

unfoldable pub next_bit : Bool → Block → ℕ → ℕ → ℤ → ℕ
unfolding next_bit_from
next_bit v b bm max_n (pos c) =
    if ltb (suc c) max_n then next_bit_from v b bm (max_n - suc c) (suc c) else max_n
next_bit v b bm max_n (negsuc c) = next_bit_from v b bm max_n 0

unfoldable pub first_bit : Bool → Block → ℕ → ℕ → ℕ
unfolding next_bit
first_bit v b bm max_n = next_bit v b bm max_n minus_one

pub is_set-eq :
    (b c : Block) (bm p : ℕ) → b (bm + p / 8) ≡ c (bm + p / 8) → is_set b bm p ≡ is_set c bm p
unfolding is_set
is_set-eq b c bm p h = ap (λ x. not (bit_and 8 x (get_bit p) == 0)) h

mod_lt : (p : ℕ) → p % 8 < 8
mod_lt p = omega arith

shift_right-eq : (k : ℕ) → k < 8 → shift_right 128 k ≡ one_bit (7 - k)
unfolding shift_right one_bit
shift_right-eq zero h = refl
shift_right-eq (suc zero) h = refl
shift_right-eq (suc (suc zero)) h = refl
shift_right-eq (suc (suc (suc zero))) h = refl
shift_right-eq (suc (suc (suc (suc zero)))) h = refl
shift_right-eq (suc (suc (suc (suc (suc zero))))) h = refl
shift_right-eq (suc (suc (suc (suc (suc (suc zero)))))) h = refl
shift_right-eq (suc (suc (suc (suc (suc (suc (suc zero))))))) h = refl
shift_right-eq (suc (suc (suc (suc (suc (suc (suc (suc k)))))))) h = omega arith

abbrev place : ℕ → ℕ
place p = 7 - p % 8

get_bit_lem : (p : ℕ) → get_bit p ≡ one_bit (place p)
unfolding get_bit
get_bit_lem p = shift_right-eq (p % 8) (mod_lt p)

nonzero : (c : Bool) (n : ℕ) → 0 < n → not ((if c then n else 0) == 0) ≡ c
nonzero true n h = ground arith
nonzero false n h = refl

-- A bit is set if its digit in the byte is 1.
pub is_set_lem : (b : Block) (bm p : ℕ) → is_set b bm p ≡ bit (place p) (b (bm + p / 8))
unfolding is_set
is_set_lem b bm p =
    ap (λ m. not (bit_and 8 (b (bm + p / 8)) m == 0)) (get_bit_lem p)
    ∙ ap (λ n. not (n == 0)) (bit_and-one_bit 8 (place p) (b (bm + p / 8)) (omega arith))
    ∙ nonzero (bit (place p) (b (bm + p / 8))) (one_bit (place p)) (one_bit_positive (place p))

-- Two positions in one byte are one position if their digits are.
place-injective : (p q : ℕ) → p / 8 ≡ q / 8 → place p ≡ place q → p ≡ q
place-injective p q h k = omega arith

pub is_set-set :
    (b : Block) (bm p q : ℕ) → is_set (set b bm p) bm q ≡ (if p == q then true else is_set b bm q)
unfolding set
is_set-set b bm p q =
    rw (is_set_lem (set b bm p) bm q, is_set_lem b bm q, get_bit_lem p)
      (ground (
        arith,
        bit-bit_or 8 (place q) (b (bm + q / 8)) (one_bit (place p)) (omega arith),
        bit-one_bit (place q) (place p),
        place-injective p q,
      ))

pub is_set-reset :
    (b : Block) (bm p q : ℕ)
    → is_set (reset b bm p) bm q ≡ (if p == q then false else is_set b bm q)
unfolding reset
is_set-reset b bm p q =
    rw (is_set_lem (reset b bm p) bm q, is_set_lem b bm q, get_bit_lem p)
      (ground (
        arith,
        bit-bit_and 8 (place q) (b (bm + q / 8)) (bit_not 8 (one_bit (place p))) (omega arith),
        bit-bit_not 8 (place q) (one_bit (place p)) (omega arith),
        bit-one_bit (place q) (place p),
        place-injective p q,
      ))

-- The position found is the first from `i` on whose bit is the one sought, or there is none.
abbrev pub IsBit : Bool → Block → ℕ → ℕ → Type 0
IsBit v b bm i = is_set b bm i ≡ v

next_bit_from-least :
    (v : Bool) (b : Block) (bm n i : ℕ)
    → let r = next_bit_from v b bm n i in
      (i ≤ r)
      × (r ≤ i + n)
      × (r < i + n → IsBit v b bm r)
      × ((j : ℕ) → i ≤ j → j < r → is_set b bm j ≢ v)
unfolding next_bit_from
next_bit_from-least v b bm zero i =
    (omega arith, omega arith, λ h. ground arith, λ j h k. ground arith)
next_bit_from-least v b bm (suc n) i =
    let l = next_bit_from-least v b bm n (suc i) in
    (
      ground (arith, l.0),
      ground (arith, l.1),
      λ h. ground (arith, l.0, l.2),
      λ j h k. ground (arith, l.3 j),
    )

pub first_bit-least :
    (v : Bool) (b : Block) (bm max_n : ℕ)
    → let r = first_bit v b bm max_n in
      (r ≤ max_n) × (r < max_n → IsBit v b bm r) × ((j : ℕ) → j < r → is_set b bm j ≢ v)
unfolding first_bit next_bit
first_bit-least v b bm max_n =
    let l = next_bit_from-least v b bm max_n 0 in
    (omega (arith, l.1), λ h. l.2 (omega arith), λ j h. l.3 j (omega arith) h)
