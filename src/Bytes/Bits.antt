-- ===== src/Bytes/Bits.antt =====
-- The bit operations on a byte, on the binary digits of the numbers.
use uni_base.Base.{
  ℕ, zero, suc, ◌+◌, ◌*◌, ◌/◌, ◌%◌, ◌<◌, ◌≡◌, refl, ◌∙◌, Bool, true, false, ◌==◌, if◌then◌else◌,
  not, ◌&&◌, ◌||◌, arith,
}

abbrev pub odd : ℕ → Bool
odd a = a % 2 == 1

abbrev pub digit : Bool → ℕ
digit b = if b then 1 else 0

-- `&`, `|` and `~` on numbers of so many bits.
unfoldable pub bit_and : ℕ → ℕ → ℕ → ℕ
bit_and zero a b = 0
bit_and (suc w) a b = digit (odd a && odd b) + 2 * bit_and w (a / 2) (b / 2)

unfoldable pub bit_or : ℕ → ℕ → ℕ → ℕ
bit_or zero a b = 0
bit_or (suc w) a b = digit (odd a || odd b) + 2 * bit_or w (a / 2) (b / 2)

unfoldable pub bit_not : ℕ → ℕ → ℕ
bit_not zero a = 0
bit_not (suc w) a = digit (not (odd a)) + 2 * bit_not w (a / 2)

-- `>>`
unfoldable pub shift_right : ℕ → ℕ → ℕ
shift_right a zero = a
shift_right a (suc n) = shift_right (a / 2) n

-- The digit at a place.
unfoldable pub bit : ℕ → ℕ → Bool
bit zero a = odd a
bit (suc k) a = bit k (a / 2)

-- The number whose one bit is at the place.
unfoldable pub one_bit : ℕ → ℕ
one_bit zero = 1
one_bit (suc k) = 2 * one_bit k

odd-digit : (b : Bool) (n : ℕ) → odd (digit b + 2 * n) ≡ b
odd-digit true n = ground arith
odd-digit false n = ground arith

half-digit : (b : Bool) (n : ℕ) → (digit b + 2 * n) / 2 ≡ n
half-digit true n = omega arith
half-digit false n = omega arith

pub bit-bit_or : (w k a b : ℕ) → k < w → bit k (bit_or w a b) ≡ (bit k a || bit k b)
unfolding bit bit_or
bit-bit_or (suc w) zero a b h = odd-digit (odd a || odd b) (bit_or w (a / 2) (b / 2))
bit-bit_or (suc w) (suc k) a b h = rw (
  half-digit (odd a || odd b) (bit_or w (a / 2) (b / 2)),
  bit-bit_or w k (a / 2) (b / 2) (omega arith),
)
bit-bit_or zero k a b h = ground arith

pub bit-bit_and : (w k a b : ℕ) → k < w → bit k (bit_and w a b) ≡ (bit k a && bit k b)
unfolding bit bit_and
bit-bit_and (suc w) zero a b h = odd-digit (odd a && odd b) (bit_and w (a / 2) (b / 2))
bit-bit_and (suc w) (suc k) a b h = rw (
  half-digit (odd a && odd b) (bit_and w (a / 2) (b / 2)),
  bit-bit_and w k (a / 2) (b / 2) (omega arith),
)
bit-bit_and zero k a b h = ground arith

pub bit-bit_not : (w k a : ℕ) → k < w → bit k (bit_not w a) ≡ not (bit k a)
unfolding bit bit_not
bit-bit_not (suc w) zero a h = odd-digit (not (odd a)) (bit_not w (a / 2))
bit-bit_not (suc w) (suc k) a h =
    rw (half-digit (not (odd a)) (bit_not w (a / 2)), bit-bit_not w k (a / 2) (omega arith))
bit-bit_not zero k a h = ground arith

bit-zero : (k : ℕ) → bit k 0 ≡ false
unfolding bit
bit-zero zero = refl
bit-zero (suc k) = bit-zero k

pub bit-one_bit : (j k : ℕ) → bit j (one_bit k) ≡ (j == k)
unfolding bit one_bit
bit-one_bit zero zero = refl
bit-one_bit zero (suc k) = ground arith
bit-one_bit (suc j) zero = ground (arith, bit-zero j)
bit-one_bit (suc j) (suc k) = ground (arith, half-digit false (one_bit k), bit-one_bit j k)

bit_and-zero : (w a : ℕ) → bit_and w a 0 ≡ 0
unfolding bit_and
bit_and-zero zero a = refl
bit_and-zero (suc w) a = ground (arith, bit_and-zero w (a / 2))

-- The test of one bit by a mask.
pub bit_and-one_bit :
    (w k a : ℕ) → k < w → bit_and w a (one_bit k) ≡ (if bit k a then one_bit k else 0)
unfolding bit bit_and one_bit
bit_and-one_bit zero k a h = omega arith
bit_and-one_bit (suc w) zero a h = ground (arith, bit_and-zero w (a / 2))
bit_and-one_bit (suc w) (suc k) a h =
    ground (arith, half-digit false (one_bit k), bit_and-one_bit w k (a / 2) (omega arith))

pub one_bit_positive : (k : ℕ) → 0 < one_bit k
unfolding one_bit
one_bit_positive zero = omega arith
one_bit_positive (suc k) = omega (arith, one_bit_positive k)

-- `<<`, before the bits above the width are dropped.
unfoldable pub shift_left : ℕ → ℕ → ℕ
shift_left a zero = a
shift_left a (suc n) = 2 * shift_left a n

bit_or-zero : (w a : ℕ) → a < one_bit w → bit_or w a 0 ≡ a
unfolding bit_or one_bit
bit_or-zero zero a h = omega (arith, h)
bit_or-zero (suc w) a h = ground (arith, bit_or-zero w (a / 2))

-- `|` of a number and one that fits below its lowest bit is their sum.
pub bit_or-shift_left :
    (w k x b : ℕ)
    → b < one_bit k
    → shift_left x k + b < one_bit w
    → bit_or w (shift_left x k) b ≡ shift_left x k + b
unfolding bit_or one_bit shift_left
bit_or-shift_left w zero x b h l =
    let none : b ≡ 0 = omega (arith, h) in
    rw (none) (bit_or-zero w x (omega (arith, l)) ∙ (let e : x ≡ x + 0 = omega arith in e))
bit_or-shift_left zero (suc k) x b h l = omega (arith, l)
bit_or-shift_left (suc w) (suc k) x b h l =
    let ih = bit_or-shift_left w k x (b / 2) (omega (arith, h)) (omega (arith, l)) in
    let half : 2 * shift_left x k / 2 ≡ shift_left x k = omega arith in rw (half, ih) (ground arith)
