-- ===== src/Bytes.antt =====
-- Bytes in memory: the `int`s and the bit operations of a byte, and the runs of bytes that `memcpy`
-- moves. A byte is a number below 256; an `int` is four bytes, the lowest first.
pub mod Bits
use uni_base.Base.{
  ℕ, zero, suc, ◌+◌, ◌-◌, ◌*◌, ◌/◌, ◌%◌, ◌<◌, ◌≤◌, ◌≡◌, refl, ap₂, List, [], ◌∷◌, ℤ, pos, negsuc,
  ltb, leb, ◌&&◌, ◌==◌, ◌⊎◌, subst, ap, if◌then◌else◌, arith,
}
use uni_base.Storage.Page.{Block}
use uni_base.Storage.Disk.{wrap32}

-- The `n` bytes from an offset on.
unfoldable pub slice : Block → ℕ → ℕ → List ℕ
slice b i zero = []
slice b i (suc n) = b i ∷ slice b (suc i) n

-- `memcpy(dst + i, src, n)`
abbrev pub copy_to : Block → ℕ → Block → ℕ → Block
copy_to dst i src n j = if ltb j i then dst j else if ltb j (i + n) then src (j - i) else dst j

-- The 32 bits of an `int`.
abbrev pub bits32 : ℤ → ℕ
bits32 (pos n) = n % 4294967296
bits32 (negsuc n) = 4294967295 - n % 4294967296

unfoldable pub get_int : Block → ℕ → ℤ
unfolding wrap32
get_int b i = wrap32 (b i + 256 * b (i + 1) + 65536 * b (i + 2) + 16777216 * b (i + 3))

unfoldable pub put_int : Block → ℕ → ℤ → Block
put_int b i v j =
    if j == i
    then bits32 v % 256
    else if j == i + 1
    then bits32 v / 256 % 256
    else if j == i + 2
    then bits32 v / 65536 % 256
    else if j == i + 3
    then bits32 v / 16777216
    else b j

-- The numbers that an `int` holds.
abbrev pub IsInt : ℤ → Type 0
IsInt (pos n) = n < 2147483648
IsInt (negsuc n) = n < 2147483648

split32 :
    (n : ℕ)
    → n < 4294967296
    → n % 256 + 256 * (n / 256 % 256) + 65536 * (n / 65536 % 256) + 16777216 * (n / 16777216) ≡ n
split32 n h = omega arith

pub get_int-put_int : (b : Block) (i : ℕ) (v : ℤ) → IsInt v → get_int (put_int b i v) i ≡ v
unfolding get_int put_int wrap32
get_int-put_int b i (pos n) h = ground (arith, split32 n)
get_int-put_int b i (negsuc n) h = ground (arith, split32 (4294967295 - n))

-- Memory outside the four bytes is left as it was.
pub put_int-outside :
    (b : Block) (i : ℕ) (v : ℤ) (j : ℕ) → (j < i) ⊎ (i + 4 ≤ j) → put_int b i v j ≡ b j
unfolding put_int
put_int-outside b i v j h = ground arith

pub slice-eq :
    (b c : Block) (i j n : ℕ)
    → ((k : ℕ) → k < n → b (i + k) ≡ c (j + k))
    → slice b i n ≡ slice c j n
unfolding slice
slice-eq b c i j zero h = refl
slice-eq b c i j (suc n) h =
    ap₂ (λ x xs. x ∷ xs) (ground (arith, h 0 (omega arith)))
      (slice-eq b c (suc i) (suc j) n (λ k l. ground (arith, h (suc k) (omega arith))))
