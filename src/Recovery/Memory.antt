-- ===== src/Recovery/Memory.antt =====
-- Writes to consecutive places of memory, and what is read back of them.
use uni_base.Base.{
  ℕ, zero, suc, ◌+◌, ◌*◌, ◌/◌, ◌^◌, ◌≤◌, ◌<◌, ◌≡◌, refl, ap₂, ◌∙◌, List, [], ◌∷◌, ℤ, length, if-eq,
  arith, inl,
}
use uni_base.Bytes.{get_int, put_int, slice, IsInt, get_int-put_int, put_int-outside, slice-eq}
use uni_base.Storage.Page.{Block}
use uni_base.Recovery.{get_unsigned, put_unsigned, put_bytes}

-- Two memories agree below an address.
abbrev pub IsBelow : ℕ → Block → Block → Type 0
IsBelow k b c = (j : ℕ) → j < k → b j ≡ c j

pub IsBelow-trans :
    (k m : ℕ) (b c d : Block) → k ≤ m → IsBelow m b c → IsBelow k c d → IsBelow k b d
IsBelow-trans k m b c d l x y j h = x j (omega (arith, l, h)) ∙ y j h

pub put_unsigned-IsBelow : (b : Block) (i w n : ℕ) → IsBelow i (put_unsigned b i w n) b
unfolding put_unsigned
put_unsigned-IsBelow b i zero n j h = refl
put_unsigned-IsBelow b i (suc w) n j h =
    ground (arith, h, put_unsigned-IsBelow b (suc i) w (n / 256) j (omega (arith, h)))

pub put_bytes-IsBelow : (b : Block) (i : ℕ) (xs : List ℕ) → IsBelow i (put_bytes b i xs) b
unfolding put_bytes
put_bytes-IsBelow b i [] j h = refl
put_bytes-IsBelow b i (x ∷ xs) j h =
    ground (arith, h, put_bytes-IsBelow b (suc i) xs j (omega (arith, h)))

pub put_int-IsBelow : (b : Block) (i : ℕ) (v : ℤ) → IsBelow i (put_int b i v) b
put_int-IsBelow b i v j h = put_int-outside b i v j (inl h)

pub get_int-below : (k i : ℕ) (b c : Block) → IsBelow k b c → i + 4 ≤ k → get_int b i ≡ get_int c i
unfolding get_int
get_int-below k i b c h l = ground (
  arith,
  h i (omega (arith, l)),
  h (i + 1) (omega (arith, l)),
  h (i + 2) (omega (arith, l)),
  h (i + 3) (omega (arith, l)),
)

pub get_unsigned-eq :
    (w i : ℕ) (b c : Block)
    → ((j : ℕ) → i ≤ j → j < i + w → b j ≡ c j)
    → get_unsigned b i w ≡ get_unsigned c i w
unfolding get_unsigned
get_unsigned-eq zero i b c h = refl
get_unsigned-eq (suc w) i b c h =
    ap₂ (λ x y. x + 256 * y) (h i (omega arith) (omega arith))
      (get_unsigned-eq w (suc i) b c (λ j l m. h j (omega (arith, l)) (omega (arith, m))))

pub get_unsigned-put_unsigned :
    (b : Block) (w i n : ℕ) → n < 256 ^ w → get_unsigned (put_unsigned b i w n) i w ≡ n
unfolding get_unsigned put_unsigned
get_unsigned-put_unsigned b zero i n h = omega (arith, h)
get_unsigned-put_unsigned b (suc w) i n h = ground (
  arith,
  h,
  get_unsigned-put_unsigned b w (suc i) (n / 256) (omega (arith, h)),
  get_unsigned-eq w (suc i) (put_unsigned b i (suc w) n) (put_unsigned b (suc i) w (n / 256))
      (λ j l m. ground (arith, l)),
)

pub slice-put_bytes :
    (b : Block) (i : ℕ) (xs : List ℕ) → slice (put_bytes b i xs) i (length xs) ≡ xs
unfolding slice put_bytes
slice-put_bytes b i [] = refl
slice-put_bytes b i (x ∷ xs) =
    ap₂ (λ y ys. y ∷ ys) (if-eq i x (put_bytes b (suc i) xs i))
      (slice-eq (put_bytes b i (x ∷ xs)) (put_bytes b (suc i) xs) (suc i) (suc i) (length xs)
          (λ k l. ground arith)
        ∙ slice-put_bytes b (suc i) xs)

-- A number that was written before what stands from `k` on.
pub read_int :
    (b c : Block) (i k : ℕ) (v : ℤ)
    → IsInt v
    → i + 4 ≤ k
    → IsBelow k c (put_int b i v)
    → get_int c i ≡ v
read_int b c i k v w l h = get_int-below k i c (put_int b i v) h l ∙ get_int-put_int b i v w

pub read_unsigned :
    (b c : Block) (i k w n : ℕ)
    → n < 256 ^ w
    → i + w ≤ k
    → IsBelow k c (put_unsigned b i w n)
    → get_unsigned c i w ≡ n
read_unsigned b c i k w n x l h =
    get_unsigned-eq w i c (put_unsigned b i w n) (λ j _ m. h j (omega (arith, l, m)))
    ∙ get_unsigned-put_unsigned b w i n x

pub read_slice :
    (b c : Block) (i k : ℕ) (xs : List ℕ)
    → i + length xs ≤ k
    → IsBelow k c (put_bytes b i xs)
    → slice c i (length xs) ≡ xs
read_slice b c i k xs l h =
    slice-eq c (put_bytes b i xs) i i (length xs) (λ j m. h (i + j) (omega (arith, l, m)))
    ∙ slice-put_bytes b i xs

pub put_unsigned-above : (b : Block) (i w n j : ℕ) → i + w ≤ j → put_unsigned b i w n j ≡ b j
unfolding put_unsigned
put_unsigned-above b i zero n j h = refl
put_unsigned-above b i (suc w) n j h =
    ground (arith, h, put_unsigned-above b (suc i) w (n / 256) j (omega (arith, h)))

pub put_bytes-above :
    (b : Block) (i : ℕ) (xs : List ℕ) (j : ℕ) → i + length xs ≤ j → put_bytes b i xs j ≡ b j
unfolding put_bytes
put_bytes-above b i [] j h = refl
put_bytes-above b i (x ∷ xs) j h =
    ground (arith, h, put_bytes-above b (suc i) xs j (omega (arith, h)))
