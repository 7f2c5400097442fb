-- ===== src/Streams.antt =====
-- The text streams of C++ as the program uses them: `<<` of strings and numbers, and `>>`, which skips white
-- space and reads a word or a decimal number. A text is the list of its bytes.
pub mod Words
pub mod Reads
use uni_base.Base.{
  ℕ, zero, suc, ◌+◌, ◌-◌, ◌*◌, ◌/◌, ◌%◌, List, [], ◌∷◌, ◌++◌, Option, none, some, Bool, true, false,
  ltb, leb, ◌==◌, if◌then◌else◌,
}
use uni_base.Errors.{Str}

unfoldable pub is_space : ℕ → Bool
is_space c = if c == 32 then true else if leb 9 c then leb c 13 else false

unfoldable pub is_digit : ℕ → Bool
is_digit c = if leb 48 c then leb c 57 else false

-- A read of an `A`. `none` is a stream that has failed.
abbrev pub Reader : Type 0 → Type 0
Reader A = Str → Option (A × Str)

infixl 5 ◌>>=◌
abbrev pub ◌>>=◌ : {A B : Type 0} → Reader A → (A → Reader B) → Reader B
◌>>=◌ p f s = elim (p s) [ none ↦ none | some (a, r) ↦ f a r ]

abbrev pub pure : {A : Type 0} → A → Reader A
pure a s = some (a, s)

unfoldable pub skip : Str → Str
unfolding is_space
skip [] = []
skip (c ∷ s) = if is_space c then skip s else c ∷ s

-- The longest run at the start that passes the test, and what follows it.
unfoldable pub span : (ℕ → Bool) → Str → Str × Str
span test [] = ([], [])
span test (c ∷ s) = let rest = span test s in if test c then (c ∷ rest.0, rest.1) else ([], c ∷ s)

abbrev pub not_space : ℕ → Bool
not_space c = if is_space c then false else true

abbrev some_chars : Str × Str → Option (Str × Str)
some_chars ([], r) = none
some_chars (c ∷ w, r) = some (c ∷ w, r)

-- `is >> word`
unfoldable pub read_str : Reader Str
unfolding span skip
read_str s = some_chars (span not_space (skip s))

unfoldable pub value : ℕ → Str → ℕ
value acc [] = acc
value acc (c ∷ s) = value (acc * 10 + (c - 48)) s

abbrev within : ℕ → Option (Str × Str) → Option (ℕ × Str)
within limit none = none
within limit (some (ds, r)) = if leb (value 0 ds) limit then some (value 0 ds, r) else none

-- `is >> number`, for a number that is written without a sign; a value above the limit of the type fails.
unfoldable pub read_nat : ℕ → Reader ℕ
unfolding span skip value is_digit
read_nat limit s = within limit (some_chars (span is_digit (skip s)))

unfoldable pub show_from : ℕ → ℕ → Str
show_from zero n = []
show_from (suc rounds) n =
    let rest = show_from rounds (n / 10) in
    if ltb n 10 then (48 + n) ∷ [] else rest ++ (48 + n % 10) ∷ []

-- `os << number`
unfoldable pub show_nat : ℕ → Str
unfolding show_from
show_nat n = show_from (suc n) n

-- A loop that reads `n` values.
unfoldable pub read_many : {A : Type 0} → Reader A → ℕ → Reader (List A)
read_many p zero = pure []
read_many p (suc n) = do x ← p; xs ← read_many p n; pure (x ∷ xs)
