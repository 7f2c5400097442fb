-- ===== src/Errors.antt =====
-- src/errors.h: the exceptions that the modelled code throws, each with the values that its message
-- is made from, and the outcome of a call that may throw. A `std::string` is the list of its bytes.
use uni_base.Base.{ℕ, ℕ_discrete, List, ℤ, ◌≡◌, refl}

abbrev pub Str : Type 0
Str = List ℕ

str_dec : Discrete Str
str_dec = hlevel ℕ_discrete

unfoldable pub Str-discrete : Discrete Str
unfolding str_dec
Str-discrete = str_dec

pub data Error : Type 0 where
  internal_error unix_error : Error
  file_not_open : ℤ → Error
  file_not_closed file_exists file_not_found : Str → Error
  record_not_found : ℤ → ℤ → Error
  invalid_record_size : ℤ → Error
  invalid_col_length : ℤ → Error
  index_entry_not_found : Error
  database_not_found database_exists table_not_found table_exists column_not_found : Str → Error
  index_not_found index_exists : Str → List Str → Error
  invalid_value_count string_overflow : Error
  incompatible_type : Str → Str → Error
  ambiguous_column : Str → Error
  page_not_exist : Str → ℤ → Error
  -- `at` of a container that has no such element.
  out_of_range : Error
  -- A failed `assert`, which aborts the process.
  assertion_failed : Error
  -- What C++ leaves undefined: a null pointer followed, a shift by a negative number.
  undefined_behaviour : Error
  -- The loop takes more rounds than the model's bound on them.
  still_running : Error

pub data Result {ℓ} (A : Type ℓ) : Type ℓ where
  ok : A → Result A
  throw : Error → Result A

-- A step of a method: the state is changed and the call returns or throws.
abbrev pub Step : Type 0 → Type 0 → Type 0
Step T A = T → Result A × T

infixl 5 ◌>>=◌ ◌>>◌
abbrev pub ◌>>=◌ : {T A B : Type 0} → Step T A → (A → Step T B) → Step T B
◌>>=◌ m f s = let (r, s') = m s in elim r [ ok a ↦ f a s' | throw e ↦ (throw e, s') ]

abbrev pub ◌>>◌ : {T B : Type 0} → Step T (Unit {0}) → Step T B → Step T B
m >> k = m >>= λ _. k

abbrev pub pure : {T A : Type 0} → A → Step T A
pure a s = (ok a, s)

-- Inversion of a bind that does not throw.
pub bind-ok :
    {T A B : Type 0} (m : Step T A) (k : A → Step T B) (s : T) {b : B}
    → ((m >>= k) s).0 ≡ ok b
    → (a : A) × ((m s).0 ≡ ok a) × ((m >>= k) s ≡ k a (m s).1)
bind-ok m k s {b} e = go (m s).0 refl
  where
    go : (r : Result _) → (m s).0 ≡ r → (a : _) × ((m s).0 ≡ ok a) × ((m >>= k) s ≡ k a (m s).1)
    go (ok a) h = (a, h, rw (h, ◌>>=◌) refl)
    go (throw x) h = absurd (cc (rw (h, ◌>>=◌) at e))

-- A bind whose first part is known to succeed.
pub bind-of :
    {T A B : Type 0} (m : Step T A) (k : A → Step T B) (s t : T) (a : A)
    → m s ≡ (ok a, t)
    → (m >>= k) s ≡ k a t
bind-of {T} {A} {B} m k s t a e = λ i.
    let r : Result B × T = elim (e i).0 [ ok a ↦ k a (e i).1 | throw x ↦ (throw x, (e i).1) ] in r

-- A bind whose first part is known to throw.
pub bind-throws :
    {T A B : Type 0} (m : Step T A) (k : A → Step T B) (s t : T) (x : Error)
    → m s ≡ (throw x, t)
    → (m >>= k) s ≡ (throw x, t)
bind-throws {T} {A} {B} m k s t x e = λ i.
    let r : Result B × T = elim (e i).0 [ ok a ↦ k a (e i).1 | throw x ↦ (throw x, (e i).1) ] in r
