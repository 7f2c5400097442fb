-- ===== src/Outcome.antt =====
-- Calls that change no state and may throw.
use uni_base.Base.{arith, if◌then◌else◌, List, [], ◌∷◌, ◌≡◌, refl, ap, ◌++◌, ite, true, false, Bool}
use uni_base.Errors.{Str, Str-discrete, Result, ok, throw}

infixl 5 ◌>>=◌
abbrev pub ◌>>=◌ {ℓ κ} : {A : Type ℓ} {B : Type κ} → Result A → (A → Result B) → Result B
call >>= next = elim call [ ok result ↦ next result | throw error ↦ throw error ]

-- `compare(...) == 0`, or `==`, of two strings.
abbrev pub str_eq : Str → Str → Bool
str_eq a b = ite (Str-discrete a b) true false

-- A loop that calls `f` for each element, and collects the results.
unfoldable pub collect {ℓ κ} : {A : Type ℓ} {B : Type κ} → (A → Result B) → List A → Result (List B)
collect f [] = ok []
collect f (x ∷ xs) = do y ← f x; ys ← collect f xs; ok (y ∷ ys)

-- A bind that does not throw: what holds for every result of its first part, holds.
pub bind-then {ℓ κ μ} :
    {A : Type ℓ} {B : Type κ} {C : Type μ} {m : Result A} {f : A → Result B} {b : B}
    → (m >>= f) ≡ ok b
    → ((a : A) → m ≡ ok a → f a ≡ ok b → C)
    → C
bind-then {m = ok a} h k = k a refl h
bind-then {m = throw e} h k = absurd (cc (h))

pub ok-inj {ℓ} : {A : Type ℓ} {a b : A} → ok a ≡ ok b → a ≡ b
ok-inj {a = a} e = ap (λ r. elim r [ ok x ↦ x | throw _ ↦ a ]) e

-- `std::find` of a string.
abbrev pub str_mem : Str → List Str → Bool
str_mem a [] = false
str_mem a (x ∷ xs) = if str_eq x a then true else str_mem a xs

pub str_mem-append :
    (a : Str) (xs ys : List Str)
    → str_mem a (xs ++ ys) ≡ (if str_mem a xs then true else str_mem a ys)
str_mem-append a [] ys = refl
str_mem-append a (x ∷ xs) ys = ground (arith, str_mem-append a xs ys)
