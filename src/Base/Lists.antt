-- ===== src/Base/Lists.antt =====
-- Lists measured and indexed by native numbers.
use Prim.Native.Nat.{ℕ, zero, suc, ◌+◌}
use mathlib.Core.Path.{◌≡◌, refl}
use mathlib.Core.Bool.{Bool, true, false}
use mathlib.Core.List.{List, [], ◌∷◌, ◌++◌}
use mathlib.Core.Option.{Option, none, some}
use native.Mathlib.Omega.{arith}
use uni_base.Base.Tests.{◌==◌, if◌then◌else◌}

module _ {ℓ} {A : Type ℓ} where
  abbrev pub length : List A → ℕ
  length [] = 0
  length (x ∷ xs) = suc (length xs)

  abbrev pub get_elem? : List A → ℕ → Option A
  get_elem? [] i = none
  get_elem? (x ∷ xs) zero = some x
  get_elem? (x ∷ xs) (suc i) = get_elem? xs i

  pub length-append : (xs ys : List A) → length (xs ++ ys) ≡ length xs + length ys
  length-append [] ys = omega arith
  length-append (x ∷ xs) ys = omega (arith, length-append xs ys)

-- Whether a number stands in a list.
abbrev pub mem : ℕ → List ℕ → Bool
mem a [] = false
mem a (x ∷ xs) = if x == a then true else mem a xs

abbrev pub IsNodup : List ℕ → Type 0
IsNodup [] = Unit {0}
IsNodup (x ∷ xs) = (mem x xs ≡ false) × IsNodup xs

pub mem-append : (a : ℕ) (xs ys : List ℕ) → mem a (xs ++ ys) ≡ (if mem a xs then true else mem a ys)
mem-append a [] ys = refl
mem-append a (x ∷ xs) ys = ground (arith, mem-append a xs ys)

pub IsNodup-append_one :
    (xs : List ℕ) (a : ℕ) → mem a xs ≡ false → IsNodup xs → IsNodup (xs ++ a ∷ [])
IsNodup-append_one [] a m d = (refl, tt)
IsNodup-append_one (x ∷ xs) a m d =
    (ground (arith, mem-append x xs (a ∷ [])), IsNodup-append_one xs a (ground arith) d.1)

-- The list without every copy of a number.
abbrev pub remove : ℕ → List ℕ → List ℕ
remove a [] = []
remove a (x ∷ xs) = if x == a then remove a xs else x ∷ remove a xs

pub mem-remove :
    (a b : ℕ) (xs : List ℕ) → mem b (remove a xs) ≡ (if a == b then false else mem b xs)
mem-remove a b [] = ground arith
mem-remove a b (x ∷ xs) = ground (arith, mem-remove a b xs)

pub remove-IsNodup : (a : ℕ) (xs : List ℕ) → IsNodup xs → IsNodup (remove a xs)
remove-IsNodup a [] d = tt
remove-IsNodup a (x ∷ xs) d = ground (arith, mem-remove a x xs, remove-IsNodup a xs d.1)
