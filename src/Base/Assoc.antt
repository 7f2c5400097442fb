-- ===== src/Base/Assoc.antt =====
-- Maps as association lists: the `unordered_map`s of the program. Keys have a decidable equality.
use mathlib.Core.Path.{◌≡◌, refl}
use mathlib.Core.Logic.{ite}
use mathlib.Core.List.{List, [], ◌∷◌}
use mathlib.Core.Option.{Option, none, some}
use native.Mathlib.Omega.{arith}

module _ {ℓ} {K V : Type ℓ} (dec : Discrete K) where
  -- `find`
  unfoldable pub lookup : K → List (K × V) → Option V
  lookup k [] = none
  lookup k ((j, v) ∷ m) = ite (dec j k) (some v) (lookup k m)

  -- `erase` of a key
  unfoldable pub erase : K → List (K × V) → List (K × V)
  erase k [] = []
  erase k ((j, v) ∷ m) = ite (dec j k) (erase k m) ((j, v) ∷ erase k m)

  -- `m[k] = v`
  unfoldable pub insert : K → V → List (K × V) → List (K × V)
  insert k v [] = (k, v) ∷ []
  insert k v ((j, w) ∷ m) = ite (dec j k) ((k, v) ∷ m) ((j, w) ∷ insert k v m)

  pub lookup-erase :
      (k j : K) (m : List (K × V)) → lookup j (erase k m) ≡ ite (dec k j) none (lookup j m)
  unfolding lookup erase
  lookup-erase k j [] = ground arith
  lookup-erase k j ((i, w) ∷ m) = ground (arith, lookup-erase k j m)

  pub lookup-insert :
      (k j : K) (v : V) (m : List (K × V))
      → lookup j (insert k v m) ≡ ite (dec k j) (some v) (lookup j m)
  unfolding lookup insert
  lookup-insert k j v [] = refl
  lookup-insert k j v ((i, w) ∷ m) = ground (arith, lookup-insert k j v m)

  -- The value of a key, or one for a missing key.
  unfoldable pub lookup_or : V → K → List (K × V) → V
  lookup_or d k [] = d
  lookup_or d k ((j, v) ∷ m) = ite (dec j k) v (lookup_or d k m)

  pub lookup_or-insert :
      (d : V) (k j : K) (v : V) (m : List (K × V))
      → lookup_or d j (insert k v m) ≡ ite (dec k j) v (lookup_or d j m)
  unfolding lookup_or insert
  lookup_or-insert d k j v [] = refl
  lookup_or-insert d k j v ((i, w) ∷ m) = ground (arith, lookup_or-insert d k j v m)

  pub lookup_or-lookup :
      (d : V) (k : K) (m : List (K × V))
      → lookup_or d k m ≡ elim (lookup k m) [ none ↦ d | some v ↦ v ]
  unfolding lookup_or lookup
  lookup_or-lookup d k [] = refl
  lookup_or-lookup d k ((j, v) ∷ m) = ground (arith, lookup_or-lookup d k m)
