-- ===== src/Index/Children.antt =====
-- The children of an internal node, src/index/ix_index_handle.h and ix_index_handle.cpp: `find_child` and
-- `internal_lookup`. A node that is searched for is its page number.
use uni_base.Base.{
  ℕ, zero, suc, ◌+◌, ◌<◌, ◌≤◌, ◌≡◌, ◌≢◌, refl, subst, List, Option, none, some, get_elem?, ite,
  if◌then◌else◌, ◌==◌, ℤ, pos, minus_one, ℤ-discrete, ℕ_discrete, arith,
}
use Prim.Native.Nat.{Ordering}
use uni_base.Errors.{
  Result, ok, throw, assertion_failed, index_entry_not_found, undefined_behaviour,
}
use uni_base.Storage.Page.{Block}
use uni_base.Index.{IxNodeHandle, num_key, get_key, get_rid, ix_compare_col}

-- Where `is_leaf` stands in IxPageHdr.
abbrev is_leaf_at : ℕ
is_leaf_at = 12

-- The page number of a child.
unfoldable pub value_at : IxNodeHandle → ℕ → ℤ
value_at node i = (get_rid node i).page_no

-- The loop over `left` children from `i` on, and the assertion behind it.
unfoldable pub find_from : IxNodeHandle → ℤ → ℕ → ℕ → Result ℕ
find_from node child zero i = throw assertion_failed
find_from node child (suc left) i =
    let rest = find_from node child left (suc i) in
    ite (ℤ-discrete (value_at node i) child) (ok i) rest

unfoldable pub find_child : IxNodeHandle → ℤ → Result ℕ
unfolding find_from
find_child node child = find_from node child (num_key node) 0

module _ (compare_float : List ℕ → List ℕ → Ordering) where
  -- The loop over `left` keys from `i` on. The type and the length that key `i` is compared by are those of
  -- column `i`; past the last column they are read from behind the vectors.
  unfoldable pub lookup_from : IxNodeHandle → Block → ℕ → ℕ → Result (Option ℕ)
  lookup_from node key zero i = ok none
  lookup_from node key (suc left) i =
      let rest = lookup_from node key left (suc i) in
      elim (get_elem? node.file_hdr.cols i) [
        | none ↦ throw undefined_behaviour
        | some (type, len) ↦
            elim (ix_compare_col compare_float key 0 node.bytes (get_key node i) type len) [
              | Ordering.lt ↦ ok (some i)
              | Ordering.eq ↦ rest
              | Ordering.gt ↦ rest
            ]
      ]

  -- The index of the child, where -1 is that of a node without keys.
  unfoldable pub internal_lookup : IxNodeHandle → Block → Result ℤ
  unfolding lookup_from
  internal_lookup node key =
      if node.bytes is_leaf_at == 0
      then elim (lookup_from node key (num_key node) 0) [
        | throw e ↦ throw e
        | ok (some i) ↦ ok (pos i)
        | ok none ↦ ok (last (num_key node))
      ]
      else throw index_entry_not_found
    where
      last : ℕ → ℤ
      last zero = minus_one
      last (suc n) = pos n

-- The first of the children up to `n` on that page, or that there is none.
abbrev pub IsFirstChild : IxNodeHandle → ℤ → ℕ → ℕ → Result ℕ → Type 0
IsFirstChild node child start n (ok i) =
    (start ≤ i)
    × (i < n)
    × (value_at node i ≡ child)
    × ((j : ℕ) → start ≤ j → j < i → value_at node j ≢ child)
IsFirstChild node child start n (throw e) =
    (e ≡ assertion_failed) × ((j : ℕ) → start ≤ j → j < n → value_at node j ≢ child)

-- What holds from the next index on, and at this one, holds from this one on.
before :
    {P : ℕ → Type 0} {i k : ℕ}
    → P i
    → ((j : ℕ) → suc i ≤ j → j < k → P j)
    → (j : ℕ) → i ≤ j
    → j < k
    → P j
before {P = P} {i = i} p f j l m = elim (ℕ_discrete i j) [
  | yes e ↦ subst P e p
  | no ne ↦ f j (omega (arith, l, ne)) m
]

-- A child before the others is not the one.
IsFirstChild-suc :
    (node : IxNodeHandle) (child : ℤ) (i n : ℕ) (r : Result ℕ)
    → value_at node i ≢ child
    → IsFirstChild node child (suc i) n r
    → IsFirstChild node child i n r
IsFirstChild-suc node child i n (ok k) ne (a, b, c, d) = (omega (arith, a), b, c, before ne d)
IsFirstChild-suc node child i n (throw e) ne (a, d) = (a, before ne d)

find_from-IsFirstChild :
    (node : IxNodeHandle) (child : ℤ) (left i : ℕ)
    → IsFirstChild node child i (i + left) (find_from node child left i)
unfolding find_from
find_from-IsFirstChild node child zero i = (refl, λ j l m. absurd (omega (arith, l, m)))
find_from-IsFirstChild node child (suc left) i =
    elim (ℤ-discrete (value_at node i) child)
      as (λ d.
        IsFirstChild node child i (i + suc left)
          (ite d (ok i) (find_from node child left (suc i)))) [
            | yes e ↦ (omega arith, omega arith, e, λ j l m. absurd (omega (arith, l, m)))
            | no ne ↦
                let rest = find_from node child left (suc i) in
                let same : suc i + left ≡ i + suc left = omega arith in
                IsFirstChild-suc node child i (i + suc left) rest ne (
                  subst (λ n. IsFirstChild node child (suc i) n rest) same
                    (find_from-IsFirstChild node child left (suc i)))
          ]

-- Whatever the node and the page: `find_child` returns the index of the first child that stands on the page, and
-- fails its assertion if no child of the node does.
pub find_child-IsFirstChild :
    (node : IxNodeHandle) (child : ℤ)
    → IsFirstChild node child 0 (num_key node) (find_child node child)
unfolding find_child
find_child-IsFirstChild node child =
    let n = num_key node in
    let same : 0 + n ≡ n = omega arith in
    subst (λ m. IsFirstChild node child 0 m (find_from node child n 0)) same
      (find_from-IsFirstChild node child n 0)
