-- ===== src/Index/Search.antt =====
-- `lower_bound` finds a key that is in the node, and no other.
use uni_base.Base.{
  ℕ, zero, suc, ◌+◌, ◌-◌, ◌/◌, ◌≤◌, ◌<◌, ◌≡◌, ◌≢◌, ◌⊎◌, inl, inr, refl, sym, ap, ◌∙◌, List, Option,
  none, some, true, ltb, ◌==◌, if◌then◌else◌, if-eq, if-ne, Option-cases, arith,
}
use uni_base.Storage.Page.{Block}
use uni_base.Record.{Rid}
use uni_base.Index.{IxNodeHandle, num_key, get_rid, compare_key, halve, lower_bound, leaf_lookup}
use Prim.Native.Nat.{Ordering}

-- Seen from the target, the first `n` keys ascend strictly: above an index whose key is not below the
-- target, all are above the target.
abbrev pub IsAscending : (ℕ → Ordering) → ℕ → Type 0
IsAscending cmp n = (i j : ℕ) → i < j → j < n → cmp i ≢ Ordering.gt → cmp j ≡ Ordering.lt

Ordering-cases : (o : Ordering) → (o ≡ Ordering.lt) ⊎ (o ≡ Ordering.eq) ⊎ (o ≡ Ordering.gt)
Ordering-cases Ordering.lt = inl refl
Ordering-cases Ordering.eq = inr (inl refl)
Ordering-cases Ordering.gt = inr (inr refl)

-- The key at `i` is equal, and is still in reach.
halve-found :
    (rounds : ℕ) (cmp : ℕ → Ordering) (n left after i : ℕ)
    → IsAscending cmp n
    → i < n
    → cmp i ≡ Ordering.eq
    → left ≤ i
    → i < after
    → after ≤ suc n
    → after ≤ left + rounds
    → halve rounds cmp left after ≡ some i
unfolding halve
halve-found zero cmp n left after i w l e a b c d = ground arith
halve-found (suc rounds) cmp n left after i w l e a b c d =
    let mid = (left + (after - 1)) / 2 in
    let in_reach : ltb left after ≡ true = ground arith in
    elim (Ordering-cases (cmp mid)) [
      | inl lt ↦
          rw (in_reach, lt)
            (halve-found rounds cmp n left mid i w l e a (ground (arith, lt, e, w mid i))
              (omega arith) (omega arith))
      | inr (inl eq) ↦ rw (in_reach, eq) (ap some (ground (arith, eq, e, w mid i, w i mid)))
      | inr (inr gt) ↦
          rw (in_reach, gt)
            (halve-found rounds cmp n (suc mid) after i w l e (ground (arith, gt, e, w i mid)) b c
              (omega arith))
    ]

-- What is returned has an equal key.
halve-equal :
    (rounds : ℕ) (cmp : ℕ → Ordering) (left after k : ℕ)
    → halve rounds cmp left after ≡ some k
    → (cmp k ≡ Ordering.eq) × (k < after)
unfolding halve
halve-equal zero cmp left after k e = ground arith
halve-equal (suc rounds) cmp left after k e =
    let mid = (left + (after - 1)) / 2 in
    ground (
      arith,
      Ordering-cases (cmp mid),
      halve-equal rounds cmp left mid k,
      halve-equal rounds cmp (suc mid) after k,
    )

-- The index of the equal key among the first `n` keys, by looking at each.
unfoldable pub equal_below : (ℕ → Ordering) → ℕ → Option ℕ
equal_below cmp zero = none
equal_below cmp (suc n) =
    let rest = equal_below cmp n in elim (cmp n) [ Ordering.eq ↦ some n | _ ↦ rest ]

equal_below-cases :
    (cmp : ℕ → Ordering) (n : ℕ)
    → ((equal_below cmp n ≡ none) × ((i : ℕ) → i < n → cmp i ≢ Ordering.eq))
      ⊎ ((i : ℕ) × (equal_below cmp n ≡ some i) × (i < n) × (cmp i ≡ Ordering.eq))
unfolding equal_below
equal_below-cases cmp zero = inl (refl, λ i l. absurd (omega (arith, l)))
equal_below-cases cmp (suc n) = elim (Ordering-cases (cmp n)) [
  | inr (inl eq) ↦ inr (n, rw (eq, equal_below) refl, omega arith, eq)
  | inl lt ↦ elim (equal_below-cases cmp n) [
    | inl (e, h) ↦ inl (rw (lt, equal_below) e, λ i l. ground (arith, lt, h i))
    | inr (i, e, l, h) ↦ inr (i, rw (lt, equal_below) e, omega (arith, l), h)
  ]
  | inr (inr gt) ↦ elim (equal_below-cases cmp n) [
    | inl (e, h) ↦ inl (rw (gt, equal_below) e, λ i l. ground (arith, gt, h i))
    | inr (i, e, l, h) ↦ inr (i, rw (gt, equal_below) e, omega (arith, l), h)
  ]
]

abbrev pub rid_at : IxNodeHandle → Option ℕ → Option Rid
rid_at node none = none
rid_at node (some i) = some (get_rid node i)

module _ (compare_float : List ℕ → List ℕ → Ordering) where
  lower_bound-halve :
      (node : IxNodeHandle) (target : Block) (o : Option ℕ)
      → halve (suc (num_key node)) (compare_key compare_float node target) 0 (suc (num_key node))
        ≡ o
      → lower_bound compare_float node target ≡ elim o [ some mid ↦ mid | none ↦ num_key node ]
  unfolding lower_bound
  lower_bound-halve node target o e =
      ap (λ (o : Option ℕ). elim o [ some mid ↦ mid | none ↦ num_key node ]) e

  lookup-at :
      (node : IxNodeHandle) (target : Block) (k : ℕ)
      → lower_bound compare_float node target ≡ k
      → leaf_lookup compare_float node target
        ≡ (if k == num_key node then none else some (get_rid node k))
  unfolding leaf_lookup
  lookup-at node target k e = ap (λ k. if k == num_key node then none else some (get_rid node k)) e

  lookup-end :
      (node : IxNodeHandle) (target : Block)
      → lower_bound compare_float node target ≡ num_key node
      → leaf_lookup compare_float node target ≡ none
  lookup-end node target e = lookup-at node target (num_key node) e ∙ if-eq (num_key node) _ _

  -- In a node whose keys ascend strictly, as the target sees them, `leaf_lookup` by its binary search
  -- returns the record id at the key that is equal to the target, and nothing if no key is equal.
  pub leaf_lookup-equal_below :
      (node : IxNodeHandle) (target : Block)
      → IsAscending (compare_key compare_float node target) (num_key node)
      → leaf_lookup compare_float node target
        ≡ rid_at node (equal_below (compare_key compare_float node target) (num_key node))
  leaf_lookup-equal_below node target w =
      let n = num_key node in
      let cmp = compare_key compare_float node target in
      let search : Option ℕ = halve (suc n) cmp 0 (suc n) in
      elim (equal_below-cases cmp n) [
        | inr (i, e, l, h) ↦
            let found : search ≡ some i =
              halve-found (suc n) cmp n 0 (suc n) i w l h (omega arith) (omega (arith, l))
                (omega arith) (omega arith) in
            lookup-at node target i (lower_bound-halve node target (some i) found)
            ∙ if-ne i n _ _ (λ d. absurd (omega (arith, l, d)))
            ∙ ap (rid_at node) (sym e)
        | inl (e, h) ↦
            lookup-end node target (elim (Option-cases search) [
              | inl d ↦ lower_bound-halve node target none d
              | inr (k, d) ↦
                  let (eq, l) = halve-equal (suc n) cmp 0 (suc n) k d in
                  lower_bound-halve node target (some k) d ∙ ground (arith, eq, l, h k)
            ])
            ∙ ap (rid_at node) (sym e)
      ]
