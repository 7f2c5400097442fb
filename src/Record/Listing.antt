-- ===== src/Record/Listing.antt =====
-- The records of a file in the order of the pages and slots.
use uni_base.Base.{
  ℕ, zero, suc, ◌+◌, ◌-◌, ◌≤◌, ◌<◌, ◌≡◌, refl, sym, subst, ap, ap₂, ◌∙◌, List, [], ◌∷◌, ◌++◌, Bool,
  true, false, if◌then◌else◌, ℕ_discrete, arith,
}
use uni_base.Record.{Rid}
use uni_base.Record.Scan.{rid_at}
use uni_base.Record.Positions.{after}

module _ (marked : ℕ → ℕ → Bool) where
  -- The marked ones of `left` slots of a page from `k` on.
  unfoldable pub slot_records : ℕ → ℕ → ℕ → List Rid
  slot_records n zero k = []
  slot_records n (suc left) k =
      let rest = slot_records n left (suc k) in if marked n k then rid_at n k ∷ rest else rest

  -- The marked slots of `left` pages from `n` on, each of `size` slots.
  unfoldable pub page_records : ℕ → ℕ → ℕ → List Rid
  unfolding slot_records
  page_records size zero n = []
  page_records size (suc left) n = slot_records n size 0 ++ page_records size left (suc n)

  -- The marked slots behind a position of a file of `pages` pages.
  abbrev pub records_behind : ℕ → ℕ → ℕ → ℕ → List Rid
  records_behind size pages n k =
      slot_records n (size - suc k) (suc k) ++ page_records size (pages - suc n) (suc n)

  slot_records-none :
      (n left k : ℕ)
      → ((i : ℕ) → k ≤ i → i < k + left → marked n i ≡ false)
      → slot_records n left k ≡ []
  unfolding slot_records
  slot_records-none n zero k h = refl
  slot_records-none n (suc left) k h =
      let bare = h k (omega arith) (omega arith) in
      rw (bare)
        (slot_records-none n left (suc k) (λ i a b. h i (omega (arith, a)) (omega (arith, b))))

  slot_records-first :
      (n left k j : ℕ)
      → ((i : ℕ) → k ≤ i → i < j → marked n i ≡ false)
      → k ≤ j
      → j < k + left
      → marked n j ≡ true
      → slot_records n left k ≡ rid_at n j ∷ slot_records n (k + left - suc j) (suc j)
  unfolding slot_records
  slot_records-first n zero k j h a b m = absurd (omega (arith, a, b))
  slot_records-first n (suc left) k j h a b m = elim (ℕ_discrete k j) [
    | yes e ↦
        let here : marked n k ≡ true = subst (λ x. marked n x ≡ true) (sym e) m in
        let rest : left ≡ k + suc left - suc j = omega (arith, e) in
        rw (here) (ap₂ (λ x l. rid_at n x ∷ slot_records n l (suc x)) e rest)
    | no d ↦
        let bare = h k (omega arith) (omega (arith, a, d)) in
        rw (bare) (
          slot_records-first n left (suc k) j (λ i x y. h i (omega (arith, x)) y)
            (omega (arith, a, d)) (omega (arith, b)) m
          ∙ ap (λ l. rid_at n j ∷ slot_records n l (suc j))
              (let e : suc k + left - suc j ≡ k + suc left - suc j = omega arith in e))
  ]

  pub page_records-none :
      (size left n : ℕ)
      → ((p i : ℕ) → n ≤ p → p < n + left → i < size → marked p i ≡ false)
      → page_records size left n ≡ []
  unfolding page_records
  page_records-none size zero n h = refl
  page_records-none size (suc left) n h =
      rw
        (slot_records-none n size 0 (λ i a b. h n i (omega arith) (omega arith) (omega (arith, b))))
        (page_records-none size left (suc n)
          (λ p i a b c. h p i (omega (arith, a)) (omega (arith, b)) c))

  pub page_records-first :
      (size left n m j : ℕ)
      → ((p i : ℕ) → n ≤ p → p < m → i < size → marked p i ≡ false)
      → ((i : ℕ) → i < j → marked m i ≡ false)
      → n ≤ m
      → m < n + left
      → j < size
      → marked m j ≡ true
      → page_records size left n ≡ rid_at m j ∷ records_behind size (n + left) m j
  unfolding page_records
  page_records-first size zero n m j h g a b c d = absurd (omega (arith, a, b))
  page_records-first size (suc left) n m j h g a b c d = elim (ℕ_discrete n m) [
    | yes e ↦
        let first =
          slot_records-first n size 0 j (λ i x y. subst (λ z. marked z i ≡ false) (sym e) (g i y))
            (omega arith) (omega (arith, c)) (subst (λ z. marked z j ≡ true) (sym e) d) in
        let zero_add : 0 + size - suc j ≡ size - suc j = omega arith in
        let rest : left ≡ n + suc left - suc m = omega (arith, e) in
        rw (first, zero_add)
          (ap₂
            (λ x l.
              rid_at x j ∷ (slot_records x (size - suc j) (suc j) ++ page_records size l (suc x)))
            e rest)
    | no e ↦
        rw
          (slot_records-none n size 0
            (λ i x y. h n i (omega arith) (omega (arith, a, e)) (omega (arith, y))))
          (page_records-first size left (suc n) m j (λ p i x y z. h p i (omega (arith, x)) y z) g
              (omega (arith, a, e)) (omega (arith, b)) c d
            ∙ ap (λ p. rid_at m j ∷ records_behind size p m j)
                (let x : suc n + left ≡ n + suc left = omega arith in x))
  ]

  -- Nothing behind a position, or a first one.
  pub records_behind-none :
      (size pages n k : ℕ)
      → ((m j : ℕ) → after n k m j ≡ true → m < pages → j < size → marked m j ≡ false)
      → n < pages
      → k < size
      → records_behind size pages n k ≡ []
  records_behind-none size pages n k h l b =
      rw
        (
          slot_records-none n (size - suc k) (suc k)
              (λ i x y. h n i (ground (arith, x)) l (omega (arith, y, b))),
          page_records-none size (pages - suc n) (suc n)
              (λ p i x y z. h p i (ground (arith, x)) (omega (arith, y, l)) z),
        )
        refl

  pub records_behind-first :
      (size pages n k m j : ℕ)
      → after n k m j ≡ true
      → m < pages
      → j < size
      → marked m j ≡ true
      → ((p i : ℕ) → after n k p i ≡ true → after p i m j ≡ true → i < size → marked p i ≡ false)
      → n < pages
      → k < size
      → records_behind size pages n k ≡ rid_at m j ∷ records_behind size pages m j
  records_behind-first size pages n k m j a b c d h l z = elim (ℕ_discrete n m) [
    | yes e ↦
        let first =
          slot_records-first n (size - suc k) (suc k) j
            (λ i x y. h n i (ground (arith, x)) (ground (arith, y, e)) (omega (arith, y, c)))
            (ground (arith, a, e)) (omega (arith, c, z))
            (subst (λ x. marked x j ≡ true) (sym e) d) in
        let rest : suc k + (size - suc k) - suc j ≡ size - suc j = omega (arith, z) in
        rw (first, rest) (ap (λ x. rid_at x j ∷ records_behind size pages x j) e)
    | no e ↦
        let far : n < m = ground (arith, a, e) in
        let total : suc n + (pages - suc n) ≡ pages = omega (arith, l) in
        rw
          (slot_records-none n (size - suc k) (suc k)
            (λ i x y. h n i (ground (arith, x)) (ground (arith, far)) (omega (arith, y, z))))
          (page_records-first size (pages - suc n) (suc n) m j
              (λ p i x y w. h p i (ground (arith, x)) (ground (arith, y)) w)
              (λ i x. h m i (ground (arith, far)) (ground (arith, x)) (omega (arith, x, c))) far
              (omega (arith, total, b)) c d
            ∙ ap (λ p. rid_at m j ∷ records_behind size p m j) total)
  ]
