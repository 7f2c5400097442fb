-- ===== src/Record/Positions.antt =====
-- The order of the positions of a file, and the record that comes next behind one.
use uni_base.Base.{
  ℕ, suc, ◌<◌, ◌≡◌, sym, ap, ◌∙◌, subst, Bool, true, false, ltb, ◌==◌, if◌then◌else◌, arith,
  ℕ_discrete, inl, inr, ◌⊎◌, none,
}
use uni_base.Record.{Rid, RmFile}
use uni_base.Record.Resident.{record_at}
use uni_base.Record.Scan.{no_rid, rid_at}
use uni_base.Record.ScanSlots.{marks, IsQuiet}

-- The order of the positions: by pages, and within a page by slots.
abbrev pub after : ℕ → ℕ → ℕ → ℕ → Bool
after n k m j = if ltb n m then true else if n == m then ltb k j else false

-- The first record behind a position, or the end.
abbrev pub IsNextRecord : {S : Type 0} → RmFile S → ℕ → ℕ → Rid → Type 0
IsNextRecord t n k rid =
    ((rid ≡ no_rid)
      × ((m j : ℕ)
          → after n k m j ≡ true
          → m < t.file_hdr.num_pages
          → j < t.file_hdr.num_records_per_page
          → record_at t m j ≡ none))
    ⊎ ((m : ℕ) × (j : ℕ) × (rid ≡ rid_at m j)
        × (after n k m j ≡ true)
        × (m < t.file_hdr.num_pages)
        × (j < t.file_hdr.num_records_per_page)
        × (marks (record_at t m j) ≡ true)
        × ((p i : ℕ)
            → after n k p i ≡ true
            → after p i m j ≡ true
            → i < t.file_hdr.num_records_per_page
            → record_at t p i ≡ none))

-- One position comes right behind another, on pages of so many slots.
abbrev pub IsStep : ℕ → ℕ → ℕ → ℕ → ℕ → Type 0
IsStep size n k m j =
    (after n k m j ≡ true)
    × ((p i : ℕ) → after n k p i ≡ true → i < size → ((m ≡ p) × (j ≡ i)) ⊎ (after m j p i ≡ true))

pub slot-IsStep : (size n k : ℕ) → IsStep size n k n (suc k)
slot-IsStep size n k = (
  ground arith,
  λ p i a b. elim (ℕ_discrete n p) [
    | yes e ↦ elim (ℕ_discrete (suc k) i) [ yes f ↦ inl (e, f) | no f ↦ inr (ground arith) ]
    | no e ↦ inr (ground arith)
  ],
)

pub page-IsStep : (size n k : ℕ) → suc k ≡ size → IsStep size n k (suc n) 0
page-IsStep size n k h = (
  ground arith,
  λ p i a b. elim (ℕ_discrete (suc n) p) [
    | yes e ↦ elim (ℕ_discrete 0 i) [ yes f ↦ inl (e, f) | no f ↦ inr (ground arith) ]
    | no e ↦ inr (ground arith)
  ],
)

-- Nothing lies between a position and the one right behind it.
pub none_between :
    (size n k m j p i : ℕ)
    → IsStep size n k m j
    → after n k p i ≡ true
    → after p i m j ≡ true
    → i < size
    → ⊥
none_between size n k m j p i s f g d = elim (s.1 p i f d) [
  | inl (x, y) ↦ ground (arith, x, y)
  | inr x ↦ ground (arith, x)
]

after_trans : (n k m j p i : ℕ) → after n k m j ≡ true → after m j p i ≡ true → after n k p i ≡ true
after_trans n k m j p i a b = ground arith

-- A position without a record comes before what was looked through.
pub IsNextRecord-extend :
    {S : Type 0} (t u : RmFile S) (n k m j : ℕ) (rid : Rid)
    → IsQuiet t u
    → IsStep t.file_hdr.num_records_per_page n k m j
    → record_at t m j ≡ none
    → IsNextRecord u m j rid
    → IsNextRecord t n k rid
IsNextRecord-extend t u n k m j rid q s e (inl (r, h)) = inl (
  r,
  λ p i a b c. elim (s.1 p i a c) [
    | inl (x, y) ↦ subst (λ z. record_at t z i ≡ none) x (subst (λ z. record_at t m z ≡ none) y e)
    | inr x ↦
        sym (q.same p i)
        ∙ h p i x (subst (λ z. p < z) (sym q.same_pages) b)
            (subst (λ z. i < z) (sym q.same_slots) c)
  ],
)
IsNextRecord-extend t u n k m j rid q s e (inr (p, i, r, a, b, c, d, before)) = inr (
  p,
  i,
  r,
  after_trans n k m j p i s.0 a,
  subst (λ z. p < z) q.same_pages b,
  subst (λ z. i < z) q.same_slots c,
  ap marks (sym (q.same p i)) ∙ d,
  λ x y f g h. elim (s.1 x y f h) [
    | inl (v, w) ↦ subst (λ z. record_at t z y ≡ none) v (subst (λ z. record_at t m z ≡ none) w e)
    | inr z ↦ sym (q.same x y) ∙ before x y z g (subst (λ l. y < l) (sym q.same_slots) h)
  ],
)
