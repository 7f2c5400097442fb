-- ===== src/Record/ScanSlots.antt =====
-- The scan of one page finds its first record.
use uni_base.Base.{
  ℕ, zero, suc, ◌+◌, ◌≤◌, ◌<◌, ◌≡◌, refl, sym, ap, ◌∙◌, subst, Option, none, some, Bool, true,
  false, pos, if◌then◌else◌, arith, Bool-cases, ℕ_discrete, ◌⊎◌, inl, inr,
}
use uni_base.Errors.{ok, Step, bind-of, pure}
use uni_base.Replacer.{Replacer}
use uni_base.Record.{Rid, RmFile, RmFileHdr, bytes, holds_record}
use uni_base.Record.Handle.{is_record}
use uni_base.Record.Slots.{slot}
use uni_base.Record.Resident.{IsResident, record_at, pinned}
use uni_base.Record.Touches.{pinned-Touches, Touches-IsResident}
use uni_base.Record.Rewrites.{record_at-slot, same-records}
use uni_base.Record.Methods.{fetched}
use uni_base.Record.Scan.{no_rid, rid_at, scan_slots}

abbrev pub marks {ℓ} : {A : Type ℓ} → Option A → Bool
marks none = false
marks (some a) = true

holds-slot : (h : RmFileHdr) (b : _) (k : ℕ) → holds_record b (pos k) ≡ marks (slot h b k)
unfolding slot
holds-slot h b k = ground arith

module _ {S : Type 0} where
  -- The file holds the same records, and its pages are still in the pool.
  pub record IsQuiet (t u : RmFile S) : Type 0 where
    pub resident : IsResident u
    pub same_pages : u.file_hdr.num_pages ≡ t.file_hdr.num_pages
    pub same_slots : u.file_hdr.num_records_per_page ≡ t.file_hdr.num_records_per_page
    pub same : (m j : ℕ) → record_at u m j ≡ record_at t m j

  -- The first slot of the page that holds a record, among `left` from `k` on.
  abbrev pub IsFirst : RmFile S → ℕ → ℕ → ℕ → Option Rid → Type 0
  IsFirst t n left k none = (j : ℕ) → k ≤ j → j < k + left → record_at t n j ≡ none
  IsFirst t n left k (some rid) =
      (j : ℕ) × (rid ≡ rid_at n j)
      × (k ≤ j)
      × (j < k + left)
      × (marks (record_at t n j) ≡ true)
      × ((i : ℕ) → k ≤ i → i < j → record_at t n i ≡ none)

  -- The first record of `left` pages from `n` on, or the end.
  abbrev pub IsFirstRecord : RmFile S → ℕ → ℕ → Rid → Type 0
  IsFirstRecord t n left rid =
      ((rid ≡ no_rid)
        × ((m j : ℕ)
            → n ≤ m
            → m < n + left
            → j < t.file_hdr.num_records_per_page
            → record_at t m j ≡ none))
      ⊎ ((m : ℕ) × (j : ℕ) × (rid ≡ rid_at m j)
          × (n ≤ m)
          × (m < n + left)
          × (j < t.file_hdr.num_records_per_page)
          × (marks (record_at t m j) ≡ true)
          × ((i : ℕ) → i < j → record_at t m i ≡ none)
          × ((p i : ℕ)
              → n ≤ p
              → p < m
              → i < t.file_hdr.num_records_per_page
              → record_at t p i ≡ none))

  pub IsQuiet-trans : (t u v : RmFile S) → IsQuiet t u → IsQuiet u v → IsQuiet t v
  IsQuiet-trans t u v a b = record {
    resident = b.resident;
    same_pages = b.same_pages ∙ a.same_pages;
    same_slots = b.same_slots ∙ a.same_slots;
    same = λ m j. b.same m j ∙ a.same m j;
  }

  -- One slot without a record comes before what was looked through.
  IsFirst-extend :
      (t u : RmFile S) (n left k : ℕ) (o : Option Rid)
      → IsQuiet t u
      → record_at t n k ≡ none
      → IsFirst u n left (suc k) o
      → IsFirst t n (suc left) k o
  IsFirst-extend t u n left k none q e h = λ j a b. elim (ℕ_discrete k j) [
    | yes d ↦ subst (λ x. record_at t n x ≡ none) d e
    | no d ↦ sym (q.same n j) ∙ h j (omega (arith, a, d)) (omega (arith, b))
  ]
  IsFirst-extend t u n left k (some rid) q e (j, same, a, b, m, before) = (
    j,
    same,
    omega (arith, a),
    omega (arith, b),
    ap marks (sym (q.same n j)) ∙ m,
    λ i c d. elim (ℕ_discrete k i) [
      | yes x ↦ subst (λ x. record_at t n x ≡ none) x e
      | no x ↦ sym (q.same n i) ∙ before i (omega (arith, c, x)) d
    ],
  )

pub unmarked : {A : Type 0} (o : Option A) → marks o ≡ false → o ≡ none
unmarked none e = refl
unmarked (some a) e = ground arith

module _ (R : Replacer) where
  open R use {S}

  pub is_record-answer :
      (t : RmFile S) (n k : ℕ)
      → IsResident t
      → 1 ≤ n
      → n < t.file_hdr.num_pages
      → (u : RmFile S) × (is_record R (rid_at n k) t ≡ (ok (marks (record_at t n k)), u))
        × IsQuiet t u
  unfolding is_record
  is_record-answer t n k w l h =
      let (f, e, run) = fetched R t n w l h in
      let c = pinned-Touches R f t in
      let v = pinned R f t in
      (
        v,
        run Bool (λ g u. (ok (holds_record (bytes u g) (pos k)), u))
            ∙ ap (λ b. (ok b, v))
                (holds-slot t.file_hdr (bytes v f) k
                  ∙ ap marks
                      (ap (λ b. slot t.file_hdr b k) c.here ∙ sym (record_at-slot t n f k e))),
        record {
          resident = Touches-IsResident t v f (λ b. b) c w;
          same_pages = refl;
          same_slots = refl;
          same = same-records t v n f (λ b. b) w e c (λ j. refl);
        },
      )

  pub scan_slots-IsFirst :
      (t : RmFile S) (n left k : ℕ)
      → IsResident t
      → 1 ≤ n
      → n < t.file_hdr.num_pages
      → (o : Option Rid) × (u : RmFile S) × (scan_slots R n left k t ≡ (ok o, u))
        × IsQuiet t u
        × IsFirst t n left k o
  unfolding scan_slots
  scan_slots-IsFirst t n zero k w l h = (
    none,
    t,
    refl,
    record { resident = w; same_pages = refl; same_slots = refl; same = λ m j. refl },
    λ j a b. absurd (omega (arith, a, b)),
  )
  scan_slots-IsFirst t n (suc left) k w l h =
      let (u, e, q) = is_record-answer t n k w l h in
      let next : Bool → Step (RmFile S) (Option Rid) =
        λ found. if found then pure (some (rid_at n k)) else scan_slots R n left (suc k) in
      let path = bind-of (is_record R (rid_at n k)) next t u (marks (record_at t n k)) e in
      elim (Bool-cases (marks (record_at t n k))) [
        | inl m ↦ (
          some (rid_at n k),
          u,
          path ∙ ap (λ b. next b u) m,
          q,
          (k, refl, omega arith, omega arith, m, λ i a b. absurd (omega (arith, a, b))),
        )
        | inr m ↦
            let (o, v, r, z, first) =
              scan_slots-IsFirst u n left (suc k) q.resident l
                (subst (λ x. n < x) (sym q.same_pages) h) in
            (
              o,
              v,
              path ∙ ap (λ b. next b u) m ∙ r,
              IsQuiet-trans t u v q z,
              IsFirst-extend t u n left k o q (unmarked (record_at t n k) m) first,
            )
      ]
