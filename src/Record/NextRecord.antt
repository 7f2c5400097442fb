-- ===== src/Record/NextRecord.antt =====
-- The step of a scan finds the next record, in as many rounds as there are positions left.
use uni_base.Base.{
  ℕ, zero, suc, ◌+◌, ◌*◌, ◌≤◌, ◌<◌, ◌≡◌, refl, sym, ap, ◌∙◌, subst, Bool, true, false, ltb, ◌==◌,
  if◌then◌else◌, arith, ℕ_discrete, Bool-cases, inl, inr, ltb-true,
}
use uni_base.Errors.{Result, ok, Step, ◌>>=◌, bind-of, pure}
use uni_base.Replacer.{Replacer}
use uni_base.Record.{Rid, RmFile}
use uni_base.Record.Resident.{IsResident, record_at, pinned}
use uni_base.Record.Methods.{fetched}
use uni_base.Record.Handle.{is_record}
use uni_base.Record.Scan.{no_rid, rid_at, advance, next_from, next}
use uni_base.Record.ScanSlots.{marks, IsQuiet, IsQuiet-trans, unmarked, is_record-answer}
use uni_base.Record.Scanning.{pinned-IsQuiet}
use uni_base.Record.Positions.{
  IsNextRecord, IsStep, slot-IsStep, page-IsStep, none_between, IsNextRecord-extend,
}

pub product_le : (a b c : ℕ) → a ≤ b → a * c ≤ b * c
product_le a b c h = grind arith

module _ (R : Replacer) where
  open R use {S}

  -- What a call of `next_from` ends in.
  abbrev pub IsNextOf : RmFile S → ℕ → ℕ → Result Rid × RmFile S → Type 0
  IsNextOf t n k (r, u) = (rid : Rid) × (r ≡ ok rid) × IsQuiet t u × IsNextRecord t n k rid

  -- A round from a position whose next one is `m` and `j`.
  resume : ℕ → ℕ × ℕ → Step (RmFile S) Rid
  resume rounds (m, j) u =
      if m == u.file_hdr.num_pages
      then (ok no_rid, u)
      else (is_record R (rid_at m j) >>= λ found.
            if found then pure (rid_at m j) else next_from R rounds m j)
          u

  module _ (t : RmFile S) (n k : ℕ) (w : IsResident t) (l : 1 ≤ n)
      (h : n < t.file_hdr.num_pages) where
    advance-slot :
        suc k < t.file_hdr.num_records_per_page
        → (v : RmFile S) × (advance R n k t ≡ (ok (n, suc k), v)) × IsQuiet t v
    unfolding advance
    advance-slot s =
        let (f, e, run) = fetched R t n w l h in
        (
          pinned R f t,
          rw (ltb-true n t.file_hdr.num_pages h, if◌then◌else◌)
              (run (ℕ × ℕ) (λ _ u.
                  if ltb (suc k) u.file_hdr.num_records_per_page
                  then (ok (n, suc k), u)
                  else (ok (suc n, 0), u))
                ∙ rw (ltb-true (suc k) t.file_hdr.num_records_per_page s) refl),
          pinned-IsQuiet R t n f w e,
        )

    advance-page :
        suc k ≡ t.file_hdr.num_records_per_page
        → (v : RmFile S) × (advance R n k t ≡ (ok (suc n, 0), v)) × IsQuiet t v
    unfolding advance
    advance-page s =
        let (f, e, run) = fetched R t n w l h in
        let no : ltb (suc k) t.file_hdr.num_records_per_page ≡ false = ground arith in
        (
          pinned R f t,
          rw (ltb-true n t.file_hdr.num_pages h, if◌then◌else◌)
              (run (ℕ × ℕ) (λ _ u.
                  if ltb (suc k) u.file_hdr.num_records_per_page
                  then (ok (n, suc k), u)
                  else (ok (suc n, 0), u))
                ∙ rw (no) refl),
          pinned-IsQuiet R t n f w e,
        )

    next_from-advance :
        (rounds m j : ℕ) (v : RmFile S)
        → advance R n k t ≡ (ok (m, j), v)
        → next_from R (suc rounds) n k t ≡ resume rounds (m, j) v
    unfolding next_from resume
    next_from-advance rounds m j v e = bind-of (advance R n k) (resume rounds) t v (m, j) e

    resume-end :
        (rounds j : ℕ) (v : RmFile S)
        → IsQuiet t v
        → suc n ≡ t.file_hdr.num_pages
        → suc k ≡ t.file_hdr.num_records_per_page
        → IsNextOf t n k (resume rounds (suc n, j) v)
    unfolding resume
    resume-end rounds j v q s z =
        let same : (suc n == v.file_hdr.num_pages) ≡ true =
          (let p = q.same_pages in ground (arith, p)) in
        rw (same, if◌then◌else◌)
          (no_rid, refl, q, inl (refl, λ m i a b c. absurd (ground (arith, a, b, c))))

    resume-slot :
        (rounds m j : ℕ) (v : RmFile S)
        → IsQuiet t v
        → IsStep t.file_hdr.num_records_per_page n k m j
        → 1 ≤ m
        → m < t.file_hdr.num_pages
        → j < t.file_hdr.num_records_per_page
        → ((u : RmFile S) → IsQuiet t u → IsNextOf u m j (next_from R rounds m j u))
        → IsNextOf t n k (resume rounds (m, j) v)
    unfolding resume
    resume-slot rounds m j v q s one a b ih =
        let differs : (m == v.file_hdr.num_pages) ≡ false =
          (let p = q.same_pages in ground (arith, p, a)) in
        let (u, e, z) =
          is_record-answer R v m j q.resident one (subst (λ x. m < x) (sym q.same_pages) a) in
        let c = IsQuiet-trans t v u q z in
        let next : Bool → Step (RmFile S) Rid =
          λ found. if found then pure (rid_at m j) else next_from R rounds m j in
        let path = bind-of (is_record R (rid_at m j)) next v u (marks (record_at v m j)) e in
        rw (differs, if◌then◌else◌)
          (elim (Bool-cases (marks (record_at v m j))) [
            | inl x ↦ subst (IsNextOf t n k) (sym (path ∙ ap (λ f. next f u) x)) (
              rid_at m j,
              refl,
              c,
              inr (
                m,
                j,
                refl,
                s.0,
                a,
                b,
                ap marks (sym (q.same m j)) ∙ x,
                λ p i f g d.
                    absurd (none_between t.file_hdr.num_records_per_page n k m j p i s f g d),
              ),
            )
            | inr x ↦
                (let (rid, r, y, found) = ih u c in
                  subst (IsNextOf t n k) (sym (path ∙ ap (λ f. next f u) x)) (
                    rid,
                    r,
                    IsQuiet-trans t u (next_from R rounds m j u).1 c y,
                    IsNextRecord-extend t u n k m j rid c s
                        (sym (q.same m j) ∙ unmarked (record_at v m j) x) found,
                  ))
          ])

  next_from-IsNextRecord :
      (rounds n k : ℕ) (t : RmFile S)
      → IsResident t
      → 1 ≤ n
      → n < t.file_hdr.num_pages
      → k < t.file_hdr.num_records_per_page
      → t.file_hdr.num_pages * t.file_hdr.num_records_per_page
        ≤ n * t.file_hdr.num_records_per_page + k + rounds
      → IsNextOf t n k (next_from R rounds n k t)
  next_from-IsNextRecord zero n k t w l h b f =
      (let p =
          product_le (suc n) t.file_hdr.num_pages t.file_hdr.num_records_per_page
            (omega (arith, h)) in
        absurd (omega (arith, p, b, f)))
  next_from-IsNextRecord (suc rounds) n k t w l h b f =
      let size = t.file_hdr.num_records_per_page in
      let ih : (m j : ℕ)
          → 1 ≤ m
          → m < t.file_hdr.num_pages
          → j < size
          → t.file_hdr.num_pages * size ≤ m * size + j + rounds
          → (u : RmFile S) → IsQuiet t u
          → IsNextOf u m j (next_from R rounds m j u) =
        λ m j one c d g u q.
          next_from-IsNextRecord rounds m j u q.resident one
            (subst (λ x. m < x) (sym q.same_pages) c) (subst (λ x. j < x) (sym q.same_slots) d)
            (rw (q.same_pages, q.same_slots) g) in
      elim (Bool-cases (ltb (suc k) size)) [
        | inl e ↦
            (let (v, run, q) = advance-slot t n k w l h (ground arith) in
              subst (IsNextOf t n k) (sym (next_from-advance t n k w l h rounds n (suc k) v run)) (
                resume-slot t n k w l h rounds n (suc k) v q (slot-IsStep size n k) l h
                  (ground arith) (ih n (suc k) l h (ground arith) (omega (arith, f)))))
        | inr e ↦
            (let full : suc k ≡ size = ground arith in
              let (v, run, q) = advance-page t n k w l h full in
              subst (IsNextOf t n k) (sym (next_from-advance t n k w l h rounds (suc n) 0 v run))
                (elim (ℕ_discrete (suc n) t.file_hdr.num_pages) [
                  | yes last ↦ resume-end t n k w l h rounds 0 v q last full
                  | no more ↦
                      resume-slot t n k w l h rounds (suc n) 0 v q (page-IsStep size n k full)
                        (omega arith) (omega (arith, h, more)) (omega (arith, b))
                        (ih (suc n) 0 (omega arith) (omega (arith, h, more)) (omega (arith, b))
                          (omega (arith, f, full)))
                ]))
      ]

  -- The step of a scan from a slot of an open file whose pages of records are all in the pool: given as many
  -- rounds of its loop as there are slots left in the file from that slot on, `next` returns the first slot
  -- behind it that holds a record, in the order of pages and slots, or the pair of -1 if no slot does; no
  -- slot of the file changes.
  pub next-IsNextOf :
      (rounds n k : ℕ) (t : RmFile S)
      → IsResident t
      → 1 ≤ n
      → n < t.file_hdr.num_pages
      → k < t.file_hdr.num_records_per_page
      → t.file_hdr.num_pages * t.file_hdr.num_records_per_page
        ≤ n * t.file_hdr.num_records_per_page + k + rounds
      → IsNextOf t n k (next R rounds (rid_at n k) t)
  unfolding next
  next-IsNextOf rounds n k t w l h b f = next_from-IsNextRecord rounds n k t w l h b f
