-- ===== src/Record/Scanning.antt =====
-- The scan of a file starts at its first record.
use uni_base.Base.{
  ℕ, zero, suc, ◌+◌, ◌≤◌, ◌<◌, ◌≡◌, refl, sym, ap, ◌∙◌, subst, Option, none, some, arith,
  ℕ_discrete, Option-cases, ◌-◌, inl, inr,
}
use uni_base.Errors.{Result, ok, Step, ◌>>=◌, bind-of, pure}
use uni_base.Replacer.{Replacer}
use uni_base.Record.{Rid, RmFile}
use uni_base.Record.Resident.{IsResident, frame, record_at, pinned}
use uni_base.Record.Touches.{pinned-Touches, Touches-IsResident}
use uni_base.Record.Rewrites.{same-records}
use uni_base.Record.Methods.{fetched}
use uni_base.Record.Scan.{no_rid, scan_slots, scan_pages, find_first_record}
use uni_base.Record.ScanSlots.{
  marks, IsQuiet, IsFirst, IsFirstRecord, IsQuiet-trans, scan_slots-IsFirst,
}

module _ (R : Replacer) where
  open R use {S}

  pub pinned-IsQuiet :
      (t : RmFile S) (n f : ℕ) → IsResident t → frame t n ≡ some f → IsQuiet t (pinned R f t)
  pinned-IsQuiet t n f w e =
      let c = pinned-Touches R f t in
      record {
        resident = Touches-IsResident t (pinned R f t) f (λ b. b) c w;
        same_pages = refl;
        same_slots = refl;
        same = same-records t (pinned R f t) n f (λ b. b) w e c (λ j. refl);
      }

  -- A page without records comes before the pages that were looked through.
  IsFirstRecord-extend :
      (t u : RmFile S) (n left : ℕ) (rid : Rid)
      → IsQuiet t u
      → ((j : ℕ) → j < t.file_hdr.num_records_per_page → record_at t n j ≡ none)
      → IsFirstRecord u (suc n) left rid
      → IsFirstRecord t n (suc left) rid
  IsFirstRecord-extend t u n left rid q e (inl (r, h)) = inl (
    r,
    λ m j a b c. elim (ℕ_discrete n m) [
      | yes x ↦ subst (λ x. record_at t x j ≡ none) x (e j c)
      | no x ↦
          sym (q.same m j)
          ∙ h m j (omega (arith, a, x)) (omega (arith, b)) (subst (λ s. j < s) (sym q.same_slots) c)
    ],
  )
  IsFirstRecord-extend t u n left rid q e (inr (m, j, r, a, b, z, d, before, pages)) = inr (
    m,
    j,
    r,
    omega (arith, a),
    omega (arith, b),
    subst (λ s. j < s) q.same_slots z,
    ap marks (sym (q.same m j)) ∙ d,
    λ i c. sym (q.same m i) ∙ before i c,
    λ p i x y c. elim (ℕ_discrete n p) [
      | yes w ↦ subst (λ z. record_at t z i ≡ none) w (e i c)
      | no z ↦
          sym (q.same p i)
          ∙ pages p i (omega (arith, x, z)) y (subst (λ s. i < s) (sym q.same_slots) c)
    ],
  )

  scan_pages-IsFirstRecord :
      (left n : ℕ) (t : RmFile S)
      → IsResident t
      → 1 ≤ n
      → n + left ≤ t.file_hdr.num_pages
      → (rid : Rid) × (u : RmFile S) × (scan_pages R left n t ≡ (ok rid, u))
        × IsQuiet t u
        × IsFirstRecord t n left rid
  unfolding scan_pages
  scan_pages-IsFirstRecord zero n t w l h = (
    no_rid,
    t,
    refl,
    record { resident = w; same_pages = refl; same_slots = refl; same = λ m j. refl },
    inl (refl, λ m j a b c. absurd (omega (arith, a, b))),
  )
  scan_pages-IsFirstRecord (suc left) n t w l h =
      let size = t.file_hdr.num_records_per_page in
      let (f, e, run) = fetched R t n w l (omega (arith, h)) in
      let v = pinned R f t in
      let p = pinned-IsQuiet t n f w e in
      let (o, u, r, q, first) = scan_slots-IsFirst R v n size 0 p.resident l (omega (arith, h)) in
      let a = IsQuiet-trans t v u p q in
      let next : Option Rid → Step (RmFile S) Rid =
        λ o. elim o [ some rid ↦ pure rid | none ↦ scan_pages R left (suc n) ] in
      let path : scan_pages R (suc left) n t ≡ next o u =
        run Rid (λ _. scan_slots R n size 0 >>= next)
        ∙ bind-of (scan_slots R n size 0) next v u o r in
      elim (Option-cases o) [
        | inr (rid, d) ↦
            let (j, same, _, below, m, before) = subst (IsFirst v n size 0) d first in
            (
              rid,
              u,
              path ∙ ap (λ x. next x u) d,
              a,
              inr (
                n,
                j,
                same,
                omega arith,
                omega arith,
                omega (arith, below),
                ap marks (sym (p.same n j)) ∙ m,
                λ i c. sym (p.same n i) ∙ before i (omega arith) c,
                λ _ _ x y _. absurd (omega (arith, x, y)),
              ),
            )
        | inl d ↦
            let bare = subst (IsFirst v n size 0) d first in
            let (rid, z, s, b, later) =
              scan_pages-IsFirstRecord left (suc n) u a.resident (omega arith)
                (subst (λ x. suc n + left ≤ x) (sym a.same_pages) (omega (arith, h))) in
            (
              rid,
              z,
              path ∙ ap (λ x. next x u) d ∙ s,
              IsQuiet-trans t u z a b,
              IsFirstRecord-extend t u n left rid a
                  (λ j c. sym (p.same n j) ∙ bare j (omega arith) (omega (arith, c))) later,
            )
      ]

  -- What `find_first_record` returns: the first slot of the file that holds a record, in the order of
  -- the pages and slots, or the pair of -1 if no slot does. It changes no record.
  abbrev pub IsFound : RmFile S → Result Rid × RmFile S → Type 0
  IsFound t (r, u) =
      (rid : Rid) × (r ≡ ok rid) × IsQuiet t u × IsFirstRecord t 1 (t.file_hdr.num_pages - 1) rid

  -- On an open file with at least its header page, whose pages of records are all in the pool,
  -- `find_first_record` returns the first slot that holds a record, in the order of pages and slots,
  -- or the pair of -1 if no slot does; no slot of the file changes.
  pub find_first_record-IsFound :
      (t : RmFile S) → IsResident t → 1 ≤ t.file_hdr.num_pages → IsFound t (find_first_record R t)
  unfolding find_first_record
  find_first_record-IsFound t w h =
      let (rid, u, e, q, first) =
        scan_pages-IsFirstRecord (t.file_hdr.num_pages - 1) 1 t w (omega arith)
          (omega (arith, h)) in
      subst (IsFound t) (sym e) (rid, refl, q, first)
