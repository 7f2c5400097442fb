-- ===== src/Record/Iteration.antt =====
-- A whole scan: from the first record on, `next` until the end.
use uni_base.Base.{
  ℕ, zero, suc, ◌+◌, ◌-◌, ◌*◌, ◌≤◌, ◌<◌, ◌≡◌, refl, sym, ap, subst, ◌∙◌, fun_ext, List, [], ◌∷◌,
  Bool, true, false, inl, inr, ℕ_discrete, ℤ-discrete, arith,
}
use native.Mathlib.Nat.{suc-mul}
use uni_base.Errors.{Result, ok, throw, still_running, Step, ◌>>=◌, bind-of, pure}
use uni_base.Replacer.{Replacer}
use uni_base.Record.{Rid, RmFile}
use uni_base.Record.Resident.{IsResident, record_at}
use uni_base.Record.Scan.{no_rid, rid_at, is_end, find_first_record, next}
use uni_base.Record.ScanSlots.{marks, IsQuiet, IsQuiet-trans}
use uni_base.Record.Scanning.{find_first_record-IsFound}
use uni_base.Record.Positions.{after}
use uni_base.Record.NextRecord.{product_le, next-IsNextOf}
use uni_base.Record.Listing.{
  page_records, records_behind, records_behind-none, records_behind-first, page_records-none,
  page_records-first,
}

-- Where the file holds a record.
abbrev pub marked : {S : Type 0} → RmFile S → ℕ → ℕ → Bool
marked t p i = marks (record_at t p i)

-- The records of the file, page by page and slot by slot, from the first page of records on.
abbrev pub records : {S : Type 0} → RmFile S → List Rid
records t = page_records (marked t) t.file_hdr.num_records_per_page (t.file_hdr.num_pages - 1) 1

abbrev behind : {S : Type 0} → RmFile S → ℕ → ℕ → List Rid
behind t = records_behind (marked t) t.file_hdr.num_records_per_page t.file_hdr.num_pages

after-page : (n k m j : ℕ) → 1 ≤ n → after n k m j ≡ true → 1 ≤ m
after-page n k m j l a = ground (arith, l, a)

module _ (R : Replacer) where
  open R use {S}

  -- `while (!scan.is_end()) { rids.push_back(scan.rid()); scan.next(); }`, with a bound on the rounds and on those
  -- of `next`.
  unfoldable pub collect_rids : ℕ → ℕ → Rid → Step (RmFile S) (List Rid)
  collect_rids zero rounds rid t = (throw still_running, t)
  collect_rids (suc steps) rounds rid t = elim (is_end rid) [
    | true ↦ (ok [], t)
    | false ↦
        (next R rounds rid >>= λ r. collect_rids steps rounds r >>= λ rest. pure (rid ∷ rest)) t
  ]

  -- The constructor of the scan, and the loop.
  unfoldable pub scan : ℕ → ℕ → Step (RmFile S) (List Rid)
  unfolding collect_rids
  scan steps rounds = find_first_record R >>= collect_rids steps rounds

  -- The call returns the list and leaves the records.
  abbrev pub IsListed : RmFile S → List Rid → Result (List Rid) × RmFile S → Type 0
  IsListed t rids (r, u) = (r ≡ ok rids) × IsQuiet t u

  marked-IsQuiet : (t u : RmFile S) → IsQuiet t u → marked u ≡ marked t
  marked-IsQuiet t u q = fun_ext (λ p. fun_ext (λ i. ap marks (q.same p i)))

  records_behind-IsQuiet : (t u : RmFile S) (n k : ℕ) → IsQuiet t u → behind u n k ≡ behind t n k
  records_behind-IsQuiet t u n k q = rw (marked-IsQuiet t u q, q.same_pages, q.same_slots) refl

  -- One round of the loop.
  unrolled :
      (t : RmFile S) (steps rounds : ℕ) (rid : Rid)
      → is_end rid ≡ false
      → collect_rids (suc steps) rounds rid t
        ≡ (next R rounds rid >>= λ r. collect_rids steps rounds r >>= λ rest. pure (rid ∷ rest)) t
  unfolding collect_rids
  unrolled t steps rounds rid e = λ i.
      let x : Result (List Rid) × RmFile S = elim (e i) [
        | true ↦ (ok [], t)
        | false ↦
            (next R rounds rid >>= λ r. collect_rids steps rounds r >>= λ rest. pure (rid ∷ rest)) t
      ] in
      x

  listed :
      (t u : RmFile S) (steps rounds : ℕ) (rid r : Rid) (rids : List Rid)
      → is_end rid ≡ false
      → next R rounds rid t ≡ (ok r, u)
      → IsQuiet t u
      → IsListed u rids (collect_rids steps rounds r u)
      → IsListed t (rid ∷ rids) (collect_rids (suc steps) rounds rid t)
  listed t u steps rounds rid r rids e path q (a, b) =
      let v = (collect_rids steps rounds r u).1 in
      let push : List Rid → Step (RmFile S) (List Rid) = λ rest. pure (rid ∷ rest) in
      subst (IsListed t (rid ∷ rids))
        (sym (
          unrolled t steps rounds rid e
          ∙ bind-of (next R rounds rid) (λ r. collect_rids steps rounds r >>= push) t u r path
          ∙ bind-of (collect_rids steps rounds r) push u v rids (λ i. (a i, v))))
        (refl, IsQuiet-trans t u v q b)

  ended :
      (t : RmFile S) (steps rounds : ℕ)
      → IsResident t
      → 1 ≤ steps
      → IsListed t [] (collect_rids steps rounds no_rid t)
  unfolding collect_rids is_end ℤ-discrete ℕ_discrete
  ended t zero rounds w h = absurd (omega (arith, h))
  ended t (suc steps) rounds w h =
      (refl, record { resident = w; same_pages = refl; same_slots = refl; same = λ m j. refl })

  not_end : (n k : ℕ) → is_end (rid_at n k) ≡ false
  unfolding is_end ℤ-discrete
  not_end n k = refl

  position_lt : (size n k m j : ℕ) → after n k m j ≡ true → k < size → n * size + k < m * size + j
  position_lt size n k m j a b = elim (ℕ_discrete n m) [
    | yes e ↦
        let same : n * size ≡ m * size = ap (λ x. x * size) e in
        let later : k < j = ground (arith, a, e) in omega (arith, same, later)
    | no e ↦
        let far : suc n ≤ m = ground (arith, a, e) in
        let p = product_le (suc n) m size far in let s = suc-mul n size in omega (arith, p, s, b)
  ]

  collect_rids-IsListed :
      (steps rounds n k : ℕ) (t : RmFile S)
      → IsResident t
      → 1 ≤ n
      → n < t.file_hdr.num_pages
      → k < t.file_hdr.num_records_per_page
      → t.file_hdr.num_pages * t.file_hdr.num_records_per_page
        < n * t.file_hdr.num_records_per_page + k + steps
      → t.file_hdr.num_pages * t.file_hdr.num_records_per_page ≤ rounds
      → IsListed t (rid_at n k ∷ behind t n k) (collect_rids steps rounds (rid_at n k) t)
  collect_rids-IsListed zero rounds n k t w l h b f g =
      (let p = product_le (suc n) t.file_hdr.num_pages t.file_hdr.num_records_per_page h in
        let s = suc-mul n t.file_hdr.num_records_per_page in absurd (omega (arith, p, s, b, f)))
  collect_rids-IsListed (suc steps) rounds n k t w l h b f g =
      let (r, e, q, found) = next-IsNextOf R rounds n k t w l h b (omega (arith, g)) in
      let u = (next R rounds (rid_at n k) t).1 in
      let path : next R rounds (rid_at n k) t ≡ (ok r, u) = λ i. (e i, u) in
      elim found [
        | inl (x, y) ↦
            (let p = product_le (suc n) t.file_hdr.num_pages t.file_hdr.num_records_per_page h in
              let s = suc-mul n t.file_hdr.num_records_per_page in
              subst
                (λ rids.
                  IsListed t (rid_at n k ∷ rids) (collect_rids (suc steps) rounds (rid_at n k) t))
                (sym (
                  records_behind-none (marked t) t.file_hdr.num_records_per_page
                    t.file_hdr.num_pages n k (λ m j a c d. ap marks (y m j a c d)) h b))
                (listed t u steps rounds (rid_at n k) r [] (not_end n k) path q (
                  subst (λ r. IsListed u [] (collect_rids steps rounds r u)) (sym x)
                    (ended u steps rounds q.resident (omega (arith, p, s, b, f))))))
        | inr (m, j, x, a, c, d, y, z) ↦
            (let ih =
                collect_rids-IsListed steps rounds m j u q.resident (after-page n k m j l a)
                  (subst (λ x. m < x) (sym q.same_pages) c)
                  (subst (λ x. j < x) (sym q.same_slots) d)
                  (rw (q.same_pages, q.same_slots)
                    (omega (arith, f, position_lt t.file_hdr.num_records_per_page n k m j a b)))
                  (rw (q.same_pages, q.same_slots) g) in
              let rest =
                ap (λ rids. rid_at m j ∷ rids) (records_behind-IsQuiet t u m j q)
                ∙ sym (
                    records_behind-first (marked t) t.file_hdr.num_records_per_page
                      t.file_hdr.num_pages n k m j a c d y (λ p i f g e. ap marks (z p i f g e)) h
                      b) in
              listed t u steps rounds (rid_at n k) r (behind t n k) (not_end n k) path q (
                subst (λ r. IsListed u (behind t n k) (collect_rids steps rounds r u)) (sym x)
                  (subst (λ rids. IsListed u rids (collect_rids steps rounds (rid_at m j) u)) rest
                    ih)))
      ]

  -- On an open file with at least its header page, whose pages of records are all in the pool, given more rounds than
  -- the file has slots: a scan, from its constructor on and by `next` until `is_end`, comes to its end. It visits
  -- every slot that holds a record and no other, each once, in the order of pages and slots, and no slot changes.
  pub scan-IsListed :
      (steps rounds : ℕ) (t : RmFile S)
      → IsResident t
      → 1 ≤ t.file_hdr.num_pages
      → t.file_hdr.num_pages * t.file_hdr.num_records_per_page < steps
      → t.file_hdr.num_pages * t.file_hdr.num_records_per_page ≤ rounds
      → IsListed t (records t) (scan steps rounds t)
  unfolding scan
  scan-IsListed steps rounds t w h f g =
      let pages = t.file_hdr.num_pages in
      let size = t.file_hdr.num_records_per_page in
      let (r, e, q, found) = find_first_record-IsFound R t w h in
      let u = (find_first_record R t).1 in
      let total : 1 + (pages - 1) ≡ pages = omega (arith, h) in
      subst (IsListed t (records t))
        (sym (bind-of (find_first_record R) (collect_rids steps rounds) t u r (λ i. (e i, u))))
        (elim found [
          | inl (x, y) ↦
              let none_marked =
                page_records-none (marked t) size (pages - 1) 1
                  (λ p i a b c. ap marks (y p i a b c)) in
              let done = ended u steps rounds q.resident (omega (arith, f)) in
              subst (λ rids. IsListed t rids (collect_rids steps rounds r u)) (sym none_marked)
                (subst (λ r. IsListed t [] (collect_rids steps rounds r u)) (sym x)
                  (done.0, IsQuiet-trans t u (collect_rids steps rounds no_rid u).1 q done.1))
          | inr (m, j, x, a, b, c, d, y, z) ↦
              let first =
                page_records-first (marked t) size (pages - 1) 1 m j
                  (λ p i x y v. ap marks (z p i x y v)) (λ i x. ap marks (y i x)) a b c d
                ∙ ap (λ p. rid_at m j ∷ records_behind (marked t) size p m j) total in
              let there : m < pages = omega (arith, b, h) in
              let done =
                collect_rids-IsListed steps rounds m j u q.resident a
                  (subst (λ x. m < x) (sym q.same_pages) there)
                  (subst (λ x. j < x) (sym q.same_slots) c)
                  (rw (q.same_pages, q.same_slots) (omega (arith, f)))
                  (rw (q.same_pages, q.same_slots) g) in
              let rids =
                ap (λ rids. rid_at m j ∷ rids) (records_behind-IsQuiet t u m j q) ∙ sym first in
              subst (λ r. IsListed t (records t) (collect_rids steps rounds r u)) (sym x)
                (
                  done.0 ∙ ap ok rids,
                  IsQuiet-trans t u (collect_rids steps rounds (rid_at m j) u).1 q done.1,
                )
        ])
