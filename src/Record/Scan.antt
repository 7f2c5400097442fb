-- ===== src/Record/Scan.antt =====
-- src/record/rm_scan.cpp: the scan of a table over `is_record`. The position after the last record is
-- the pair of -1 and -1. Each loop has a bound that the code gives it: the slots of a page and the
-- pages of the file, and for `next` the positions that are left, which `rounds` bounds. The position is that pair or a slot of
-- a page, as the constructor and `next` leave it.
use uni_base.Base.{
  ℕ, zero, suc, ◌-◌, Option, none, some, Bool, true, false, ite, ltb, if◌then◌else◌, ◌==◌, pos,
  negsuc, minus_one, ℤ-discrete,
}
use uni_base.Errors.{still_running, ok, throw, Step, ◌>>=◌, pure}
use uni_base.Replacer.{Replacer}
use uni_base.Record.{Rid, RmFile, rm_first_record_page}
use uni_base.Record.Handle.{fetch_page_handle, is_record}

abbrev pub no_rid : Rid
no_rid = record { page_no = minus_one; slot_no = minus_one }

abbrev pub rid_at : ℕ → ℕ → Rid
rid_at n k = record { page_no = pos n; slot_no = pos k }

unfoldable pub is_end : Rid → Bool
is_end rid =
    ite (ℤ-discrete rid.page_no minus_one) (ite (ℤ-discrete rid.slot_no minus_one) true false) false

module _ (R : Replacer) where
  open R use {S}

  -- The loop over `left` slots of a page from `k` on.
  unfoldable pub scan_slots : ℕ → ℕ → ℕ → Step (RmFile S) (Option Rid)
  scan_slots n zero k = pure none
  scan_slots n (suc left) k = do
    found ← is_record R (rid_at n k)
    if found then pure (some (rid_at n k)) else scan_slots n left (suc k)

  -- The loop over `left` pages from `n` on.
  unfoldable pub scan_pages : ℕ → ℕ → Step (RmFile S) Rid
  unfolding scan_slots
  scan_pages zero n t = (ok no_rid, t)
  scan_pages (suc left) n t =
      (do
        _ ← fetch_page_handle R (pos n)
        found ← scan_slots n t.file_hdr.num_records_per_page 0
        elim found [ some rid ↦ pure rid | none ↦ scan_pages left (suc n) ])
        t

  unfoldable pub find_first_record : Step (RmFile S) Rid
  unfolding scan_pages
  find_first_record t =
      scan_pages (t.file_hdr.num_pages - rm_first_record_page) rm_first_record_page t

  -- One step of the position in a page of the file.
  unfoldable pub advance : ℕ → ℕ → Step (RmFile S) (ℕ × ℕ)
  advance n k t =
      if ltb n t.file_hdr.num_pages
      then ((do
        _ ← fetch_page_handle R (pos n)
        λ u.
            if ltb (suc k) u.file_hdr.num_records_per_page
            then (ok (n, suc k), u)
            else (ok (suc n, 0), u))
          t)
      else (ok (n, k), t)

  -- The loop of `next` from a position that is not the end.
  unfoldable pub next_from : ℕ → ℕ → ℕ → Step (RmFile S) Rid
  unfolding advance
  next_from zero n k t = (throw still_running, t)
  next_from (suc rounds) n k t =
      (do
        (m, j) ← advance n k
        λ u.
            if m == u.file_hdr.num_pages
            then (ok no_rid, u)
            else ((do
              found ← is_record R (rid_at m j)
              if found then pure (rid_at m j) else next_from rounds m j)
                u))
        t

  unfoldable pub next : ℕ → Rid → Step (RmFile S) Rid
  unfolding next_from
  next rounds rid = elim rid.page_no [
    | negsuc _ ↦ pure no_rid
    | pos n ↦ elim rid.slot_no [ negsuc _ ↦ pure no_rid | pos k ↦ next_from rounds n k ]
  ]
