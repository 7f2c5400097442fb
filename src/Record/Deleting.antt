-- ===== src/Record/Deleting.antt =====
-- `delete_record` on a file whose pages the pool holds.
use uni_base.Base.{ℕ, ◌≤◌, ◌<◌, ◌≡◌, refl, sym, ◌∙◌, subst, none, ℤ, pos, arith, ite, ℤ-discrete}
use uni_base.Errors.{Result, ok, ◌>>◌}
use uni_base.Replacer.{Replacer}
use uni_base.Bytes.{put_int, get_int}
use uni_base.Storage.Page.{Block}
use uni_base.Record.{
  RmFile, RmFileHdr, bytes, bitmap_at, set_first_free, set_next_free, decrement, num_records_at,
  next_free_at, page_no_of,
}
use uni_base.Record.Handle.{
  delete_record, check_slot, clear_slot, decrement_num_records, release_if_was_full,
  release_page_handle,
}
use uni_base.Record.Bitmap
use uni_base.Record.Slots.{slot-put_int}
use uni_base.Record.Resident.{IsResident, record_at, pinned}
use uni_base.Record.Touches.{
  Touches, Touches-trans, write_bytes-Touches, set_first_free-Touches, pinned-Touches,
}
use uni_base.Record.Methods.{rid_of, fetched, checked-IsOutcome}
use uni_base.Record.Rewrites.{IsSamePage, IsOutcome, rewrite-IsUpdate, reset-IsRewrite}

module _ {S : Type 0} where
  -- A step that returns and changes at most the headers of the page in the frame, and of the file.
  abbrev pub IsHeaderStep : ℕ → RmFile S → Result (Unit {0}) × RmFile S → Type 0
  IsHeaderStep f t (r, u) =
      (r ≡ ok tt)
      × ((g : Block → Block) × Touches f g t u
          × ((h : RmFileHdr) (b : Block) → IsSamePage h b (g b)))

  pub set_first_free-IsHeaderStep :
      (f : ℕ) (n : ℤ) (t : RmFile S) → IsHeaderStep f t (set_first_free n t)
  set_first_free-IsHeaderStep f n t =
      (refl, ((λ b. b), set_first_free-Touches f n t, λ h b j. refl))

  pub pass-IsHeaderStep : (f : ℕ) (t : RmFile S) → IsHeaderStep f t (ok tt, t)
  pass-IsHeaderStep f t =
      (refl, ((λ b. b), set_first_free-Touches f t.file_hdr.first_free_page_no t, λ h b j. refl))

  release_page_handle-IsHeaderStep :
      (f : ℕ) (t : RmFile S) → IsHeaderStep f t (release_page_handle f t)
  unfolding release_page_handle
  release_page_handle-IsHeaderStep f t =
      let v = (set_first_free (page_no_of t f) t).1 in
      let n = t.file_hdr.first_free_page_no in
      (
        refl,
        (
          (λ b. put_int b next_free_at n),
          Touches-trans f (λ b. b) (λ b. put_int b next_free_at n) t v (set_next_free f n v).1
              (set_first_free-Touches f (page_no_of t f) t)
              (write_bytes-Touches f (λ _ b. put_int b next_free_at n) v),
          λ h b j. slot-put_int h b next_free_at n j (omega arith),
        ),
      )

  release_if_was_full-IsHeaderStep :
      (f : ℕ) (t : RmFile S) → IsHeaderStep f t (release_if_was_full f t)
  unfolding release_if_was_full
  release_if_was_full-IsHeaderStep f t =
      elim (ℤ-discrete (get_int (bytes t f) num_records_at)
          (decrement (pos t.file_hdr.num_records_per_page)))
        as (λ d. IsHeaderStep f t (ite d (release_page_handle f t) (ok tt, t))) [
          | yes _ ↦ release_page_handle-IsHeaderStep f t
          | no _ ↦ pass-IsHeaderStep f t
        ]

module _ (R : Replacer) where
  open R use {S}

  -- On an open file whose pages of records are all in the pool, `delete_record` of a slot of a page
  -- of the file that holds a record leaves the slot without one, and changes no other slot of the
  -- file; of a slot that holds none it throws `record_not_found` and changes none.
  pub delete_record-IsOutcome :
      (t : RmFile S) (n k : ℕ)
      → IsResident t
      → 1 ≤ n
      → n < t.file_hdr.num_pages
      → k < t.file_hdr.num_records_per_page
      → IsOutcome t n k (record_at t n k) none (delete_record R (rid_of n k) t)
  unfolding delete_record clear_slot decrement_num_records
  delete_record-IsOutcome t n k w l h b =
      let (f, e, run) = fetched R t n w l h in
      let v = pinned R f t in
      let next = clear_slot f (pos k) >> (decrement_num_records f >> release_if_was_full f) in
      let reset : Block → Block = λ b. Bitmap.reset b bitmap_at k in
      let count : Block → Block =
        λ b. put_int b num_records_at (decrement (get_int b num_records_at)) in
      let x = (clear_slot f (pos k) v).1 in
      let y = (decrement_num_records f x).1 in
      let z = release_if_was_full f y in
      let (r, (g, c, s)) = release_if_was_full-IsHeaderStep f y in
      let to_x =
        Touches-trans f (λ b. b) reset t v x (pinned-Touches R f t)
          (write_bytes-Touches f (λ _ b. Bitmap.reset b bitmap_at k) v) in
      let to_y = Touches-trans f reset count t x y to_x (write_bytes-Touches f (λ _. count) x) in
      let to_z = Touches-trans f (λ b. count (reset b)) g t y z.1 to_y c in
      subst (IsOutcome t n k (record_at t n k) none)
        (sym (
          run (Unit {0}) (λ g.
            check_slot g (rid_of n k)
            >> (clear_slot g (pos k) >> (decrement_num_records g >> release_if_was_full g)))))
        (checked-IsOutcome R t n f k none next w e (λ _. (
          r,
          rewrite-IsUpdate t z.1 n f k none (λ b. g (count (reset b))) w e to_z
              (λ j m.
                s t.file_hdr (count (reset (bytes t f))) j
                ∙ slot-put_int t.file_hdr (reset (bytes t f)) num_records_at
                    (decrement (get_int (reset (bytes t f)) num_records_at)) j (omega arith)
                ∙ reset-IsRewrite t.file_hdr (bytes t f) k w.markable b j m),
        )))
