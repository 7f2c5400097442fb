-- ===== src/Record/Methods.antt =====
-- `get_record`, `update_record` and `delete_record` on a file whose pages the pool holds.
use uni_base.Base.{
  ℕ, ◌≤◌, ◌<◌, ◌≡◌, refl, sym, ap, ◌∙◌, subst, List, Option, none, some, true, false, pos, arith,
}
use uni_base.Errors.{Result, ok, throw, record_not_found, Step, ◌>>=◌, ◌>>◌, bind-of, bind-throws}
use uni_base.Replacer.{Replacer}
use uni_base.Bytes.{slice}
use uni_base.Storage.Page.{Block}
use uni_base.Record.{
  Rid, RmFile, RmFileHdr, bytes, holds_record, put_slot, slot_in_page, write_bytes,
}
use uni_base.Record.Handle.{
  fetch_page_handle, get_record, update_record, read_slot, check_slot, write_slot,
}
use uni_base.Record.Slots.{slot, IsWithin, slot_in_page-below}
use uni_base.Record.Resident.{IsResident, frame, record_at, pinned, fetch_page_handle-resident}
use uni_base.Record.Touches.{Touches-trans, write_bytes-Touches, Touches-IsResident, pinned-Touches}
use uni_base.Record.Rewrites.{
  IsOutcome, IsUpdate, put_slot-IsRewrite, record_at-slot, rewrite-IsUpdate, same-records,
}

-- What `get_record` answers for what a slot holds.
abbrev pub answer : Rid → Option (List ℕ) → Result (List ℕ)
answer rid none = throw (record_not_found rid.page_no rid.slot_no)
answer rid (some r) = ok r

abbrev pub rid_of : ℕ → ℕ → Rid
rid_of n k = record { page_no = pos n; slot_no = pos k }

slot-marked :
    (h : RmFileHdr) (b : Block) (k : ℕ) {r : List ℕ}
    → slot h b k ≡ some r
    → holds_record b (pos k) ≡ true
unfolding slot
slot-marked h b k e = ground arith

slot-unmarked :
    (h : RmFileHdr) (b : Block) (k : ℕ) → slot h b k ≡ none → holds_record b (pos k) ≡ false
unfolding slot
slot-unmarked h b k e = ground arith

module _ {S : Type 0} where
  -- A call of `get_record` answers by what the slot holds, and changes no record.
  abbrev pub IsRead : RmFile S → ℕ → ℕ → Result (List ℕ) × RmFile S → Type 0
  IsRead t n k (r, u) =
      (r ≡ answer (rid_of n k) (record_at t n k))
      × IsResident u
      × ((m j : ℕ) → record_at u m j ≡ record_at t m j)

  read_slot-answer :
      (f n k : ℕ) (u : RmFile S)
      → slot_in_page u.file_hdr (pos k) ≡ true
      → read_slot f (rid_of n k) u ≡ (answer (rid_of n k) (slot u.file_hdr (bytes u f) k), u)
  unfolding read_slot slot
  read_slot-answer f n k u e = ground (arith, e)

  -- A write to a slot in the page.
  pub write_slot-eq :
      (f k : ℕ) (buf : Block) (u : RmFile S)
      → slot_in_page u.file_hdr (pos k) ≡ true
      → write_slot f (pos k) buf u ≡ write_bytes f (λ x b. put_slot x.file_hdr b (pos k) buf) u
  unfolding write_slot
  write_slot-eq f k buf u e = rw (e, write_slot) refl

  check_slot-marked :
      (f n k : ℕ) (u : RmFile S)
      → holds_record (bytes u f) (pos k) ≡ true
      → check_slot f (rid_of n k) u ≡ (ok tt, u)
  unfolding check_slot
  check_slot-marked f n k u e = rw e refl

  check_slot-throws :
      (f n k : ℕ) (u : RmFile S) (next : Step (RmFile S) (Unit {0}))
      → holds_record (bytes u f) (pos k) ≡ false
      → (check_slot f (rid_of n k) >> next) u ≡ (throw (record_not_found (pos n) (pos k)), u)
  unfolding check_slot
  check_slot-throws f n k u next e =
      bind-throws (check_slot f (rid_of n k)) (λ _. next) u u (record_not_found (pos n) (pos k))
        (rw e refl)

module _ (R : Replacer) where
  open R use {S}

  -- A page of records is fetched: what follows runs on its frame.
  pub fetched :
      (t : RmFile S) (n : ℕ)
      → IsResident t
      → 1 ≤ n
      → n < t.file_hdr.num_pages
      → (f : ℕ) × (frame t n ≡ some f)
        × ((A : Type 0) (k : ℕ → Step (RmFile S) A)
            → (fetch_page_handle R (pos n) >>= k) t ≡ k f (pinned R f t))
  fetched t n w l h =
      let (f, e) = w.resident n l h in
      (
        f,
        e,
        λ _ k.
            bind-of (fetch_page_handle R (pos n)) k t (pinned R f t) f
              (fetch_page_handle-resident R t n f w.path w.named h e),
      )

  -- On an open file whose pages of records are all in the pool, with slots that end within the page, `get_record` of
  -- a slot that a page of the file has returns the bytes that the slot holds, or throws `record_not_found` if its bit
  -- is not set; the pages stay in the pool, and no slot of the file changes.
  pub get_record-answer :
      (t : RmFile S) (n k : ℕ)
      → IsResident t
      → 1 ≤ n
      → n < t.file_hdr.num_pages
      → IsWithin t.file_hdr
      → k < t.file_hdr.num_records_per_page
      → IsRead t n k (get_record R (rid_of n k) t)
  unfolding get_record
  get_record-answer t n k w l h i b =
      let (f, e, run) = fetched t n w l h in
      let u = pinned R f t in
      let c = pinned-Touches R f t in
      let path =
        run (List ℕ) (λ g. read_slot g (rid_of n k))
        ∙ read_slot-answer f n k u (slot_in_page-below t.file_hdr k i b) in
      subst (IsRead t n k) (sym path) (
        ap (answer (rid_of n k))
            (ap (λ b. slot t.file_hdr b k) c.here ∙ sym (record_at-slot t n f k e)),
        Touches-IsResident t u f (λ b. b) c w,
        same-records t u n f (λ b. b) w e c (λ j. refl),
      )

  -- The bitmap's mark, seen through the handle, of a slot that holds a record or none.
  pub holds-pinned :
      (t : RmFile S) (n f k : ℕ) {r : List ℕ}
      → frame t n ≡ some f
      → record_at t n k ≡ some r
      → holds_record (bytes (pinned R f t) f) (pos k) ≡ true
  holds-pinned t n f k e d = slot-marked t.file_hdr (bytes (pinned R f t) f) k (
      ap (λ b. slot t.file_hdr b k) (pinned-Touches R f t).here
      ∙ sym (record_at-slot t n f k e)
      ∙ d)

  pub lacks-pinned :
      (t : RmFile S) (n f k : ℕ)
      → frame t n ≡ some f
      → record_at t n k ≡ none
      → holds_record (bytes (pinned R f t) f) (pos k) ≡ false
  lacks-pinned t n f k e d = slot-unmarked t.file_hdr (bytes (pinned R f t) f) k (
      ap (λ b. slot t.file_hdr b k) (pinned-Touches R f t).here
      ∙ sym (record_at-slot t n f k e)
      ∙ d)

  -- What follows the check of the slot, by what the slot holds.
  pub checked-IsOutcome :
      (t : RmFile S) (n f k : ℕ) (new : Option (List ℕ)) (next : Step (RmFile S) (Unit {0}))
      → IsResident t
      → frame t n ≡ some f
      → (holds_record (bytes (pinned R f t) f) (pos k) ≡ true
          → ((next (pinned R f t)).0 ≡ ok tt) × IsUpdate t (next (pinned R f t)).1 n k new)
      → IsOutcome t n k (record_at t n k) new ((check_slot f (rid_of n k) >> next) (pinned R f t))
  checked-IsOutcome t n f k new next w e run = go (record_at t n k) refl
    where
      v : RmFile S
      v = pinned R f t

      go :
          (o : Option (List ℕ))
          → record_at t n k ≡ o
          → IsOutcome t n k o new ((check_slot f (rid_of n k) >> next) v)
      go (some r) d =
          let m = holds-pinned t n f k e d in
          subst (λ (a : Result (Unit {0}) × RmFile S). (a.0 ≡ ok tt) × IsUpdate t a.1 n k new)
            (sym (
              bind-of (check_slot f (rid_of n k)) (λ _. next) v v tt (check_slot-marked f n k v m)))
            (run m)
      go none d =
          let c = pinned-Touches R f t in
          subst
            (λ (a : Result (Unit {0}) × RmFile S).
              (a.0 ≡ throw (record_not_found (pos n) (pos k)))
              × IsResident a.1
              × ((m j : ℕ) → record_at a.1 m j ≡ record_at t m j))
            (sym (check_slot-throws f n k v next (lacks-pinned t n f k e d)))
            (
              refl,
              Touches-IsResident t v f (λ b. b) c w,
              same-records t v n f (λ b. b) w e c (λ j. refl),
            )

  -- On an open file whose pages of records are all in the pool, with slots that end within the page,
  -- `update_record` of a slot that a page of the file has and that holds a record gives the slot the first bytes of
  -- the buffer, and changes no other slot of the file; of one that holds none it throws `record_not_found` and changes
  -- none.
  pub update_record-IsOutcome :
      (t : RmFile S) (n k : ℕ) (buf : Block)
      → IsResident t
      → 1 ≤ n
      → n < t.file_hdr.num_pages
      → IsWithin t.file_hdr
      → k < t.file_hdr.num_records_per_page
      → IsOutcome t n k
          (record_at t n k)
          (some (slice buf 0 t.file_hdr.record_size))
          (update_record R (rid_of n k) buf t)
  unfolding update_record
  update_record-IsOutcome t n k buf w l h i b =
      let (f, e, run) = fetched t n w l h in
      let v = pinned R f t in
      let c = pinned-Touches R f t in
      let new = some (slice buf 0 t.file_hdr.record_size) in
      let write : Step (RmFile S) (Unit {0}) =
        write_bytes f (λ x b. put_slot x.file_hdr b (pos k) buf) in
      let u = (write v).1 in
      let g : Block → Block = λ b. put_slot t.file_hdr b (pos k) buf in
      subst (IsOutcome t n k (record_at t n k) new)
        (sym (run (Unit {0}) (λ g. check_slot g (rid_of n k) >> write_slot g (pos k) buf)))
        (checked-IsOutcome t n f k new (write_slot f (pos k) buf) w e (λ m.
          subst (λ (a : Result (Unit {0}) × RmFile S). (a.0 ≡ ok tt) × IsUpdate t a.1 n k new)
            (sym (write_slot-eq f k buf v (slot_in_page-below t.file_hdr k i b)))
            (
              refl,
              rewrite-IsUpdate t u n f k new g w e
                  (Touches-trans f (λ b. b) g t v u c
                    (write_bytes-Touches f (λ x b. put_slot x.file_hdr b (pos k) buf) v))
                  (put_slot-IsRewrite t.file_hdr (bytes t f) buf k w.markable
                    (ap (λ b. holds_record b (pos k)) (sym c.here) ∙ m)),
            )))
