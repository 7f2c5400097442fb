-- ===== src/Record/Rewrites.antt =====
-- Writes to a page as changes of one slot, and what they make of the records of a file.
use uni_base.Base.{
  ℕ, ◌<◌, ◌≡◌, ◌≢◌, sym, ap, ◌∙◌, subst, List, Option, none, some, true, pos, ◌==◌, if◌then◌else◌,
  arith, ℕ_discrete,
}
use uni_base.Errors.{Result, ok, throw, record_not_found}
use uni_base.Bytes.{slice}
use uni_base.Storage.Page.{Block}
use uni_base.Record.{RmFile, RmFileHdr, bytes, holds_record, put_slot, bitmap_at}
use uni_base.Record.Bitmap
use uni_base.Record.Bitmap.{is_set-set, is_set-reset}
use uni_base.Record.Slots.{
  slot, IsMarkable, holds_record-put_slot, slot_bytes-put_slot, slot_bytes-set, slot_bytes-reset,
}
use uni_base.Record.Resident.{IsResident, frame, record_in, record_at}
use uni_base.Record.Touches.{Touches, Touches-IsResident, record_at-here, record_at-elsewhere}

-- The page `c` holds in each slot what `b` holds, but `o` in the slot `k`.
abbrev pub IsRewrite : RmFileHdr → Block → ℕ → Option (List ℕ) → Block → Type 0
IsRewrite h b k o c =
    (j : ℕ) → j < h.num_records_per_page → slot h c j ≡ (if j == k then o else slot h b j)

-- The page `c` holds in each slot what `b` holds.
abbrev pub IsSamePage : RmFileHdr → Block → Block → Type 0
IsSamePage h b c = (j : ℕ) → slot h c j ≡ slot h b j

pub put_slot-IsRewrite :
    (h : RmFileHdr) (b buf : Block) (k : ℕ)
    → IsMarkable h
    → holds_record b (pos k) ≡ true
    → IsRewrite h b k (some (slice buf 0 h.record_size)) (put_slot h b (pos k) buf)
unfolding slot
put_slot-IsRewrite h b buf k m e j l =
    ground (arith, e, holds_record-put_slot h b buf k j m l, slot_bytes-put_slot h b buf k j)

pub reset-IsRewrite :
    (h : RmFileHdr) (b : Block) (k : ℕ)
    → IsMarkable h
    → k < h.num_records_per_page
    → IsRewrite h b k none (Bitmap.reset b bitmap_at k)
unfolding slot holds_record
reset-IsRewrite h b k m l j _ =
    ground (arith, is_set-reset b bitmap_at k j, slot_bytes-reset h b k j m l)

pub set-IsRewrite :
    (h : RmFileHdr) (b buf : Block) (k : ℕ)
    → IsMarkable h
    → k < h.num_records_per_page
    → IsRewrite h b k
        (some (slice buf 0 h.record_size))
        (Bitmap.set (put_slot h b (pos k) buf) bitmap_at k)
unfolding slot holds_record
set-IsRewrite h b buf k m l j d = ground (
  arith,
  is_set-set (put_slot h b (pos k) buf) bitmap_at k j,
  slot_bytes-set h (put_slot h b (pos k) buf) k j m l,
  slot_bytes-put_slot h b buf k j,
  holds_record-put_slot h b buf k j m d,
)

module _ {S : Type 0} where
  -- The file `u` holds in each slot what `t` holds, but `o` in the slot `k` of the page `n`. Its header
  -- is that of `t`, but for the first free page.
  pub record IsUpdate (t u : RmFile S) (n k : ℕ) (o : Option (List ℕ)) : Type 0 where
    pub resident : IsResident u
    pub there :
        (j : ℕ)
        → j < t.file_hdr.num_records_per_page
        → record_at u n j ≡ (if j == k then o else record_at t n j)
    pub elsewhere : (m j : ℕ) → m ≢ n → record_at u m j ≡ record_at t m j
    pub same_hdr :
        u.file_hdr ≡ record t.file_hdr { first_free_page_no = u.file_hdr.first_free_page_no }

  -- A call of `update_record` or `delete_record` on a slot that held `old`: it writes `new`, or throws.
  abbrev pub IsOutcome :
      RmFile S → ℕ → ℕ → Option (List ℕ) → Option (List ℕ) → Result (Unit {0}) × RmFile S → Type 0
  IsOutcome t n k (some old) new (r, u) = (r ≡ ok tt) × IsUpdate t u n k new
  IsOutcome t n k none new (r, u) =
      (r ≡ throw (record_not_found (pos n) (pos k)))
      × IsResident u
      × ((m j : ℕ) → record_at u m j ≡ record_at t m j)

  pub record_at-slot :
      (t : RmFile S) (n f k : ℕ)
      → frame t n ≡ some f
      → record_at t n k ≡ slot t.file_hdr (bytes t f) k
  unfolding record_in
  record_at-slot t n f k e = ap (λ o. record_in t o k) e

  pub rewrite-IsUpdate :
      (t u : RmFile S) (n f k : ℕ) (o : Option (List ℕ)) (g : Block → Block)
      → IsResident t
      → frame t n ≡ some f
      → Touches f g t u
      → IsRewrite t.file_hdr (bytes t f) k o (g (bytes t f))
      → IsUpdate t u n k o
  rewrite-IsUpdate t u n f k o g w e c r = record {
    resident = Touches-IsResident t u f g c w;
    there = λ j l.
        record_at-here t u f g c n j e
        ∙ r j l
        ∙ ap (λ x. if j == k then o else x) (sym (record_at-slot t n f j e));
    elsewhere = λ m j d. record_at-elsewhere t u f g c n m j w e d;
    same_hdr = c.same_hdr;
  }

  pub same-records :
      (t u : RmFile S) (n f : ℕ) (g : Block → Block)
      → IsResident t
      → frame t n ≡ some f
      → Touches f g t u
      → IsSamePage t.file_hdr (bytes t f) (g (bytes t f))
      → (m j : ℕ) → record_at u m j ≡ record_at t m j
  same-records t u n f g w e c r m j = elim (ℕ_discrete m n) [
    | yes d ↦
        subst (λ x. record_at u x j ≡ record_at t x j) (sym d)
          (record_at-here t u f g c n j e ∙ r j ∙ sym (record_at-slot t n f j e))
    | no d ↦ record_at-elsewhere t u f g c n m j w e d
  ]
