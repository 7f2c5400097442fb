-- ===== src/Record/Slots.antt =====
-- What the slots of a page hold, and what each write to the page does to them.
use uni_base.Base.{
  ℕ, suc, ◌+◌, ◌*◌, ◌/◌, ◌≤◌, ◌<◌, ◌≡◌, ◌≢◌, inr, ap₂, List, Option, none, some, ◌==◌,
  if◌then◌else◌, ℤ, pos, arith, true,
}
use native.Mathlib.Nat.{div-mul-le_self, le-div_iff_mul-le}
use uni_base.Bytes.{slice, copy_to, put_int, put_int-outside, slice-eq}
use uni_base.Storage.Page.{Block, page_size}
use uni_base.Record.{
  RmFileHdr, new_file_hdr, bitmap_at, get_slot, holds_record, slot_bytes, put_slot, slot_in_page,
}
use uni_base.Record.Bitmap
use uni_base.Record.Bitmap.{is_set-eq, is_set-set, is_set-reset}

-- The record in a slot, if the bitmap marks one.
unfoldable pub slot : RmFileHdr → Block → ℕ → Option (List ℕ)
slot h b k = if holds_record b (pos k) then some (slot_bytes h b (pos k)) else none

-- The bitmap has a bit for each slot.
abbrev pub IsMarkable : RmFileHdr → Type 0
IsMarkable h = h.num_records_per_page ≤ 8 * h.bitmap_size

product_le : (a b c : ℕ) → a ≤ b → a * c ≤ b * c
product_le a b c h = grind arith

-- Two slots do not overlap.
slots_apart : (h : RmFileHdr) (j k : ℕ) → j < k → get_slot h j + h.record_size ≤ get_slot h k
unfolding get_slot
slots_apart h j k l = omega (arith, product_le (suc j) k h.record_size (omega arith))

-- The slots of a page end within the page.
abbrev pub IsWithin : RmFileHdr → Type 0
IsWithin h = get_slot h h.num_records_per_page ≤ page_size

pub slot_in_page-below :
    (h : RmFileHdr) (k : ℕ)
    → IsWithin h
    → k < h.num_records_per_page
    → slot_in_page h (pos k) ≡ true
unfolding slot_in_page
slot_in_page-below h k w l = ground (arith, slots_apart h k h.num_records_per_page l, w)

some_record : (n : ℕ) → n ≤ 512 → 1 ≤ 32601 / (1 + n * 8)
some_record n u = (le-div_iff_mul-le (omega arith)).1 (omega arith)

-- For every record size from 1 to 512 the header of a new file gives a page at least one slot, the
-- bitmap a bit for each slot, and the slots end within the page.
pub new_file_hdr-fits :
    (n : ℕ)
    → 1 ≤ n
    → n ≤ 512
    → let h = new_file_hdr n in (1 ≤ h.num_records_per_page) × IsMarkable h × IsWithin h
unfolding new_file_hdr get_slot
new_file_hdr-fits n l u =
    let above : 32601 / (1 + n * 8) * (1 + n * 8) ≤ 32601 = div-mul-le_self 32601 (1 + n * 8) in
    (some_record n u, omega arith, omega (arith, above))

-- Two pages agree on a slot if they agree on its bit and on its bytes.
slot-eq :
    (h : RmFileHdr) (b c : Block) (k : ℕ)
    → b (bitmap_at + k / 8) ≡ c (bitmap_at + k / 8)
    → ((j : ℕ) → j < h.record_size → b (get_slot h k + j) ≡ c (get_slot h k + j))
    → slot h b k ≡ slot h c k
unfolding slot holds_record slot_bytes
slot-eq h b c k m s =
    ap₂ (λ v r. if v then some r else none) (is_set-eq b c bitmap_at k m)
      (slice-eq b c (get_slot h k) (get_slot h k) h.record_size s)

pub slot-put_int :
    (h : RmFileHdr) (b : Block) (i : ℕ) (v : ℤ) (k : ℕ)
    → i + 4 ≤ bitmap_at
    → slot h (put_int b i v) k ≡ slot h b k
unfolding get_slot
slot-put_int h b i v k l =
    slot-eq h (put_int b i v) b k (put_int-outside b i v (bitmap_at + k / 8) (inr (omega arith)))
      (λ j _. put_int-outside b i v (get_slot h k + j) (inr (omega arith)))

-- The byte of a slot's bit stands before every slot.
bit_in_bitmap :
    (h : RmFileHdr) (k j : ℕ)
    → IsMarkable h
    → k < h.num_records_per_page
    → bitmap_at + k / 8 < get_slot h j
unfolding get_slot
bit_in_bitmap h k j m l = omega arith

-- Writing a slot changes the bytes of that slot alone.
pub holds_record-put_slot :
    (h : RmFileHdr) (b buf : Block) (k j : ℕ)
    → IsMarkable h
    → j < h.num_records_per_page
    → holds_record (put_slot h b (pos k) buf) (pos j) ≡ holds_record b (pos j)
unfolding holds_record put_slot
holds_record-put_slot h b buf k j m l =
    is_set-eq (copy_to b (get_slot h k) buf h.record_size) b bitmap_at j
      (ground (arith, bit_in_bitmap h j k m l))

slice-copied :
    (h : RmFileHdr) (b buf : Block) (k : ℕ)
    → slice (copy_to b (get_slot h k) buf h.record_size) (get_slot h k) h.record_size
      ≡ slice buf 0 h.record_size
slice-copied h b buf k =
    slice-eq (copy_to b (get_slot h k) buf h.record_size) buf (get_slot h k) 0 h.record_size
      (λ i l. ground arith)

slice-uncopied :
    (h : RmFileHdr) (b buf : Block) (k j : ℕ)
    → j ≢ k
    → slice (copy_to b (get_slot h k) buf h.record_size) (get_slot h j) h.record_size
      ≡ slice b (get_slot h j) h.record_size
slice-uncopied h b buf k j n =
    slice-eq (copy_to b (get_slot h k) buf h.record_size) b (get_slot h j) (get_slot h j)
      h.record_size (λ i l. ground (arith, slots_apart h j k, slots_apart h k j))

pub slot_bytes-put_slot :
    (h : RmFileHdr) (b buf : Block) (k j : ℕ)
    → slot_bytes h (put_slot h b (pos k) buf) (pos j)
      ≡ (if j == k then slice buf 0 h.record_size else slot_bytes h b (pos j))
unfolding slot_bytes put_slot
slot_bytes-put_slot h b buf k j = ground (arith, slice-copied h b buf k, slice-uncopied h b buf k j)

-- Marking or clearing a slot changes no bytes of a slot.
pub slot_bytes-set :
    (h : RmFileHdr) (b : Block) (k j : ℕ)
    → IsMarkable h
    → k < h.num_records_per_page
    → slot_bytes h (Bitmap.set b bitmap_at k) (pos j) ≡ slot_bytes h b (pos j)
unfolding slot_bytes Bitmap.set
slot_bytes-set h b k j m l =
    slice-eq (Bitmap.set b bitmap_at k) b (get_slot h j) (get_slot h j) h.record_size
      (λ i _. ground (arith, bit_in_bitmap h k j m l))

pub slot_bytes-reset :
    (h : RmFileHdr) (b : Block) (k j : ℕ)
    → IsMarkable h
    → k < h.num_records_per_page
    → slot_bytes h (Bitmap.reset b bitmap_at k) (pos j) ≡ slot_bytes h b (pos j)
unfolding slot_bytes Bitmap.reset
slot_bytes-reset h b k j m l =
    slice-eq (Bitmap.reset b bitmap_at k) b (get_slot h j) (get_slot h j) h.record_size
      (λ i _. ground (arith, bit_in_bitmap h k j m l))
