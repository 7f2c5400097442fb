-- ===== src/Record.antt =====
-- src/record: the tables' files of fixed-size records. A `RmFileHandle` changes its own header and
-- the buffer pool, so that its methods are steps on the two together. A page handle is the number of
-- the frame, and its pointers are offsets into the page.
pub mod Bitmap
pub mod Handle
pub mod Insert
pub mod Slots
pub mod Resident
pub mod Touches
pub mod Rewrites
pub mod Methods
pub mod Deleting
pub mod Inserting
pub mod Reading
pub mod Scan
pub mod ScanSlots
pub mod Scanning
pub mod Positions
pub mod NextRecord
pub mod Listing
pub mod Iteration
pub mod Manager
use uni_base.Base.{
  ℕ, zero, suc, ◌+◌, ◌-◌, ◌*◌, ◌/◌, List, [], ◌∷◌, Option, none, some, Bool, true, false, ite, not,
  leb, ◌||◌, ◌==◌, ltb, if◌then◌else◌, ℤ, pos, negsuc, minus_one, is_neg, ℤ-discrete,
}
use uni_base.Errors.{
  Str, Error, record_not_found, page_not_exist, undefined_behaviour, still_running, Result, ok,
  throw, Step, ◌>>=◌, ◌>>◌, pure,
}
use uni_base.Replacer.{Replacer}
use uni_base.Bytes.{slice, copy_to, get_int, put_int}
use uni_base.Storage.Page.{Block, Page, PageId, page_size}
use uni_base.Storage.Disk.{increment, get_file_name}
use uni_base.Storage.Pool.{Pool, M, with_page}
use uni_base.Storage.Pool
use uni_base.Record.Bitmap

pub record Rid : Type 0 where
  pub page_no : ℤ
  pub slot_no : ℤ

-- `first_free_page_no` is -1 where no page has room. The counts are never negative.
pub record RmFileHdr : Type 0 where
  pub record_size : ℕ
  pub num_pages : ℕ
  pub num_records_per_page : ℕ
  pub first_free_page_no : ℤ
  pub bitmap_size : ℕ

abbrev pub rm_no_page : ℤ
rm_no_page = minus_one

abbrev pub rm_first_record_page : ℕ
rm_first_record_page = 1

abbrev pub rm_max_record_size : ℕ
rm_max_record_size = 512

-- The header that `RmManager::create_file` writes: `sizeof(RmFileHdr)` is 20.
unfoldable pub new_file_hdr : ℕ → RmFileHdr
new_file_hdr record_size =
    let n = (8 * (page_size - 1 - 20) + 1) / (1 + record_size * 8) in
    record {
      record_size = record_size;
      num_pages = 1;
      num_records_per_page = n;
      first_free_page_no = rm_no_page;
      bitmap_size = (n + 8 - 1) / 8;
    }

-- Where the parts of a page stand: the page header at OFFSET_PAGE_HDR, its two `int`s, the bitmap
-- after them and the slots after the bitmap.
abbrev pub next_free_at : ℕ
next_free_at = 4

abbrev pub num_records_at : ℕ
num_records_at = 8

abbrev pub bitmap_at : ℕ
bitmap_at = 12

unfoldable pub get_slot : RmFileHdr → ℕ → ℕ
get_slot h slot_no = bitmap_at + h.bitmap_size + slot_no * h.record_size

-- `--` on an `int`, which a count of records never takes below its range.
unfoldable pub decrement : ℤ → ℤ
decrement (pos zero) = negsuc 0
decrement (pos (suc n)) = pos n
decrement (negsuc n) = negsuc (suc n)

-- Whether the slot number is one that the bitmap marks.
unfoldable pub holds_record : Block → ℤ → Bool
unfolding Bitmap.is_set
holds_record b (pos k) = Bitmap.is_set b bitmap_at k
holds_record b (negsuc k) = false

unfoldable pub slot_bytes : RmFileHdr → Block → ℤ → List ℕ
slot_bytes h b (pos k) = slice b (get_slot h k) h.record_size
slot_bytes h b (negsuc k) = []

-- Whether the bytes of a slot are bytes of the page; what lies behind them is not a part of it.
unfoldable pub slot_in_page : RmFileHdr → ℤ → Bool
unfolding get_slot
slot_in_page h (pos k) = leb (get_slot h k + h.record_size) page_size
slot_in_page h (negsuc k) = false

-- `memcpy(page_handle.get_slot(slot_no), buf, file_hdr_.record_size)`, for a slot in the page
unfoldable pub put_slot : RmFileHdr → Block → ℤ → Block → Block
put_slot h b (pos k) buf = copy_to b (get_slot h k) buf h.record_size
put_slot h b (negsuc k) buf = b

pub record RmFile (S : Type 0) : Type 0 where
  pub fd : ℤ
  pub file_hdr : RmFileHdr
  pub pool : Pool S

module _ {S : Type 0} where
  -- A call of the buffer pool.
  abbrev pub pooled : {A : Type 0} → M S A → Step (RmFile S) A
  pooled m t = let (r, s) = m t.pool in (r, record t { pool = s })

  -- The bytes of the page that a handle points to.
  abbrev pub bytes : RmFile S → ℕ → Block
  bytes t f = (t.pool.pages f).content

  -- A write through a handle's pointer; it does not mark the page.
  abbrev pub write_bytes : ℕ → (RmFile S → Block → Block) → Step (RmFile S) (Unit {0})
  write_bytes f g t = (
    ok tt,
    record t { pool = with_page t.pool f (record (t.pool.pages f) { content = g t (bytes t f) }) },
  )

  abbrev pub set_first_free : ℤ → Step (RmFile S) (Unit {0})
  set_first_free n t = (ok tt, record t { file_hdr = record t.file_hdr { first_free_page_no = n } })

  abbrev pub set_next_free : ℕ → ℤ → Step (RmFile S) (Unit {0})
  set_next_free f n = write_bytes f (λ _ b. put_int b next_free_at n)

  abbrev pub page_no_of : RmFile S → ℕ → ℤ
  page_no_of t f = (t.pool.pages f).id.page_no

  -- A frame that may be `nullptr`, and that is followed.
  unfoldable pub deref : {A : Type 0} → Option A → Step (RmFile S) A
  deref none t = (throw undefined_behaviour, t)
  deref (some a) t = (ok a, t)

  unfoldable pub check_page_no : Str → ℤ → Step (RmFile S) (Unit {0})
  check_page_no name (negsuc n) t = (throw (page_not_exist name (negsuc n)), t)
  check_page_no name (pos n) t =
      if ltb n t.file_hdr.num_pages then (ok tt, t) else (throw (page_not_exist name (pos n)), t)

  unfoldable pub file_name : Step (RmFile S) Str
  file_name t = ((get_file_name t.pool.disk t.fd).0, t)
