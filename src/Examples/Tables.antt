-- ===== src/Examples/Tables.antt =====
-- A table file with one page of records of four bytes, in the pool.
use uni_base.Base.{
  ℕ, ◌≤◌, ◌≡◌, refl, subst, false, [], ◌∷◌, none, some, arith, pos, ℕ_discrete, ℤ-discrete, lookup,
  ◌+◌, ◌==◌, if◌then◌else◌,
}
use uni_base.Replacer.Lru.{LruReplacer, init}
use uni_base.Replacer.Lru.Laws.{lru}
use uni_base.Storage.Page.{Block, PageId, PageId-discrete}
use uni_base.Storage.Disk.{DiskManager}
use uni_base.Record.{RmFile, new_file_hdr, holds_record, get_slot, slot_bytes}
use uni_base.Record.Handle.{get_record, update_record, delete_record}
use uni_base.Record.Bitmap
use uni_base.Bytes.{slice}
use uni_base.Bytes.Bits.{bit_and, shift_right}
use uni_base.Record.Insert.{insert_record}
use uni_base.Record.Slots.{IsMarkable, IsWithin, new_file_hdr-fits, slot}
use uni_base.Record.Resident.{IsResident, frame, record_at, record_in}
use uni_base.Record.Methods.{rid_of, update_record-IsOutcome}
use uni_base.Record.Reading.{IsReadBack, get_record-update_record, get_record-insert_record}
use uni_base.Errors.{ok}
use uni_base.Record.Rewrites.{IsOutcome}
use uni_base.Record.Scan.{find_first_record, next, rid_at}
use uni_base.Record.NextRecord.{IsNextOf, next-IsNextOf}
use uni_base.Record.Scanning.{IsFound, find_first_record-IsFound}
use uni_base.Record.Iteration.{IsListed, records, scan, scan-IsListed}
use uni_base.Record.Deleting.{delete_record-IsOutcome}
use uni_base.Record.Inserting.{IsInserted, insert_record-IsUpdate}

abbrev disk : DiskManager
disk = record {
  file = λ _. record { size = 0; limit = 40960; position = 0; bytes = λ _. 0 };
  path2fd = ((116 ∷ []), pos 5) ∷ [];
  fd2path = (pos 5, (116 ∷ [])) ∷ [];
  log_fd = pos 0;
  fd2pageno = λ _. pos 2;
}

abbrev page : PageId
page = record { fd = pos 5; page_no = pos 1 }

abbrev pub file_of : Block → RmFile LruReplacer
file_of bytes = record {
  fd = pos 5;
  file_hdr = record (new_file_hdr 4) { num_pages = 2; first_free_page_no = pos 1 };
  pool = record {
    pool_size = 1;
    pages = λ _. record { id = page; content = bytes; is_dirty = false; pin_count = 1 };
    page_table = (page, 0) ∷ [];
    free_list = [];
    disk = disk;
    replacer = init 1;
  };
}

-- The page of the file has no record, or one in its slot 0.
abbrev pub empty_table : RmFile LruReplacer
empty_table = file_of (λ _. 0)

abbrev table : RmFile LruReplacer
table = file_of (λ i. if i == 12 then 128 else 7)

pub file_of-IsResident : (b : Block) → IsResident (file_of b)
unfolding new_file_hdr lookup ℤ-discrete ℕ_discrete PageId-discrete
file_of-IsResident b = record {
  path = 116 ∷ [];
  named = refl;
  markable = omega arith;
  resident = λ n l h.
      let e : 1 ≡ n = omega (arith, l, h) in (0, subst (λ m. frame (file_of b) m ≡ some 0) e refl);
  own = λ p f e. ground arith;
}

new_file_hdr-fits_example :
    let h = new_file_hdr 4 in (1 ≤ h.num_records_per_page) × IsMarkable h × IsWithin h
new_file_hdr-fits_example = new_file_hdr-fits 4 (omega arith) (omega arith)

abbrev buf : ℕ → ℕ
buf i = 65 + i

insert_record-IsUpdate_example : IsInserted empty_table 1 buf (insert_record lru 3 buf empty_table)
unfolding new_file_hdr get_slot record_in slot lookup PageId-discrete ℤ-discrete ℕ_discrete
    holds_record Bitmap.is_set Bitmap.get_bit bit_and shift_right
insert_record-IsUpdate_example =
    insert_record-IsUpdate lru empty_table 1 0 2 buf (file_of-IsResident (λ _. 0)) refl
      (omega arith) (omega arith) (omega arith) (omega arith) refl

table-IsResident : IsResident table
table-IsResident = file_of-IsResident (λ i. if i == 12 then 128 else 7)

get_record-update_record_example :
    (let u = update_record lru (rid_of 1 0) buf table in
      (u.0 ≡ ok tt)
      × ((get_record lru (rid_of 1 1) u.1).0 ≡ (
          if 1 == 0 then ok (65 ∷ 66 ∷ 67 ∷ 68 ∷ []) else (get_record lru (rid_of 1 1) table).0)))
unfolding new_file_hdr get_slot slice record_in slot slot_bytes lookup PageId-discrete ℤ-discrete
    ℕ_discrete holds_record Bitmap.is_set Bitmap.get_bit bit_and shift_right
get_record-update_record_example =
    get_record-update_record lru table 1 1 0 buf (7 ∷ 7 ∷ 7 ∷ 7 ∷ []) table-IsResident (omega arith)
      (omega arith) (omega arith) (omega arith) (omega arith) refl

get_record-insert_record_example :
    IsReadBack lru empty_table 1 buf (insert_record lru 3 buf empty_table)
unfolding new_file_hdr get_slot record_in slot lookup PageId-discrete ℤ-discrete ℕ_discrete
    holds_record Bitmap.is_set Bitmap.get_bit bit_and shift_right
get_record-insert_record_example =
    get_record-insert_record lru empty_table 1 0 2 buf (file_of-IsResident (λ _. 0)) refl
      (omega arith) (omega arith) (omega arith) (omega arith) refl

update_record-IsOutcome_example :
    IsOutcome table 1 0
      (record_at table 1 0)
      (some (65 ∷ 66 ∷ 67 ∷ 68 ∷ []))
      (update_record lru (rid_of 1 0) buf table)
unfolding new_file_hdr get_slot slice
update_record-IsOutcome_example =
    update_record-IsOutcome lru table 1 0 buf table-IsResident (omega arith) (omega arith)
      (omega arith) (omega arith)

delete_record-IsOutcome_example :
    IsOutcome table 1 0 (record_at table 1 0) none (delete_record lru (rid_of 1 0) table)
unfolding new_file_hdr
delete_record-IsOutcome_example =
    delete_record-IsOutcome lru table 1 0 table-IsResident (omega arith) (omega arith) (omega arith)

find_first_record-IsFound_example : IsFound lru table (find_first_record lru table)
unfolding new_file_hdr
find_first_record-IsFound_example =
    find_first_record-IsFound lru table table-IsResident (omega arith)

next-IsNextOf_example : IsNextOf lru table 1 0 (next lru 987 (rid_at 1 0) table)
unfolding new_file_hdr
next-IsNextOf_example =
    next-IsNextOf lru 987 1 0 table table-IsResident (omega arith) (omega arith) (omega arith)
      (omega arith)

scan-IsListed_example : IsListed lru table (records table) (scan lru 2000 2000 table)
unfolding new_file_hdr
scan-IsListed_example =
    scan-IsListed lru 2000 2000 table table-IsResident (omega arith) (omega arith) (omega arith)
