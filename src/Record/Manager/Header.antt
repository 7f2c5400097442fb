-- ===== src/Record/Manager/Header.antt =====
-- The header of a table's file is read back as it was written.
use uni_base.Base.{◌<◌, ◌≡◌, pos, arith}
use uni_base.Bytes.{get_int, put_int, IsInt}
use uni_base.Storage.Page.{Block}
use uni_base.Recovery.Memory.{IsBelow, IsBelow-trans, put_int-IsBelow, read_int}
use uni_base.Record.{RmFileHdr}
use uni_base.Record.Manager.{put_hdr, hdr_size}

-- The numbers of a header are `int`s.
pub record IsHdr (h : RmFileHdr) : Type 0 where
  pub record_size : h.record_size < 2147483648
  pub num_pages : h.num_pages < 2147483648
  pub num_records_per_page : h.num_records_per_page < 2147483648
  pub first_free_page_no : IsInt h.first_free_page_no
  pub bitmap_size : h.bitmap_size < 2147483648

-- What a memory holds of a header.
pub record Holds (b : Block) (h : RmFileHdr) : Type 0 where
  pub record_size : get_int b 0 ≡ pos h.record_size
  pub num_pages : get_int b 4 ≡ pos h.num_pages
  pub num_records_per_page : get_int b 8 ≡ pos h.num_records_per_page
  pub first_free_page_no : get_int b 12 ≡ h.first_free_page_no
  pub bitmap_size : get_int b 16 ≡ pos h.bitmap_size

-- A memory that agrees with the written one on its twenty bytes holds the header.
pub IsBelow-Holds :
    (b : Block) (h : RmFileHdr) → IsHdr h → IsBelow hdr_size b (put_hdr h) → Holds b h
unfolding put_hdr
IsBelow-Holds b h w e =
    let b0 : Block = λ _. 0 in
    let b1 = put_int b0 0 (pos h.record_size) in
    let b2 = put_int b1 4 (pos h.num_pages) in
    let b3 = put_int b2 8 (pos h.num_records_per_page) in
    let b4 = put_int b3 12 h.first_free_page_no in
    let b5 = put_int b4 16 (pos h.bitmap_size) in
    let e4 =
      IsBelow-trans 16 20 b b5 b4 (omega arith) e (put_int-IsBelow b4 16 (pos h.bitmap_size)) in
    let e3 =
      IsBelow-trans 12 16 b b4 b3 (omega arith) e4 (put_int-IsBelow b3 12 h.first_free_page_no) in
    let e2 =
      IsBelow-trans 8 12 b b3 b2 (omega arith) e3
        (put_int-IsBelow b2 8 (pos h.num_records_per_page)) in
    let e1 = IsBelow-trans 4 8 b b2 b1 (omega arith) e2 (put_int-IsBelow b1 4 (pos h.num_pages)) in
    record {
      record_size = read_int b0 b 0 4 (pos h.record_size) w.record_size (omega arith) e1;
      num_pages = read_int b1 b 4 8 (pos h.num_pages) w.num_pages (omega arith) e2;
      num_records_per_page =
          read_int b2 b 8 12 (pos h.num_records_per_page) w.num_records_per_page (omega arith) e3;
      first_free_page_no =
          read_int b3 b 12 16 h.first_free_page_no w.first_free_page_no (omega arith) e4;
      bitmap_size = read_int b4 b 16 20 (pos h.bitmap_size) w.bitmap_size (omega arith) e;
    }
