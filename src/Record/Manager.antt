-- ===== src/Record/Manager.antt =====
-- src/record/rm_manager.h and the constructor of rm_file_handle.h: the files of tables, over the disk manager and the
-- buffer pool. What stands under a path while it is closed is a part of the state: `open` puts it behind the
-- descriptor, with the position at the start, and `close` leaves it there. Descriptors, and the room of a new file,
-- are arguments.
pub mod Header
pub mod Steps
pub mod Creating
pub mod Reopened
use uni_base.Base.{ℕ, ◌||◌, Bool, true, false, ite, ltb, if◌then◌else◌, ℤ, pos, negsuc}
use uni_base.Errors.{
  Str, Str-discrete, Result, ok, throw, invalid_record_size, undefined_behaviour, Step, ◌>>=◌, ◌>>◌,
  pure,
}
use uni_base.Bytes.{get_int, put_int}
use uni_base.Replacer.{Replacer}
use uni_base.Storage.Page.{Block}
use uni_base.Storage.Disk.{DiskManager, File, with_file, write_page, read_page, set_fd2pageno}
use uni_base.Storage.Disk.Files.{FileSystem, path_of}
use uni_base.Storage.Disk.Files
use uni_base.Storage.Pool.{Pool, flush_all_pages}
use uni_base.Record.{RmFileHdr, new_file_hdr, rm_max_record_size}

-- `RmFileHandle`, but for its pointers to the managers.
pub record RmFileHandle : Type 0 where
  pub fd : ℤ
  pub file_hdr : RmFileHdr

-- `sizeof(RmFileHdr)`
abbrev pub hdr_size : ℕ
hdr_size = 20

-- The header as it stands in memory.
unfoldable pub put_hdr : RmFileHdr → Block
put_hdr h =
    put_int
      (put_int
        (put_int (put_int (put_int (λ _. 0) 0 (pos h.record_size)) 4 (pos h.num_pages)) 8
          (pos h.num_records_per_page))
        12 h.first_free_page_no)
      16 (pos h.bitmap_size)

-- A count. No header that the manager writes has a negative one, and the model goes no further with it.
abbrev pub count : ℤ → Result ℕ
count (pos n) = ok n
count (negsuc n) = throw undefined_behaviour

-- What the operating system answers to `create_file`: whether the file is made, its room, and its descriptor.
pub record Created : Type 0 where
  pub made : Bool
  pub room : ℕ
  pub fd : ℤ

abbrev pub empty_file : ℕ → File
empty_file room = record { size = 0; limit = room; position = 0; bytes = λ _. 0 }

pub record Store (S : Type 0) : Type 0 where
  pub pool : Pool S
  pub is_file : Str → Bool
  pub saved : Str → File

module _ {S : Type 0} where
  abbrev pub with_disk : Store S → DiskManager → Store S
  with_disk s d = record s { pool = record s.pool { disk = d } }

  abbrev pub save : Str → File → Step (Store S) (Unit {0})
  save path f s = (ok tt, record s { saved = λ q. ite (Str-discrete path q) f (s.saved q) })

  -- A call of the table of open files.
  abbrev pub filed : {A : Type 0} → Step FileSystem A → Step (Store S) A
  filed m s =
      let (r, u) = m (record { disk = s.pool.disk; is_file = s.is_file }) in
      (r, record (with_disk s u.disk) { is_file = u.is_file })

  abbrev pub load_file : ℤ → Str → Step (Store S) (Unit {0})
  load_file fd path s =
      (ok tt, with_disk s (with_file s.pool.disk fd (record (s.saved path) { position = 0 })))

  -- A closed descriptor has no bytes and no room.
  abbrev pub unload : ℤ → Step (Store S) (Unit {0})
  unload fd s = (ok tt, with_disk s (with_file s.pool.disk fd (empty_file 0)))

  -- `open_file` of the disk manager, with what the descriptor then reads, and `close_file`.
  unfoldable pub attach : ℤ → Str → Step (Store S) ℤ
  unfolding Files.open_file
  attach fd path = do g ← filed (Files.open_file fd path); _ ← load_file g path; pure g

  unfoldable pub detach : ℤ → Step (Store S) (Unit {0})
  unfolding Files.close_file
  detach fd s =
      (filed (Files.close_file fd)
          >> (save (path_of s.pool.disk fd) (s.pool.disk.file fd) >> unload fd))
        s

  -- The write of the header to page 0.
  unfoldable pub write_hdr : ℤ → RmFileHdr → Step (Store S) (Unit {0})
  write_hdr fd h s =
      let (r, d) = write_page s.pool.disk fd (pos 0) (put_hdr h) hdr_size in (r, with_disk s d)

  -- The read of it; what the handle held before is not seen, for a short read throws.
  unfoldable pub read_hdr : ℤ → Step (Store S) RmFileHdr
  read_hdr fd s =
      let (r, b, d) = read_page s.pool.disk fd (pos 0) (λ _. 0) hdr_size in
      ((do
        _ ← λ t. (r, t)
        record_size ← λ t. (count (get_int b 0), t)
        num_pages ← λ t. (count (get_int b 4), t)
        num_records_per_page ← λ t. (count (get_int b 8), t)
        bitmap_size ← λ t. (count (get_int b 16), t)
        pure (record {
          record_size = record_size;
          num_pages = num_pages;
          num_records_per_page = num_records_per_page;
          first_free_page_no = get_int b 12;
          bitmap_size = bitmap_size;
        }))
        (with_disk s d))

  unfoldable pub init_file : Created → Str → ℕ → Step (Store S) (Unit {0})
  init_file os filename n = do
    _ ← filed (Files.create_file os.made filename)
    _ ← save filename (empty_file os.room)
    fd ← attach os.fd filename
    _ ← write_hdr fd (new_file_hdr n)
    detach fd

  unfoldable pub create_file : Created → Str → ℤ → Step (Store S) (Unit {0})
  unfolding init_file
  create_file os filename (negsuc n) s = (throw (invalid_record_size (negsuc n)), s)
  create_file os filename (pos n) s =
      if ltb n 1 || ltb rm_max_record_size n
      then (throw (invalid_record_size (pos n)), s)
      else init_file os filename n s

  unfoldable pub destroy_file : Str → Step (Store S) (Unit {0})
  destroy_file filename = filed (Files.destroy_file filename)

  abbrev pub set_pageno : ℤ → ℤ → Step (Store S) (Unit {0})
  set_pageno fd n s = (ok tt, with_disk s (set_fd2pageno s.pool.disk fd n))

  -- With the constructor of the handle.
  unfoldable pub open_file : ℤ → Str → Step (Store S) RmFileHandle
  unfolding attach read_hdr
  open_file answer filename = do
    fd ← attach answer filename
    h ← read_hdr fd
    _ ← set_pageno fd (pos h.num_pages)
    pure (record { fd = fd; file_hdr = h })

module _ (R : Replacer) where
  open R use {S}

  -- A call of the buffer pool.
  abbrev pub pooled : {A : Type 0} → Step (Pool S) A → Step (Store S) A
  pooled m s = let (r, p) = m s.pool in (r, record s { pool = p })

  unfoldable pub close_file : RmFileHandle → Step (Store S) (Unit {0})
  close_file h = do _ ← write_hdr h.fd h.file_hdr; _ ← pooled (flush_all_pages R h.fd); detach h.fd
