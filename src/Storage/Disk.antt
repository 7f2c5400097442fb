-- ===== src/Storage/Disk.antt =====
-- src/storage/disk_manager.h and disk_manager.cpp. What the operating system keeps of an open
-- descriptor is a `File`; which paths exist, and which descriptor `open` returns, are arguments.
pub mod PageIo
pub mod Stored
pub mod Files
pub mod OpenFiles
use uni_base.Base.{
  ℕ, zero, suc, ◌+◌, ◌-◌, ◌*◌, ◌%◌, ◌≡◌, List, [], ◌∷◌, Option, none, some, Bool, true, false, ite,
  ℤ, pos, negsuc, minus_one, ℤ-discrete, ltb, ◌==◌, if◌then◌else◌, lookup, insert, ℕ_discrete,
}
use uni_base.Errors.{
  Str, Error, internal_error, unix_error, file_not_open, file_not_closed, file_exists,
  file_not_found, assertion_failed, Result, ok, throw,
}
use uni_base.Storage.Page.{Block, memcpy, page_size}
use Prim.Native.Nat.{min, max}

-- An open file: its length, the length at which the device is full, the position and the bytes.
pub record File : Type 0 where
  pub size : ℕ
  pub limit : ℕ
  pub position : ℕ
  pub bytes : Block

pub record DiskManager : Type 0 where
  pub file : ℤ → File
  pub path2fd : List (Str × ℤ)
  pub fd2path : List (ℤ × Str)
  pub log_fd : ℤ
  pub fd2pageno : ℤ → ℤ

abbrev pub max_fd : ℕ
max_fd = 8192

-- A number of 32 bits, read as two's complement.
unfoldable pub wrap32 : ℕ → ℤ
wrap32 n =
    if ltb (n % 4294967296) 2147483648
    then pos (n % 4294967296)
    else negsuc (4294967295 - n % 4294967296)

-- `page_no * PAGE_SIZE`, computed in `int`.
unfoldable pub page_offset : ℤ → ℤ
unfolding wrap32
page_offset (pos n) = wrap32 (n * page_size)
page_offset (negsuc n) = wrap32 (4294967296 - suc n * page_size % 4294967296)

-- `lseek(fd, offset, SEEK_SET)`: a negative offset is refused and moves nothing.
unfoldable pub lseek : File → ℤ → File
lseek f (pos n) = record f { position = n }
lseek f (negsuc n) = f

-- `write`: what fits below the limit is written at the position. The number written comes back.
unfoldable pub os_write : File → Block → ℕ → ℕ × File
os_write f src n =
    let k = min n (f.limit - f.position) in
    (
      k,
      record f {
        size = max f.size (f.position + k);
        position = f.position + k;
        bytes = λ i.
            if ltb i f.position
            then f.bytes i
            else if ltb i (f.position + k)
            then src (i - f.position)
            else f.bytes i;
      },
    )

-- `read`: what stands between the position and the end, at most `n` bytes, goes to the buffer.
unfoldable pub os_read : File → Block → ℕ → ℕ × Block × File
os_read f buffer n =
    let k = min n (f.size - f.position) in
    (k, memcpy buffer (λ i. f.bytes (f.position + i)) k, record f { position = f.position + k })

abbrev pub with_file : DiskManager → ℤ → File → DiskManager
with_file d fd f = record d { file = λ g. ite (ℤ-discrete fd g) f (d.file g) }

-- `write_page` of a descriptor that is not negative. One that is closed is a file without bytes or room.
unfoldable pub write_open : DiskManager → ℤ → ℤ → Block → ℕ → Result (Unit {0}) × DiskManager
unfolding lseek os_write
write_open d fd page_no src num_bytes =
    let (write_size, f) = os_write (lseek (d.file fd) (page_offset page_no)) src num_bytes in
    (if write_size == num_bytes then ok tt else throw internal_error, with_file d fd f)

-- On a negative descriptor `write` returns -1 and writes nothing.
unfoldable pub write_page : DiskManager → ℤ → ℤ → Block → ℕ → Result (Unit {0}) × DiskManager
unfolding write_open
write_page d (pos n) page_no src num_bytes = write_open d (pos n) page_no src num_bytes
write_page d (negsuc n) page_no src num_bytes = (throw internal_error, d)

-- The buffer is an argument and a result: a short read has filled a part of it.
unfoldable pub read_open : DiskManager → ℤ → ℤ → Block → ℕ → Result (Unit {0}) × Block × DiskManager
unfolding lseek os_read
read_open d fd page_no buffer num_bytes =
    let (read_size, buffer', f) =
      os_read (lseek (d.file fd) (page_offset page_no)) buffer num_bytes in
    (if read_size == num_bytes then ok tt else throw internal_error, buffer', with_file d fd f)

unfoldable pub read_page : DiskManager → ℤ → ℤ → Block → ℕ → Result (Unit {0}) × Block × DiskManager
unfolding read_open
read_page d (pos n) page_no buffer num_bytes = read_open d (pos n) page_no buffer num_bytes
read_page d (negsuc n) page_no buffer num_bytes = (throw internal_error, buffer, d)

abbrev pub fd_in_range : ℤ → Bool
fd_in_range (pos n) = ltb n max_fd
fd_in_range (negsuc n) = false

-- `++` on an atomic `int`, which wraps.
unfoldable pub increment : ℤ → ℤ
unfolding wrap32
increment (pos n) = wrap32 (suc n)
increment (negsuc zero) = pos 0
increment (negsuc (suc n)) = negsuc n

unfoldable pub allocate_page : DiskManager → ℤ → Result ℤ × DiskManager
unfolding increment
allocate_page d fd =
    if fd_in_range fd
    then (
      ok (d.fd2pageno fd),
      record d {
        fd2pageno = λ g. ite (ℤ-discrete fd g) (increment (d.fd2pageno fd)) (d.fd2pageno g);
      },
    )
    else (throw assertion_failed, d)

unfoldable pub set_fd2pageno : DiskManager → ℤ → ℤ → DiskManager
set_fd2pageno d fd start = record d { fd2pageno = λ g. ite (ℤ-discrete fd g) start (d.fd2pageno g) }

unfoldable pub get_fd2pageno : DiskManager → ℤ → ℤ
get_fd2pageno d fd = d.fd2pageno fd

unfoldable pub get_file_name : DiskManager → ℤ → Result Str × DiskManager
get_file_name d fd = elim (lookup ℤ-discrete fd d.fd2path) [
  | none ↦ (throw (file_not_open fd), d)
  | some path ↦ (ok path, d)
]
